-- ===== src/Replication/Streamer/Unchanged.antt =====
-- The values of an UPDATE that PostgreSQL does not send again.
use mathlib.Core.List.{append_assoc}
use my_proxy.Base.{
  ℕ, ◌+◌, ◌≡◌, refl, sym, ap, ◌∙◌, List, [], ◌∷◌, ◌++◌, Option, none, some, Bytes, length,
  length-append, get_elem?, arith,
}
use my_proxy.Encoder.Columns.{Row}
use my_proxy.Encoder.Value.{Value}
use my_proxy.Replication.Streamer.{
  TupleColumn, Tuple, TableInfo, column_value, decode_columns, decode_tuple_data,
}
use my_proxy.Replication.Streamer.Types.{Scanners}

pub data IsGiven : TupleColumn → Type 0 where
  is_null : IsGiven TupleColumn.null
  is_text : (bytes : Bytes) → IsGiven (TupleColumn.text bytes)
  is_other : (bytes : Bytes) → IsGiven (TupleColumn.other bytes)

-- What is sent of a new tuple, by the old one: a column as it is, or, where it is the old one's,
-- the mark that it has not changed.
pub data Sends : Tuple → Tuple → Tuple → Type 0 where
  no_columns : Sends [] [] []
  same_column :
      (c : TupleColumn) (old new sent : Tuple)
      → IsGiven c
      → Sends old new sent
      → Sends (c ∷ old) (c ∷ new) (TupleColumn.unchanged ∷ sent)
  given_column :
      (o c : TupleColumn) (old new sent : Tuple)
      → IsGiven c
      → Sends old new sent
      → Sends (o ∷ old) (c ∷ new) (c ∷ sent)

get_elem?-append :
    {A : Type 0} (xs : List A) (y : A) (ys : List A) → get_elem? (xs ++ y ∷ ys) (length xs) ≡ some y
get_elem?-append [] y ys = refl
get_elem?-append (x ∷ xs) y ys = get_elem?-append xs y ys

module _ (f : Scanners) (t : TableInfo) where
  column_value_given :
      (fallback : Option Row) (i : ℕ) (c : TupleColumn)
      → IsGiven c
      → column_value f t fallback i c ≡ column_value f t none i c
  column_value_given fallback i _ IsGiven.is_null = refl
  column_value_given fallback i _ (IsGiven.is_text bytes) = refl
  column_value_given fallback i _ (IsGiven.is_other bytes) = refl

  -- The row that a tuple stands in, after one more of its columns.
  next_front :
      (front : Row) (i : ℕ) (v : Option Value) (rest : Row) (sent new : Tuple)
      → decode_columns f t (some ((front ++ v ∷ []) ++ rest)) i sent ≡ decode_columns f t none i new
      → decode_columns f t (some (front ++ v ∷ rest)) i sent ≡ decode_columns f t none i new
  next_front front i v rest sent new h =
      ap (λ row. decode_columns f t (some row) i sent) (sym (append_assoc front (v ∷ []) rest)) ∙ h

  decode_columns-Sends :
      (front : Row) (i : ℕ) (old new sent : Tuple)
      → length front ≡ i
      → Sends old new sent
      → decode_columns f t (some (front ++ decode_columns f t none i old)) i sent
        ≡ decode_columns f t none i new
  unfolding decode_columns
  decode_columns-Sends front i _ _ _ e Sends.no_columns = refl
  decode_columns-Sends front i _ _ _ e (Sends.same_column c old new sent given h) =
      let v = column_value f t none i c in
      let one_more : length (front ++ v ∷ []) ≡ i + 1 =
        omega (arith, e, length-append front (v ∷ [])) in
      let rest = decode_columns f t none (i + 1) old in
      let kept : get_elem? (front ++ v ∷ rest) i ≡ some v =
        ap (get_elem? (front ++ v ∷ rest)) (sym e) ∙ get_elem?-append front v rest in
      ap
        (λ (x : Option (Option Value)).
          (elim x [ none ↦ none | some u ↦ u ])
          ∷ decode_columns f t (some (front ++ v ∷ rest)) (i + 1) sent)
        kept
      ∙ ap (◌∷◌ v) (
          next_front front (i + 1) v rest sent new
            (decode_columns-Sends (front ++ v ∷ []) (i + 1) old new sent one_more h))
  decode_columns-Sends front i _ _ _ e (Sends.given_column o c old new sent given h) =
      let v = column_value f t none i o in
      let one_more : length (front ++ v ∷ []) ≡ i + 1 =
        omega (arith, e, length-append front (v ∷ [])) in
      let rest = decode_columns f t none (i + 1) old in
      ap (λ u. u ∷ decode_columns f t (some (front ++ v ∷ rest)) (i + 1) sent)
        (column_value_given (some (front ++ v ∷ rest)) i c given)
      ∙ ap (◌∷◌ (column_value f t none i c)) (
          next_front front (i + 1) v rest sent new
            (decode_columns-Sends (front ++ v ∷ []) (i + 1) old new sent one_more h))

  -- An UPDATE in which PostgreSQL marks columns that have not changed: where the old tuple comes with
  -- it, decoding what is sent gives the row that the whole new tuple gives.
  pub decode_tuple_data-unchanged :
      (old new sent : Tuple)
      → Sends old new sent
      → decode_tuple_data f t (some sent) (decode_tuple_data f t (some old) none)
        ≡ decode_tuple_data f t (some new) none
  unfolding decode_tuple_data
  decode_tuple_data-unchanged old new sent h =
      ap some (decode_columns-Sends [] 0 old new sent refl h)
