-- ===== src/Encoder/Columns/Rows.antt =====
-- The rows of a rows event: the null bitmap of a row, and the values behind it.
use my_proxy.Base.{
  ℕ, zero, ◌+◌, ◌*◌, ◌/◌, ◌≤◌, ◌≡◌, refl, sym, ap, ◌∙◌, Bool, true, false, ◌||◌, [], ◌∷◌, ◌++◌,
  none, some, Bytes, All, length, get_or, replicate, length-replicate, ◌==◌, arith,
}
use mathlib.Core.List.{append-nil, append_assoc}
use my_proxy.Encoder.Columns.{Formats, Row, TableMap, type_at, encode_value, encode_row}
use my_proxy.Encoder.Columns.Bitmap.{
  bit_at, IsByte, or_at-Marked, replicate-IsByte, bit_at-replicate,
}

-- Whether column `j` of a row that starts at column `i` is there and is null.
unfoldable pub is_null : ℕ → Row → ℕ → Bool
is_null i [] j = false
is_null i (none ∷ row) j = (j == i) || is_null (i + 1) row j
is_null i (some v ∷ row) j = is_null (i + 1) row j

-- The values of a row that starts at column `i`, each encoded by its column's type.
unfoldable pub values_of : Formats → TableMap → ℕ → Row → Bytes
values_of f t i [] = []
values_of f t i (none ∷ row) = values_of f t (i + 1) row
values_of f t i (some v ∷ row) =
    encode_value f v (type_at t i) (get_or t.column_meta i 0) ++ values_of f t (i + 1) row

-- What the loop over a row makes of a bitmap.
pub record Encoded (i : ℕ) (row : Row) (before after : Bytes) : Type 0 where
  pub same_length : length after ≡ length before
  pub bits : (j : ℕ) → bit_at j after ≡ (is_null i row j || bit_at j before)

step_bits : (a b c d e : Bool) → e ≡ (b || d) → d ≡ (a || c) → e ≡ ((a || b) || c)
step_bits true true c d e p q = ground arith
step_bits true false c d e p q = ground arith
step_bits false b c d e p q = p ∙ ap (λ t. b || t) q

encode_row-Encoded :
    (f : Formats) (t : TableMap) (i : ℕ) (row : Row) (bitmap values : Bytes)
    → All IsByte bitmap
    → i + length row ≤ 8 * length bitmap
    → (after : Bytes) × (encode_row f t i row bitmap values
        ≡ some (after, values ++ values_of f t i row))
      × Encoded i row bitmap after
unfolding encode_row is_null values_of
encode_row-Encoded f t i [] bitmap values bytes h = (
  bitmap,
  ap (λ u. some (bitmap, u)) (sym (append-nil values)),
  record { same_length = refl; bits = λ j. refl },
)
encode_row-Encoded f t i (none ∷ row) bitmap values bytes h =
    let (marked, found, m) = or_at-Marked i bitmap bytes (omega arith) in
    let (after, same, e) =
      encode_row-Encoded f t (i + 1) row marked values m.bytes (omega (arith, m.same_length)) in
    (
      after,
      rw (encode_row, found) same,
      record {
        same_length = e.same_length ∙ m.same_length;
        bits = λ j.
            step_bits (j == i) (is_null (i + 1) row j) (bit_at j bitmap) _ _ (e.bits j) (m.bits j);
      },
    )
encode_row-Encoded f t i (some v ∷ row) bitmap values bytes h =
    let value = encode_value f v (type_at t i) (get_or t.column_meta i 0) in
    let (after, same, e) =
      encode_row-Encoded f t (i + 1) row bitmap (values ++ value) bytes (omega arith) in
    (
      after,
      same ∙ ap (λ u. some (after, u)) (append_assoc values value _),
      record { same_length = e.same_length; bits = e.bits },
    )

-- A row of at most `column_count` values is encoded: its bitmap has one bit for each column, set
-- exactly for the columns whose value is null, and the encodings of the other values follow in
-- the order of the columns.
pub encode_row-bitmap :
    (f : Formats) (t : TableMap) (column_count : ℕ) (row : Row)
    → length row ≤ column_count
    → (bitmap : Bytes) × (encode_row f t 0 row (replicate ((column_count + 7) / 8) 0) []
        ≡ some (bitmap, values_of f t 0 row))
      × (length bitmap ≡ (column_count + 7) / 8)
      × ((j : ℕ) → bit_at j bitmap ≡ is_null 0 row j)
encode_row-bitmap f t column_count row h =
    let n = (column_count + 7) / 8 in
    let (bitmap, same, e) =
      encode_row-Encoded f t 0 row (replicate n 0) [] (replicate-IsByte n)
        (omega (arith, length-replicate n (zero))) in
    (
      bitmap,
      same,
      e.same_length ∙ length-replicate n 0,
      λ j.
          e.bits j
          ∙ ap (λ b. is_null 0 row j || b) (bit_at-replicate j n)
          ∙ or_false (is_null 0 row j),
    )
  where
    or_false : (b : Bool) → (b || false) ≡ b
    or_false true = refl
    or_false false = refl
