-- ===== src/Handler/Names/Plain.antt =====
-- The name of the table that is cut out of an INSERT.
use my_proxy.Base.{
  ℕ, suc, ◌-◌, ◌≡◌, refl, sym, ap, ◌∙◌, Bool, false, ◌&&◌, inl, inr, [], ◌∷◌, ◌++◌, some, Bytes,
  codes, length, drop, ltb, leb, All, if◌then◌else◌, arith, Bool-cases, drop-append, length-append,
}
use my_proxy.Base.Text.{
  has_prefix, is_space, trim_left, trim_right, trim_space, to_upper, contains_byte,
}
use my_proxy.Base.Search.{index, split_words, flush, fields, trim_left_func, trim_right_func, trim}
use my_proxy.Handler.Names.{
  quote_marks, first_trimmed, first_name, name_behind_insert, extract_insert_table_name,
}

-- A byte that no step of the code cuts at or off: neither white space nor a quote.
pub record IsPlain (c : ℕ) : Type 0 where
  pub solid : is_space c ≡ false
  pub unquoted : contains_byte quote_marks c ≡ false

-- What may stand behind the name: nothing, or a space and any text.
abbrev Behind : Bytes → Type 0
Behind [] = Unit
Behind (c ∷ t) = c ≡ 32

trim_right-func : (s : Bytes) → trim_right s ≡ trim_right_func is_space s
unfolding trim_right trim_right_func
trim_right-func [] = refl
trim_right-func (c ∷ s) = rw (trim_right-func s) refl

trim_right_func_kept :
    (cut : ℕ → Bool) (c : ℕ) (s : Bytes)
    → cut c ≡ false
    → trim_right_func cut (c ∷ s) ≡ c ∷ trim_right_func cut s
unfolding trim_right_func
trim_right_func_kept cut c s e = go (trim_right_func cut s)
  where
    go :
        (r : Bytes)
        → (elim r [ [] ↦ if cut c then [] else c ∷ [] | d ∷ rest ↦ c ∷ d ∷ rest ]) ≡ c ∷ r
    go [] = rw e refl
    go (d ∷ rest) = refl

-- A trim at the right does not reach a name.
trim_right_func-append :
    (cut : ℕ → Bool) (name rest : Bytes)
    → All (λ c. cut c ≡ false) name
    → trim_right_func cut (name ++ rest) ≡ name ++ trim_right_func cut rest
trim_right_func-append cut [] rest solid = refl
trim_right_func-append cut (c ∷ name) rest (one, solid) =
    trim_right_func_kept cut c (name ++ rest) one
    ∙ ap (◌∷◌ c) (trim_right_func-append cut name rest solid)

trim_right_func-Behind :
    (cut : ℕ → Bool) (rest : Bytes) → Behind rest → Behind (trim_right_func cut rest)
unfolding trim_right_func
trim_right_func-Behind cut [] b = tt
trim_right_func-Behind cut (c ∷ s) e = go (trim_right_func cut s)
  where
    go :
        (r : Bytes)
        → Behind (elim r [ [] ↦ if cut c then [] else c ∷ [] | d ∷ rest ↦ c ∷ d ∷ rest ])
    go [] = elim (Bool-cases (cut c)) [ inl p ↦ rw p tt | inr p ↦ rw p e ]
    go (d ∷ rest) = e

split_words-append :
    (name rest : Bytes)
    → All IsPlain name
    → Behind rest
    → (split_words is_space (name ++ rest)).0 ≡ name
unfolding split_words
split_words-append [] [] plain b = refl
split_words-append [] (c ∷ t) plain e = rw e refl
split_words-append (c ∷ name) rest (one, plain) b =
    rw one.solid (ap (◌∷◌ c) (split_words-append name rest plain b))

All-solid : (name : Bytes) → All IsPlain name → All (λ c. is_space c ≡ false) name
All-solid [] plain = tt
All-solid (c ∷ name) (one, plain) = (one.solid, All-solid name plain)

All-unquoted :
    (name : Bytes) → All IsPlain name → All (λ c. contains_byte quote_marks c ≡ false) name
All-unquoted [] plain = tt
All-unquoted (c ∷ name) (one, plain) = (one.unquoted, All-unquoted name plain)

append-nil : (s : Bytes) → s ++ [] ≡ s
append-nil [] = refl
append-nil (c ∷ s) = ap (◌∷◌ c) (append-nil s)

-- A trim by a set that has no byte of a name, of the name and what stands behind.
trim-name :
    (cut : ℕ → Bool) (c : ℕ) (name rest : Bytes)
    → All (λ d. cut d ≡ false) (c ∷ name)
    → trim_right_func cut (trim_left_func cut (c ∷ (name ++ rest)))
      ≡ c ∷ (name ++ trim_right_func cut rest)
unfolding trim_left_func
trim-name cut c name rest (one, more) =
    rw one (trim_right_func-append cut (c ∷ name) rest (one, more))

first_name-plain :
    (c : ℕ) (name rest : Bytes)
    → All IsPlain (c ∷ name)
    → Behind rest
    → first_name (c ∷ (name ++ rest)) ≡ c ∷ name
unfolding first_name trim_right_func
first_name-plain c name rest plain b =
    let cut = contains_byte quote_marks in
    let solid = All-unquoted (c ∷ name) plain in
    let cut_rest = trim_right_func cut rest in
    let words = split_words is_space (c ∷ (name ++ cut_rest)) in
    ap (λ t. first_trimmed quote_marks (fields t)) (trim-name cut c name rest solid)
    ∙ ap (λ w. first_trimmed quote_marks (flush w words.1))
        (split_words-append (c ∷ name) cut_rest plain (trim_right_func-Behind cut rest b))
    ∙ ap (λ t. trim t quote_marks) (sym (append-nil (c ∷ name)))
    ∙ trim-name cut c name [] solid
    ∙ append-nil (c ∷ name)

trim_space-plain :
    (c : ℕ) (name rest : Bytes)
    → All IsPlain (c ∷ name)
    → trim_space (c ∷ (name ++ rest)) ≡ c ∷ (name ++ trim_right_func is_space rest)
unfolding trim_left
trim_space-plain c name rest (one, plain) = rw one.solid (
    trim_right-func (c ∷ (name ++ rest))
    ∙ trim_right_func-append is_space (c ∷ name) rest (one.solid, All-solid name plain))

to_upper-append : (s t : Bytes) → to_upper (s ++ t) ≡ to_upper s ++ to_upper t
unfolding to_upper
to_upper-append [] t = refl
to_upper-append (c ∷ s) t =
    ap (◌∷◌ (if leb b'a' c && leb c b'z' then c - 32 else c)) (to_upper-append s t)

pub length-to_upper : (s : Bytes) → length (to_upper s) ≡ length s
unfolding to_upper
length-to_upper [] = refl
length-to_upper (c ∷ s) = ap suc (length-to_upper s)

index-keyword :
    (keyword rest : Bytes)
    → to_upper keyword ≡ codes "INSERT INTO "
    → index (to_upper (keyword ++ rest)) (codes "INSERT INTO") ≡ some 0
unfolding index has_prefix
index-keyword keyword rest e =
    ap (λ s. index s (codes "INSERT INTO"))
      (to_upper-append keyword rest ∙ ap (λ s. s ++ to_upper rest) e)

-- An INSERT INTO, in any case of its letters, then one space and a name of bytes that are neither
-- white space nor quotes, then a space and any text: the name is what is cut out, and there is no
-- panic.
pub extract_insert_table_name-plain :
    (keyword : Bytes) (c : ℕ) (name rest : Bytes)
    → to_upper keyword ≡ codes "INSERT INTO "
    → All IsPlain (c ∷ name)
    → extract_insert_table_name (keyword ++ (c ∷ (name ++ 32 ∷ rest))) ≡ some (c ∷ name)
unfolding extract_insert_table_name
extract_insert_table_name-plain keyword c name rest e plain =
    let size : length keyword ≡ 12 = sym (length-to_upper keyword) ∙ ap length e in
    let text = c ∷ (name ++ 32 ∷ rest) in
    let long : ltb (length (keyword ++ text)) 12 ≡ false =
      ground (arith, length-append keyword text) in
    let behind : drop 12 (keyword ++ text) ≡ text =
      ap (λ n. drop n (keyword ++ text)) (sym size) ∙ drop-append keyword text in
    ap (name_behind_insert (keyword ++ text)) (index-keyword keyword text e)
    ∙ rw (long, behind)
        (ap (λ t. some (first_name t)) (trim_space-plain c name (32 ∷ rest) plain)
          ∙ ap some (
              first_name-plain c name (trim_right_func is_space (32 ∷ rest)) plain
                (trim_right_func-Behind is_space (32 ∷ rest) refl)))
