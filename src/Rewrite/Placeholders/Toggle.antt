-- ===== src/Rewrite/Placeholders/Toggle.antt =====
-- A description of the conversion with no lookahead: a quote outside a literal opens one, the same
-- quote closes it, and every mark outside the literals gets the next number.
use my_proxy.Base.{
  ℕ, ◌+◌, ◌≡◌, refl, sym, ap, ◌∙◌, Bool, true, false, ◌&&◌, [], ◌∷◌, ◌++◌, Option, none, some,
  Bytes, ◌==◌, ==_iff, if◌then◌else◌, Bool-cases, inl, inr, arith,
}
use my_proxy.Base.Text.{contains_byte}
use my_proxy.Rewrite.Placeholders.{is_quote, placeholder, convert, convert_placeholders}

-- The state behind a byte.
abbrev pub toggle : Option ℕ → ℕ → Option ℕ
toggle none c = if is_quote c then some c else none
toggle (some q) c = if c == q then none else some q

abbrev pub is_outside : Option ℕ → Bool
is_outside none = true
is_outside (some q) = false

unfoldable pub number_marks : ℕ → Option ℕ → Bytes → Bytes
number_marks n quote [] = []
number_marks n quote (c ∷ sql) =
    let marked = number_marks (n + 1) quote sql in
    let copied = number_marks n (toggle quote c) sql in
    if is_outside quote && c == b'?' then placeholder (n + 1) ++ marked else c ∷ copied

-- A literal's quote is one of the two.
abbrev IsQuoted : Option ℕ → Type 0
IsQuoted none = Unit
IsQuoted (some q) = is_quote q ≡ true

number_marks_open :
    (n d : ℕ) (sql : Bytes)
    → is_quote d ≡ true
    → number_marks n none (d ∷ sql) ≡ d ∷ number_marks n (some d) sql
unfolding number_marks
number_marks_open n d sql h = ground arith

number_marks_close :
    (n q c : ℕ) (sql : Bytes)
    → (c == q) ≡ true
    → number_marks n (some q) (c ∷ sql) ≡ c ∷ number_marks n none sql
unfolding number_marks
number_marks_close n q c sql h = rw h refl

number_marks_copied :
    (n q c : ℕ) (sql : Bytes)
    → (c == q) ≡ false
    → number_marks n (some q) (c ∷ sql) ≡ c ∷ number_marks n (some q) sql
unfolding number_marks
number_marks_copied n q c sql h = rw h refl

convert_escaped :
    (n q c d : ℕ) (sql : Bytes)
    → (c == q) ≡ true
    → (d == q) ≡ true
    → convert n (some q) (c ∷ d ∷ sql) ≡ c ∷ c ∷ convert n (some q) sql
unfolding convert
convert_escaped n q c d sql h k = rw (h, k) refl

convert_closed :
    (n q c d : ℕ) (sql : Bytes)
    → (c == q) ≡ true
    → (d == q) ≡ false
    → convert n (some q) (c ∷ d ∷ sql) ≡ c ∷ convert n none (d ∷ sql)
unfolding convert
convert_closed n q c d sql h k = rw (h, k) refl

convert_copied :
    (n q c d : ℕ) (sql : Bytes)
    → (c == q) ≡ false
    → convert n (some q) (c ∷ d ∷ sql) ≡ c ∷ convert n (some q) (d ∷ sql)
unfolding convert
convert_copied n q c d sql h = rw h refl

number_marks_none :
    (n : ℕ) (quote : Option ℕ) (sql : Bytes)
    → contains_byte sql b'?' ≡ false
    → number_marks n quote sql ≡ sql
unfolding number_marks contains_byte
number_marks_none n quote [] h = refl
number_marks_none n quote (c ∷ sql) h = ground (arith, number_marks_none n (toggle quote c) sql)

convert-number_marks :
    (n : ℕ) (quote : Option ℕ) (sql : Bytes)
    → IsQuoted quote
    → convert n quote sql ≡ number_marks n quote sql
unfolding convert number_marks
convert-number_marks n none [] h = refl
convert-number_marks n (some q) [] h = refl
convert-number_marks n none (c ∷ sql) h = ground (
  arith,
  convert-number_marks n (some c) sql,
  convert-number_marks (n + 1) none sql,
  convert-number_marks n none sql,
)
convert-number_marks n (some q) (c ∷ []) h = ground arith
convert-number_marks n (some q) (c ∷ d ∷ sql) h = elim (Bool-cases (c == q)) [
  | inl close ↦ elim (Bool-cases (d == q)) [
    | inl again ↦
        let c_is : c ≡ q = (==_iff c q).0 close in
        let d_is : d ≡ q = (==_iff d q).0 again in
        convert_escaped n q c d sql close again
        ∙ ap (λ t. c ∷ c ∷ t) (convert-number_marks n (some q) sql h)
        ∙ ap (λ t. c ∷ t ∷ number_marks n (some q) sql) (c_is ∙ sym d_is)
        ∙ ap (λ t. c ∷ d ∷ number_marks n (some t) sql) (sym d_is)
        ∙ ap (◌∷◌ c) (sym (number_marks_open n d sql (ap is_quote d_is ∙ h)))
        ∙ sym (number_marks_close n q c (d ∷ sql) close)
    | inr other ↦
        convert_closed n q c d sql close other
        ∙ ap (◌∷◌ c) (convert-number_marks n none (d ∷ sql) tt)
        ∙ sym (number_marks_close n q c (d ∷ sql) close)
  ]
  | inr copy ↦
      convert_copied n q c d sql copy
      ∙ ap (◌∷◌ c) (convert-number_marks n (some q) (d ∷ sql) h)
      ∙ sym (number_marks_copied n q c (d ∷ sql) copy)
]

-- The conversion is the description: each mark outside the literals becomes the next number, from
-- 1 on, every other byte is copied, and a doubled quote in a literal is a close and an open. The
-- test for a mark at the start changes nothing.
pub convert_placeholders-number_marks :
    (sql : Bytes) → convert_placeholders sql ≡ number_marks 0 none sql
unfolding convert_placeholders
convert_placeholders-number_marks sql = elim (Bool-cases (contains_byte sql b'?')) [
  | inl some_mark ↦ rw some_mark (convert-number_marks 0 none sql tt)
  | inr no_mark ↦ rw no_mark (sym (number_marks_none 0 none sql no_mark))
]
