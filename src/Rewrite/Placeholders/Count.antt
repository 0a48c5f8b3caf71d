-- ===== src/Rewrite/Placeholders/Count.antt =====
-- What `RewritePrepared` counts in a text that was converted.
use mathlib.Core.List.{append_assoc}
use my_proxy.Base.{
  ℕ, zero, suc, ◌+◌, ◌-◌, ◌*◌, ◌/◌, ◌%◌, ◌^◌, ◌<◌, ◌≡◌, refl, ap, ◌∙◌, Bool, true, false, not, ◌&&◌,
  [], ◌∷◌, ◌++◌, Option, none, Bytes, ◌==◌, if◌then◌else◌, Bool-cases, inl, inr, arith, length,
}
use my_proxy.Base.Text.{is_decimal_digit, decimal, decimal_in, decimal_in-cases, contains_byte}
use my_proxy.Rewrite.Placeholders.{
  placeholder, convert_placeholders, number_at, starts_with_digit, greater, count_params,
}
use my_proxy.Rewrite.Placeholders.Toggle.{
  toggle, is_outside, number_marks, convert_placeholders-number_marks,
}

-- The number of marks outside literals.
unfoldable pub marks : Option ℕ → Bytes → ℕ
marks quote [] = 0
marks quote (c ∷ sql) =
    let rest = marks (toggle quote c) sql in
    if is_outside quote && c == b'?' then 1 + marks quote sql else rest

-- No mark outside literals has a digit right behind it.
unfoldable pub separated : Option ℕ → Bytes → Bool
separated quote [] = true
separated quote (c ∷ sql) =
    let rest = separated (toggle quote c) sql in
    if is_outside quote && c == b'?'
    then not (starts_with_digit sql) && separated quote sql
    else rest

number_at_digit :
    (num d : ℕ) (s : Bytes)
    → d < 10
    → num * 10 + d < 2 ^ 64
    → number_at num ((b'0' + d) ∷ s) ≡ number_at (num * 10 + d) s
unfolding number_at is_decimal_digit
number_at_digit num d s h k =
    let digit : is_decimal_digit (b'0' + d) ≡ true = ground arith in
    let value : (num * 10 + (b'0' + d - b'0')) % 2 ^ 64 ≡ num * 10 + d = omega arith in
    rw digit (ap (λ t. number_at t s) value)

number_at-decimal_in :
    (fuel n : ℕ) (s : Bytes)
    → n < fuel
    → n < 2 ^ 63
    → number_at 0 (decimal_in fuel n ++ s) ≡ number_at n s
number_at-decimal_in zero n s h k = absurd (omega arith)
number_at-decimal_in (suc fuel) n s h k = elim (decimal_in-cases fuel n) [
  | inl (small, e) ↦
      ap (λ t. number_at 0 (t ++ s)) e
      ∙ number_at_digit 0 n s small (omega arith)
      ∙ ap (λ t. number_at t s) (omega arith)
  | inr (large, e) ↦
      ap (λ t. number_at 0 (t ++ s)) e
      ∙ ap (number_at 0) (append_assoc (decimal_in fuel (n / 10)) ((b'0' + n % 10) ∷ []) s)
      ∙ number_at-decimal_in fuel (n / 10) ((b'0' + n % 10) ∷ s) (omega arith) (omega arith)
      ∙ number_at_digit (n / 10) (n % 10) s (omega arith) (omega arith)
      ∙ ap (λ t. number_at t s) (omega arith)
]

number_at_stop : (num : ℕ) (s : Bytes) → starts_with_digit s ≡ false → number_at num s ≡ num
unfolding number_at
number_at_stop num [] h = refl
number_at_stop num (c ∷ s) h = rw h refl

count_params_copied :
    (count c : ℕ) (s : Bytes)
    → (c == b'$') ≡ false
    → count_params count (c ∷ s) ≡ count_params count s
unfolding count_params
count_params_copied count c s h = rw h refl

count_params-decimal_in :
    (fuel n count : ℕ) (s : Bytes)
    → count_params count (decimal_in fuel n ++ s) ≡ count_params count s
unfolding decimal_in
count_params-decimal_in zero n count s = refl
count_params-decimal_in (suc fuel) n count s = elim (decimal_in-cases fuel n) [
  | inl (small, e) ↦
      ap (λ t. count_params count (t ++ s)) e
      ∙ count_params_copied count (b'0' + n) s (ground arith)
  | inr (large, e) ↦
      ap (λ t. count_params count (t ++ s)) e
      ∙ ap (count_params count) (append_assoc (decimal_in fuel (n / 10)) ((b'0' + n % 10) ∷ []) s)
      ∙ count_params-decimal_in fuel (n / 10) count ((b'0' + n % 10) ∷ s)
      ∙ count_params_copied count (b'0' + n % 10) s (ground arith)
]

starts_with_digit-decimal_in :
    (fuel n : ℕ) (s : Bytes) → n < fuel → starts_with_digit (decimal_in fuel n ++ s) ≡ true
unfolding is_decimal_digit
starts_with_digit-decimal_in zero n s h = absurd (omega arith)
starts_with_digit-decimal_in (suc fuel) n s h = elim (decimal_in-cases fuel n) [
  | inl (small, e) ↦ ap (λ t. starts_with_digit (t ++ s)) e ∙ ground arith
  | inr (large, e) ↦
      ap (λ t. starts_with_digit (t ++ s)) e
      ∙ ap starts_with_digit (append_assoc (decimal_in fuel (n / 10)) ((b'0' + n % 10) ∷ []) s)
      ∙ starts_with_digit-decimal_in fuel (n / 10) _ (omega arith)
]

count_params-placeholder :
    (count : ℕ) (s : Bytes)
    → starts_with_digit s ≡ false
    → count + 1 < 2 ^ 63
    → count_params count (placeholder (count + 1) ++ s) ≡ count_params (count + 1) s
unfolding count_params
count_params-placeholder count s h k =
    let m = count + 1 in
    let value : number_at 0 (decimal m ++ s) ≡ m =
      number_at-decimal_in (suc m) m s (omega arith) k ∙ number_at_stop m s h in
    let chosen : greater m count ≡ m = ground arith in
    rw (starts_with_digit-decimal_in (suc m) m s (omega arith)) (
      ap (λ t. count_params (greater t count) (decimal m ++ s)) value
      ∙ ap (λ t. count_params t (decimal m ++ s)) chosen
      ∙ count_params-decimal_in (suc m) m m s)

starts_with_digit-number_marks :
    (n : ℕ) (quote : Option ℕ) (sql : Bytes)
    → starts_with_digit sql ≡ false
    → starts_with_digit (number_marks n quote sql) ≡ false
unfolding number_marks is_decimal_digit
starts_with_digit-number_marks n quote [] h = refl
starts_with_digit-number_marks n quote (c ∷ sql) h =
    elim (Bool-cases (is_outside quote && c == b'?')) [
      | inl mark ↦ rw (number_marks, mark) refl
      | inr copy ↦ rw (number_marks, copy) h
    ]

-- Behind a mark, and behind a byte that is copied.
count_step :
    (n : ℕ) (quote : Option ℕ) (c : ℕ) (sql : Bytes) (test : Bool)
    → (is_outside quote && c == b'?') ≡ test
    → (c == b'$') ≡ false
    → (test ≡ true → starts_with_digit sql ≡ false)
    → n + 1 < 2 ^ 63
    → count_params n (number_marks n quote (c ∷ sql)) ≡ (
        if test
        then count_params (n + 1) (number_marks (n + 1) quote sql)
        else count_params n (number_marks n (toggle quote c) sql))
unfolding number_marks
count_step n quote c sql true e h k small = rw e (
    count_params-placeholder n (number_marks (n + 1) quote sql)
      (starts_with_digit-number_marks (n + 1) quote sql (k refl)) small)
count_step n quote c sql false e h k small =
    rw e (count_params_copied n c (number_marks n (toggle quote c) sql) h)

count_params-number_marks :
    (n : ℕ) (quote : Option ℕ) (sql : Bytes)
    → contains_byte sql b'$' ≡ false
    → separated quote sql ≡ true
    → n + length sql < 2 ^ 63
    → count_params n (number_marks n quote sql) ≡ n + marks quote sql
unfolding number_marks marks separated contains_byte count_params
count_params-number_marks n quote [] h k small = omega arith
count_params-number_marks n quote (c ∷ sql) h k small =
    elim (Bool-cases (is_outside quote && c == b'?')) [
      | inl mark ↦
          count_step n quote c sql true mark (ground arith) (λ e. ground arith) (omega arith)
          ∙ count_params-number_marks (n + 1) quote sql (ground arith) (ground arith) (omega arith)
          ∙ rw mark (omega arith)
      | inr copy ↦
          count_step n quote c sql false copy (ground arith) (λ e. absurd (ground arith))
            (omega arith)
          ∙ count_params-number_marks n (toggle quote c) sql (ground arith) (ground arith)
              (omega arith)
          ∙ rw copy refl
    ]

-- In a statement with no dollar sign, in which no mark outside literals has a digit right behind
-- it, `RewritePrepared` counts in the converted text the marks that stand outside literals.
pub count_params-convert_placeholders :
    (sql : Bytes)
    → contains_byte sql b'$' ≡ false
    → separated none sql ≡ true
    → length sql < 2 ^ 63
    → count_params 0 (convert_placeholders sql) ≡ marks none sql
count_params-convert_placeholders sql h k small =
    ap (count_params 0) (convert_placeholders-number_marks sql)
    ∙ count_params-number_marks 0 none sql h k (omega arith)
    ∙ omega arith
