-- ===== src/Base/Text.antt =====
-- What the code uses of `strings`, `strconv` and `fmt`, on texts as bytes. Case and white space are
-- those of ASCII.
use my_proxy.Base.{
  ℕ, zero, suc, ◌+◌, ◌-◌, ◌/◌, ◌%◌, ◌≤◌, ◌<◌, ◌≡◌, refl, Bool, true, false, ◌&&◌, ◌||◌, [], ◌∷◌,
  ◌++◌, Bytes, length, ltb, leb, ◌==◌, if◌then◌else◌, Bool-cases, ◌⊎◌, inl, inr, arith,
}

unfoldable pub is_decimal_digit : ℕ → Bool
is_decimal_digit c = leb b'0' c && leb c b'9'

-- `fmt.Sprintf("%d", n)`; one round for each digit.
unfoldable pub decimal_in : ℕ → ℕ → Bytes
decimal_in zero n = []
decimal_in (suc fuel) n = elim (ltb n 10) [
  | true ↦ (b'0' + n) ∷ []
  | false ↦ decimal_in fuel (n / 10) ++ (b'0' + n % 10) ∷ []
]

abbrev pub decimal : ℕ → Bytes
decimal n = decimal_in (suc n) n

-- `strings.HasPrefix(s, prefix)`.
unfoldable pub has_prefix : Bytes → Bytes → Bool
has_prefix s [] = true
has_prefix [] (p ∷ prefix) = false
has_prefix (c ∷ s) (p ∷ prefix) = c == p && has_prefix s prefix

unfoldable pub contains_byte : Bytes → ℕ → Bool
contains_byte [] b = false
contains_byte (c ∷ s) b = c == b || contains_byte s b

-- `strings.ReplaceAll(s, old, new)` of an `old` that is not empty; `skip` bytes belong to a match.
unfoldable pub replace_from : ℕ → Bytes → Bytes → Bytes → Bytes
unfolding has_prefix
replace_from skip old new [] = []
replace_from (suc skip) old new (c ∷ s) = replace_from skip old new s
replace_from zero old new (c ∷ s) =
    let matched = replace_from (length old - 1) old new s in
    let copied = replace_from 0 old new s in
    if has_prefix (c ∷ s) old then new ++ matched else c ∷ copied

abbrev pub replace_all : Bytes → Bytes → Bytes → Bytes
replace_all s old new = replace_from 0 old new s

abbrev pub is_space : ℕ → Bool
is_space c = c == 32 || (leb 9 c && leb c 13)

unfoldable pub trim_left : Bytes → Bytes
trim_left [] = []
trim_left (c ∷ s) = let rest = trim_left s in if is_space c then rest else c ∷ s

unfoldable pub trim_right : Bytes → Bytes
trim_right [] = []
trim_right (c ∷ s) = elim (trim_right s) [
  | [] ↦ if is_space c then [] else c ∷ []
  | d ∷ rest ↦ c ∷ d ∷ rest
]

-- `strings.TrimSpace`.
abbrev pub trim_space : Bytes → Bytes
trim_space s = trim_right (trim_left s)

-- `strings.ToUpper`.
unfoldable pub to_upper : Bytes → Bytes
to_upper [] = []
to_upper (c ∷ s) = (if leb b'a' c && leb c b'z' then c - 32 else c) ∷ to_upper s

-- The digits before the last, and the last.
pub decimal_in-cases :
    (fuel n : ℕ)
    → ((n < 10) × (decimal_in (suc fuel) n ≡ (b'0' + n) ∷ []))
      ⊎ ((10 ≤ n) × (decimal_in (suc fuel) n ≡ decimal_in fuel (n / 10) ++ (b'0' + n % 10) ∷ []))
unfolding decimal_in
decimal_in-cases fuel n = elim (Bool-cases (ltb n 10)) [
  | inl small ↦ inl (ground arith, rw (decimal_in, small) refl)
  | inr large ↦ inr (ground arith, rw (decimal_in, large) refl)
]
