-- ===== src/Encoder/Decimal/Groups.antt =====
-- The groups of digits of an encoding, their sizes and their numbers.
use native.Mathlib.Nat.{pow-suc}
use my_proxy.Base.{
  ℕ, zero, suc, ◌+◌, ◌-◌, ◌*◌, ◌/◌, ◌^◌, ◌≤◌, ◌<◌, ◌≡◌, ap, true, List, [], ◌∷◌, ◌++◌, Bytes, All,
  length, take, drop, length-take-le, arith, Bool-cases, inl, inr,
}
use my_proxy.Encoder.Decimal.{
  all_digits, is_digit, digits_value, parse_uint, Layout, Group, full_groups, partial_group,
  groups_of, compressed_bytes,
}

scaled_le : (a b p : ℕ) → a ≤ b → a * p ≤ b * p
scaled_le a b p h = grind arith

digits_value-lt :
    (acc : ℕ) (s : Bytes) → all_digits s ≡ true → digits_value acc s < (acc + 1) * 10 ^ length s
unfolding all_digits digits_value is_digit
digits_value-lt acc [] h = omega arith
digits_value-lt acc (c ∷ cs) h =
    let d = c - b'0' in
    let digit : d < 10 = ground arith in
    let rest = digits_value-lt (acc * 10 + d) cs (ground arith) in
    let room = scaled_le (acc * 10 + d + 1) ((acc + 1) * 10) (10 ^ length cs) (omega arith) in
    omega (
      arith,
      rest,
      room,
      pow-suc 10 (length cs),
      ap (λ (t : ℕ). (acc + 1) * t) (pow-suc 10 (length cs)),
    )

pow_le : (n k : ℕ) → n ≤ k → 10 ^ n ≤ 10 ^ k
pow_le zero zero h = omega arith
pow_le zero (suc k) h = omega (arith, pow_le zero k (omega arith), pow-suc 10 k)
pow_le (suc n) zero h = absurd (omega arith)
pow_le (suc n) (suc k) h = omega (arith, pow_le n k (omega arith), pow-suc 10 n, pow-suc 10 k)

parse_uint-lt : (k : ℕ) (s : Bytes) → length s ≤ k → parse_uint s < 10 ^ k
unfolding parse_uint
parse_uint-lt k s h = elim (Bool-cases (all_digits s)) [
  | inl digits ↦ rw digits (omega (arith, digits_value-lt 0 s digits, pow_le (length s) k h))
  | inr other ↦ rw other (omega (arith, pow_le 0 k (omega arith)))
]

-- A group of one to four bytes whose number leaves the top bit free.
pub record IsGroup (g : Group) : Type 0 where
  pub positive : 0 < g.size
  pub small : g.size ≤ 4
  pub free : parse_uint g.digits * 2 < 256 ^ g.size

full-IsGroup : (s : Bytes) → IsGroup (record { size = 4; digits = take 9 s })
full-IsGroup s = record {
  positive = omega arith;
  small = omega arith;
  free = omega (arith, parse_uint-lt 9 (take 9 s) (length-take-le 9 s));
}

full_groups-All : (n : ℕ) (s : Bytes) → All IsGroup (full_groups n s)
unfolding full_groups
full_groups-All zero s = tt
full_groups-All (suc n) s = (full-IsGroup s, full_groups-All n (drop 9 s))

partial_free :
    (n : ℕ) (s : Bytes)
    → 0 < compressed_bytes n
    → compressed_bytes n ≤ 4
    → 10 ^ n * 2 ≤ 256 ^ compressed_bytes n
    → IsGroup (record { size = compressed_bytes n; digits = take n s })
partial_free n s p q r = record {
  positive = p;
  small = q;
  free = omega (arith, parse_uint-lt n (take n s) (length-take-le n s));
}

partial-IsGroup :
    (n : ℕ) (s : Bytes)
    → 0 < n
    → n < 9
    → IsGroup (record { size = compressed_bytes n; digits = take n s })
partial-IsGroup zero s h k = absurd (omega arith)
partial-IsGroup (suc zero) s h k = partial_free 1 s (omega arith) (omega arith) (omega arith)
partial-IsGroup (suc (suc zero)) s h k = partial_free 2 s (omega arith) (omega arith) (omega arith)
partial-IsGroup (suc (suc (suc zero))) s h k =
    partial_free 3 s (omega arith) (omega arith) (omega arith)
partial-IsGroup (suc (suc (suc (suc zero)))) s h k =
    partial_free 4 s (omega arith) (omega arith) (omega arith)
partial-IsGroup (suc (suc (suc (suc (suc zero))))) s h k =
    partial_free 5 s (omega arith) (omega arith) (omega arith)
partial-IsGroup (suc (suc (suc (suc (suc (suc zero)))))) s h k =
    partial_free 6 s (omega arith) (omega arith) (omega arith)
partial-IsGroup (suc (suc (suc (suc (suc (suc (suc zero))))))) s h k =
    partial_free 7 s (omega arith) (omega arith) (omega arith)
partial-IsGroup (suc (suc (suc (suc (suc (suc (suc (suc zero)))))))) s h k =
    partial_free 8 s (omega arith) (omega arith) (omega arith)
partial-IsGroup (suc (suc (suc (suc (suc (suc (suc (suc (suc n))))))))) s h k = absurd (omega arith)

partial_group-All : (n : ℕ) (s : Bytes) → n < 9 → All IsGroup (partial_group n s)
unfolding partial_group
partial_group-All zero s h = tt
partial_group-All (suc n) s h = (partial-IsGroup (suc n) s (omega arith) h, tt)

All-append : (gs hs : List Group) → All IsGroup gs → All IsGroup hs → All IsGroup (gs ++ hs)
All-append [] hs p q = q
All-append (g ∷ gs) hs p q = (p.0, All-append gs hs p.1 q)

pub groups_of-All : (l : Layout) (s t : Bytes) → All IsGroup (groups_of l s t)
unfolding groups_of
groups_of-All l s t =
    let u = l.int_digits / 9 in
    let v = l.scale / 9 in
    let first = l.int_digits - u * 9 in
    let last = l.scale - v * 9 in
    let ending = partial_group last (drop (v * 9) t) in
    All-append (partial_group first s) (full_groups u (drop first s) ++ (full_groups v t ++ ending))
      (partial_group-All first s (omega arith))
      (All-append (full_groups u (drop first s)) (full_groups v t ++ ending)
        (full_groups-All u (drop first s))
        (All-append (full_groups v t) ending (full_groups-All v t)
          (partial_group-All last (drop (v * 9) t) (omega arith))))
