-- ===== src/Encoder/Decimal/RoundTrip.antt =====
-- A reader of the format: the sign bit of the first byte, the mask of a negative number, and the
-- groups as big-endian numbers. It gives back the sign and the number of every group.
use mathlib.Core.List.{map-append}
use mathlib.Core.Path.{ap₂}
use my_proxy.Base.{
  ℕ, zero, suc, ◌+◌, ◌-◌, ◌*◌, ◌/◌, ◌%◌, ◌^◌, ◌≤◌, ◌<◌, ◌≡◌, ◌≢◌, refl, sym, ap, ◌∙◌, Bool, true,
  false, List, [], ◌∷◌, ◌++◌, map, Bytes, All, take, drop, replicate, take-append, drop-append, ltb,
  arith,
}
use my_proxy.Base.Wire.{put_be, get_be, length-put_be, get_be-put_be}
use my_proxy.Encoder.Decimal.{
  parse_uint, Layout, layout_of, padded_int, padded_frac, Group, full_groups, partial_group,
  groups_of, masked, encode_groups, flip_sign, encode_decimal_text, parts_of, compressed_bytes,
}
use my_proxy.Encoder.Decimal.Groups.{IsGroup, groups_of-All}

-- The groups of the given sizes, as big-endian numbers.
pub read_groups : List ℕ → Bytes → List ℕ
read_groups [] bs = []
read_groups (n ∷ sizes) bs = get_be (take n bs) ∷ read_groups sizes (drop n bs)

abbrev partial_size : ℕ → List ℕ
partial_size zero = []
partial_size (suc n) = compressed_bytes (suc n) ∷ []

-- The sizes that a precision and a scale prescribe.
pub sizes_of : Layout → List ℕ
sizes_of l =
    partial_size (l.int_digits - l.int_digits / 9 * 9)
    ++ (replicate (l.int_digits / 9) 4
        ++ (replicate (l.scale / 9) 4 ++ partial_size (l.scale - l.scale / 9 * 9)))

-- `decodeDecimal` of a client: the sign, and the bytes without the sign bit and the mask.
pub unmask : Bytes → Bool × Bytes
unmask [] = (false, [])
unmask (b ∷ bs) =
    let negative = ltb b 128 in (negative, map (masked negative) (((b + 128) % 256) ∷ bs))

-- The sign of a decimal and the numbers of its groups.
pub read_decimal : Layout → Bytes → Bool × List ℕ
unfolding unmask read_groups
read_decimal l bs = let (negative, body) = unmask bs in (negative, read_groups (sizes_of l) body)

abbrev sizes : List Group → List ℕ
sizes = map (λ g. g.size)

sizes-full_groups : (n : ℕ) (s : Bytes) → sizes (full_groups n s) ≡ replicate n 4
unfolding full_groups
sizes-full_groups zero s = refl
sizes-full_groups (suc n) s = ap (◌∷◌ 4) (sizes-full_groups n (drop 9 s))

sizes-partial_group : (n : ℕ) (s : Bytes) → sizes (partial_group n s) ≡ partial_size n
unfolding partial_group
sizes-partial_group zero s = refl
sizes-partial_group (suc n) s = refl

sizes-groups_of : (l : Layout) (s t : Bytes) → sizes (groups_of l s t) ≡ sizes_of l
unfolding groups_of sizes_of
sizes-groups_of l s t = simp (map-append, sizes-full_groups, sizes-partial_group)

-- The numbers of the digits of the groups.
abbrev pub numbers : List Group → List ℕ
numbers [] = []
numbers (g ∷ gs) = parse_uint g.digits ∷ numbers gs

-- The bytes of the groups before the mask.
plain : List Group → Bytes
plain [] = []
plain (g ∷ gs) = put_be g.size (parse_uint g.digits) ++ plain gs

read_groups-plain :
    (gs : List Group) → All IsGroup gs → read_groups (sizes gs) (plain gs) ≡ numbers gs
unfolding read_groups plain
read_groups-plain [] h = refl
read_groups-plain (g ∷ gs) h =
    let bs = put_be g.size (parse_uint g.digits) in
    let front : take g.size (bs ++ plain gs) ≡ bs =
      rw (length-put_be g.size (parse_uint g.digits)) at (take-append bs (plain gs)) in
    let behind : drop g.size (bs ++ plain gs) ≡ plain gs =
      rw (length-put_be g.size (parse_uint g.digits)) at (drop-append bs (plain gs)) in
    ap₂ ◌∷◌ (ap get_be front ∙ get_be-put_be g.size (parse_uint g.digits) (omega (arith, h.0.free)))
      (ap (read_groups (sizes gs)) behind ∙ read_groups-plain gs h.1)

All-snoc :
    (bs : Bytes) (b : ℕ) → All (λ b. b < 256) bs → b < 256 → All (λ b. b < 256) (bs ++ b ∷ [])
All-snoc [] b p q = (q, tt)
All-snoc (c ∷ bs) b p q = (p.0, All-snoc bs b p.1 q)

All-put_be : (k v : ℕ) → All (λ b. b < 256) (put_be k v)
unfolding put_be
All-put_be zero v = tt
All-put_be (suc k) v =
    All-snoc (put_be k (v / 256)) (v % 256) (All-put_be k (v / 256)) (omega arith)

masked_twice :
    (n : Bool) (bs : Bytes) → All (λ b. b < 256) bs → map (masked n) (map (masked n) bs) ≡ bs
masked_twice n [] h = refl
masked_twice n (b ∷ bs) h = ap₂ ◌∷◌ (ground arith) (masked_twice n bs h.1)

masked-encode_groups : (n : Bool) (gs : List Group) → map (masked n) (encode_groups n gs) ≡ plain gs
unfolding encode_groups plain
masked-encode_groups n [] = refl
masked-encode_groups n (g ∷ gs) =
    let bs = put_be g.size (parse_uint g.digits) in
    map-append (masked n) (map (masked n) bs) (encode_groups n gs)
    ∙ ap₂ ◌++◌ (masked_twice n bs (All-put_be g.size (parse_uint g.digits)))
        (masked-encode_groups n gs)

put_be-head :
    (k v : ℕ)
    → 0 < k
    → k ≤ 4
    → v * 2 < 256 ^ k
    → (b : ℕ) × (bs : Bytes) × (put_be k v ≡ b ∷ bs) × (b < 128)
unfolding put_be
put_be-head zero v p q h = absurd (omega arith)
put_be-head (suc zero) v p q h = (v % 256, [], refl, omega arith)
put_be-head (suc (suc zero)) v p q h = (v / 256 % 256, v % 256 ∷ [], refl, omega arith)
put_be-head (suc (suc (suc zero))) v p q h =
    (v / 256 / 256 % 256, (v / 256 % 256) ∷ (v % 256) ∷ [], refl, omega arith)
put_be-head (suc (suc (suc (suc zero)))) v p q h = (
  v / 256 / 256 / 256 % 256,
  (v / 256 / 256 % 256) ∷ (v / 256 % 256) ∷ (v % 256) ∷ [],
  refl,
  omega arith,
)
put_be-head (suc (suc (suc (suc (suc k))))) v p q h = absurd (omega arith)

unmask_sign :
    (n : Bool) (x y : ℕ) (bs : Bytes)
    → ltb x 128 ≡ n
    → (x + 128) % 256 ≡ y
    → unmask (x ∷ bs) ≡ (n, map (masked n) (y ∷ bs))
unfolding unmask
unmask_sign n x y bs sign back = ap₂ (λ (m : Bool) (z : ℕ). (m, map (masked m) (z ∷ bs))) sign back

unmask_head :
    (n : Bool) (b : ℕ) (bs : Bytes)
    → b < 128
    → unmask (flip_sign (masked n b ∷ bs)) ≡ (n, map (masked n) (masked n b ∷ bs))
unmask_head true b bs h = unmask_sign true _ _ bs (ground arith) (omega arith)
unmask_head false b bs h = unmask_sign false _ _ bs (ground arith) (omega arith)

unmask-encode_groups :
    (n : Bool) (gs : List Group)
    → gs ≢ []
    → All IsGroup gs
    → unmask (flip_sign (encode_groups n gs)) ≡ (n, plain gs)
unfolding encode_groups
unmask-encode_groups n [] ne h = absurd (ne refl)
unmask-encode_groups n (g ∷ gs) ne h =
    let (b, bs, e, small) =
      put_be-head g.size (parse_uint g.digits) h.0.positive h.0.small h.0.free in
    let start : encode_groups n (g ∷ gs) ≡ masked n b ∷ (map (masked n) bs ++ encode_groups n gs) =
      ap (λ t. map (masked n) t ++ encode_groups n gs) e in
    ap (λ t. unmask (flip_sign t)) start
    ∙ unmask_head n b (map (masked n) bs ++ encode_groups n gs) small
    ∙ ap (λ t. (n, map (masked n) t)) (sym start)
    ∙ ap (λ t. (n, t)) (masked-encode_groups n (g ∷ gs))

-- The groups of a text in the layout of `meta`.
abbrev pub groups_in : ℕ → Bytes → List Group
groups_in meta s =
    let l = layout_of meta in
    groups_of l (padded_int l.int_digits (parts_of s).int_part)
      (padded_frac l.scale (parts_of s).frac_part)

-- Where the layout has at least one group, a reader gets back the sign of the text, and the number
-- of the digits in every group of the padded integer and fraction texts.
pub read_decimal-encode_decimal_text :
    (s : Bytes) (meta : ℕ)
    → groups_in meta s ≢ []
    → read_decimal (layout_of meta) (encode_decimal_text s meta)
      ≡ ((parts_of s).negative, numbers (groups_in meta s))
unfolding read_decimal encode_decimal_text
read_decimal-encode_decimal_text s meta ne =
    let gs = groups_in meta s in
    let good = groups_of-All (layout_of meta) _ _ in
    rw (
      unmask-encode_groups (parts_of s).negative gs ne good,
      ← sizes-groups_of (layout_of meta)
          (padded_int (layout_of meta).int_digits (parts_of s).int_part)
          (padded_frac (layout_of meta).scale (parts_of s).frac_part),
      read_groups-plain gs good,
    )
