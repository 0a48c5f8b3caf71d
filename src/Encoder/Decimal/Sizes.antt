-- ===== src/Encoder/Decimal/Sizes.antt =====
-- The sizes of a decimal: the digits of the padded texts, the bytes of the groups.
use my_proxy.Base.{
  ℕ, zero, suc, ◌+◌, ◌-◌, ◌*◌, ◌≡◌, refl, ap, ◌∙◌, Bool, List, [], ◌∷◌, ◌++◌, map, Bytes, length,
  drop, replicate, length-append, length-drop, length-take_of_le, length-replicate, ◌==◌,
  if◌then◌else◌, arith,
}
use my_proxy.Base.Wire.{put_be, length-put_be}
use my_proxy.Encoder.Decimal.{
  Layout, layout_of, bin_size, padded_int, padded_frac, Group, full_groups, partial_group,
  groups_of, masked, encode_groups, flip_sign, encode_decimal_text, parts_of, compressed_bytes,
  parse_uint,
}

-- The integer text has exactly the digits of the layout, so no slice of it is out of range.
pub length-padded_int : (n : ℕ) (s : Bytes) → length (padded_int n s) ≡ n
unfolding padded_int
length-padded_int n s = ground (
  arith,
  length-drop (length s - n) s,
  length-append (replicate (n - length s) b'0') s,
  length-replicate {A = ℕ} (n - length s) b'0',
)

pub length-padded_frac : (n : ℕ) (s : Bytes) → length (padded_frac n s) ≡ n
unfolding padded_frac
length-padded_frac n s = ground (
  arith,
  length-take_of_le n s,
  length-append s (replicate (n - length s) b'0'),
  length-replicate {A = ℕ} (n - length s) b'0',
)

-- The bytes of a list of groups.
pub size_of : List Group → ℕ
size_of [] = 0
size_of (g ∷ gs) = g.size + size_of gs

length-map-masked : (negative : Bool) (bs : Bytes) → length (map (masked negative) bs) ≡ length bs
length-map-masked negative [] = refl
length-map-masked negative (b ∷ bs) = ap suc (length-map-masked negative bs)

pub length-encode_groups :
    (negative : Bool) (gs : List Group) → length (encode_groups negative gs) ≡ size_of gs
unfolding encode_groups size_of
length-encode_groups negative [] = refl
length-encode_groups negative (g ∷ gs) = omega (
  arith,
  length-append (map (masked negative) (put_be g.size (parse_uint g.digits)))
      (encode_groups negative gs),
  length-map-masked negative (put_be g.size (parse_uint g.digits)),
  length-put_be g.size (parse_uint g.digits),
  length-encode_groups negative gs,
)

size_of-append : (gs hs : List Group) → size_of (gs ++ hs) ≡ size_of gs + size_of hs
unfolding size_of
size_of-append [] hs = omega arith
size_of-append (g ∷ gs) hs = omega (arith, size_of-append gs hs)

size_of-full_groups : (n : ℕ) (s : Bytes) → size_of (full_groups n s) ≡ n * 4
unfolding size_of full_groups
size_of-full_groups zero s = omega arith
size_of-full_groups (suc n) s = omega (arith, size_of-full_groups n (drop 9 s))

size_of-partial_group : (n : ℕ) (s : Bytes) → size_of (partial_group n s) ≡ compressed_bytes n
unfolding size_of partial_group
size_of-partial_group zero s = refl
size_of-partial_group (suc n) s = omega arith

size_of-groups_of : (l : Layout) (s t : Bytes) → size_of (groups_of l s t) ≡ bin_size l
unfolding groups_of bin_size
size_of-groups_of l s t = omega (arith, size_of-append, size_of-full_groups, size_of-partial_group)

length-flip_sign : (bs : Bytes) → length (flip_sign bs) ≡ (if length bs == 0 then 1 else length bs)
length-flip_sign [] = refl
length-flip_sign (b ∷ bs) = ground arith

-- Whatever the text, the encoding takes the bytes that the precision and the scale prescribe, and
-- one byte where they prescribe none.
pub length-encode_decimal_text :
    (s : Bytes) (meta : ℕ)
    → length (encode_decimal_text s meta)
      ≡ (if bin_size (layout_of meta) == 0 then 1 else bin_size (layout_of meta))
unfolding encode_decimal_text
length-encode_decimal_text s meta =
    let l = layout_of meta in
    let p = parts_of s in
    let gs = groups_of l (padded_int l.int_digits p.int_part) (padded_frac l.scale p.frac_part) in
    length-flip_sign (encode_groups p.negative gs)
    ∙ ap (λ n. if n == 0 then 1 else n)
        (length-encode_groups p.negative gs ∙ size_of-groups_of l _ _)
