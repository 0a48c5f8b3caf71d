-- ===== src/Encoder/Decimal.antt =====
-- `encodeDecimal` and `encodeDecimalValue`. The slices that Go takes of the two padded texts are
-- `take` and `drop`.
-- `format_float` is `strconv.FormatFloat(…, 'f', scale, 64)`, `sprint` is `%d` and `%v`.
pub mod Sizes
pub mod Groups
pub mod RoundTrip
use my_proxy.Base.{
  ℕ, zero, suc, ◌+◌, ◌-◌, ◌*◌, ◌/◌, ◌%◌, ◌^◌, Bool, true, false, ◌&&◌, List, [], ◌∷◌, ◌++◌, map,
  Bytes, length, take, drop, replicate, get_or, ltb, leb, ◌==◌, if◌then◌else◌,
}
use my_proxy.Base.Wire.{put_be}
use my_proxy.Encoder.Value.{Value}

-- `decimalCompressedBytes`.
abbrev pub compressed_bytes : ℕ → ℕ
compressed_bytes n = get_or (0 ∷ 1 ∷ 1 ∷ 2 ∷ 2 ∷ 3 ∷ 3 ∷ 4 ∷ 4 ∷ 4 ∷ []) n 0

pub is_digit : ℕ → Bool
is_digit c = leb b'0' c && leb c b'9'

pub all_digits : Bytes → Bool
unfolding is_digit
all_digits [] = true
all_digits (c ∷ cs) = is_digit c && all_digits cs

pub digits_value : ℕ → Bytes → ℕ
digits_value acc [] = acc
digits_value acc (c ∷ cs) = digits_value (acc * 10 + (c - b'0')) cs

-- `strconv.ParseUint(digits, 10, 32)` with its error ignored, on at most nine digits.
unfoldable pub parse_uint : Bytes → ℕ
unfolding all_digits digits_value
parse_uint s = if all_digits s then digits_value 0 s else 0

pub record Layout : Type 0 where
  pub int_digits : ℕ
  pub scale : ℕ

-- Precision 10 by default; a scale above the precision leaves no integer digits.
unfoldable pub layout_of : ℕ → Layout
layout_of meta =
    let precision = if meta / 2 ^ 8 == 0 then 10 else meta / 2 ^ 8 in
    record { int_digits = precision - meta % 2 ^ 8; scale = meta % 2 ^ 8 }

unfoldable pub bin_size : Layout → ℕ
bin_size l =
    l.int_digits / 9 * 4
    + compressed_bytes (l.int_digits - l.int_digits / 9 * 9)
    + l.scale / 9 * 4
    + compressed_bytes (l.scale - l.scale / 9 * 9)

pub record Parts : Type 0 where
  pub negative : Bool
  pub int_part : Bytes
  pub frac_part : Bytes

-- `strings.Index(s, ".")`: the texts before and behind the first dot.
pub split_dot : Bytes → Bytes × Bytes
split_dot [] = ([], [])
split_dot (c ∷ cs) =
    let (before, behind) = split_dot cs in if c == b'.' then ([], cs) else (c ∷ before, behind)

-- `strings.TrimLeft(intPart, "0")`.
pub trim_zeros : Bytes → Bytes
trim_zeros [] = []
trim_zeros (c ∷ cs) = let rest = trim_zeros cs in if c == b'0' then rest else c ∷ cs

pub or_zero : Bytes → Bytes
or_zero [] = b'0' ∷ []
or_zero (c ∷ cs) = c ∷ cs

pub unsigned_parts : Bool → Bytes → Parts
unfolding split_dot trim_zeros or_zero
unsigned_parts negative s = record {
  negative = negative;
  int_part = or_zero (trim_zeros (split_dot s).0);
  frac_part = (split_dot s).1;
}

unfoldable pub parts_of : Bytes → Parts
unfolding unsigned_parts
parts_of [] = unsigned_parts false []
parts_of (c ∷ cs) = if c == b'-' then unsigned_parts true cs else unsigned_parts false (c ∷ cs)

unfoldable pub padded_int : ℕ → Bytes → Bytes
padded_int int_digits s =
    if int_digits == 0
    then []
    else if leb int_digits (length s)
    then drop (length s - int_digits) s
    else replicate (int_digits - length s) b'0' ++ s

unfoldable pub padded_frac : ℕ → Bytes → Bytes
padded_frac scale s =
    if scale == 0
    then []
    else if leb scale (length s)
    then take scale s
    else s ++ replicate (scale - length s) b'0'

-- The digits of one group and the bytes that it takes.
pub record Group : Type 0 where
  pub size : ℕ
  pub digits : Bytes

unfoldable pub full_groups : ℕ → Bytes → List Group
full_groups zero s = []
full_groups (suc n) s = record { size = 4; digits = take 9 s } ∷ full_groups n (drop 9 s)

unfoldable pub partial_group : ℕ → Bytes → List Group
partial_group zero s = []
partial_group (suc n) s = record { size = compressed_bytes (suc n); digits = take (suc n) s } ∷ []

-- The groups in the order of the buffer.
unfoldable pub groups_of : Layout → Bytes → Bytes → List Group
unfolding full_groups partial_group
groups_of l int_text frac_text =
    let first = l.int_digits - l.int_digits / 9 * 9 in
    let last = l.scale - l.scale / 9 * 9 in
    partial_group first int_text
    ++ (full_groups (l.int_digits / 9) (drop first int_text)
        ++ (full_groups (l.scale / 9) frac_text
            ++ partial_group last (drop (l.scale / 9 * 9) frac_text)))

-- `b ^ mask`, with the mask 0xFF of a negative number.
abbrev pub masked : Bool → ℕ → ℕ
masked negative b = if negative then 255 - b else b

-- `encodeDecimalValue`.
abbrev pub encode_decimal_value : Bool → Group → Bytes
encode_decimal_value negative g = map (masked negative) (put_be g.size (parse_uint g.digits))

pub encode_groups : Bool → List Group → Bytes
encode_groups negative [] = []
encode_groups negative (g ∷ gs) = encode_decimal_value negative g ++ encode_groups negative gs

-- A layout of no bytes takes one, and `buf[0] ^= 0x80` is the last step.
abbrev pub flip_sign : Bytes → Bytes
flip_sign [] = 128 ∷ []
flip_sign (b ∷ bs) = ((b + 128) % 256) ∷ bs

unfoldable pub encode_decimal_text : Bytes → ℕ → Bytes
unfolding encode_groups
encode_decimal_text s meta =
    let l = layout_of meta in
    let p = parts_of s in
    flip_sign (
      encode_groups p.negative
        (groups_of l (padded_int l.int_digits p.int_part) (padded_frac l.scale p.frac_part)))

module _ (format_float : Value → ℕ → Bytes) (sprint : Value → Bytes) where
  pub decimal_text : Value → ℕ → Bytes
  decimal_text (Value.string t) scale = t
  decimal_text (Value.float64 t) scale = format_float (Value.float64 t) scale
  decimal_text (Value.float32 t) scale = format_float (Value.float32 t) scale
  decimal_text v scale = sprint v

  unfoldable pub encode_decimal : Value → ℕ → Bytes
  unfolding decimal_text
  encode_decimal v meta = encode_decimal_text (decimal_text v (meta % 2 ^ 8)) meta
