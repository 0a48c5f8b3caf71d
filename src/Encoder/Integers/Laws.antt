-- ===== src/Encoder/Integers/Laws.antt =====
-- What a client reads back from the integer columns.
use my_proxy.Base.{ℕ, ◌-◌, ◌/◌, ◌%◌, ◌^◌, ◌<◌, ◌≡◌, ap, ◌∙◌, [], ◌∷◌, Bytes, arith}
use my_proxy.Base.Int.{ℤ, pos, negsuc, ◌≤ℤ◌, bits, signed}
use my_proxy.Base.Wire.{get_le, get_le-put_le}
use my_proxy.Encoder.Integers.{
  encode_tiny, encode_short, encode_int24, encode_long, encode_long_long,
}
use my_proxy.Encoder.Value.{Value}

-- The integers of `w + 1` bits.
abbrev pub InRange : ℕ → ℤ → Type 0
InRange w z = (negsuc (2 ^ w - 1) ≤ℤ z) × (z ≤ℤ pos (2 ^ w - 1))

signed-bits8 : (z : ℤ) → InRange 7 z → signed 7 (bits 8 z) ≡ z
signed-bits8 (pos n) h = ground arith
signed-bits8 (negsuc n) h = ground arith

pub signed-bits16 : (z : ℤ) → InRange 15 z → signed 15 (bits 16 z) ≡ z
signed-bits16 (pos n) h = ground arith
signed-bits16 (negsuc n) h = ground arith

pub signed-bits32 : (z : ℤ) → InRange 31 z → signed 31 (bits 32 z) ≡ z
signed-bits32 (pos n) h = ground arith
signed-bits32 (negsuc n) h = ground arith

pub signed-bits64 : (z : ℤ) → InRange 63 z → signed 63 (bits 64 z) ≡ z
signed-bits64 (pos n) h = ground arith
signed-bits64 (negsuc n) h = ground arith

bits-lt8 : (z : ℤ) → bits 8 z < 256 ^ 1
bits-lt8 (pos n) = omega arith
bits-lt8 (negsuc n) = omega arith

pub bits-lt16 : (z : ℤ) → bits 16 z < 256 ^ 2
bits-lt16 (pos n) = omega arith
bits-lt16 (negsuc n) = omega arith

pub bits-lt32 : (z : ℤ) → bits 32 z < 256 ^ 4
bits-lt32 (pos n) = omega arith
bits-lt32 (negsuc n) = omega arith

pub bits-lt64 : (z : ℤ) → bits 64 z < 256 ^ 8
bits-lt64 (pos n) = omega arith
bits-lt64 (negsuc n) = omega arith

-- A little-endian integer of `w + 1` bits, as a client reads it.
abbrev pub read_int : ℕ → Bytes → ℤ
read_int w bs = signed w (get_le bs)

-- An int64 of the range of a signed TINYINT is read back from its 8 bits.
pub read_int-encode_tiny : (z : ℤ) → InRange 7 z → read_int 7 (encode_tiny (Value.int64 z)) ≡ z
unfolding encode_tiny get_le
read_int-encode_tiny z h = rw (signed-bits8 z h) (ap (signed 7) (omega arith) ∙ signed-bits8 z h)

-- An int64 of the range of a signed SMALLINT is read back from its 16 bits.
pub read_int-encode_short : (z : ℤ) → InRange 15 z → read_int 15 (encode_short (Value.int64 z)) ≡ z
unfolding encode_short
read_int-encode_short z h =
    rw (signed-bits16 z h)
      (ap (signed 15) (get_le-put_le 2 (bits 16 z) (bits-lt16 z)) ∙ signed-bits16 z h)

-- An int64 of the range of a signed INT is read back from its 32 bits.
pub read_int-encode_long : (z : ℤ) → InRange 31 z → read_int 31 (encode_long (Value.int64 z)) ≡ z
unfolding encode_long
read_int-encode_long z h =
    rw (signed-bits32 z h)
      (ap (signed 31) (get_le-put_le 4 (bits 32 z) (bits-lt32 z)) ∙ signed-bits32 z h)

-- An int64 of the range of a signed BIGINT is read back from its 64 bits.
pub read_int-encode_long_long :
    (z : ℤ) → InRange 63 z → read_int 63 (encode_long_long (Value.int64 z)) ≡ z
unfolding encode_long_long
read_int-encode_long_long z h =
    ap (signed 63) (get_le-put_le 8 (bits 64 z) (bits-lt64 z)) ∙ signed-bits64 z h

three_bytes :
    (w : ℕ)
    → w < 2 ^ 32
    → get_le ((w % 256) ∷ ((w / 2 ^ 8) % 256) ∷ ((w / 2 ^ 16) % 256) ∷ []) ≡ w % 2 ^ 24
unfolding get_le
three_bytes w h = omega arith

signed-bits24 : (z : ℤ) → InRange 23 z → signed 23 (bits 32 z % 2 ^ 24) ≡ z
signed-bits24 (pos n) h = ground arith
signed-bits24 (negsuc n) h = ground arith

InRange-wider : (z : ℤ) → InRange 23 z → InRange 31 z
InRange-wider (pos n) h = omega arith
InRange-wider (negsuc n) h = omega arith

-- An int64 of the range of a signed MEDIUMINT is read back from its 24 bits.
pub read_int-encode_int24 : (z : ℤ) → InRange 23 z → read_int 23 (encode_int24 (Value.int64 z)) ≡ z
unfolding encode_int24
read_int-encode_int24 z h =
    rw (signed-bits32 z (InRange-wider z h))
      (ap (signed 23) (three_bytes (bits 32 z) (bits-lt32 z)) ∙ signed-bits24 z h)
