-- ===== src/Encoder/Integers.antt =====
-- `encodeTiny` to `encodeLongLong`, `encodeBit`, `encodeEnum`, `encodeSet`: a value whose Go type
-- a switch does not name leaves the variable at zero. A conversion keeps the low bits.
pub mod Laws
use my_proxy.Base.{
  ℕ, zero, suc, ◌+◌, ◌*◌, ◌/◌, ◌%◌, ◌^◌, Bool, true, false, [], ◌∷◌, ◌++◌, Bytes, ◌==◌,
  if◌then◌else◌,
}
use my_proxy.Base.Int.{ℤ, pos, bits, signed}
use my_proxy.Base.Wire.{put_le, put_be}
use my_proxy.Encoder.Value.{Value}

abbrev bit_of : Bool → ℤ
bit_of true = pos 1
bit_of false = pos 0

-- `int8(t)`, `int16(t)`, `int32(t)`.
abbrev pub to_int8 : ℤ → ℤ
to_int8 z = signed 7 (bits 8 z)

abbrev pub to_int16 : ℤ → ℤ
to_int16 z = signed 15 (bits 16 z)

abbrev pub to_int32 : ℤ → ℤ
to_int32 z = signed 31 (bits 32 z)

pub tiny_value : Value → ℤ
tiny_value (Value.int8 t) = t
tiny_value (Value.int t) = to_int8 t
tiny_value (Value.int64 t) = to_int8 t
tiny_value (Value.int32 t) = to_int8 t
tiny_value (Value.int16 t) = to_int8 t
tiny_value (Value.bool t) = bit_of t
tiny_value v = pos 0

unfoldable pub encode_tiny : Value → Bytes
unfolding tiny_value
encode_tiny v = bits 8 (tiny_value v) ∷ []

pub short_value : Value → ℤ
short_value (Value.int16 t) = t
short_value (Value.int t) = to_int16 t
short_value (Value.int64 t) = to_int16 t
short_value (Value.int32 t) = to_int16 t
short_value v = pos 0

unfoldable pub encode_short : Value → Bytes
unfolding short_value
encode_short v = put_le 2 (bits 16 (short_value v))

pub long_value : Value → ℤ
long_value (Value.int32 t) = t
long_value (Value.int t) = to_int32 t
long_value (Value.int64 t) = to_int32 t
long_value v = pos 0

-- The three low bytes, `v >> 8` and `v >> 16` being arithmetic shifts.
unfoldable pub encode_int24 : Value → Bytes
unfolding long_value
encode_int24 v =
    let w = bits 32 (long_value v) in (w % 256) ∷ ((w / 2 ^ 8) % 256) ∷ ((w / 2 ^ 16) % 256) ∷ []

unfoldable pub encode_long : Value → Bytes
unfolding long_value
encode_long v = put_le 4 (bits 32 (long_value v))

pub long_long_value : Value → ℤ
long_long_value (Value.int64 t) = t
long_long_value (Value.int t) = t
long_long_value (Value.int32 t) = t
long_long_value v = pos 0

unfoldable pub encode_long_long : Value → Bytes
unfolding long_long_value
encode_long_long v = put_le 8 (bits 64 (long_long_value v))

pub bit_value : Value → ℤ
bit_value (Value.int64 t) = t
bit_value (Value.int t) = t
bit_value (Value.bool t) = bit_of t
bit_value v = pos 0

-- `((meta >> 8) * 8) + (meta & 0xFF)` on uint16.
abbrev pub bit_length : ℕ → ℕ
bit_length meta = ((meta / 2 ^ 8) * 8 + meta % 2 ^ 8) % 2 ^ 16

-- `int(nbits+7) / 8`, the sum on uint16.
abbrev pub bit_bytes : ℕ → ℕ
bit_bytes meta = ((bit_length meta + 7) % 2 ^ 16) / 8

-- `v >>= 8` on int64: the byte that comes in at the top is the sign's.
abbrev pub shift_in : ℕ → ℕ
shift_in w = w / 2 ^ 8 + (if ◌==◌ (w / 2 ^ 63) 1 then 255 * 2 ^ 56 else 0)

-- The loop from the last byte to the first, `n` bytes to go.
pub bit_loop : ℕ → ℕ → Bytes → Bytes
bit_loop zero w done = done
bit_loop (suc n) w done = bit_loop n (shift_in w) ((w % 256) ∷ done)

unfoldable pub encode_bit : Value → ℕ → Bytes
unfolding bit_value bit_loop
encode_bit v meta = bit_loop (bit_bytes meta) (bits 64 (bit_value v)) []

pub enum_value : Value → ℤ
enum_value (Value.int64 t) = t
enum_value (Value.int t) = t
enum_value v = pos 0

unfoldable pub encode_enum : Value → ℕ → Bytes
unfolding enum_value
encode_enum v meta =
    if meta % 2 ^ 8 == 2 then put_le 2 (bits 16 (enum_value v)) else bits 8 (enum_value v) ∷ []

pub set_loop : ℕ → ℕ → Bytes
set_loop zero w = []
set_loop (suc n) w = (w % 256) ∷ set_loop n (shift_in w)

unfoldable pub encode_set : Value → ℕ → Bytes
unfolding enum_value set_loop
encode_set v meta = set_loop (meta % 2 ^ 8) (bits 64 (enum_value v))
