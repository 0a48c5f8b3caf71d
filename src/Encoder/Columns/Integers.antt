-- ===== src/Encoder/Columns/Integers.antt =====
-- The integer columns through `encodeValue`.
use my_proxy.Base.{ℕ, ◌≡◌}
use my_proxy.Base.Int.{ℤ}
use my_proxy.Encoder.Columns.{ColumnType, Formats, encode_value}
use my_proxy.Encoder.Integers.Laws.{
  InRange, read_int, read_int-encode_tiny, read_int-encode_short, read_int-encode_int24,
  read_int-encode_long, read_int-encode_long_long,
}
use my_proxy.Encoder.Value.{Value}

-- The types of signed integers, each with one less than its bits.
pub data IsInteger : ColumnType → ℕ → Type 0 where
  tinyint : IsInteger ColumnType.tiny 7
  smallint : IsInteger ColumnType.short 15
  mediumint : IsInteger ColumnType.int24 23
  int : IsInteger ColumnType.long 31
  bigint : IsInteger ColumnType.long_long 63

-- An int64 of the range of its column's type, a signed TINYINT, SMALLINT, MEDIUMINT, INT or
-- BIGINT, is read back from the bits of that type, whatever the metadata.
pub read_int-encode_value :
    (f : Formats) (t : ColumnType) (w : ℕ) (z : ℤ) (meta : ℕ)
    → IsInteger t w
    → InRange w z
    → read_int w (encode_value f (Value.int64 z) t meta) ≡ z
unfolding encode_value
read_int-encode_value f _ _ z meta IsInteger.tinyint h = read_int-encode_tiny z h
read_int-encode_value f _ _ z meta IsInteger.smallint h = read_int-encode_short z h
read_int-encode_value f _ _ z meta IsInteger.mediumint h = read_int-encode_int24 z h
read_int-encode_value f _ _ z meta IsInteger.int h = read_int-encode_long z h
read_int-encode_value f _ _ z meta IsInteger.bigint h = read_int-encode_long_long z h
