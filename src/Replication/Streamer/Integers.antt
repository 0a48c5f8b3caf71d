-- ===== src/Replication/Streamer/Integers.antt =====
-- PostgreSQL's integers on their way to a client: text, Go value, column type, bytes.
use my_proxy.Base.{ℕ, ◌+◌, ◌≡◌, ap, ◌∙◌, Bytes}
use my_proxy.Base.Wire.{get_le-put_le}
use my_proxy.Base.Int.{bits, signed}
use my_proxy.Encoder.Columns.{Formats, encode_value}
use my_proxy.Encoder.Integers.{encode_short, encode_long, encode_long_long}
use my_proxy.Encoder.Integers.Laws.{
  InRange, read_int, signed-bits16, signed-bits32, signed-bits64, bits-lt16, bits-lt32, bits-lt64,
}
use my_proxy.Replication.Streamer.Types.{
  Scanners, among, first_case, pg_type_to_mysql_type, convert_pg_value,
}

-- The types int2, int4, oid and int8, each with one less than its bits.
pub data IsPgInteger : ℕ → ℕ → Type 0 where
  int2 : IsPgInteger 21 15
  int4 : IsPgInteger 23 31
  oid : IsPgInteger 26 31
  int8 : IsPgInteger 20 63

-- Where the scanner gives integers of the width that it is asked for: the text of a PostgreSQL
-- integer is converted to a value that the encoder, by the column type that the type is given,
-- writes in bytes from which a client reads what was scanned, whatever the metadata.
pub read_int-convert_pg_value :
    (f : Scanners) (formats : Formats) (t w : ℕ) (text : Bytes) (meta : ℕ)
    → IsPgInteger t w
    → InRange w (f.scan_int (w + 1) text)
    → read_int w (encode_value formats (convert_pg_value f text t) (pg_type_to_mysql_type t) meta)
      ≡ f.scan_int (w + 1) text
unfolding encode_value convert_pg_value pg_type_to_mysql_type first_case among encode_short
    encode_long encode_long_long
read_int-convert_pg_value f formats _ _ text meta IsPgInteger.int2 h =
    let z = f.scan_int 16 text in
    ap (signed 15) (get_le-put_le 2 (bits 16 z) (bits-lt16 z)) ∙ signed-bits16 z h
read_int-convert_pg_value f formats _ _ text meta IsPgInteger.int4 h =
    let z = f.scan_int 32 text in
    ap (signed 31) (get_le-put_le 4 (bits 32 z) (bits-lt32 z)) ∙ signed-bits32 z h
read_int-convert_pg_value f formats _ _ text meta IsPgInteger.oid h =
    let z = f.scan_int 32 text in
    ap (signed 31) (get_le-put_le 4 (bits 32 z) (bits-lt32 z)) ∙ signed-bits32 z h
read_int-convert_pg_value f formats _ _ text meta IsPgInteger.int8 h =
    let z = f.scan_int 64 text in
    ap (signed 63) (get_le-put_le 8 (bits 64 z) (bits-lt64 z)) ∙ signed-bits64 z h
