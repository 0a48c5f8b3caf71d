-- ===== src/Encoder/Columns/Meta.antt =====
-- The size of the packed metadata of columns.
use my_proxy.Base.{ℕ, ◌*◌, ◌≤◌, List, [], ◌∷◌, length, length-append, arith}
use my_proxy.Encoder.Columns.{ColumnType, meta_bytes, encode_column_meta}

length-meta_bytes-le : (t : ColumnType) (m : ℕ) → length (meta_bytes t m) ≤ 2
unfolding meta_bytes
length-meta_bytes-le ColumnType.string m = omega arith
length-meta_bytes-le ColumnType.new_decimal m = omega arith
length-meta_bytes-le ColumnType.var_string m = omega arith
length-meta_bytes-le ColumnType.varchar m = omega arith
length-meta_bytes-le ColumnType.bit m = omega arith
length-meta_bytes-le ColumnType.blob m = omega arith
length-meta_bytes-le ColumnType.double m = omega arith
length-meta_bytes-le ColumnType.float m = omega arith
length-meta_bytes-le ColumnType.geometry m = omega arith
length-meta_bytes-le ColumnType.json m = omega arith
length-meta_bytes-le ColumnType.time2 m = omega arith
length-meta_bytes-le ColumnType.datetime2 m = omega arith
length-meta_bytes-le ColumnType.timestamp2 m = omega arith
length-meta_bytes-le _ m = omega arith

pub length-encode_column_meta-le :
    (types : List ColumnType) (metas : List ℕ)
    → length (encode_column_meta types metas) ≤ 2 * length types
unfolding encode_column_meta
length-encode_column_meta-le [] metas = omega arith
length-encode_column_meta-le (t ∷ types) [] = omega (
  arith,
  length-append (meta_bytes t 0) (encode_column_meta types []),
  length-meta_bytes-le t 0,
  length-encode_column_meta-le types [],
)
length-encode_column_meta-le (t ∷ types) (m ∷ metas) = omega (
  arith,
  length-append (meta_bytes t m) (encode_column_meta types metas),
  length-meta_bytes-le t m,
  length-encode_column_meta-le types metas,
)
