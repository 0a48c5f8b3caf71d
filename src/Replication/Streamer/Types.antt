-- ===== src/Replication/Streamer/Types.antt =====
-- pkg/replication/pg_streamer.go: `pgTypeToMySQLType` and `convertPGValue`. A type is its OID, and
-- a column type is the constant whose code the source writes.
use my_proxy.Base.{
  ℕ, ◌-◌, Bool, false, ◌&&◌, ◌||◌, List, [], ◌∷◌, ◌++◌, Bytes, codes, length, take, drop, ◌==◌,
  if◌then◌else◌,
}
use my_proxy.Base.Int.{ℤ, pos}
use my_proxy.Base.Eq.{equal}
use my_proxy.Encoder.Columns.{ColumnType}
use my_proxy.Encoder.Value.{Value}

-- Whether a number is one of some.
unfoldable pub among : ℕ → List ℕ → Bool
among n [] = false
among n (k ∷ ks) = let rest = among n ks in n == k || rest

-- The OIDs of arrays that the two switches name.
abbrev pub array_types : List ℕ
array_types = 1000 ∷ 1005 ∷ 1007 ∷ 1016 ∷ 1009 ∷ 1015 ∷ 1021 ∷ 1022 ∷ []

-- The first case whose OIDs have the type.
unfoldable pub first_case : ℕ → List (List ℕ × ColumnType) → ColumnType
first_case t [] = ColumnType.var_string
first_case t ((oids, c) ∷ cases) = let rest = first_case t cases in if among t oids then c else rest

-- Cases that give the type of the default (1186, 1043, 19, 869, 650, 829, 774, 600 to 604, 718,
-- 142) are left to it.
abbrev pub type_cases : List (List ℕ × ColumnType)
type_cases =
    (16 ∷ [], ColumnType.tiny)
    ∷ (21 ∷ [], ColumnType.short)
    ∷ (23 ∷ 26 ∷ [], ColumnType.long)
    ∷ (20 ∷ [], ColumnType.long_long)
    ∷ (700 ∷ [], ColumnType.float)
    ∷ (701 ∷ [], ColumnType.double)
    ∷ (1700 ∷ 790 ∷ [], ColumnType.new_decimal)
    ∷ (1082 ∷ [], ColumnType.date)
    ∷ (1083 ∷ 1266 ∷ [], ColumnType.time)
    ∷ (1114 ∷ 1184 ∷ [], ColumnType.datetime)
    ∷ (18 ∷ 1042 ∷ 2950 ∷ [], ColumnType.string)
    ∷ (25 ∷ 17 ∷ [], ColumnType.blob)
    ∷ (114 ∷ 3802 ∷ [], ColumnType.json)
    ∷ (1560 ∷ 1562 ∷ [], ColumnType.bit)
    ∷ (array_types, ColumnType.json)
    ∷ []

unfoldable pub pg_type_to_mysql_type : ℕ → ColumnType
pg_type_to_mysql_type t = first_case t type_cases

-- The last byte of a text that is not empty.
abbrev last_byte : Bytes → Bytes
last_byte s = drop (length s - 1) s

-- `{1,2,3}` becomes `[1,2,3]`; a text of the one byte `{` is not an array.
unfoldable pub array_text : Bytes → Bytes
array_text [] = []
array_text (c ∷ s) =
    if c == b'{' && equal (last_byte (c ∷ s)) (codes "}")
    then codes "[" ++ (take (length s - 1) s ++ codes "]")
    else c ∷ s

-- `Sscanf` with "%d" into an integer of so many bits, and with "%f"; they give the value that the
-- variable has afterwards.
pub record Scanners : Type 0 where
  pub scan_int : ℕ → Bytes → ℤ
  pub scan_float32 : Bytes → ℕ
  pub scan_float64 : Bytes → ℕ

abbrev is_true : Bytes → Bool
is_true s = equal s (codes "t") || (equal s (codes "true") || equal s (codes "1"))

unfoldable pub convert_pg_value : Scanners → Bytes → ℕ → Value
convert_pg_value f value t =
    if t == 16
    then Value.int8 (if is_true value then pos 1 else pos 0)
    else if t == 21
    then Value.int16 (f.scan_int 16 value)
    else if t == 23 || t == 26
    then Value.int32 (f.scan_int 32 value)
    else if t == 20
    then Value.int64 (f.scan_int 64 value)
    else if t == 700
    then Value.float32 (f.scan_float32 value)
    else if t == 701
    then Value.float64 (f.scan_float64 value)
    else if among t array_types
    then Value.string (array_text value)
    else Value.string value
