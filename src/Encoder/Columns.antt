-- ===== src/Encoder/Columns.antt =====
-- `encodeColumnMeta`, `encodeValue` and `encodeRowData`. A column type is a constant of the
-- library; `unlisted` is any byte that the two switches do not name.
pub mod Bitmap
pub mod Rows
pub mod Meta
pub mod Integers
use Prim.Native.Nat.{bit_or}
use my_proxy.Base.{
  ℕ, zero, suc, ◌+◌, ◌/◌, ◌%◌, ◌^◌, Bool, true, false, List, [], ◌∷◌, ◌++◌, Option, none, some,
  Bytes, length, get_or, replicate, ◌==◌, if◌then◌else◌,
}
use my_proxy.Base.Wire.{put_le}
use my_proxy.Encoder.Decimal.{encode_decimal}
use my_proxy.Encoder.Integers.{
  encode_tiny, encode_short, encode_int24, encode_long, encode_long_long, encode_bit, encode_enum,
  encode_set,
}
use my_proxy.Encoder.Strings.{encode_var_string, encode_fixed_string, encode_blob, encode_json}
use my_proxy.Encoder.Temporal.{
  Clock, encode_year, encode_date, encode_time, encode_time2, encode_datetime, encode_datetime2,
  encode_timestamp, encode_timestamp2,
}
use my_proxy.Encoder.Value.{Value}

pub data ColumnType : Type 0 where
  decimal tiny short long float double null timestamp long_long int24 date time : ColumnType
  datetime year varchar bit timestamp2 datetime2 time2 json new_decimal enum set blob : ColumnType
  var_string string geometry unlisted : ColumnType

-- What the code takes from Go's library: texts of values, and the IEEE 754 conversions between
-- the two float widths.
pub record Formats : Type 0 where
  pub clock : Clock
  pub sprint : Value → Bytes
  pub format_float : Value → ℕ → Bytes
  pub to_float32 : ℕ → ℕ
  pub to_float64 : ℕ → ℕ

-- The bytes of one column's metadata.
pub meta_bytes : ColumnType → ℕ → Bytes
meta_bytes ColumnType.string meta = (meta / 2 ^ 8 % 256) ∷ (meta % 256) ∷ []
meta_bytes ColumnType.new_decimal meta = (meta / 2 ^ 8 % 256) ∷ (meta % 256) ∷ []
meta_bytes ColumnType.var_string meta = (meta % 256) ∷ (meta / 2 ^ 8 % 256) ∷ []
meta_bytes ColumnType.varchar meta = (meta % 256) ∷ (meta / 2 ^ 8 % 256) ∷ []
meta_bytes ColumnType.bit meta = (meta % 256) ∷ (meta / 2 ^ 8 % 256) ∷ []
meta_bytes ColumnType.blob meta = (meta % 256) ∷ []
meta_bytes ColumnType.double meta = (meta % 256) ∷ []
meta_bytes ColumnType.float meta = (meta % 256) ∷ []
meta_bytes ColumnType.geometry meta = (meta % 256) ∷ []
meta_bytes ColumnType.json meta = (meta % 256) ∷ []
meta_bytes ColumnType.time2 meta = (meta % 256) ∷ []
meta_bytes ColumnType.datetime2 meta = (meta % 256) ∷ []
meta_bytes ColumnType.timestamp2 meta = (meta % 256) ∷ []
meta_bytes _ meta = []

-- The loop over the types; a type past the end of the metadata has 0.
unfoldable pub encode_column_meta : List ColumnType → List ℕ → Bytes
unfolding meta_bytes
encode_column_meta [] metas = []
encode_column_meta (t ∷ types) [] = meta_bytes t 0 ++ encode_column_meta types []
encode_column_meta (t ∷ types) (m ∷ metas) = meta_bytes t m ++ encode_column_meta types metas

module _ (f : Formats) where
  pub encode_float : Value → Bytes
  encode_float (Value.float32 t) = put_le 4 t
  encode_float (Value.float64 t) = put_le 4 (f.to_float32 t)
  encode_float v = put_le 4 0

  pub encode_double : Value → Bytes
  encode_double (Value.float64 t) = put_le 8 t
  encode_double (Value.float32 t) = put_le 8 (f.to_float64 t)
  encode_double v = put_le 8 0

  unfoldable pub encode_value : Value → ColumnType → ℕ → Bytes
  unfolding encode_float encode_double
  encode_value v ColumnType.null meta = []
  encode_value v ColumnType.tiny meta = encode_tiny v
  encode_value v ColumnType.short meta = encode_short v
  encode_value v ColumnType.int24 meta = encode_int24 v
  encode_value v ColumnType.long meta = encode_long v
  encode_value v ColumnType.long_long meta = encode_long_long v
  encode_value v ColumnType.float meta = encode_float v
  encode_value v ColumnType.double meta = encode_double v
  encode_value v ColumnType.new_decimal meta = encode_decimal f.format_float f.sprint v meta
  encode_value v ColumnType.year meta = encode_year v
  encode_value v ColumnType.date meta = encode_date f.clock v
  encode_value v ColumnType.time meta = encode_time f.clock v
  encode_value v ColumnType.time2 meta = encode_time2 f.clock v meta
  encode_value v ColumnType.datetime meta = encode_datetime f.clock v
  encode_value v ColumnType.datetime2 meta = encode_datetime2 f.clock v meta
  encode_value v ColumnType.timestamp meta = encode_timestamp f.clock v
  encode_value v ColumnType.timestamp2 meta = encode_timestamp2 f.clock v meta
  encode_value v ColumnType.varchar meta = encode_var_string f.sprint v meta
  encode_value v ColumnType.var_string meta = encode_var_string f.sprint v meta
  encode_value v ColumnType.string meta = encode_fixed_string f.sprint v meta
  encode_value v ColumnType.blob meta = encode_blob v meta
  encode_value v ColumnType.bit meta = encode_bit v meta
  encode_value v ColumnType.enum meta = encode_enum v meta
  encode_value v ColumnType.set meta = encode_set v meta
  encode_value v ColumnType.json meta = encode_json v meta
  encode_value v ColumnType.geometry meta = encode_blob v meta
  encode_value v _ meta = encode_var_string f.sprint v 65535

-- `bitmap[at] |= mask`; `none` is the panic of an index out of range.
unfoldable pub or_at : ℕ → ℕ → Bytes → Option Bytes
or_at at mask [] = none
or_at zero mask (b ∷ bs) = some (bit_or b mask ∷ bs)
or_at (suc at) mask (b ∷ bs) = elim (or_at at mask bs) [ none ↦ none | some rest ↦ some (b ∷ rest) ]

abbrev pub Row : Type 0
Row = List (Option Value)

-- The table of a rows event.
pub record TableMap : Type 0 where
  pub column_types : List ColumnType
  pub column_meta : List ℕ

abbrev pub type_at : TableMap → ℕ → ColumnType
type_at t i = get_or t.column_types i ColumnType.decimal

module _ (f : Formats) (t : TableMap) where
  -- The loop over the values of a row from column `i` on; `nil` sets the column's bit.
  unfoldable pub encode_row : ℕ → Row → Bytes → Bytes → Option (Bytes × Bytes)
  encode_row i [] bitmap values = some (bitmap, values)
  encode_row i (none ∷ row) bitmap values = elim (or_at (i / 8) (2 ^ (i % 8)) bitmap) [
    | none ↦ none
    | some marked ↦ encode_row (i + 1) row marked values
  ]
  encode_row i (some v ∷ row) bitmap values =
      encode_row (i + 1) row bitmap
        (values ++ encode_value f v (type_at t i) (get_or t.column_meta i 0))

  unfoldable pub encode_rows : ℕ → List Row → Option Bytes
  encode_rows column_count [] = some []
  encode_rows column_count (row ∷ rows) =
      elim (encode_row 0 row (replicate ((column_count + 7) / 8) 0) []) [
        | none ↦ none
        | some (bitmap, values) ↦ elim (encode_rows column_count rows) [
          | none ↦ none
          | some rest ↦ some (bitmap ++ (values ++ rest))
        ]
      ]

-- `encodeRowData`; a rows event with no table has no data.
unfoldable pub encode_row_data : Formats → Option TableMap → ℕ → List Row → Option Bytes
encode_row_data f none column_count rows = some []
encode_row_data f (some t) column_count rows = encode_rows f t column_count rows
