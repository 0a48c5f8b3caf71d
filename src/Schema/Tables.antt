-- ===== src/Schema/Tables.antt =====
-- The description of a table as the queries give it: the loops of `queryTableInfo` over the rows
-- of the columns and of the primary key.
use my_proxy.Base.{
  ℕ, Bool, true, false, List, [], ◌∷◌, ◌++◌, Option, none, some, Bytes, codes, if◌then◌else◌,
}
use my_proxy.Base.Eq.{equal}
use my_proxy.Schema.Types.{pg_type_to_mysql}

pub record ColumnInfo : Type 0 where
  pub name : Bytes
  pub ordinal_pos : ℕ
  pub data_type : Bytes
  pub mysql_type : ℕ
  pub mysql_meta : ℕ
  pub is_nullable : Bool
  pub is_primary_key : Bool
  pub is_auto_incr : Bool
  pub is_unsigned : Bool
  pub max_length : ℕ
  pub num_precision : ℕ
  pub num_scale : ℕ

pub record TableInfo : Type 0 where
  pub table_name : Bytes
  pub schema : Bytes
  pub auto_incr_column : Bytes
  pub columns : List ColumnInfo
  pub primary_key : List Bytes
  pub table_id : ℕ
  pub last_refreshed : ℕ
  pub ttl : ℕ

-- A row of the query for the columns.
pub record ColumnRow : Type 0 where
  pub name : Bytes
  pub ordinal_pos : ℕ
  pub data_type : Bytes
  pub is_nullable : Bytes
  pub max_length : ℕ
  pub num_precision : ℕ
  pub num_scale : ℕ
  pub is_auto_incr : Bool

-- The answers to the queries for a schema and a table; `none` is an error, of a query or of the
-- `Scan` of a row.
pub record Connection : Type 0 where
  pub auto_increment : Bytes → Bytes → Option Bytes
  pub column_rows : Bytes → Bytes → Option (List (Option ColumnRow))
  pub key_rows : Bytes → Bytes → Option (List (Option Bytes))

abbrev pub column_of : ColumnRow → ColumnInfo
column_of row =
    let (mysql_type, mysql_meta) = pg_type_to_mysql row.data_type row.max_length in
    record {
      name = row.name;
      ordinal_pos = row.ordinal_pos;
      data_type = row.data_type;
      mysql_type = mysql_type;
      mysql_meta = mysql_meta;
      is_nullable = equal row.is_nullable (codes "YES");
      is_primary_key = false;
      is_auto_incr = row.is_auto_incr;
      is_unsigned = false;
      max_length = row.max_length;
      num_precision = row.num_precision;
      num_scale = row.num_scale;
    }

-- The loop over the rows of the columns.
unfoldable pub scan_columns : List (Option ColumnRow) → TableInfo → Option TableInfo
scan_columns [] info = some info
scan_columns (none ∷ rows) info = none
scan_columns (some row ∷ rows) info = scan_columns rows (record info {
  auto_incr_column = if row.is_auto_incr then row.name else info.auto_incr_column;
  columns = info.columns ++ column_of row ∷ [];
})

-- The first column of the name is marked.
pub mark_key : Bytes → List ColumnInfo → List ColumnInfo
mark_key key [] = []
mark_key key (column ∷ columns) =
    let rest = mark_key key columns in
    if equal column.name key
    then record column { is_primary_key = true } ∷ columns
    else column ∷ rest

unfoldable pub scan_keys : List (Option Bytes) → TableInfo → TableInfo
scan_keys [] info = info
scan_keys (none ∷ rows) info = scan_keys rows info
scan_keys (some key ∷ rows) info = scan_keys rows (record info {
  primary_key = info.primary_key ++ key ∷ [];
  columns = mark_key key info.columns;
})

abbrev scan_keys_of : Option (List (Option Bytes)) → TableInfo → TableInfo
scan_keys_of none info = info
scan_keys_of (some rows) info = scan_keys rows info

-- Behind the loop over the columns.
abbrev keyed : Option (List (Option Bytes)) → Option TableInfo → Option TableInfo
keyed keys none = none
keyed keys (some info) = some (scan_keys_of keys info)

abbrev pub read_table :
    Option (List (Option ColumnRow)) → Option (List (Option Bytes)) → TableInfo → Option TableInfo
read_table none keys info = none
read_table (some rows) keys info = keyed keys (scan_columns rows info)
