-- ===== src/Replication/Changes.antt =====
-- pkg/replication/server.go: `ChangeEvent`, `ChangeType`, `Column`, and the part of the `Server`
-- that the conversion of changes uses.
use my_proxy.Base.{ℕ, Bool, List, Option, Bytes, codes}
use my_proxy.Encoder.Columns.{ColumnType, Row}

pub data ChangeType : Type 0 where
  insert update delete begin commit ddl truncate unknown : ChangeType

abbrev pub change_type_to_string : ChangeType → Bytes
change_type_to_string ChangeType.insert = codes "INSERT"
change_type_to_string ChangeType.update = codes "UPDATE"
change_type_to_string ChangeType.delete = codes "DELETE"
change_type_to_string ChangeType.begin = codes "BEGIN"
change_type_to_string ChangeType.commit = codes "COMMIT"
change_type_to_string ChangeType.ddl = codes "DDL"
change_type_to_string ChangeType.truncate = codes "TRUNCATE"
change_type_to_string ChangeType.unknown = codes "UNKNOWN"

pub record Column : Type 0 where
  pub name : Bytes
  pub column_type : ColumnType
  pub nullable : Bool
  pub unsigned : Bool

-- `old_values` is `none` for nil; `new_values` that are nil are no values.
pub record ChangeEvent : Type 0 where
  pub change_type : ChangeType
  pub timestamp : ℕ
  pub database : Bytes
  pub schema : Bytes
  pub table : Bytes
  pub table_id : ℕ
  pub columns : List Column
  pub old_values : Option Row
  pub new_values : Row
  pub lsn : ℕ

pub record Core : Type 0 where
  pub server_id : ℕ
  pub server_uuid : Bytes
  pub gtid_enabled : Bool
  pub transaction_id : ℕ
  pub position_name : Bytes
  pub position : ℕ

-- What a call reads of the clock: `Unix()` and `UnixNano()`.
pub record Now : Type 0 where
  pub seconds : ℕ
  pub nanoseconds : ℕ
