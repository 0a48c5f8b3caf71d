-- ===== src/Binlog/Event.antt =====
-- pkg/binlog/binlog.go: `EventType`, `BinlogEvent` and `Config`.
use my_proxy.Base.{ℕ, Bool, true, false, Bytes, codes}
use my_proxy.Base.Int.{ℤ, pos}

pub data EventType : Type 0 where
  unknown query insert_row update_row delete_row ddl begin_tx commit_tx rollback_tx : EventType

-- The value of the `iota` constant.
abbrev pub event_code : EventType → ℕ
event_code EventType.unknown = 0
event_code EventType.query = 1
event_code EventType.insert_row = 2
event_code EventType.update_row = 3
event_code EventType.delete_row = 4
event_code EventType.ddl = 5
event_code EventType.begin_tx = 6
event_code EventType.commit_tx = 7
event_code EventType.rollback_tx = 8

-- `EventType.String`.
abbrev pub event_name : EventType → Bytes
event_name EventType.query = codes "QUERY"
event_name EventType.insert_row = codes "INSERT"
event_name EventType.update_row = codes "UPDATE"
event_name EventType.delete_row = codes "DELETE"
event_name EventType.ddl = codes "DDL"
event_name EventType.begin_tx = codes "BEGIN"
event_name EventType.commit_tx = codes "COMMIT"
event_name EventType.rollback_tx = codes "ROLLBACK"
event_name EventType.unknown = codes "UNKNOWN"

-- `timestamp` is `Timestamp.UnixNano()`.
pub record BinlogEvent : Type 0 where
  pub timestamp : ℤ
  pub position : ℕ
  pub event_type : EventType
  pub database : Bytes
  pub table : Bytes
  pub session_id : Bytes
  pub user : Bytes
  pub client_ip : Bytes
  pub mysql_query : Bytes
  pub pg_query : Bytes
  pub rows_affected : ℤ
  pub exec_time : ℤ

-- The fields that the writer reads.
pub record Config : Type 0 where
  pub enabled : Bool
  pub max_file_size : ℤ
  pub max_files : ℕ
  pub sync_mode : Bytes
  pub format : Bytes
  pub buffer_size : ℕ
  pub log_ddl : Bool
  pub log_dml : Bool
  pub log_select : Bool

abbrev pub default_config : Config
default_config = record {
  enabled = false;
  max_file_size = pos 104857600;
  max_files = 10;
  sync_mode = codes "async";
  format = codes "json";
  buffer_size = 65536;
  log_ddl = true;
  log_dml = true;
  log_select = false;
}
