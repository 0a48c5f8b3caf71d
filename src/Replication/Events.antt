-- ===== src/Replication/Events.antt =====
-- pkg/replication/server.go: `convertToMySQLEvents` and the functions that create events. Every
-- reading of the clock in one call gives the same time. `none` is an index out of range.
pub mod Transactions
pub mod Tables
pub mod Rows
use my_proxy.Base.{
  ℕ, zero, suc, ◌+◌, ◌-◌, ◌*◌, ◌/◌, ◌%◌, ◌^◌, Bool, true, false, ◌&&◌, List, [], ◌∷◌, ◌++◌, map,
  Option, none, some, Bytes, codes, length, replicate, ltb, leb, ◌==◌, if◌then◌else◌,
}
use my_proxy.Encoder.Columns.{ColumnType, Row, TableMap, or_at}
use my_proxy.Encoder.Events.{QueryEvent, TableMapEvent, RowsEvent, GtidEvent, Header, Event, Body}
use my_proxy.Replication.Changes.{ChangeType, Column, ChangeEvent, Core, Now}

-- The header of an event of the given code.
abbrev pub event_header : Core → Now → ℕ → Header
event_header s now code = record {
  timestamp = now.seconds % 2 ^ 32;
  event_type = code;
  server_id = s.server_id;
  log_pos = s.position;
  flags = 0;
}

abbrev pub event_of : Core → Now → ℕ → Body → Event
event_of s now code body = record { raw_data = none; header = event_header s now code; body = body }

unfoldable pub create_query_event : Core → Now → Bytes → Event
create_query_event s now query = event_of s now 2 (
    Body.query (record {
      slave_proxy_id = 0;
      execution_time = 0;
      error_code = 0;
      status_vars = [];
      schema = [];
      query = query;
    }))

unfoldable pub create_xid_event : Core → Now → Event
create_xid_event s now = event_of s now 16 (Body.xid (now.nanoseconds % 2 ^ 64))

abbrev hex_value : ℕ → Option ℕ
hex_value c =
    if leb b'0' c && leb c b'9'
    then some (c - b'0')
    else if leb b'a' c && leb c b'f'
    then some (c - b'a' + 10)
    else if leb b'A' c && leb c b'F'
    then some (c - b'A' + 10)
    else none

-- `Sscanf` of two bytes with "%02x"; what is not read stays 0.
pub hex_byte : ℕ → ℕ → ℕ
hex_byte c d = high (hex_value c) (hex_value d)
  where
    high : Option ℕ → Option ℕ → ℕ
    high none low = 0
    high (some h) none = h
    high (some h) (some l) = h * 16 + l

pub without_dashes : Bytes → Bytes
without_dashes [] = []
without_dashes (c ∷ s) = let rest = without_dashes s in if c == b'-' then rest else c ∷ rest

-- The loop over 16 bytes; a pair that is missing gives a 0.
pub hex_pairs : ℕ → Bytes → Bytes
hex_pairs zero s = []
hex_pairs (suc n) (c ∷ d ∷ s) = hex_byte c d ∷ hex_pairs n s
hex_pairs (suc n) (c ∷ []) = 0 ∷ hex_pairs n []
hex_pairs (suc n) [] = 0 ∷ hex_pairs n []

pub uuid_string_to_bytes : Bytes → Bytes
uuid_string_to_bytes uuid = hex_pairs 16 (without_dashes uuid)

unfoldable pub create_gtid_event : Core → Now → Event
create_gtid_event s now = event_of s now 33 (
    Body.gtid (record {
      commit_flag = 1;
      sid = uuid_string_to_bytes s.server_uuid;
      gno = s.transaction_id;
      last_committed = (s.transaction_id + 2 ^ 64 - 1) % 2 ^ 64;
      sequence_number = s.transaction_id;
    }))

unfoldable pub get_column_meta : ColumnType → ℕ
get_column_meta ColumnType.varchar = 65535
get_column_meta ColumnType.var_string = 65535
get_column_meta ColumnType.string = 255
get_column_meta ColumnType.blob = 2
get_column_meta ColumnType.json = 4
get_column_meta ColumnType.new_decimal = 10 * 2 ^ 8 + 2
get_column_meta ColumnType.float = 4
get_column_meta ColumnType.double = 8
get_column_meta _ = 0

abbrev pub columns_of : List Column → TableMap
columns_of columns = record {
  column_types = map (λ (c : Column). c.column_type) columns;
  column_meta = map (λ (c : Column). get_column_meta c.column_type) columns;
}

-- The loop over the columns from `i` on, which sets the bit of a nullable column.
unfoldable pub nullable_bits : ℕ → List Column → Bytes → Option Bytes
nullable_bits i [] bitmap = some bitmap
nullable_bits i (c ∷ columns) bitmap =
    let skipped = nullable_bits (i + 1) columns bitmap in
    if c.nullable
    then elim (or_at (i / 8) (2 ^ (i % 8)) bitmap) [
      | none ↦ none
      | some marked ↦ nullable_bits (i + 1) columns marked
    ]
    else skipped

abbrev pub table_map_with : ChangeEvent → Bytes → TableMapEvent
table_map_with e bitmap = record {
  table_id = e.table_id;
  flags = 0;
  schema = e.schema;
  table = e.table;
  column_count = length e.columns;
  columns = columns_of e.columns;
  null_bitmap = bitmap;
  column_name = map (λ (c : Column). c.name) e.columns;
}

-- Behind the loop.
abbrev pub table_map_event : Core → Now → ChangeEvent → Option Bytes → Option Event
table_map_event s now e none = none
table_map_event s now e (some bitmap) =
    some (event_of s now 19 (Body.table_map (table_map_with e bitmap)))

unfoldable pub create_table_map_event : Core → Now → ChangeEvent → Option Event
create_table_map_event s now e =
    table_map_event s now e (nullable_bits 0 e.columns (replicate ((length e.columns + 7) / 8) 0))

-- The code of the rows event; a type that has none leaves 0.
abbrev pub rows_code : ChangeType → ℕ
rows_code ChangeType.insert = 30
rows_code ChangeType.update = 31
rows_code ChangeType.delete = 32
rows_code _ = 0

-- Where there are no old values, the new ones stand in.
abbrev pub old_or_new : Option Row → Row → Row
old_or_new none new = new
old_or_new (some old) new = old

abbrev pub rows_of : ChangeEvent → ChangeType → List Row
rows_of e ChangeType.update = old_or_new e.old_values e.new_values ∷ e.new_values ∷ []
rows_of e ChangeType.insert = e.new_values ∷ []
rows_of e _ = old_or_new e.old_values e.new_values ∷ []

abbrev pub bitmap2_of : ChangeType → Bytes → Bytes
bitmap2_of ChangeType.update bitmap = bitmap
bitmap2_of _ bitmap = []

abbrev pub rows_event : ChangeEvent → RowsEvent
rows_event e =
    let bitmap = replicate ((length e.columns + 7) / 8) 0xFF in
    record {
      version = 2;
      table = some (columns_of e.columns);
      table_id = e.table_id;
      flags = 1;
      column_count = length e.columns;
      column_bitmap1 = bitmap;
      column_bitmap2 = bitmap2_of e.change_type bitmap;
      rows = rows_of e e.change_type;
    }

unfoldable pub create_rows_event : Core → Now → ChangeEvent → Event
create_rows_event s now e = event_of s now (rows_code e.change_type) (Body.rows (rows_event e))

-- `transactionID++`, and the GTID event where it is enabled.
abbrev pub next_transaction : Core → Core
next_transaction s = record s { transaction_id = (s.transaction_id + 1) % 2 ^ 64 }

abbrev pub gtid_then : Core → Now → Event → List Event
gtid_then s now e = if s.gtid_enabled then create_gtid_event s now ∷ e ∷ [] else e ∷ []

abbrev pub truncate_query : ChangeEvent → Bytes
truncate_query e = codes "TRUNCATE TABLE `" ++ (e.schema ++ (codes "`.`" ++ (e.table ++ codes "`")))

-- A statement of its own transaction.
abbrev pub statement : Core → Now → Bytes → Option (Core × List Event)
statement s now query =
    let t = next_transaction s in some (t, gtid_then t now (create_query_event t now query))

abbrev pub change_rows : Core → Now → ChangeEvent → Option Event → Option (Core × List Event)
change_rows s now e none = none
change_rows s now e (some table_map) = some (s, table_map ∷ create_rows_event s now e ∷ [])

abbrev pub convert_by : ChangeType → Core → Now → ChangeEvent → Option (Core × List Event)
convert_by ChangeType.begin s now e = statement s now (codes "BEGIN")
convert_by ChangeType.commit s now e = some (s, create_xid_event s now ∷ [])
convert_by ChangeType.insert s now e = change_rows s now e (create_table_map_event s now e)
convert_by ChangeType.update s now e = change_rows s now e (create_table_map_event s now e)
convert_by ChangeType.delete s now e = change_rows s now e (create_table_map_event s now e)
convert_by ChangeType.ddl s now e = statement s now (codes "-- DDL event")
convert_by ChangeType.truncate s now e = statement s now (truncate_query e)
convert_by ChangeType.unknown s now e = some (s, [])

unfoldable pub convert_to_mysql_events : Core → Now → ChangeEvent → Option (Core × List Event)
convert_to_mysql_events s now e = convert_by e.change_type s now e

-- The end of `processChangeEvent`: the position grows by 100 for each event.
abbrev pub advance : ℕ → Core → Core
advance n s = record s { position = (s.position + n * 100 % 2 ^ 32) % 2 ^ 32 }

abbrev pub advanced : Option (Core × List Event) → Option (Core × List Event)
advanced none = none
advanced (some (s, events)) = some (advance (length events) s, events)

-- The server's own state through a sequence of changes, and the events that it makes of them.
abbrev pub and_events : List Event → Option (Core × List Event) → Option (Core × List Event)
and_events events none = none
and_events events (some (s, more)) = some (s, events ++ more)

unfoldable pub convert_all : Core → List (Now × ChangeEvent) → Option (Core × List Event)
convert_all s [] = some (s, [])
convert_all s ((now, e) ∷ changes) = elim (advanced (convert_to_mysql_events s now e)) [
  | none ↦ none
  | some (t, events) ↦ and_events events (convert_all t changes)
]
