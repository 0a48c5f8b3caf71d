-- ===== src/Replication/Streamer.antt =====
-- pkg/replication/pg_streamer.go: the cache of relations and the handlers of messages.
-- The messages are those that the library's `Parse` gives; the connection is left out.
pub mod Types
pub mod Integers
pub mod Unchanged
pub mod Nullable
pub mod Backoff
pub mod Retries
pub mod Checkpoint
mod Tests
use my_proxy.Base.{
  ℕ, ◌+◌, ◌%◌, ◌^◌, Bool, true, false, List, [], ◌∷◌, ◌++◌, map, Option, none, some, Bytes, length,
  get_elem?, if◌then◌else◌, ◌==◌,
}
use my_proxy.Base.Dict.{Dict, lookup, insert}
use my_proxy.Base.Eq.{nat_eq}
use my_proxy.Encoder.Columns.{Row}
use my_proxy.Encoder.Value.{Value}
use my_proxy.Replication.Changes.{ChangeType, Column, ChangeEvent}
use my_proxy.Replication.Streamer.Types.{Scanners, pg_type_to_mysql_type, convert_pg_value}

pub record ColumnInfo : Type 0 where
  pub name : Bytes
  pub data_type : ℕ
  pub nullable : Bool

pub record TableInfo : Type 0 where
  pub id : ℕ
  pub schema : Bytes
  pub name : Bytes
  pub columns : List ColumnInfo

-- A column of a tuple: null, unchanged, text, or another kind with its bytes.
pub data TupleColumn : Type 0 where
  null unchanged : TupleColumn
  text other : Bytes → TupleColumn

abbrev pub Tuple : Type 0
Tuple = List TupleColumn

-- What `Parse` gives; a relation has a name and a type for each column.
pub data Message : Type 0 where
  relation : ℕ → Bytes → Bytes → List (Bytes × ℕ) → Message
  insert_row : ℕ → Option Tuple → Message
  update_row : ℕ → Option Tuple → Option Tuple → Message
  delete_row : ℕ → Option Tuple → Message
  truncate_tables : List ℕ → Message
  ignored : Message

-- `sent` are the events that the channel has taken.
pub record Streamer : Type 0 where
  pub table_cache : Dict ℕ TableInfo
  pub client_x_log_pos : ℕ
  pub sent : List ChangeEvent

abbrev pub get_table_info : Streamer → ℕ → Option TableInfo
get_table_info s id = lookup id s.table_cache

unfoldable pub convert_columns : TableInfo → List Column
convert_columns t =
    map
      (λ (c : ColumnInfo). record {
        name = c.name;
        column_type = pg_type_to_mysql_type c.data_type;
        nullable = c.nullable;
        unsigned = false;
      })
      t.columns

abbrev value_at : Option Row → ℕ → Option Value
value_at none i = none
value_at (some values) i = elim (get_elem? values i) [ none ↦ none | some v ↦ v ]

module _ (f : Scanners) (t : TableInfo) where
  abbrev text_value : Bytes → Option ColumnInfo → Value
  text_value bytes none = Value.string bytes
  text_value bytes (some c) = convert_pg_value f bytes c.data_type

  abbrev pub column_value : Option Row → ℕ → TupleColumn → Option Value
  column_value fallback i TupleColumn.null = none
  column_value fallback i TupleColumn.unchanged = value_at fallback i
  column_value fallback i (TupleColumn.text bytes) = some (text_value bytes (get_elem? t.columns i))
  column_value fallback i (TupleColumn.other bytes) = some (Value.bytes bytes)

  -- The loop from column `i` on.
  unfoldable pub decode_columns : Option Row → ℕ → Tuple → Row
  decode_columns fallback i [] = []
  decode_columns fallback i (c ∷ cs) =
      column_value fallback i c ∷ decode_columns fallback (i + 1) cs

  unfoldable pub decode_tuple_data : Option Tuple → Option Row → Option Row
  decode_tuple_data none fallback = none
  decode_tuple_data (some tuple) fallback = some (decode_columns fallback 0 tuple)

abbrev row_or_empty : Option Row → Row
row_or_empty none = []
row_or_empty (some row) = row

-- `takes` is whether the channel takes the next event before the timeout and the shutdown, by
-- those that it took.
module _ (f : Scanners) (takes : List ChangeEvent → Bool) where
  unfoldable pub send_event : ChangeEvent → Streamer → Streamer
  send_event e s =
      if takes s.sent
      then record s { sent = s.sent ++ record e { lsn = s.client_x_log_pos } ∷ [] }
      else s

  abbrev pub bare_event : ChangeType → ℕ → ChangeEvent
  bare_event t now = record {
    change_type = t;
    timestamp = now;
    database = [];
    schema = [];
    table = [];
    table_id = 0;
    columns = [];
    old_values = none;
    new_values = [];
    lsn = 0;
  }

  abbrev table_event : ChangeType → ℕ → ℕ → TableInfo → ChangeEvent
  table_event k now id t = record (bare_event k now) {
    schema = t.schema;
    table = t.name;
    table_id = id;
  }

  unfoldable pub handle_relation_message :
      ℕ → Bytes → Bytes → List (Bytes × ℕ) → Streamer → Streamer
  handle_relation_message id schema name columns s =
      let info : TableInfo = record {
        id = id;
        schema = schema;
        name = name;
        columns =
            map (λ (c : Bytes × ℕ). record { name = c.0; data_type = c.1; nullable = false })
              columns;
      } in
      record s { table_cache = insert id info s.table_cache }

  -- The end of a handler: the event of the relation's table, and nothing where it is unknown.
  unfoldable pub send_for_table : ℕ → (TableInfo → ChangeEvent) → Streamer → Streamer
  send_for_table id event_for s = elim (get_table_info s id) [
    | none ↦ s
    | some t ↦ send_event (event_for t) s
  ]

  unfoldable pub handle_insert_message : ℕ → ℕ → Option Tuple → Streamer → Streamer
  handle_insert_message now id tuple s =
      send_for_table id
        (λ t. record (table_event ChangeType.insert now id t) {
          columns = convert_columns t;
          new_values = row_or_empty (decode_tuple_data f t tuple none);
        })
        s

  unfoldable pub handle_update_message : ℕ → ℕ → Option Tuple → Option Tuple → Streamer → Streamer
  handle_update_message now id old new s =
      send_for_table id
        (λ t.
          let old_values = decode_tuple_data f t old none in
          record (table_event ChangeType.update now id t) {
            columns = convert_columns t;
            old_values = old_values;
            new_values = row_or_empty (decode_tuple_data f t new old_values);
          })
        s

  unfoldable pub handle_delete_message : ℕ → ℕ → Option Tuple → Streamer → Streamer
  handle_delete_message now id old s =
      send_for_table id
        (λ t. record (table_event ChangeType.delete now id t) {
          columns = convert_columns t;
          old_values = decode_tuple_data f t old none;
        })
        s

  unfoldable pub handle_truncate_message : ℕ → List ℕ → Streamer → Streamer
  handle_truncate_message now [] s = s
  handle_truncate_message now (id ∷ ids) s =
      handle_truncate_message now ids (send_for_table id (table_event ChangeType.truncate now id) s)

  -- The handlers that do nothing with a message of another kind, or one that is not parsed.
  abbrev handle_parsed : ℕ → Option Message → Streamer → Streamer
  handle_parsed now none s = s
  handle_parsed now (some (Message.relation id schema name columns)) s =
      handle_relation_message id schema name columns s
  handle_parsed now (some (Message.insert_row id tuple)) s = handle_insert_message now id tuple s
  handle_parsed now (some (Message.update_row id old new)) s =
      handle_update_message now id old new s
  handle_parsed now (some (Message.delete_row id old)) s = handle_delete_message now id old s
  handle_parsed now (some (Message.truncate_tables ids)) s = handle_truncate_message now ids s
  handle_parsed now (some Message.ignored) s = s

  abbrev pub kind_of : Message → ℕ
  kind_of (Message.relation id schema name columns) = b'R'
  kind_of (Message.insert_row id tuple) = b'I'
  kind_of (Message.update_row id old new) = b'U'
  kind_of (Message.delete_row id old) = b'D'
  kind_of (Message.truncate_tables ids) = b'T'
  kind_of Message.ignored = 0

  -- The handler of a letter takes a message of its own type only.
  abbrev handle_kind : ℕ → ℕ → Option Message → Streamer → Streamer
  handle_kind now c none s = s
  handle_kind now c (some m) s = if c == kind_of m then handle_parsed now (some m) s else s

  unfoldable pub parse_logical_replication_message :
      (Bytes → Option Message) → ℕ → Bytes → Streamer → Streamer
  parse_logical_replication_message parse now [] s = s
  parse_logical_replication_message parse now (c ∷ wal) s =
      if c == b'B'
      then send_event (bare_event ChangeType.begin now) s
      else if c == b'C'
      then send_event (bare_event ChangeType.commit now) s
      else handle_kind now c (parse (c ∷ wal)) s

  -- A message that `ParseXLogData` reads: where it starts, and its data.
  unfoldable pub handle_x_log_data : (Bytes → Option Message) → ℕ → ℕ × Bytes → Streamer → Streamer
  handle_x_log_data parse now (start, wal) s =
      record (parse_logical_replication_message parse now wal s) {
        client_x_log_pos = (start + length wal) % 2 ^ 64;
      }

  -- The messages of a stream, in their order.
  unfoldable pub handle_all :
      (Bytes → Option Message) → List (ℕ × (ℕ × Bytes)) → Streamer → Streamer
  handle_all parse [] s = s
  handle_all parse ((now, x) ∷ xs) s = handle_all parse xs (handle_x_log_data parse now x s)
