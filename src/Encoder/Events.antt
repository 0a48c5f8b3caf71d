-- ===== src/Encoder/Events.antt =====
-- `EncodeEvent`, `encodeQueryEvent`, `encodeXIDEvent`, `encodeTableMapEvent`,
-- `encodeOptionalMeta` and `encodeRowsEvent`. A payload is a slice of its computed size that is
-- filled field by field; `none` is the panic of a slice that is too short.
pub mod Frame
pub mod Query
pub mod Tables
mod Tests
use my_proxy.Base.{
  ℕ, ◌+◌, ◌/◌, ◌%◌, ◌^◌, Bool, true, false, ◌&&◌, List, [], ◌∷◌, ◌++◌, map, Option, none, some,
  Bytes, length, replicate, ltb, leb, ◌==◌, if◌then◌else◌,
}
use my_proxy.Base.Copy.{Field, write_fields}
use my_proxy.Base.Wire.{put_le}
use my_proxy.Encoder.Columns.{
  ColumnType, Formats, Row, TableMap, encode_column_meta, encode_row_data,
}

pub record QueryEvent : Type 0 where
  pub slave_proxy_id : ℕ
  pub execution_time : ℕ
  pub error_code : ℕ
  pub status_vars : Bytes
  pub schema : Bytes
  pub query : Bytes

-- `columns` holds the types and the metadata of the columns.
pub record TableMapEvent : Type 0 where
  pub table_id : ℕ
  pub flags : ℕ
  pub schema : Bytes
  pub table : Bytes
  pub column_count : ℕ
  pub columns : TableMap
  pub null_bitmap : Bytes
  pub column_name : List Bytes

pub record RowsEvent : Type 0 where
  pub version : ℕ
  pub table : Option TableMap
  pub table_id : ℕ
  pub flags : ℕ
  pub column_count : ℕ
  pub column_bitmap1 : Bytes
  pub column_bitmap2 : Bytes
  pub rows : List Row

-- What a GTID event holds; numbers are the low 64 bits of an int64.
pub record GtidEvent : Type 0 where
  pub commit_flag : ℕ
  pub sid : Bytes
  pub gno : ℕ
  pub last_committed : ℕ
  pub sequence_number : ℕ

-- The bodies by the type of `event.Event`; `EncodeEvent` has no case for the last two.
pub data Body : Type 0 where
  query : QueryEvent → Body
  xid : ℕ → Body
  table_map : TableMapEvent → Body
  rows : RowsEvent → Body
  gtid : GtidEvent → Body
  other : Body

pub record Header : Type 0 where
  pub timestamp : ℕ
  pub event_type : ℕ
  pub server_id : ℕ
  pub log_pos : ℕ
  pub flags : ℕ

pub record Event : Type 0 where
  pub raw_data : Option Bytes
  pub header : Header
  pub body : Body

unfoldable pub query_fields : QueryEvent → List Field
query_fields e =
    (4, put_le 4 e.slave_proxy_id)
    ∷ (4, put_le 4 e.execution_time)
    ∷ (1, put_le 1 (length e.schema))
    ∷ (2, put_le 2 e.error_code)
    ∷ (2, put_le 2 (length e.status_vars))
    ∷ (length e.status_vars, e.status_vars)
    ∷ (length e.schema, e.schema)
    ∷ (1, 0 ∷ [])
    ∷ (length e.query, e.query)
    ∷ []

-- The payload of the query; a copy of no bytes changes nothing.
unfoldable pub encode_query_event : QueryEvent → Bytes
encode_query_event e =
    let size = 4 + 4 + 1 + 2 + 2 + length e.status_vars + length e.schema + 1 + length e.query in
    write_fields 0 (query_fields e) (replicate size 0)

unfoldable pub encode_xid_event : ℕ → Bytes
encode_xid_event x = put_le 8 x

-- `tableIDSize` is 6 in every encoder that `NewBinlogEncoder` makes.
abbrev pub table_id_size : ℕ
table_id_size = 6

unfoldable pub table_id_bytes : ℕ → Bytes
table_id_bytes id =
    if table_id_size == 6 then put_le 4 id ++ put_le 2 (id / 2 ^ 32) else put_le 4 id

-- A bitmap of the event, or one with every bit set where the event has none.
unfoldable pub bitmap_or_ones : ℕ → Bytes → Bytes
bitmap_or_ones size [] = replicate size 0xFF
bitmap_or_ones size bitmap = bitmap

-- `lenenc` is `PutLengthEncodedInt` of the library, `code_of` the byte of a column type.
module _ (lenenc : ℕ → Bytes) (code_of : ColumnType → ℕ) where
  unfoldable pub table_map_fields : TableMapEvent → List Field
  table_map_fields e =
      let metadata = encode_column_meta e.columns.column_types e.columns.column_meta in
      let bitmap_size = (e.column_count + 7) / 8 in
      (table_id_size, table_id_bytes e.table_id)
      ∷ (2, put_le 2 e.flags)
      ∷ (1, put_le 1 (length e.schema))
      ∷ (length e.schema, e.schema)
      ∷ (1, 0 ∷ [])
      ∷ (1, put_le 1 (length e.table))
      ∷ (length e.table, e.table)
      ∷ (1, 0 ∷ [])
      ∷ (length (lenenc e.column_count), lenenc e.column_count)
      ∷ (e.column_count, map code_of e.columns.column_types)
      ∷ (length (lenenc (length metadata)), lenenc (length metadata))
      ∷ (length metadata, metadata)
      ∷ (bitmap_size, bitmap_or_ones bitmap_size e.null_bitmap)
      ∷ []

  unfoldable pub encode_table_map_event : TableMapEvent → Bytes
  encode_table_map_event e =
      let metadata = encode_column_meta e.columns.column_types e.columns.column_meta in
      let size =
        table_id_size
        + 2
        + 1
        + length e.schema
        + 1
        + 1
        + length e.table
        + 1
        + length (lenenc e.column_count)
        + e.column_count
        + length (lenenc (length metadata))
        + length metadata
        + (e.column_count + 7) / 8 in
      write_fields 0 (table_map_fields e) (replicate size 0)

-- The one optional field that is encoded, the column names; no event uses it.
pub names_data : List Bytes → Bytes
names_data [] = []
names_data (name ∷ names) = put_le 1 (length name) ++ (name ++ names_data names)

pub encode_optional_meta : (ℕ → Bytes) → TableMapEvent → Bytes
encode_optional_meta lenenc e =
    let names = names_data e.column_name in
    if length e.column_name == 0 then [] else 4 ∷ (lenenc (length names) ++ names)

abbrev needs_bitmap2 : RowsEvent → Bool
needs_bitmap2 e = leb 1 e.version && ltb 0 (length e.column_bitmap2)

module _ (lenenc : ℕ → Bytes) where
  -- `row_data` is what `encodeRowData` returns.
  unfoldable pub rows_fields : RowsEvent → Bytes → List Field
  rows_fields e row_data =
      let bitmap_size = (e.column_count + 7) / 8 in
      (table_id_size, table_id_bytes e.table_id)
      ∷ (2, put_le 2 e.flags)
      ∷ (2, put_le 2 2)
      ∷ (length (lenenc e.column_count), lenenc e.column_count)
      ∷ (bitmap_size, bitmap_or_ones bitmap_size e.column_bitmap1)
      ∷ (if needs_bitmap2 e
          then (bitmap_size, e.column_bitmap2) ∷ (length row_data, row_data) ∷ []
          else (length row_data, row_data) ∷ [])

  unfoldable pub rows_payload : RowsEvent → Bytes → Bytes
  rows_payload e row_data =
      let bitmap_size = (e.column_count + 7) / 8 in
      let front = table_id_size + 2 + 2 + length (lenenc e.column_count) + bitmap_size in
      let size = (if needs_bitmap2 e then front + bitmap_size else front) + length row_data in
      write_fields 0 (rows_fields e row_data) (replicate size 0)

  unfoldable pub encode_rows_event : Formats → RowsEvent → Option Bytes
  encode_rows_event f e = elim (encode_row_data f e.table e.column_count e.rows) [
    | none ↦ none
    | some row_data ↦ some (rows_payload e row_data)
  ]

abbrev pub event_size : Bytes → ℕ
event_size payload = (19 + length payload + 4) % 2 ^ 32

pub header_bytes : Header → ℕ → Bytes
header_bytes h size =
    put_le 4 h.timestamp
    ++ (put_le 1 h.event_type
        ++ (put_le 4 h.server_id ++ (put_le 4 size ++ (put_le 4 h.log_pos ++ put_le 2 h.flags))))

-- `crc` is `crc32.ChecksumIEEE`. A size that wraps at 2 ^ 32 makes a slice that is too short.
module _ (crc : Bytes → ℕ) where
  unfoldable pub frame : Header → Bytes → Option Bytes
  frame h payload =
      let front = header_bytes h (event_size payload) ++ payload in
      if ltb (event_size payload) (19 + length payload + 4)
      then none
      else some (front ++ put_le 4 (crc front))

-- Behind the switch, with the payload that it gives.
abbrev pub framed : (Bytes → ℕ) → Header → Option Bytes → Option Bytes
framed crc h none = none
framed crc h (some payload) = frame crc h payload

-- Raw data that is there is used as it is.
abbrev pub raw_or : Option Bytes → Option Bytes → Option Bytes
raw_or (some raw) encoded = some raw
raw_or none encoded = encoded

module _ (lenenc : ℕ → Bytes) (code_of : ColumnType → ℕ) (f : Formats) where
  -- The switch on the type of the body.
  unfoldable pub payload_of : Body → Option Bytes
  payload_of (Body.query e) = some (encode_query_event e)
  payload_of (Body.xid x) = some (encode_xid_event x)
  payload_of (Body.table_map e) = some (encode_table_map_event lenenc code_of e)
  payload_of (Body.rows e) = encode_rows_event lenenc f e
  payload_of (Body.gtid e) = some (replicate 4 0)
  payload_of Body.other = some (replicate 4 0)

  unfoldable pub encode_event : (Bytes → ℕ) → Event → Option Bytes
  encode_event crc e = raw_or e.raw_data (framed crc e.header (payload_of e.body))
