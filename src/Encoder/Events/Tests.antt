-- ===== src/Encoder/Events/Tests.antt =====
-- The events on concrete values: a transaction's BEGIN, and a table of two columns.
use my_proxy.Base.{
  ℕ, ◌-◌, ◌^◌, ◌<◌, ◌≡◌, refl, ap, [], ◌∷◌, ◌++◌, none, some, Bytes, codes, length, take, drop,
  arith,
}
use my_proxy.Base.Int.{pos}
use my_proxy.Base.Wire.{put_le, get_le, get_le-put_le}
use my_proxy.Encoder.Columns.{ColumnType, Formats, encode_column_meta}
use my_proxy.Encoder.Events.{
  QueryEvent, TableMapEvent, Body, Event, bitmap_or_ones, encode_table_map_event, payload_of,
  encode_xid_event, encode_event,
}
use my_proxy.Encoder.Temporal.{Clock}
use my_proxy.Encoder.Value.{Time}
use my_proxy.Encoder.Events.Frame.{read_frame, Fits, read_frame-encode_event}
use my_proxy.Encoder.Events.Query.{FitsQuery}
use my_proxy.Encoder.Events.Tables.{
  read_table_map, FitsTable, read_table_map-encode_table_map_event,
}

abbrev begin : QueryEvent
begin = record {
  slave_proxy_id = 1;
  execution_time = 0;
  error_code = 0;
  status_vars = [];
  schema = codes "shop";
  query = codes "BEGIN";
}

begin-FitsQuery : FitsQuery begin
begin-FitsQuery = record {
  slave_proxy_id_fits = omega arith;
  execution_time_fits = omega arith;
  error_code_fits = omega arith;
  status_vars_fits = omega arith;
  schema_fits = omega arith;
}

-- Lengths in eight bytes, for tests.
abbrev eight : ℕ → Bytes
eight n = put_le 8 n

abbrev read_eight : Bytes → ℕ × Bytes
read_eight bs = (get_le (take 8 bs), drop 8 bs)

read_eight-eight : (n : ℕ) (rest : Bytes) → n < 2 ^ 64 → read_eight (eight n ++ rest) ≡ (n, rest)
unfolding put_le
read_eight-eight n rest h = ap (λ k. (k, rest)) (get_le-put_le 8 n h)

-- The code of every type, for tests.
abbrev code : ColumnType → ℕ
code t = 15

abbrev items : TableMapEvent
items = record {
  table_id = 108;
  flags = 1;
  schema = codes "shop";
  table = codes "items";
  column_count = 2;
  columns = record {
    column_types = ColumnType.tiny ∷ ColumnType.varchar ∷ [];
    column_meta = 0 ∷ 20 ∷ [];
  };
  null_bitmap = [];
  column_name = [];
}

items-FitsTable : FitsTable items
unfolding bitmap_or_ones encode_column_meta
items-FitsTable = record {
  table_id_fits = omega arith;
  flags_fits = omega arith;
  schema_fits = omega arith;
  table_fits = omega arith;
  column_count_fits = omega arith;
  metadata_fits = omega arith;
  one_type_each = refl;
  one_bit_each = refl;
}

read_table_map-encode_table_map_event_example :
    read_table_map read_eight (encode_table_map_event eight code items) ≡ record {
      table_id = 108;
      flags = 1;
      schema = codes "shop";
      table = codes "items";
      types = 15 ∷ 15 ∷ [];
      metadata = encode_column_meta items.columns.column_types items.columns.column_meta;
      null_bitmap = bitmap_or_ones 1 [];
    }
read_table_map-encode_table_map_event_example =
    read_table_map-encode_table_map_event eight read_eight code items read_eight-eight
      items-FitsTable

-- A checksum and formats for tests.
abbrev no_sum : Bytes → ℕ
no_sum bs = 7

abbrev still : Time
still = record {
  year = 0;
  month = 1;
  day = 1;
  hour = 0;
  minute = 0;
  second = 0;
  nanosecond = 0;
  unix = pos 0;
}

abbrev plain_clock : Clock
plain_clock = record {
  scan_date = λ s. (pos 0, pos 0, pos 0);
  scan_time = λ s. (pos 0, pos 0, pos 0);
  scan_datetime = λ s. ((pos 0, pos 0, pos 0), (pos 0, pos 0, pos 0));
  scan_int = λ s. pos 0;
  format_date = λ t. [];
  format_micros = λ t. [];
  format_datetime = λ t. [];
  parse = λ s. still;
  split_dot = λ s. (s, none);
}

abbrev plain_formats : Formats
plain_formats = record {
  clock = plain_clock;
  sprint = λ v. [];
  format_float = λ v n. [];
  to_float32 = λ t. t;
  to_float64 = λ t. t;
}

abbrev commit : Event
commit = record {
  raw_data = none;
  header = record {
    timestamp = 1700000000;
    event_type = 16;
    server_id = 1;
    log_pos = 120;
    flags = 0;
  };
  body = Body.xid 5;
}

commit-Fits : Fits commit.header
commit-Fits = record {
  timestamp_fits = omega arith;
  event_type_fits = omega arith;
  server_id_fits = omega arith;
  log_pos_fits = omega arith;
  flags_fits = omega arith;
}

read_frame-encode_event_example :
    (all : Bytes) × (encode_event eight code plain_formats no_sum commit ≡ some all)
    × (length all ≡ 31)
    × (read_frame all ≡ record {
      header = commit.header;
      size = length all;
      payload = put_le 8 5;
      checksum = no_sum (take (length all - 4) all);
    })
unfolding payload_of encode_xid_event put_le
read_frame-encode_event_example =
    read_frame-encode_event no_sum eight code plain_formats commit (put_le 8 5) (λ bs. omega arith)
      refl commit-Fits refl (omega arith)
