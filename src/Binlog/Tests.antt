-- ===== src/Binlog/Tests.antt =====
-- The binlog on concrete events: an insert into `shop.items`, and small buffers and limits.
mod Queues
use my_proxy.Base.{
  ℕ, ◌≤◌, ◌≡◌, refl, ap, true, false, List, [], ◌∷◌, ◌++◌, Option, none, some, Bytes, codes, length,
  drop, replicate, arith,
}
use my_proxy.Base.Dict.{lookup}
use my_proxy.Base.Eq.{equal, nat_eq}
use my_proxy.Base.Int.{pos}
use my_proxy.Binlog.Disk.{content}
use my_proxy.Binlog.Event.{EventType, BinlogEvent, Config, default_config}
use my_proxy.Binlog.Serial.{total_len, serialize_binary}
use my_proxy.Binlog.Serial.Layout.{
  parse_record, fields_of, FitsLayout, parse_record-serialize_binary, length-serialize_binary,
}
use my_proxy.Binlog.Writer.{
  Writer, ran, panicked, write_failed, FlushOutcome, CreateOutcome, EventOutcomes, handle_on,
  header, flush_buffer, rotate, serialize, write_event,
}
use my_proxy.Binlog.Writer.Buffer.{Ensures, Within}
use my_proxy.Binlog.Writer.Log.{log, IsLogging, Appended, CanAppend, write_event-Appended}
use my_proxy.Binlog.Writer.Oversized.{TooLong, write_event-panics_later}
use my_proxy.Binlog.Writer.Queue.{Front, capacity, wanted, write, close}
use my_proxy.Binlog.Writer.Queue.Closing.{Late, close_lem, write_event-Late}
use my_proxy.Binlog.Writer.Queue.Order.{
  offer, handle, Steps, start, next, offered, handled, handled_of, accepted_of, accepted_of-fifo,
  Steps-bounded,
}
use my_proxy.Binlog.Writer.Rotation.{
  CanRotate, Rotated, rotate-Rotated, CanTurn, write_event-Rotated,
}
use my_proxy.Binlog.Writer.Safety.{write_event-Within}
use my_proxy.Binlog.Writer.Startup.{
  max_num, new_writer, new_writer-resumes, cleanup_old_files, cleanup_old_files_lem,
}

abbrev pub insert_item : BinlogEvent
insert_item = record {
  timestamp = pos 1700000000;
  position = 0;
  event_type = EventType.insert_row;
  database = codes "shop";
  table = codes "items";
  session_id = [];
  user = codes "app";
  client_ip = [];
  mysql_query = codes "INSERT";
  pg_query = codes "INSERT";
  rows_affected = pos 1;
  exec_time = pos 12;
}

abbrev pub small_config : Config
small_config = record default_config {
  enabled = true;
  max_file_size = pos 200;
  format = codes "binary";
  buffer_size = 80;
}

-- A marshaller for tests: the name of the table.
abbrev table_text : BinlogEvent → Option Bytes
table_text e = some e.table

abbrev fine : FlushOutcome
fine = record { write_fails = false; wrote = 0; sync_fails = false }

abbrev pub opens : CreateOutcome
opens = record {
  open_fails = false;
  stat_fails = false;
  header_fails = false;
  header_wrote = 0;
  created = codes "now";
}

abbrev all_fine : EventOutcomes
all_fine = record { rotate_flush = fine; create = opens; full_flush = fine; last_flush = fine }

-- A file of three bytes, and two bytes that wait in the buffer.
abbrev pub five : Writer
five = record {
  config = small_config;
  file = some (handle_on 1);
  buffer = 7 ∷ 8 ∷ replicate 78 0;
  buf_pos = 2;
  position = 5;
  file_num = 1;
  disk = (1, 4 ∷ 5 ∷ 6 ∷ []) ∷ [];
}

five-IsLogging : IsLogging five
unfolding log content lookup equal
five-IsLogging = record { on_file = refl; fill = omega arith; at_end = refl }

abbrev placed : ℕ → Bytes
placed at = serialize_binary (record insert_item { position = at })

insert_item-FitsLayout : FitsLayout insert_item
unfolding total_len
insert_item-FitsLayout = record {
  database_fits = omega arith;
  table_fits = omega arith;
  mysql_query_fits = omega arith;
  pg_query_fits = omega arith;
  total_fits = omega arith;
}

parse_record-serialize_binary_example :
    parse_record (serialize_binary insert_item ++ 1 ∷ []) ≡ some (fields_of insert_item, 1 ∷ [])
parse_record-serialize_binary_example =
    parse_record-serialize_binary insert_item (1 ∷ []) insert_item-FitsLayout

abbrev size_of : Option Bytes → ℕ
size_of none = 0
size_of (some bs) = length bs

fits :
    (at : ℕ) (bs : Bytes)
    → serialize table_text small_config at insert_item ≡ some bs
    → length bs ≤ 80
unfolding serialize equal total_len
fits at bs e =
    omega (arith, ap size_of e, length-serialize_binary (record insert_item { position = at }))

five-Within : Within 80 small_config five
five-Within = record { fill = omega arith; size = refl; configured = refl }

write_event-Within_example :
    Ensures
      (Within 80 small_config)
      (Within 80 small_config)
      (write_event table_text all_fine insert_item five)
write_event-Within_example =
    write_event-Within table_text 80 small_config all_fine insert_item five fits refl five-Within

five-CanAppend : CanAppend table_text all_fine insert_item five (placed 5)
unfolding serialize equal log content lookup total_len
five-CanAppend = record {
  full_succeeds = (refl, refl);
  last_succeeds = (refl, refl);
  below_limit = omega arith;
  serialized = refl;
  fits = omega (arith, length-serialize_binary (record insert_item { position = 5 }));
  short = omega (arith, length-serialize_binary (record insert_item { position = 5 }));
}

write_event-Appended_example :
    (v : Writer) × (write_event table_text all_fine insert_item five ≡ ran v none)
    × Appended five (placed 5) v
    × (drop 5 (log v) ≡ placed 5)
write_event-Appended_example =
    write_event-Appended table_text all_fine insert_item five (placed 5) five-CanAppend
      five-IsLogging

five-CanRotate : CanRotate fine opens five
unfolding content lookup equal
five-CanRotate = record {
  flush_succeeds = (refl, refl);
  opens = refl;
  measured = refl;
  header_written = refl;
  fresh = refl;
  numbered = omega arith;
}

abbrev full_config : Config
full_config = record small_config { max_file_size = pos 5 }

abbrev at_limit : Writer
at_limit = record five { config = full_config }

at_limit-IsLogging : IsLogging at_limit
unfolding log content lookup equal
at_limit-IsLogging = record { on_file = refl; fill = omega arith; at_end = refl }

abbrev second : ℕ
second = length (header (codes "now") (codes "binary"))

at_limit-CanTurn : CanTurn table_text all_fine insert_item at_limit (placed second)
unfolding serialize equal header content lookup total_len
at_limit-CanTurn = record {
  rotates = record {
    flush_succeeds = (refl, refl);
    opens = refl;
    measured = refl;
    header_written = refl;
    fresh = refl;
    numbered = omega arith;
  };
  full_succeeds = (refl, refl);
  last_succeeds = (refl, refl);
  at_limit = omega arith;
  serialized = refl;
  fits = omega (arith, length-serialize_binary (record insert_item { position = second }));
  short = omega (arith, length-serialize_binary (record insert_item { position = second }));
}

write_event-Rotated_example :
    (v : Writer) × (write_event table_text all_fine insert_item at_limit ≡ ran v none)
    × IsLogging v
    × (v.file_num ≡ 2)
    × (log v ≡ header (codes "now") (codes "binary") ++ placed second)
    × (content 1 v.disk ≡ log at_limit)
write_event-Rotated_example =
    write_event-Rotated table_text all_fine insert_item at_limit (placed second) at_limit-CanTurn
      at_limit-IsLogging

-- The same writer with a buffer of four bytes.
abbrev narrow : Writer
narrow = record five { buffer = 7 ∷ 8 ∷ 0 ∷ 0 ∷ [] }

narrow-IsLogging : IsLogging narrow
unfolding log content lookup equal
narrow-IsLogging = record { on_file = refl; fill = omega arith; at_end = refl }

narrow-TooLong : TooLong table_text all_fine insert_item narrow (placed 5)
unfolding serialize equal total_len
narrow-TooLong = record {
  full_succeeds = (refl, refl);
  below_limit = omega arith;
  serialized = refl;
  too_long = omega (arith, length-serialize_binary (record insert_item { position = 5 }));
  not_sync = refl;
}

write_event-panics_later_example :
    (v : Writer) × (write_event table_text all_fine insert_item narrow ≡ ran v none)
    × ((f : FlushOutcome) → flush_buffer f v ≡ panicked)
write_event-panics_later_example =
    write_event-panics_later table_text all_fine insert_item narrow (placed 5) narrow-TooLong
      narrow-IsLogging

-- The writer behind its `Close`.
abbrev shut_down : Writer
shut_down = record five { file = some (record { number = 1; closed = true }); buf_pos = 0 }

shut_down-Late : Late table_text insert_item shut_down (placed 5)
unfolding serialize equal total_len
shut_down-Late = record {
  closed = (record { number = 1; closed = true }, refl, refl);
  below_limit = omega arith;
  serialized = refl;
  some_bytes = omega (arith, length-serialize_binary (record insert_item { position = 5 }));
  fits = omega (arith, length-serialize_binary (record insert_item { position = 5 }));
  not_sync = refl;
}

write_event-Late_example :
    (v : Writer) × (write_event table_text all_fine insert_item shut_down ≡ ran v none)
    × (v.disk ≡ shut_down.disk)
    × ((f : FlushOutcome) → flush_buffer f v ≡ ran v (some write_failed))
write_event-Late_example =
    write_event-Late table_text all_fine insert_item shut_down (placed 5) shut_down-Late
