-- ===== src/Replication/Tests.antt =====
-- The server on concrete changes: a transaction that inserts one row, and its clients.
use my_proxy.Base.{
  All, ℕ, ◌+◌, ◌%◌, ◌^◌, ◌<◌, ◌≡◌, refl, ap, Bool, true, false, List, [], ◌∷◌, ◌++◌, Option, none,
  some, Bytes, codes, take, drop, arith,
}
use my_proxy.Base.Dict.{lookup, insert, delete}
use my_proxy.Base.Eq.{nat_eq}
use my_proxy.Base.Ordered.{Ordered}
use my_proxy.Base.Int.{pos}
use my_proxy.Base.Wire.{put_le, get_le, get_le-put_le}
use my_proxy.Encoder.Columns.{ColumnType, Formats, encode_column_meta}
use my_proxy.Encoder.Columns.Bitmap.{bit_at}
use my_proxy.Encoder.Events.{Event, Body, encode_table_map_event}
use my_proxy.Encoder.Events.Tables.{read_table_map}
use my_proxy.Encoder.Temporal.{Clock}
use my_proxy.Encoder.Value.{Value, Time}
use my_proxy.Replication.Changes.{ChangeType, ChangeEvent, Core, Now}
use my_proxy.Replication.Events.{
  event_of, table_map_with, columns_of, create_table_map_event, convert_all, create_query_event,
  create_gtid_event, create_xid_event, convert_to_mysql_events,
}
use my_proxy.Replication.Events.Tables.{is_nullable, FitsChange, create_table_map_event-read}
use my_proxy.Replication.Events.Transactions.{gnos, transactions, convert_all-gnos}
use my_proxy.Replication.Clients.{
  DumpClient, Server, Input, process_all, run_inputs, step, handle_binlog_dump, remove_dump_client,
  send_binlog_packet,
}
use my_proxy.Replication.Clients.Weights.{
  dumps, IsWeight, weight_of_clients, weight_of_conns, weight_of_dumps,
}
use my_proxy.Replication.Clients.Accounts.{run_inputs-registered_or_closed}
use my_proxy.Replication.Clients.Delivery.{packets, Taken, process_all-packets}
use my_proxy.Replication.Clients.Encodings.{Encodes}
use my_proxy.Replication.Clients.Packets.{read_packets, numbered, read_packets-packets}

-- Lengths in eight bytes, for tests.
abbrev wide : ℕ → Bytes
wide n = put_le 8 n

abbrev read_wide : Bytes → ℕ × Bytes
read_wide bs = (get_le (take 8 bs), drop 8 bs)

read_wide-wide : (n : ℕ) (rest : Bytes) → n < 2 ^ 64 → read_wide (wide n ++ rest) ≡ (n, rest)
unfolding put_le
read_wide-wide n rest h = ap (λ k. (k, rest)) (get_le-put_le 8 n h)

-- The code of every type, for tests.
abbrev same_code : ColumnType → ℕ
same_code t = 15

abbrev core : Core
core = record {
  server_id = 1;
  server_uuid = codes "00112233-4455-6677-8899-aabbccddeeff";
  gtid_enabled = true;
  transaction_id = 4;
  position_name = codes "mysql-bin.000001";
  position = 4;
}

abbrev now : Now
now = record { seconds = 1700000000; nanoseconds = 1700000000000000000 }

-- A row of a number and a null into a table of two columns.
abbrev inserted : ChangeEvent
inserted = record {
  change_type = ChangeType.insert;
  timestamp = 0;
  database = codes "pg";
  schema = codes "shop";
  table = codes "items";
  table_id = 108;
  columns =
      record {
        name = codes "id";
        column_type = ColumnType.tiny;
        nullable = false;
        unsigned = false;
      }
      ∷ record {
        name = codes "note";
        column_type = ColumnType.varchar;
        nullable = true;
        unsigned = false;
      }
      ∷ [];
  old_values = none;
  new_values = some (Value.int64 (pos 7)) ∷ none ∷ [];
  lsn = 16;
}

abbrev of_type : ChangeType → ChangeEvent
of_type t = record inserted { change_type = t; columns = []; new_values = [] }

inserted-FitsChange : FitsChange inserted
inserted-FitsChange = record {
  table_id_fits = omega arith;
  schema_fits = omega arith;
  table_fits = omega arith;
  columns_fit = omega arith;
}

create_table_map_event-read_example :
    (bitmap : Bytes) × (create_table_map_event core now inserted
      ≡ some (event_of core now 19 (Body.table_map (table_map_with inserted bitmap))))
    × (read_table_map read_wide
          (encode_table_map_event wide same_code (table_map_with inserted bitmap))
        ≡ record {
          table_id = 108;
          flags = 0;
          schema = codes "shop";
          table = codes "items";
          types = 15 ∷ 15 ∷ [];
          metadata =
              encode_column_meta
                (columns_of inserted.columns).column_types
                (columns_of inserted.columns).column_meta;
          null_bitmap = bitmap;
        })
    × ((j : ℕ) → bit_at j bitmap ≡ is_nullable 0 inserted.columns j)
create_table_map_event-read_example =
    create_table_map_event-read wide read_wide same_code core now inserted read_wide-wide
      inserted-FitsChange

abbrev noon : Time
noon = record {
  year = 2024;
  month = 5;
  day = 17;
  hour = 12;
  minute = 0;
  second = 0;
  nanosecond = 0;
  unix = pos 1715947200;
}

-- Scanners for tests, which read every text as the same time.
abbrev one_clock : Clock
one_clock = record {
  scan_date = λ s. (pos 2024, pos 5, pos 17);
  scan_time = λ s. (pos 12, pos 0, pos 0);
  scan_datetime = λ s. ((pos 2024, pos 5, pos 17), (pos 12, pos 0, pos 0));
  scan_int = λ s. pos 0;
  format_date = λ t. codes "2024-05-17";
  format_micros = λ t. codes "12:00:00.000000";
  format_datetime = λ t. codes "2024-05-17 12:00:00";
  parse = λ s. noon;
  split_dot = λ s. (s, none);
}

abbrev formats : Formats
formats = record {
  clock = one_clock;
  sprint = λ v. [];
  format_float = λ v n. [];
  to_float32 = λ t. t;
  to_float64 = λ t. t;
}

abbrev changes : List (Now × ChangeEvent)
changes =
    (now, of_type ChangeType.begin)
    ∷ (now, inserted)
    ∷ (now, of_type ChangeType.commit)
    ∷ (now, of_type ChangeType.truncate)
    ∷ []

convert_all-gnos_example :
    (t : Core) × (events : List Event) × (convert_all core changes ≡ some (t, events))
    × (gnos events ≡ 5 ∷ 6 ∷ [])
    × (t.transaction_id ≡ 6)
unfolding transactions
convert_all-gnos_example = convert_all-gnos core changes refl (omega arith)

-- A connection is what has been received; every write succeeds.
abbrev append_to : Bytes → Bytes → Bytes × Bool
append_to received p = (received ++ p, true)

abbrev keep : Bytes → Bytes
keep received = received

abbrev Always : Bytes → Type 0
Always received = received ≡ received

append_to-Taken : (conn p : Bytes) → Always conn → Taken append_to Always keep conn p
append_to-Taken conn p h = record { accepted = refl; still_healthy = refl; all_received = refl }

-- The first byte of an encoding, for tests: the code of the event.
abbrev code_byte : Event → Option Bytes
code_byte e = some (e.header.event_type ∷ [])

abbrev fresh : DumpClient Bytes
fresh = record {
  id = 1;
  server_id = 9;
  conn = [];
  position = (codes "mysql-bin.000001", 4);
  start_time = 0;
  events_sent = 0;
  seq_num = 255;
}

abbrev serving : Server Bytes
serving = record { core = core; clients = (1, fresh) ∷ []; next_client_id = 1; closed = [] }

abbrev one_transaction : List (Now × ChangeEvent)
one_transaction = (now, of_type ChangeType.begin) ∷ (now, of_type ChangeType.commit) ∷ []

abbrev in_transaction : Core
in_transaction = record core { transaction_id = 5; position = 204 }

abbrev after : Core
after = record core { transaction_id = 5; position = 304 }

abbrev created : List Event
created =
    create_gtid_event (record core { transaction_id = 5 }) now
    ∷ create_query_event (record core { transaction_id = 5 }) now (codes "BEGIN")
    ∷ create_xid_event in_transaction now
    ∷ []

created-Encodes : Encodes code_byte created ((33 ∷ []) ∷ (2 ∷ []) ∷ (16 ∷ []) ∷ [])
unfolding create_gtid_event create_query_event create_xid_event
created-Encodes =
    Encodes.next_event _ _ _ _ refl
      (Encodes.next_event _ _ _ _ refl (Encodes.next_event _ _ _ _ refl Encodes.no_events))

process_all-packets_example :
    (t : Server Bytes) × (d : DumpClient Bytes) × (process_all append_to keep code_byte
        one_transaction serving
      ≡ some t)
    × (t.core ≡ after)
    × (lookup 1 t.clients ≡ some d)
    × (d.conn ≡ packets 255 ((33 ∷ []) ∷ (2 ∷ []) ∷ (16 ∷ []) ∷ []))
    × (d.events_sent % 2 ^ 64 ≡ 3)
unfolding convert_all convert_to_mysql_events lookup
process_all-packets_example =
    process_all-packets append_to keep code_byte Always keep one_transaction serving after created
      ((33 ∷ []) ∷ (2 ∷ []) ∷ (16 ∷ []) ∷ []) 1 fresh append_to-Taken refl created-Encodes refl refl

read_packets-packets_example :
    read_packets 2 (packets 255 ((33 ∷ []) ∷ (2 ∷ []) ∷ []) ++ [])
    ≡ some ((255, 0 ∷ 33 ∷ []) ∷ (0, 0 ∷ 2 ∷ []) ∷ [], [])
unfolding numbered
read_packets-packets_example =
    read_packets-packets 255 ((33 ∷ []) ∷ (2 ∷ []) ∷ []) [] (omega arith, (omega arith, tt))

-- Connections that are numbers, the weight of each.
abbrev asked : List (Now × Input ℕ)
asked =
    (now, Input.dump 5 9 (codes "mysql-bin.000001", 4))
    ∷ (now, Input.dump 6 10 (codes "mysql-bin.000001", 4))
    ∷ (now, Input.done 1)
    ∷ []

abbrev numbered_write : ℕ → Bytes → ℕ × Bool
numbered_write conn bs = (conn, true)

abbrev itself : ℕ → ℕ
itself conn = conn

itself-IsWeight : IsWeight numbered_write itself itself
itself-IsWeight = record { written = λ conn bs. refl; closed = λ conn. refl }

abbrev second_client : DumpClient ℕ
second_client = record {
  id = 2;
  server_id = 10;
  conn = 6;
  position = (codes "mysql-bin.000001", 4);
  start_time = 1700000000;
  events_sent = 0;
  seq_num = 2;
}

abbrev with_one : Server ℕ
with_one = record {
  core = core;
  clients = (2, second_client) ∷ [];
  next_client_id = 2;
  closed = 5 ∷ [];
}

run_inputs-registered_or_closed_example :
    (weight_of_clients itself with_one.clients + weight_of_conns itself with_one.closed
      ≡ weight_of_dumps itself asked)
    × All (λ conn. (c : ℕ) × (conn ≡ itself c)) with_one.closed
    × Ordered 0 2 ((2, second_client) ∷ [])
    × (with_one.next_client_id ≡ dumps asked)
unfolding run_inputs step handle_binlog_dump send_binlog_packet remove_dump_client lookup insert
    delete
run_inputs-registered_or_closed_example =
    run_inputs-registered_or_closed numbered_write itself itself code_byte core asked with_one
      itself-IsWeight refl (omega arith)
