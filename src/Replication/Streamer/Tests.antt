-- ===== src/Replication/Streamer/Tests.antt =====
-- The streamer on a table of two columns, a lost connection, and a checkpoint in a directory.
use my_proxy.Base.{
  ℕ, ◌≡◌, refl, sym, ap, Bool, true, false, List, [], ◌∷◌, Option, none, some, Bytes, codes, ◌⊎◌,
  arith,
}
use my_proxy.Base.Dict.{Dict}
use my_proxy.Base.Eq.{equal}
use my_proxy.Base.Int.{pos, negsuc}
use my_proxy.Encoder.Columns.{Formats, encode_value}
use my_proxy.Encoder.Integers.Laws.{read_int}
use my_proxy.Encoder.Temporal.{Clock}
use my_proxy.Encoder.Value.{Time}
use my_proxy.Replication.Changes.{ChangeEvent}
use my_proxy.Replication.Streamer.{TupleColumn, TableInfo, Message, decode_tuple_data}
use my_proxy.Replication.Streamer.Backoff.{missing, closed, Reconnect, Round, Ended, stream_loop}
use my_proxy.Replication.Streamer.Retries.{
  is_missing, is_closed, EndsWithin, stream_loop-EndsWithin,
}
use my_proxy.Replication.Streamer.Checkpoint.{
  Checkpoint, CheckpointError, Places, Outcomes, load_checkpoint, save_checkpoint,
  load_checkpoint-save_checkpoint,
}
use my_proxy.Replication.Streamer.Integers.{IsPgInteger, read_int-convert_pg_value}
use my_proxy.Replication.Streamer.Types.{Scanners, convert_pg_value, pg_type_to_mysql_type}
use my_proxy.Replication.Streamer.Unchanged.{IsGiven, Sends, decode_tuple_data-unchanged}

-- Scanners for tests, which read every text as -70000.
abbrev scanners : Scanners
scanners = record { scan_int = λ w s. negsuc 69999; scan_float32 = λ s. 0; scan_float64 = λ s. 0 }

abbrev epoch : Time
epoch = record {
  year = 1970;
  month = 1;
  day = 1;
  hour = 0;
  minute = 0;
  second = 0;
  nanosecond = 0;
  unix = pos 0;
}

abbrev epoch_clock : Clock
epoch_clock = record {
  scan_date = λ s. (pos 1970, pos 1, pos 1);
  scan_time = λ s. (pos 0, pos 0, pos 0);
  scan_datetime = λ s. ((pos 1970, pos 1, pos 1), (pos 0, pos 0, pos 0));
  scan_int = λ s. pos 0;
  format_date = λ t. codes "1970-01-01";
  format_micros = λ t. codes "00:00:00.000000";
  format_datetime = λ t. codes "1970-01-01 00:00:00";
  parse = λ s. epoch;
  split_dot = λ s. (s, none);
}

abbrev epoch_formats : Formats
epoch_formats = record {
  clock = epoch_clock;
  sprint = λ v. [];
  format_float = λ v n. [];
  to_float32 = λ t. t;
  to_float64 = λ t. t;
}

read_int-convert_pg_value_example :
    read_int 31 (
      encode_value epoch_formats
        (convert_pg_value scanners (codes "-70000") 23)
        (pg_type_to_mysql_type 23)
        0)
    ≡ negsuc 69999
read_int-convert_pg_value_example =
    read_int-convert_pg_value scanners epoch_formats 23 31 (codes "-70000") 0 IsPgInteger.int4
      (ground arith)

abbrev notes : TableInfo
notes = record {
  id = 7;
  schema = codes "public";
  name = codes "notes";
  columns =
      record { name = codes "id"; data_type = 23; nullable = false }
      ∷ record { name = codes "body"; data_type = 25; nullable = false }
      ∷ [];
}

decode_tuple_data-unchanged_example :
    decode_tuple_data scanners notes
      (some (TupleColumn.text (codes "2") ∷ TupleColumn.unchanged ∷ []))
      (decode_tuple_data scanners notes
        (some (TupleColumn.text (codes "1") ∷ TupleColumn.text (codes "long") ∷ []))
        none)
    ≡ decode_tuple_data scanners notes
        (some (TupleColumn.text (codes "2") ∷ TupleColumn.text (codes "long") ∷ []))
        none
decode_tuple_data-unchanged_example =
    decode_tuple_data-unchanged scanners notes
      (TupleColumn.text (codes "1") ∷ TupleColumn.text (codes "long") ∷ [])
      (TupleColumn.text (codes "2") ∷ TupleColumn.text (codes "long") ∷ [])
      (TupleColumn.text (codes "2") ∷ TupleColumn.unchanged ∷ [])
      (Sends.given_column (TupleColumn.text (codes "1")) (TupleColumn.text (codes "2")) _ _ _
        (IsGiven.is_text (codes "2"))
        (Sends.same_column (TupleColumn.text (codes "long")) _ _ _ (IsGiven.is_text (codes "long"))
          Sends.no_columns))

-- A parser for tests: every relation is the table, and every row has a null.
abbrev parse : Bytes → Option Message
parse [] = none
parse (c ∷ wal) = elim wal [
  | [] ↦ some (
      Message.relation 7 (codes "public") (codes "notes")
        ((codes "id", 23) ∷ (codes "body", 25) ∷ []))
  | d ∷ more ↦
      some (Message.insert_row 7 (some (TupleColumn.text (codes "2") ∷ TupleColumn.null ∷ [])))
]

abbrev always : List ChangeEvent → Bool
always sent = true

abbrev stream : List (ℕ × (ℕ × Bytes))
stream = (0, (16, codes "R")) ∷ (0, (17, codes "B")) ∷ (0, (18, codes "I2")) ∷ []

abbrev twice : Reconnect
twice = record { enabled = true; max_retries = 2; initial_wait = 1000000000; max_wait = 0 }

abbrev lost : Round
lost = record {
  cancelled_before = false;
  finished = false;
  cancelled_after = false;
  cancelled_waiting = false;
  attempt = closed;
}

abbrev unreached : Round
unreached = record lost { attempt = missing }

-- The second round starts with no connection.
no_connection :
    stream_loop twice true 0 1000000000 (unreached ∷ lost ∷ [])
    ≡ (1000000000 ∷ [], some Ended.panicked)
unfolding stream_loop
no_connection = refl

stream_loop-EndsWithin_example :
    EndsWithin 0 2 (stream_loop twice true 0 1000000000 (lost ∷ lost ∷ unreached ∷ []))
stream_loop-EndsWithin_example =
    stream_loop-EndsWithin twice true 0 1000000000 (lost ∷ lost ∷ unreached ∷ []) (omega arith)
      (omega arith) (is_closed, (is_closed, (is_missing, tt))) (omega arith)

-- JSON for tests: the position in one byte, and the slot's name.
abbrev to_json : Checkpoint → Option Bytes
to_json c = some (c.lsn ∷ c.timestamp ∷ c.slot_name)

abbrev from_json : Bytes → Option Checkpoint
from_json (lsn ∷ timestamp ∷ name) =
    some (record { lsn = lsn; timestamp = timestamp; slot_name = name })
from_json _ = none

from_json-to_json :
    (c : Checkpoint) (bytes : Bytes) → to_json c ≡ some bytes → from_json bytes ≡ some c
from_json-to_json c bytes h = ap from (sym h)
  where
    from : Option Bytes → Option Checkpoint
    from none = none
    from (some b) = from_json b

abbrev places : Places
places = record { file = codes "cdc.json"; slot = codes "aproxy" }

-- A write that fails halfway.
abbrev halfway : Outcomes
halfway = record {
  directory_made = true;
  written = false;
  left = 1 ∷ [];
  renamed = false;
  removed = false;
}

abbrev disk : Dict Bytes Bytes
disk = (codes "cdc.json", 5 ∷ 0 ∷ codes "aproxy") ∷ []

load_checkpoint-save_checkpoint_example :
    (((save_checkpoint to_json places halfway 0 9 disk).1 ≡ none)
      × (load_checkpoint from_json places true (save_checkpoint to_json places halfway 0 9 disk).0 4
          ≡ (9, none)))
    ⊎ ((e : CheckpointError) × ((save_checkpoint to_json places halfway 0 9 disk).1 ≡ some e)
        × (load_checkpoint from_json places true
              (save_checkpoint to_json places halfway 0 9 disk).0
              4
            ≡ load_checkpoint from_json places true disk 4))
unfolding equal
load_checkpoint-save_checkpoint_example =
    load_checkpoint-save_checkpoint to_json from_json places halfway 0 9 4 true disk
      from_json-to_json refl
