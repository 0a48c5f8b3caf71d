-- ===== src/Binlog/Writer/Queue.antt =====
-- pkg/binlog/binlog.go: `Write`, the channel between `Write` and `asyncWriter`, and `Close`.
pub mod Order
pub mod Closing
use my_proxy.Base.{
  ℕ, Bool, true, false, List, [], ◌∷◌, ◌++◌, Option, none, some, length, ltb, if◌then◌else◌,
}
use my_proxy.Binlog.Event.{EventType, BinlogEvent, Config}
use my_proxy.Binlog.Writer.{Writer, Ran, ran, ◌>>=◌, FlushOutcome, flush_buffer, close_handle}

-- The part of the writer that `Write` uses: the channel of 10000 events and the flag.
pub record Front : Type 0 where
  pub config : Config
  pub queue : List BinlogEvent
  pub closed : Bool

pub data Refusal : Type 0 where
  channel_full : Refusal

abbrev pub capacity : ℕ
capacity = 10000

-- The switch on the event's type.
unfoldable pub wanted : Config → EventType → Bool
wanted c EventType.insert_row = c.log_dml
wanted c EventType.update_row = c.log_dml
wanted c EventType.delete_row = c.log_dml
wanted c EventType.ddl = c.log_ddl
wanted c EventType.query = c.log_select
wanted c _ = true

unfoldable pub write : BinlogEvent → Front → Front × Option Refusal
write e f =
    if f.closed
    then (f, none)
    else if wanted f.config e.event_type
    then if ltb (length f.queue) capacity
      then (record f { queue = f.queue ++ e ∷ [] }, none)
      else (f, some channel_full)
    else (f, none)

-- `Close`, with the flag as `Swap` finds it. The close of the file may fail too; its error is
-- the result, and nothing more is changed.
unfoldable pub close : Bool → FlushOutcome → Writer → Ran
close was_closed o w = if was_closed then ran w none else do
  flushed ← flush_buffer o w
  ran (record flushed { file = close_handle flushed.file }) none
