-- ===== src/Binlog/Writer.antt =====
-- pkg/binlog/binlog.go: the `Writer` without its goroutines: `flushBuffer`, `createNewFile`,
-- `rotate` and `writeEvent`. Each operation takes the outcomes of the system calls that it makes.
-- A result is the writer as the call leaves it and the error it returns, or a run-time panic.
pub mod Buffer
pub mod Safety
pub mod Log
pub mod Rotation
pub mod Oversized
pub mod Queue
pub mod Startup
use my_proxy.Base.{
  ℕ, ◌+◌, ◌-◌, ◌^◌, ◌%◌, Bool, true, false, ◌||◌, ◌&&◌, List, [], ◌∷◌, ◌++◌, Option, none, some,
  Bytes, codes, length, take, drop, ◌==◌, ltb, leb, if◌then◌else◌,
}
use my_proxy.Base.Copy.{splice}
use my_proxy.Base.Eq.{equal}
use my_proxy.Base.Int.{bits}
use my_proxy.Binlog.Disk.{Disk, content, append_file}
use my_proxy.Binlog.Event.{BinlogEvent, Config}
use my_proxy.Binlog.Serial.{serialize_binary}

pub record Handle : Type 0 where
  pub number : ℕ
  pub closed : Bool

-- `buffer` and `buf_pos` are the slice and its fill; `file` is nil before the first file.
pub record Writer : Type 0 where
  pub config : Config
  pub file : Option Handle
  pub buffer : Bytes
  pub buf_pos : ℕ
  pub position : ℕ
  pub file_num : ℕ
  pub disk : Disk

pub data Error : Type 0 where
  write_failed sync_failed open_failed header_failed marshal_failed : Error

pub data Ran : Type 0 where
  ran : Writer → Option Error → Ran
  panicked : Ran

-- `if err := m; err != nil { return err }` and what follows it.
infixl 5 ◌>>=◌
abbrev pub ◌>>=◌ : Ran → (Writer → Ran) → Ran
ran w none >>= f = f w
ran w (some e) >>= f = ran w (some e)
panicked >>= f = panicked

-- A failing `Write` has written the first `wrote` bytes.
pub record FlushOutcome : Type 0 where
  pub write_fails : Bool
  pub wrote : ℕ
  pub sync_fails : Bool

pub record CreateOutcome : Type 0 where
  pub open_fails : Bool
  pub stat_fails : Bool
  pub header_fails : Bool
  pub header_wrote : ℕ
  pub created : Bytes

-- The `fsync` branch of `flushBuffer`, and the reset of the fill.
unfoldable pub sync_file : FlushOutcome → Writer → Ran
sync_file o w =
    if equal w.config.sync_mode (codes "fsync") && o.sync_fails
    then ran w (some sync_failed)
    else ran (record w { buf_pos = 0 }) none

unfoldable pub write_file : FlushOutcome → Bytes → Writer → Option Handle → Ran
write_file o bs w none = ran w (some write_failed)
write_file o bs w (some h) =
    if h.closed
    then ran w (some write_failed)
    else if o.write_fails
    then ran (record w { disk = append_file h.number (take o.wrote bs) w.disk }) (some write_failed)
    else sync_file o (record w { disk = append_file h.number bs w.disk })

-- `w.buffer[:w.bufPos]` panics where the fill is past the end of the slice.
unfoldable pub flush_buffer : FlushOutcome → Writer → Ran
flush_buffer o w =
    if w.buf_pos == 0
    then ran w none
    else if ltb (length w.buffer) w.buf_pos
    then panicked
    else write_file o (take w.buf_pos w.buffer) w w.file

unfoldable pub header : Bytes → Bytes → Bytes
header created format =
    codes "# AProxy Binlog v1.0\n# Created: "
    ++ (created ++ (codes "\n# Format: " ++ (format ++ codes "\n")))

abbrev pub handle_on : ℕ → Handle
handle_on n = record { number = n; closed = false }

-- The part of `createNewFile` behind `OpenFile`; `existing` is the content of the file.
unfoldable pub init_file : CreateOutcome → Writer → Bytes → Ran
init_file o w [] =
    let text = header o.created w.config.format in
    if o.header_fails
    then ran (record w { disk = append_file w.file_num (take o.header_wrote text) w.disk })
        (some header_failed)
    else ran
        (record w {
          disk = append_file w.file_num text w.disk;
          position = length text;
          file = some (handle_on w.file_num);
        })
        none
init_file o w existing = ran (record w { file = some (handle_on w.file_num) }) none

-- The error of `Stat` is dropped: where it fails, `info` is nil, and `info.Size()` panics.
unfoldable pub create_new_file : CreateOutcome → Writer → Ran
create_new_file o w =
    if o.open_fails
    then ran w (some open_failed)
    else if o.stat_fails
    then panicked
    else init_file o w (content w.file_num w.disk)

abbrev pub close_handle : Option Handle → Option Handle
close_handle none = none
close_handle (some h) = some (record h { closed = true })

-- The removal of old files, which `rotate` starts in a goroutine, is not part of the call.
unfoldable pub rotate : FlushOutcome → CreateOutcome → Writer → Ran
rotate f o w = do
  flushed ← flush_buffer f w
  create_new_file o (record flushed {
    file = close_handle flushed.file;
    file_num = (flushed.file_num + 1) % 2 ^ 32;
    position = 0;
  })

pub record EventOutcomes : Type 0 where
  pub rotate_flush : FlushOutcome
  pub create : CreateOutcome
  pub full_flush : FlushOutcome
  pub last_flush : FlushOutcome

-- The test for rotation at the head of `writeEvent`.
unfoldable pub rotate_if_full : EventOutcomes → Writer → Ran
rotate_if_full o w =
    if leb (bits 64 w.config.max_file_size) w.position
    then rotate o.rotate_flush o.create w
    else ran w none

unfoldable pub ensure_room : EventOutcomes → ℕ → Writer → Ran
ensure_room o n w =
    if ltb (length w.buffer) (w.buf_pos + n) then flush_buffer o.full_flush w else ran w none

-- The copy into the buffer and the two counters.
abbrev pub stored : Bytes → Writer → Writer
stored bs w = record w {
  buffer = splice w.buf_pos bs w.buffer;
  buf_pos = w.buf_pos + length bs;
  position = (w.position + length bs) % 2 ^ 64;
}

-- The flush of the mode "sync" follows.
unfoldable pub store_data : EventOutcomes → Bytes → Writer → Ran
store_data o bs w =
    if ltb (length w.buffer) w.buf_pos
    then panicked
    else if equal w.config.sync_mode (codes "sync")
    then flush_buffer o.last_flush (stored bs w)
    else ran (stored bs w) none

unfoldable pub append_data : EventOutcomes → Writer → Option Bytes → Ran
append_data o w none = ran w (some marshal_failed)
append_data o w (some bs) = do roomy ← ensure_room o (length bs) w; store_data o bs roomy

-- `marshal` is `json.Marshal`; `none` is its error.
module _ (marshal : BinlogEvent → Option Bytes) where
  abbrev pub line_of : Option Bytes → Option Bytes
  line_of none = none
  line_of (some text) = some (text ++ b'\n' ∷ [])

  -- What is written for an event once its position is set.
  unfoldable pub serialize : Config → ℕ → BinlogEvent → Option Bytes
  serialize c at e =
      let placed = record e { position = at } in
      if equal c.format (codes "json")
      then line_of (marshal placed)
      else some (serialize_binary placed)

  unfoldable pub write_event : EventOutcomes → BinlogEvent → Writer → Ran
  write_event o e w = do
    ready ← rotate_if_full o w
    append_data o ready (serialize ready.config ready.position e)
