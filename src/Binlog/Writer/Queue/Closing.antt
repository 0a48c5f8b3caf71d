-- ===== src/Binlog/Writer/Queue/Closing.antt =====
-- `Close` does not wait for `asyncWriter`, which drains the channel behind it.
use mathlib.Core.List.{append-nil}
use my_proxy.Base.{
  ◌+◌, ◌<◌, ◌≤◌, ◌≡◌, refl, ap, sym, true, false, Option, none, some, Bytes, codes, length, ltb,
  leb, arith, ◌∙◌,
}
use my_proxy.Base.Eq.{equal}
use my_proxy.Base.Int.{bits}
use my_proxy.Binlog.Disk.{content}
use my_proxy.Binlog.Event.{BinlogEvent}
use my_proxy.Binlog.Writer.{
  Handle, Writer, write_failed, ran, FlushOutcome, EventOutcomes, flush_buffer, write_file,
  rotate_if_full, ensure_room, stored, store_data, append_data, serialize, write_event,
  close_handle,
}
use my_proxy.Binlog.Writer.Buffer.{length-splice}
use my_proxy.Binlog.Writer.Log.{log, IsLogging, Succeeds, content_of_empty, flush_buffer-log}
use my_proxy.Binlog.Writer.Queue.{close}

-- An event that reaches the writer behind the close.
pub record Late (marshal : BinlogEvent → Option Bytes) (e : BinlogEvent) (w : Writer) (bs : Bytes)
    : Type 0 where
  pub closed : (h : Handle) × (w.file ≡ some h) × (h.closed ≡ true)
  pub below_limit : w.position < bits 64 w.config.max_file_size
  pub serialized : serialize marshal w.config w.position e ≡ some bs
  pub some_bytes : 0 < length bs
  pub fits : w.buf_pos + length bs ≤ length w.buffer
  pub not_sync : equal w.config.sync_mode (codes "sync") ≡ false

-- With a flush that succeeds, the first `Close` leaves the whole log in the file, the buffer empty
-- and the file closed.
pub close_lem :
    (o : FlushOutcome) (w : Writer)
    → Succeeds o
    → IsLogging w
    → (v : Writer) × (close false o w ≡ ran v none)
      × (content w.file_num v.disk ≡ log w)
      × (v.buf_pos ≡ 0)
      × (v.file ≡ some (record { number = w.file_num; closed = true }))
unfolding close
close_lem o w s h =
    let (u, done, a, empty) = flush_buffer-log o w s h in
    (
      record u { file = close_handle u.file },
      rw done,
      ap (λ n. content n u.disk) (sym a.same_file)
          ∙ sym (content_of_empty u empty)
          ∙ a.log_is
          ∙ append-nil (log w),
      empty,
      ground arith,
    )

flush_buffer_closed :
    (f : FlushOutcome) (v : Writer) (h : Handle)
    → v.file ≡ some h
    → h.closed ≡ true
    → 0 < v.buf_pos
    → v.buf_pos ≤ length v.buffer
    → flush_buffer f v ≡ ran v (some write_failed)
unfolding flush_buffer write_file
flush_buffer_closed f v h e shut some_left fill = ground arith

module _ (marshal : BinlogEvent → Option Bytes) where
  -- Behind a close, below the size limit, in a mode that is not "sync", `writeEvent` accepts an event that is
  -- not empty and fits the room that is left in the buffer, with no error, and writes nothing, and
  -- every later flush fails and writes nothing.
  pub write_event-Late :
      (o : EventOutcomes) (e : BinlogEvent) (w : Writer) (bs : Bytes)
      → Late marshal e w bs
      → (v : Writer) × (write_event marshal o e w ≡ ran v none)
        × (v.disk ≡ w.disk)
        × ((f : FlushOutcome) → flush_buffer f v ≡ ran v (some write_failed))
  unfolding write_event rotate_if_full append_data ensure_room store_data
  write_event-Late o e w bs k =
      let (h, opened, shut) = k.closed in
      let stay : leb (bits 64 w.config.max_file_size) w.position ≡ false =
        ground (arith, k.below_limit) in
      let roomy : ltb (length w.buffer) (w.buf_pos + length bs) ≡ false = ground (arith, k.fits) in
      let inside : ltb (length w.buffer) w.buf_pos ≡ false = ground (arith, k.fits) in
      (
        stored bs w,
        rw (stay, k.serialized, roomy, inside, k.not_sync),
        refl,
        λ f.
            flush_buffer_closed f (stored bs w) h opened shut (omega (arith, k.some_bytes))
              (omega (arith, k.fits, length-splice w.buf_pos bs w.buffer k.fits)),
      )
