-- ===== src/Binlog/Writer/Oversized.antt =====
-- An event that is longer than the buffer.
use my_proxy.Base.{
  ℕ, ◌+◌, ◌<◌, ◌≤◌, ◌≡◌, ap, ◌-◌, true, false, Option, none, some, Bytes, codes, length, ltb, leb,
  lt→ltb, arith, length-append, length-take_of_le, length-take-le, length-drop, ◌∙◌,
}
use my_proxy.Base.Eq.{equal}
use my_proxy.Base.Int.{bits}
use my_proxy.Binlog.Event.{BinlogEvent}
use my_proxy.Binlog.Writer.{
  Writer, ran, panicked, FlushOutcome, EventOutcomes, flush_buffer, rotate_if_full, ensure_room,
  stored, store_data, append_data, serialize, write_event,
}
use my_proxy.Base.Copy.{splice}
use my_proxy.Binlog.Writer.Log.{IsLogging, Succeeds, flush_buffer-log}

splice-le :
    (at : ℕ) (bs buffer : Bytes)
    → at ≤ length buffer
    → length buffer ≤ at + length bs
    → length (splice at bs buffer) ≤ length buffer
unfolding splice
splice-le at bs buffer h k = omega (
  arith,
  length-append {0},
  length-take_of_le at buffer h,
  length-take-le (length buffer - at) bs,
  length-drop (at + length bs) buffer,
)

overfull-panics :
    (f : FlushOutcome) (bs : Bytes) (w : Writer)
    → w.buf_pos ≡ 0
    → length w.buffer < length bs
    → flush_buffer f (stored bs w) ≡ panicked
unfolding flush_buffer
overfull-panics f bs w empty long =
    ground (arith, splice-le w.buf_pos bs w.buffer (omega arith) (omega arith))

-- An event of more bytes than the buffer, in a mode that is not "sync".
pub record TooLong (marshal : BinlogEvent → Option Bytes) (o : EventOutcomes) (e : BinlogEvent)
    (w : Writer) (bs : Bytes) : Type 0 where
  pub full_succeeds : Succeeds o.full_flush
  pub below_limit : w.position < bits 64 w.config.max_file_size
  pub serialized : serialize marshal w.config w.position e ≡ some bs
  pub too_long : length w.buffer < length bs
  pub not_sync : equal w.config.sync_mode (codes "sync") ≡ false

module _ (marshal : BinlogEvent → Option Bytes) where
  -- Below the size limit, where the flush before it succeeds, `writeEvent` accepts an event that
  -- is longer than the buffer, with no error, and the next flush panics whatever the file does.
  pub write_event-panics_later :
      (o : EventOutcomes) (e : BinlogEvent) (w : Writer) (bs : Bytes)
      → TooLong marshal o e w bs
      → IsLogging w
      → (v : Writer) × (write_event marshal o e w ≡ ran v none)
        × ((f : FlushOutcome) → flush_buffer f v ≡ panicked)
  unfolding write_event rotate_if_full append_data ensure_room store_data
  write_event-panics_later o e w bs k h =
      let stay : leb (bits 64 w.config.max_file_size) w.position ≡ false =
        ground (arith, k.below_limit) in
      let full : ltb (length w.buffer) (w.buf_pos + length bs) ≡ true =
        lt→ltb _ _ (omega (arith, k.too_long)) in
      let (u, done, a, empty) = flush_buffer-log o.full_flush w k.full_succeeds h in
      let inside : ltb (length u.buffer) u.buf_pos ≡ false = ground arith in
      let other : equal u.config.sync_mode (codes "sync") ≡ false =
        ap (λ c. equal c.sync_mode (codes "sync")) a.same_config ∙ k.not_sync in
      (
        stored bs u,
        rw (stay, k.serialized, full, done, inside, other),
        λ f. overfull-panics f bs u empty (omega (arith, k.too_long, a.same_size)),
      )
