-- ===== src/Binlog/Writer/Log.antt =====
-- The abstract view of the writer: the log is what the current file holds and what the buffer
-- still has to add. The operations append to it, and the position is its length.
use mathlib.Core.List.{append-nil, append_assoc}
use my_proxy.Base.{
  ℕ, ◌+◌, ◌-◌, ◌^◌, ◌≤◌, ◌<◌, ◌≡◌, ◌≢◌, refl, sym, ap, ◌∙◌, ◌++◌, [], false, Option, none, some,
  Bytes, codes, length, take, drop, length-append, length-take_of_le, take_of_length-le,
  take-append, drop-append, inl, inr, Bool-cases, ltb, leb, ◌==◌, arith,
}
use my_proxy.Base.Eq.{equal}
use my_proxy.Base.Int.{bits}
use my_proxy.Binlog.Disk.{content, append_file, content-append_file_self, content-append_file_ne}
use my_proxy.Binlog.Event.{BinlogEvent}
use my_proxy.Binlog.Writer.{
  Writer, ran, FlushOutcome, EventOutcomes, handle_on, sync_file, write_file, flush_buffer,
  rotate_if_full, ensure_room, stored, store_data, append_data, serialize, write_event,
}
use my_proxy.Base.Copy.{splice}
use my_proxy.Binlog.Writer.Buffer.{length-splice}

unfoldable pub log : Writer → Bytes
log w = content w.file_num w.disk ++ take w.buf_pos w.buffer

-- The current file is open, the fill is within the buffer, and the position is the end of the log.
pub record IsLogging (w : Writer) : Type 0 where
  pub on_file : w.file ≡ some (handle_on w.file_num)
  pub fill : w.buf_pos ≤ length w.buffer
  pub at_end : w.position ≡ length (log w)

-- `v` is `w` with `bs` behind its log, on the same file; the other files are unchanged.
pub record Appended (w : Writer) (bs : Bytes) (v : Writer) : Type 0 where
  pub logging : IsLogging v
  pub log_is : log v ≡ log w ++ bs
  pub same_file : v.file_num ≡ w.file_num
  pub same_config : v.config ≡ w.config
  pub same_size : length v.buffer ≡ length w.buffer
  pub others : (n : ℕ) → n ≢ w.file_num → content n v.disk ≡ content n w.disk

abbrev pub Succeeds : FlushOutcome → Type 0
Succeeds o = (o.write_fails ≡ false) × (o.sync_fails ≡ false)

pub content_of_empty : (w : Writer) → w.buf_pos ≡ 0 → log w ≡ content w.file_num w.disk
unfolding log
content_of_empty w empty = rw empty (append-nil _)

flushed : Writer → Writer
flushed w = record w { disk = append_file w.file_num (take w.buf_pos w.buffer) w.disk; buf_pos = 0 }

log-flushed : (w : Writer) → log (flushed w) ≡ log w
unfolding log flushed
log-flushed w = append-nil _ ∙ content-append_file_self w.file_num (take w.buf_pos w.buffer) w.disk

flushed-Appended : (w : Writer) → IsLogging w → Appended w [] (flushed w)
unfolding flushed
flushed-Appended w h = record {
  logging = record {
    on_file = h.on_file;
    fill = omega arith;
    at_end = h.at_end ∙ ap length (sym (log-flushed w));
  };
  log_is = log-flushed w ∙ sym (append-nil (log w));
  same_file = refl;
  same_config = refl;
  same_size = refl;
  others = λ n ne. content-append_file_ne w.file_num n _ w.disk ne;
}

Appended-none : (w : Writer) → IsLogging w → Appended w [] w
Appended-none w h = record {
  logging = h;
  log_is = sym (append-nil (log w));
  same_file = refl;
  same_config = refl;
  same_size = refl;
  others = λ n ne. refl;
}

-- A flush that succeeds empties the buffer and leaves the log as it is.
pub flush_buffer-log :
    (o : FlushOutcome) (w : Writer)
    → Succeeds o
    → IsLogging w
    → (v : Writer) × (flush_buffer o w ≡ ran v none) × Appended w [] v × (v.buf_pos ≡ 0)
unfolding flush_buffer write_file sync_file flushed
flush_buffer-log o w s h = elim (Bool-cases (w.buf_pos == 0)) [
  | inl none_left ↦ (w, ground arith, Appended-none w h, ground arith)
  | inr some_left ↦ (flushed w, ground arith, flushed-Appended w h, refl)
]

Appended-trans :
    (u v w : Writer) (xs ys : Bytes) → Appended u xs v → Appended v ys w → Appended u (xs ++ ys) w
Appended-trans u v w xs ys a b = record {
  logging = b.logging;
  log_is = b.log_is ∙ ap (λ t. t ++ ys) a.log_is ∙ append_assoc (log u) xs ys;
  same_file = b.same_file ∙ a.same_file;
  same_config = b.same_config ∙ a.same_config;
  same_size = b.same_size ∙ a.same_size;
  others = λ n ne. b.others n (λ e. ne (e ∙ a.same_file)) ∙ a.others n ne;
}

take-splice :
    (at : ℕ) (bs buffer : Bytes)
    → at + length bs ≤ length buffer
    → take (at + length bs) (splice at bs buffer) ≡ take at buffer ++ bs
unfolding splice
take-splice at bs buffer h =
    let front = take at buffer in
    let whole : length (front ++ bs) ≡ at + length bs =
      omega (arith, length-append front bs, length-take_of_le at buffer (omega arith)) in
    rw (take_of_length-le (length buffer - at) bs (omega arith), ← append_assoc front bs _, ← whole)
      (take-append (front ++ bs) _)

log-stored :
    (bs : Bytes) (w : Writer)
    → w.buf_pos + length bs ≤ length w.buffer
    → log (stored bs w) ≡ log w ++ bs
unfolding log
log-stored bs w h =
    rw (take-splice w.buf_pos bs w.buffer h)
      (sym (append_assoc (content w.file_num w.disk) (take w.buf_pos w.buffer) bs))

stored-Appended :
    (bs : Bytes) (w : Writer)
    → w.buf_pos + length bs ≤ length w.buffer
    → length (log w) + length bs < 2 ^ 64
    → IsLogging w
    → Appended w bs (stored bs w)
stored-Appended bs w fits short h = record {
  logging = record {
    on_file = h.on_file;
    fill = omega (arith, length-splice w.buf_pos bs w.buffer fits);
    at_end = omega (arith, ap length (log-stored bs w fits), length-append (log w) bs, h.at_end);
  };
  log_is = log-stored bs w fits;
  same_file = refl;
  same_config = refl;
  same_size = length-splice w.buf_pos bs w.buffer fits;
  others = λ n ne. refl;
}

pub ensure_room-log :
    (o : EventOutcomes) (n : ℕ) (w : Writer)
    → Succeeds o.full_flush
    → n ≤ length w.buffer
    → IsLogging w
    → (v : Writer) × (ensure_room o n w ≡ ran v none)
      × Appended w [] v
      × (v.buf_pos + n ≤ length v.buffer)
unfolding ensure_room
ensure_room-log o n w s fits h = elim (Bool-cases (ltb (length w.buffer) (w.buf_pos + n))) [
  | inl full ↦
      let (v, done, a, empty) = flush_buffer-log o.full_flush w s h in
      (v, rw full done, a, omega (arith, a.same_size))
  | inr roomy ↦ (w, rw roomy, Appended-none w h, ground arith)
]

store_data-log :
    (o : EventOutcomes) (bs : Bytes) (w : Writer)
    → Succeeds o.last_flush
    → w.buf_pos + length bs ≤ length w.buffer
    → length (log w) + length bs < 2 ^ 64
    → IsLogging w
    → (v : Writer) × (store_data o bs w ≡ ran v none) × Appended w bs v
unfolding store_data
store_data-log o bs w s fits short h =
    let a = stored-Appended bs w fits short h in
    let inside : ltb (length w.buffer) w.buf_pos ≡ false = ground arith in
    elim (Bool-cases (equal w.config.sync_mode (codes "sync"))) [
      | inl sync ↦
          let (v, done, b, _) = flush_buffer-log o.last_flush (stored bs w) s a.logging in
          (
            v,
            rw (inside, sync) done,
            rw (append-nil bs) at (Appended-trans w (stored bs w) v bs [] a b),
          )
      | inr other ↦ (stored bs w, rw (inside, other), a)
    ]

pub append_data-log :
    (o : EventOutcomes) (bs : Bytes) (w : Writer)
    → Succeeds o.full_flush
    → Succeeds o.last_flush
    → length bs ≤ length w.buffer
    → length (log w) + length bs < 2 ^ 64
    → IsLogging w
    → (v : Writer) × (append_data o w (some bs) ≡ ran v none) × Appended w bs v
unfolding append_data
append_data-log o bs w s t fits short h =
    let (u, roomy, a, room) = ensure_room-log o (length bs) w s fits h in
    let same : length (log u) ≡ length (log w) =
      ap length a.log_is ∙ ap length (append-nil (log w)) in
    let (v, done, b) = store_data-log o bs u t room (omega arith) a.logging in
    (v, rw roomy done, Appended-trans w u v [] bs a b)

-- An event that is written with no rotation.
pub record CanAppend (marshal : BinlogEvent → Option Bytes) (o : EventOutcomes) (e : BinlogEvent)
    (w : Writer) (bs : Bytes) : Type 0 where
  pub full_succeeds : Succeeds o.full_flush
  pub last_succeeds : Succeeds o.last_flush
  pub below_limit : w.position < bits 64 w.config.max_file_size
  pub serialized : serialize marshal w.config w.position e ≡ some bs
  pub fits : length bs ≤ length w.buffer
  pub short : length (log w) + length bs < 2 ^ 64

module _ (marshal : BinlogEvent → Option Bytes) where
  -- Below the size limit, with flushes that succeed and an event that fits the buffer,
  -- `writeEvent` returns no error, appends exactly the event's bytes to the log, keeps the file
  -- and the invariant, and the event stands in the log at the position that it was given.
  pub write_event-Appended :
      (o : EventOutcomes) (e : BinlogEvent) (w : Writer) (bs : Bytes)
      → CanAppend marshal o e w bs
      → IsLogging w
      → (v : Writer) × (write_event marshal o e w ≡ ran v none)
        × Appended w bs v
        × (drop w.position (log v) ≡ bs)
  unfolding write_event rotate_if_full log
  write_event-Appended o e w bs k h =
      let stay : leb (bits 64 w.config.max_file_size) w.position ≡ false =
        ground (arith, k.below_limit) in
      let (v, done, a) = append_data-log o bs w k.full_succeeds k.last_succeeds k.fits k.short h in
      (v, rw (stay, k.serialized) done, a, rw (a.log_is, h.at_end) (drop-append (log w) bs))
