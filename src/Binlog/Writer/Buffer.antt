-- ===== src/Binlog/Writer/Buffer.antt =====
-- What the operations of the writer leave behind, on every outcome of the system calls.
use my_proxy.Base.{
  ℕ, ◌+◌, ◌-◌, ◌≤◌, ◌≡◌, refl, ap, ◌∙◌, false, codes, [], ◌∷◌, Option, none, some, Bytes, length,
  take, length-append, length-take_of_le, length-drop, take_of_length-le, inl, inr, Bool-cases,
  arith,
}
use my_proxy.Base.Eq.{equal}
use my_proxy.Binlog.Event.{Config}
use my_proxy.Binlog.Disk.{content, append_file}
use my_proxy.Binlog.Writer.{
  Handle, Writer, Ran, ran, panicked, ◌>>=◌, FlushOutcome, CreateOutcome, EventOutcomes, sync_file,
  write_file, flush_buffer, init_file, create_new_file, rotate, rotate_if_full, ensure_room, stored,
  store_data, append_data,
}
use my_proxy.Base.Copy.{splice}

-- The call returns: with no error in a state of `P`, or with an error in a state of `Q`.
abbrev pub Ensures : (Writer → Type 0) → (Writer → Type 0) → Ran → Type 0
Ensures P Q (ran w none) = P w
Ensures P Q (ran w (some e)) = Q w
Ensures P Q panicked = ⊥

pub >>=-Ensures :
    (P Q R : Writer → Type 0) (m : Ran) (f : Writer → Ran)
    → Ensures P Q m
    → ((w : Writer) → P w → Ensures R Q (f w))
    → Ensures R Q (m >>= f)
>>=-Ensures P Q R (ran w none) f h k = k w h
>>=-Ensures P Q R (ran w (some e)) f h k = h
>>=-Ensures P Q R panicked f h k = h

pub Ensures-weaken :
    (P P' Q : Writer → Type 0) (m : Ran)
    → ((w : Writer) → P w → P' w)
    → Ensures P Q m
    → Ensures P' Q m
Ensures-weaken P P' Q (ran w none) k h = k w h
Ensures-weaken P P' Q (ran w (some e)) k h = h
Ensures-weaken P P' Q panicked k h = h

-- The fill of the buffer is within the `n` bytes that it was made with.
pub record Within (n : ℕ) (c : Config) (w : Writer) : Type 0 where
  pub fill : w.buf_pos ≤ n
  pub size : length w.buffer ≡ n
  pub configured : w.config ≡ c

pub record Empty (n : ℕ) (c : Config) (w : Writer) : Type 0 where
  pub within : Within n c w
  pub empty : w.buf_pos ≡ 0

pub length-splice :
    (at : ℕ) (bs buffer : Bytes)
    → at + length bs ≤ length buffer
    → length (splice at bs buffer) ≡ length buffer
unfolding splice
length-splice at bs buffer h = omega (
  arith,
  length-append {0},
  length-take_of_le at buffer (omega arith),
  length-drop (at + length bs) buffer,
  ap length (take_of_length-le (length buffer - at) bs (omega arith)),
)

module _ (n : ℕ) (c : Config) where
  sync_file-Within :
      (o : FlushOutcome) (w : Writer)
      → Within n c w
      → Ensures (Empty n c) (Within n c) (sync_file o w)
  unfolding sync_file
  sync_file-Within o w h = ground arith

  write_file-Within :
      (o : FlushOutcome) (bs : Bytes) (w : Writer) (f : Option Handle)
      → Within n c w
      → Ensures (Empty n c) (Within n c) (write_file o bs w f)
  unfolding write_file
  write_file-Within o bs w none h = h
  write_file-Within o bs w (some f) h =
      ground (arith, sync_file-Within o (record w { disk = append_file f.number bs w.disk }))

  flush_buffer-Within :
      (o : FlushOutcome) (w : Writer)
      → Within n c w
      → Ensures (Empty n c) (Within n c) (flush_buffer o w)
  unfolding flush_buffer
  flush_buffer-Within o w h =
      ground (arith, write_file-Within o (take w.buf_pos w.buffer) w w.file h)

  init_file-Within :
      (o : CreateOutcome) (w : Writer) (existing : Bytes)
      → Empty n c w
      → Ensures (Empty n c) (Within n c) (init_file o w existing)
  unfolding init_file
  init_file-Within o w [] h = ground arith
  init_file-Within o w (b ∷ bs) h = ground arith

  create_new_file-Within :
      (o : CreateOutcome) (w : Writer)
      → o.stat_fails ≡ false
      → Empty n c w
      → Ensures (Empty n c) (Within n c) (create_new_file o w)
  unfolding create_new_file
  create_new_file-Within o w s h =
      ground (arith, init_file-Within o w (content w.file_num w.disk) h)

  rotate-Within :
      (f : FlushOutcome) (o : CreateOutcome) (w : Writer)
      → o.stat_fails ≡ false
      → Within n c w
      → Ensures (Empty n c) (Within n c) (rotate f o w)
  unfolding rotate
  rotate-Within f o w s h =
      >>=-Ensures (Empty n c) (Within n c) (Empty n c) (flush_buffer f w) _
        (flush_buffer-Within f w h) λ v e. create_new_file-Within o _ s (ground arith)

  pub rotate_if_full-Within :
      (o : EventOutcomes) (w : Writer)
      → o.create.stat_fails ≡ false
      → Within n c w
      → Ensures (Within n c) (Within n c) (rotate_if_full o w)
  unfolding rotate_if_full
  rotate_if_full-Within o w s h =
      let full =
        Ensures-weaken (Empty n c) (Within n c) (Within n c) _ (λ v e. e.within)
          (rotate-Within o.rotate_flush o.create w s h) in
      ground (arith, full)

  -- The writer with room for `k` more bytes.
  record Roomy (k : ℕ) (w : Writer) : Type 0 where
    within : Within n c w
    room : w.buf_pos + k ≤ n

  ensure_room-Roomy :
      (o : EventOutcomes) (k : ℕ) (w : Writer)
      → k ≤ n
      → Within n c w
      → Ensures (Roomy k) (Within n c) (ensure_room o k w)
  unfolding ensure_room
  ensure_room-Roomy o k w fits h =
      let flushed =
        Ensures-weaken (Empty n c) (Roomy k) (Within n c) _
          (λ v e. record { within = e.within; room = omega arith })
          (flush_buffer-Within o.full_flush w h) in
      ground (arith, flushed)

  store_data-Within :
      (o : EventOutcomes) (bs : Bytes) (w : Writer)
      → Roomy (length bs) w
      → Ensures (Within n c) (Within n c) (store_data o bs w)
  unfolding store_data
  store_data-Within o bs w r =
      let kept : Within n c (stored bs w) = record {
        fill = r.room;
        size = length-splice w.buf_pos bs w.buffer (omega arith) ∙ r.within.size;
        configured = r.within.configured;
      } in
      let flushed =
        Ensures-weaken (Empty n c) (Within n c) (Within n c) _ (λ v e. e.within)
          (flush_buffer-Within o.last_flush (stored bs w) kept) in
      elim (Bool-cases (equal w.config.sync_mode (codes "sync"))) [
        | inl sync ↦ rw sync (ground (arith, flushed))
        | inr other ↦ rw other (ground arith)
      ]

  pub append_data-Within :
      (o : EventOutcomes) (w : Writer) (text : Option Bytes)
      → ((bs : Bytes) → text ≡ some bs → length bs ≤ n)
      → Within n c w
      → Ensures (Within n c) (Within n c) (append_data o w text)
  unfolding append_data
  append_data-Within o w none fits h = h
  append_data-Within o w (some bs) fits h =
      >>=-Ensures (Roomy (length bs)) (Within n c) (Within n c) (ensure_room o (length bs) w)
        (store_data o bs) (ensure_room-Roomy o (length bs) w (fits bs refl) h)
        (store_data-Within o bs)
