-- ===== src/Binlog/Writer/Safety.antt =====
-- `writeEvent` on every outcome of the system calls.
use my_proxy.Base.{ℕ, ◌≤◌, ◌≡◌, false, Option, some, Bytes, length}
use my_proxy.Binlog.Event.{BinlogEvent, Config}
use my_proxy.Binlog.Writer.{Writer, EventOutcomes, rotate_if_full, serialize, write_event}
use my_proxy.Binlog.Writer.Buffer.{
  Ensures, >>=-Ensures, Within, rotate_if_full-Within, append_data-Within,
}

module _ (marshal : BinlogEvent → Option Bytes) where
  -- Where the fill of the buffer is within its `n` bytes, and the event takes at most `n` bytes
  -- at every position, `writeEvent` returns on every outcome of the system calls but a `Stat` of
  -- the next file that fails, with no panic, and the fill is within the `n` bytes again, whether or
  -- not an error is returned.
  pub write_event-Within :
      (n : ℕ) (c : Config) (o : EventOutcomes) (e : BinlogEvent) (w : Writer)
      → ((at : ℕ) (bs : Bytes) → serialize marshal c at e ≡ some bs → length bs ≤ n)
      → o.create.stat_fails ≡ false
      → Within n c w
      → Ensures (Within n c) (Within n c) (write_event marshal o e w)
  unfolding write_event
  write_event-Within n c o e w fits s h =
      >>=-Ensures (Within n c) (Within n c) (Within n c) (rotate_if_full o w) _
        (rotate_if_full-Within n c o w s h)
        λ v k. append_data-Within n c o v _ (λ bs t. fits v.position bs (rw k.configured at t)) k
