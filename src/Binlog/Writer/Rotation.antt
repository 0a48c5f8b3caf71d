-- ===== src/Binlog/Writer/Rotation.antt =====
-- `rotate`, and `writeEvent` at the size limit.
use mathlib.Core.List.{append-nil}
use mathlib.Core.Path.{ap₂}
use my_proxy.Base.{
  ◌+◌, ◌^◌, ◌%◌, ◌≤◌, ◌<◌, ◌≡◌, refl, sym, ap, ◌∙◌, ◌++◌, [], true, false, Option, none, some,
  Bytes, length, leb, arith,
}
use my_proxy.Base.Int.{bits}
use my_proxy.Binlog.Disk.{content, append_file, content-append_file_self, content-append_file_ne}
use my_proxy.Binlog.Event.{BinlogEvent, Config}
use my_proxy.Binlog.Writer.{
  Writer, ran, FlushOutcome, CreateOutcome, EventOutcomes, handle_on, init_file, create_new_file,
  rotate, rotate_if_full, close_handle, serialize, write_event, header,
}
use my_proxy.Binlog.Writer.Log.{
  log, IsLogging, Appended, Succeeds, content_of_empty, flush_buffer-log, append_data-log,
}

-- The state in which a file is opened whose number was never used.
opened : CreateOutcome → Writer → Writer
opened o w =
    let text = header o.created w.config.format in
    record w {
      disk = append_file w.file_num text w.disk;
      position = length text;
      file = some (handle_on w.file_num);
    }

create_new_file-opened :
    (o : CreateOutcome) (w : Writer)
    → o.open_fails ≡ false
    → o.stat_fails ≡ false
    → o.header_fails ≡ false
    → content w.file_num w.disk ≡ []
    → create_new_file o w ≡ ran (opened o w) none
unfolding create_new_file init_file opened
create_new_file-opened o w h s k fresh = rw (h, s, fresh, k)

log-opened :
    (o : CreateOutcome) (w : Writer)
    → content w.file_num w.disk ≡ []
    → w.buf_pos ≡ 0
    → log (opened o w) ≡ header o.created w.config.format
unfolding opened log
log-opened o w fresh empty =
    let text = header o.created w.config.format in
    rw (empty, content-append_file_self w.file_num text w.disk, fresh) (append-nil text)

opened-IsLogging :
    (o : CreateOutcome) (w : Writer)
    → content w.file_num w.disk ≡ []
    → w.buf_pos ≡ 0
    → IsLogging (opened o w)
unfolding opened
opened-IsLogging o w fresh empty = record {
  on_file = refl;
  fill = omega arith;
  at_end = ap length (sym (log-opened o w fresh empty));
}

-- A rotation that succeeds, onto a number below 2 ^ 32 whose file is missing or empty.
pub record CanRotate (f : FlushOutcome) (o : CreateOutcome) (w : Writer) : Type 0 where
  pub flush_succeeds : Succeeds f
  pub opens : o.open_fails ≡ false
  pub measured : o.stat_fails ≡ false
  pub header_written : o.header_fails ≡ false
  pub fresh : content (w.file_num + 1) w.disk ≡ []
  pub numbered : w.file_num + 1 < 2 ^ 32

-- `v` is `w` after a rotation: a file with the next number begins with the header, and the file
-- before holds the log of `w`.
pub record Rotated (o : CreateOutcome) (w v : Writer) : Type 0 where
  pub logging : IsLogging v
  pub next_file : v.file_num ≡ w.file_num + 1
  pub log_is : log v ≡ header o.created w.config.format
  pub kept : content w.file_num v.disk ≡ log w
  pub same_config : v.config ≡ w.config
  pub same_size : length v.buffer ≡ length w.buffer

-- What `rotate` hands to `createNewFile`.
abbrev turned : Writer → Writer
turned w = record w {
  file = close_handle w.file;
  file_num = (w.file_num + 1) % 2 ^ 32;
  position = 0;
}

turned-Rotated :
    (o : CreateOutcome) (w u : Writer)
    → Appended w [] u
    → u.buf_pos ≡ 0
    → w.file_num + 1 < 2 ^ 32
    → content ((u.file_num + 1) % 2 ^ 32) u.disk ≡ []
    → Rotated o w (opened o (turned u))
unfolding opened
turned-Rotated o w u a empty numbered fresh = record {
  logging = opened-IsLogging o (turned u) fresh empty;
  next_file = omega (arith, a.same_file);
  log_is =
      log-opened o (turned u) fresh empty
      ∙ ap (λ (c : Config). header o.created c.format) a.same_config;
  kept =
      content-append_file_ne _ w.file_num _ u.disk (omega (arith, a.same_file))
      ∙ ap (λ n. content n u.disk) (sym a.same_file)
      ∙ sym (content_of_empty u empty)
      ∙ a.log_is
      ∙ append-nil (log w);
  same_config = a.same_config;
  same_size = a.same_size;
}

-- A rotation that succeeds, onto a number below 2 ^ 32 whose file is
-- missing or empty, returns no error; the file
-- before keeps the whole log, the next one begins with the header, and the invariant holds again.
pub rotate-Rotated :
    (f : FlushOutcome) (o : CreateOutcome) (w : Writer)
    → CanRotate f o w
    → IsLogging w
    → (v : Writer) × (rotate f o w ≡ ran v none) × Rotated o w v
unfolding rotate
rotate-Rotated f o w k h =
    let (u, done, a, empty) = flush_buffer-log f w k.flush_succeeds h in
    let next : (u.file_num + 1) % 2 ^ 32 ≡ w.file_num + 1 =
      omega (arith, a.same_file, k.numbered) in
    let fresh : content ((u.file_num + 1) % 2 ^ 32) u.disk ≡ [] =
      ap (λ n. content n u.disk) next ∙ a.others (w.file_num + 1) (omega arith) ∙ k.fresh in
    (
      opened o (turned u),
      rw done (create_new_file-opened o (turned u) k.opens k.measured k.header_written fresh),
      turned-Rotated o w u a empty k.numbered fresh,
    )

-- An event that is written behind a rotation.
pub record CanTurn (marshal : BinlogEvent → Option Bytes) (o : EventOutcomes) (e : BinlogEvent)
    (w : Writer) (bs : Bytes) : Type 0 where
  pub rotates : CanRotate o.rotate_flush o.create w
  pub full_succeeds : Succeeds o.full_flush
  pub last_succeeds : Succeeds o.last_flush
  pub at_limit : bits 64 w.config.max_file_size ≤ w.position
  pub serialized :
      serialize marshal w.config (length (header o.create.created w.config.format)) e ≡ some bs
  pub fits : length bs ≤ length w.buffer
  pub short : length (header o.create.created w.config.format) + length bs < 2 ^ 64

module _ (marshal : BinlogEvent → Option Bytes) where
  -- At the size limit, where the number of the next file is below 2 ^ 32 and that file is missing
  -- or empty, the rotation and the flushes succeed, the event fits the buffer, and the header with
  -- the event is shorter than 2 ^ 64: `writeEvent` returns no error, the file before holds the whole
  -- log, and the log of the next file is the header with exactly the event's bytes behind it.
  pub write_event-Rotated :
      (o : EventOutcomes) (e : BinlogEvent) (w : Writer) (bs : Bytes)
      → CanTurn marshal o e w bs
      → IsLogging w
      → (v : Writer) × (write_event marshal o e w ≡ ran v none)
        × IsLogging v
        × (v.file_num ≡ w.file_num + 1)
        × (log v ≡ header o.create.created w.config.format ++ bs)
        × (content w.file_num v.disk ≡ log w)
  unfolding write_event rotate_if_full
  write_event-Rotated o e w bs k h =
      let turn : leb (bits 64 w.config.max_file_size) w.position ≡ true =
        ground (arith, k.at_limit) in
      let (u, turned_to, r) = rotate-Rotated o.rotate_flush o.create w k.rotates h in
      let at : u.position ≡ length (header o.create.created w.config.format) =
        r.logging.at_end ∙ ap length r.log_is in
      let (v, done, a) =
        append_data-log o bs u k.full_succeeds k.last_succeeds (omega (arith, k.fits, r.same_size))
          (rw r.log_is k.short) r.logging in
      let text : serialize marshal u.config u.position e ≡ some bs =
        ap₂ (λ c n. serialize marshal c n e) r.same_config at ∙ k.serialized in
      (
        v,
        rw (turn, turned_to, text) done,
        a.logging,
        a.same_file ∙ r.next_file,
        a.log_is ∙ ap (λ t. t ++ bs) r.log_is,
        a.others w.file_num (omega (arith, r.next_file)) ∙ r.kept,
      )
