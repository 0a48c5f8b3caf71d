-- ===== src/Binlog/Writer/Startup.antt =====
-- pkg/binlog/binlog.go: `NewWriter` without its goroutines, `openOrCreateFile`, `cleanupOldFiles`.
-- `matches` is what `filepath.Glob` lists, in its order, each name as the number that `Sscanf`
-- reads from it, or `none`.
use my_proxy.Base.{
  ℕ, zero, suc, ◌+◌, ◌-◌, ◌^◌, ◌%◌, ◌≤◌, ◌<◌, ◌≡◌, ◌≢◌, refl, sym, ap, ◌∙◌, Bool, true, false, List,
  [], ◌∷◌, Option, none, some, Bytes, length, replicate, drop, length-drop, ltb, leb, if◌then◌else◌,
  arith,
}
use my_proxy.Base.Dict.{lookup}
use my_proxy.Base.Eq.{nat_eq}
use my_proxy.Base.Int.{ℤ, pos, pos_part, neg_part}
use my_proxy.Binlog.Disk.{Disk, content, content_of_lookup}
use my_proxy.Binlog.Event.{Config}
use my_proxy.Binlog.Writer.{
  Writer, open_failed, Ran, ran, CreateOutcome, handle_on, init_file, create_new_file,
}
use my_proxy.Binlog.Writer.Log.{log, IsLogging, content_of_empty}

unfoldable pub max_num : ℕ → List (Option ℕ) → ℕ
max_num best [] = best
max_num best (none ∷ rest) = max_num best rest
max_num best (some n ∷ rest) = max_num (if ltb best n then n else best) rest

-- `a >= b` on int64.
abbrev geb : ℕ → ℤ → Bool
geb size limit = leb (pos_part limit) (size + neg_part limit)

-- The latest file is opened again, or the next one where it is too large; a failing `Stat` is the
-- error of the missing file.
unfoldable pub choose_file : CreateOutcome → Writer → ℕ → Option Bytes → Ran
choose_file o w latest none = ran (record w { file_num = latest }) (some open_failed)
choose_file o w latest (some bs) =
    if geb (length bs) w.config.max_file_size
    then create_new_file o (record w { file_num = (latest + 1) % 2 ^ 32 })
    else create_new_file o (record w { file_num = latest; position = length bs })

unfoldable pub open_or_create_file : CreateOutcome → List (Option ℕ) → Writer → Ran
open_or_create_file o [] w = create_new_file o w
open_or_create_file o (m ∷ matches) w =
    let latest = max_num 0 (m ∷ matches) in choose_file o w latest (lookup latest w.disk)

-- The writer that `NewWriter` makes before it opens a file.
abbrev pub made : Config → Disk → Writer
made c d = record {
  config = c;
  file = none;
  buffer = replicate c.buffer_size 0;
  buf_pos = 0;
  position = 0;
  file_num = 0;
  disk = d;
}

-- `nil` for a configuration that is not enabled.
unfoldable pub new_writer : CreateOutcome → List (Option ℕ) → Config → Disk → Option Ran
new_writer o matches c d =
    if c.enabled then some (open_or_create_file o matches (made c d)) else none

create_new_file-existing :
    (o : CreateOutcome) (w : Writer)
    → o.open_fails ≡ false
    → o.stat_fails ≡ false
    → content w.file_num w.disk ≢ []
    → create_new_file o w ≡ ran (record w { file = some (handle_on w.file_num) }) none
unfolding create_new_file init_file
create_new_file-existing o w opens measured some_bytes = ground arith

-- Where the latest file is not empty and below the size limit, and it opens and `Stat` measures it,
-- a restart goes on with it: nothing in the directory changes, the log is what the file holds, and
-- the position is its end.
pub new_writer-resumes :
    (o : CreateOutcome) (m : Option ℕ) (matches : List (Option ℕ)) (c : Config) (d : Disk) (b : ℕ)
    (bs : Bytes) (limit : ℕ)
    → c.enabled ≡ true
    → o.open_fails ≡ false
    → o.stat_fails ≡ false
    → lookup (max_num 0 (m ∷ matches)) d ≡ some (b ∷ bs)
    → c.max_file_size ≡ pos limit
    → length (b ∷ bs) < limit
    → (v : Writer) × (new_writer o (m ∷ matches) c d ≡ some (ran v none))
      × IsLogging v
      × (v.disk ≡ d)
      × (log v ≡ b ∷ bs)
unfolding new_writer open_or_create_file choose_file
new_writer-resumes o m matches c d b bs limit on opens measured found max below =
    let latest = max_num 0 (m ∷ matches) in
    let w = record (made c d) { file_num = latest; position = length (b ∷ bs) } in
    let v = record w { file = some (handle_on latest) } in
    let holds : content latest d ≡ b ∷ bs = content_of_lookup latest d (b ∷ bs) found in
    let nonempty : content latest d ≢ [] = rw holds (λ e. cc) in
    let small : geb (length (b ∷ bs)) c.max_file_size ≡ false = rw max (ground arith) in
    let kept : log v ≡ b ∷ bs = content_of_empty v refl ∙ holds in
    (
      v,
      simp (on, found, small, create_new_file-existing o w opens measured nonempty),
      record { on_file = refl; fill = omega arith; at_end = ap length (sym kept) },
      refl,
      kept,
    )

-- `cleanupOldFiles`: `removes` says of each name whether `os.Remove` removes it.
pub remove_oldest : {A : Type 0} → (A → Bool) → ℕ → List A → List A
remove_oldest removes zero names = names
remove_oldest removes (suc n) [] = []
remove_oldest removes (suc n) (x ∷ names) =
    let rest = remove_oldest removes n names in if removes x then rest else x ∷ rest

unfoldable pub cleanup_old_files : {A : Type 0} → (A → Bool) → ℕ → List A → List A
cleanup_old_files removes max_files names =
    if leb (length names) max_files
    then names
    else remove_oldest removes (length names - max_files) names

remove_oldest_lem :
    {A : Type 0} (removes : A → Bool) (n : ℕ) (names : List A)
    → ((x : A) → removes x ≡ true)
    → n ≤ length names
    → remove_oldest removes n names ≡ drop n names
unfolding remove_oldest
remove_oldest_lem removes zero names h k = refl
remove_oldest_lem removes (suc n) [] h k = absurd (omega arith)
remove_oldest_lem removes (suc n) (x ∷ names) h k =
    rw (h x) (remove_oldest_lem removes n names h (omega arith))

-- Where every removal succeeds, what stays are the last `max_files` names in the order of the
-- listing, or all of them where there are no more.
pub cleanup_old_files_lem :
    {A : Type 0} (removes : A → Bool) (max_files : ℕ) (names : List A)
    → ((x : A) → removes x ≡ true)
    → (cleanup_old_files removes max_files names ≡ drop (length names - max_files) names)
      × (length (cleanup_old_files removes max_files names) ≤ max_files)
unfolding cleanup_old_files
cleanup_old_files_lem removes max_files names h = ground (
  arith,
  remove_oldest_lem removes (length names - max_files) names h,
  length-drop (length names - max_files) names,
)
