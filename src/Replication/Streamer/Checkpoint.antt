-- ===== src/Replication/Streamer/Checkpoint.antt =====
-- pkg/replication/pg_streamer.go: `loadCheckpoint` and `saveCheckpoint`, on a directory that maps
-- paths to contents. JSON is a parameter, and a call of the system has its outcome as an argument.
use my_proxy.Base.{
  ℕ, ◌≡◌, ◌≢◌, refl, ap, ◌∙◌, Bool, true, false, ◌||◌, ◌⊎◌, [], ◌++◌, Option, none, some, Bytes,
  codes, length, length-append, if◌then◌else◌, Bool-cases, inl, inr, arith,
}
use my_proxy.Base.Dict.{
  Dict, lookup, insert, delete, lookup-insert_self, lookup-insert_ne, lookup-delete_ne,
}
use my_proxy.Base.Eq.{equal, equal_refl, bytes_eq}

pub record Checkpoint : Type 0 where
  pub lsn : ℕ
  pub timestamp : ℕ
  pub slot_name : Bytes

pub data CheckpointError : Type 0 where
  read_failed parse_failed marshal_failed directory_failed write_failed rename_failed :
      CheckpointError

-- The path and the slot's name of the configuration.
pub record Places : Type 0 where
  pub file : Bytes
  pub slot : Bytes

abbrev matches : Places → Checkpoint → Bool
matches p c = equal c.slot_name [] || equal c.slot_name p.slot

-- Behind the read: the position that the streamer goes on with, and the error.
abbrev pub loaded : Places → ℕ → Option Checkpoint → ℕ × Option CheckpointError
loaded p position none = (position, some CheckpointError.parse_failed)
loaded p position (some c) = if matches p c then (c.lsn, none) else (position, none)

-- A file that is not there is no error.
abbrev read_checkpoint :
    (Bytes → Option Checkpoint) → Places → Bool → ℕ → Option Bytes → ℕ × Option CheckpointError
read_checkpoint unmarshal p readable position none = (position, none)
read_checkpoint unmarshal p true position (some bytes) = loaded p position (unmarshal bytes)
read_checkpoint unmarshal p false position (some bytes) =
    (position, some CheckpointError.read_failed)

-- `readable` is whether a file that is there can be read.
unfoldable pub load_checkpoint :
    (Bytes → Option Checkpoint) → Places → Bool → Dict Bytes Bytes → ℕ → ℕ × Option CheckpointError
load_checkpoint unmarshal p readable disk position =
    if equal p.file []
    then (position, none)
    else read_checkpoint unmarshal p readable position (lookup p.file disk)

-- The outcomes of `MkdirAll`, `WriteFile`, `Rename` and `Remove`; `left` is what a failed write
-- leaves in the file.
pub record Outcomes : Type 0 where
  pub directory_made : Bool
  pub written : Bool
  pub left : Bytes
  pub renamed : Bool
  pub removed : Bool

abbrev pub temp_file : Places → Bytes
temp_file p = p.file ++ codes ".tmp"

abbrev renamed_or_removed :
    Places → Outcomes → Bytes → Dict Bytes Bytes → Dict Bytes Bytes × Option CheckpointError
renamed_or_removed p o bytes disk =
    if o.renamed
    then (insert p.file bytes (delete (temp_file p) disk), none)
    else (if o.removed then delete (temp_file p) disk else disk, some CheckpointError.rename_failed)

abbrev write_checkpoint :
    Places → Outcomes → Option Bytes → Dict Bytes Bytes → Dict Bytes Bytes × Option CheckpointError
write_checkpoint p o none disk = (disk, some CheckpointError.marshal_failed)
write_checkpoint p o (some bytes) disk =
    if o.directory_made
    then (if o.written
        then renamed_or_removed p o bytes (insert (temp_file p) bytes disk)
        else (insert (temp_file p) o.left disk, some CheckpointError.write_failed))
    else (disk, some CheckpointError.directory_failed)

unfoldable pub save_checkpoint :
    (Checkpoint → Option Bytes)
    → Places
    → Outcomes
    → ℕ
    → ℕ
    → Dict Bytes Bytes
    → Dict Bytes Bytes × Option CheckpointError
save_checkpoint marshal p o now position disk =
    if equal p.file []
    then (disk, none)
    else write_checkpoint p o
        (marshal (record { lsn = position; timestamp = now; slot_name = p.slot })) disk

temp_file-other : (p : Places) → temp_file p ≢ p.file
temp_file-other p e =
    let longer : length (temp_file p) ≡ length p.file = ap length e in
    absurd (omega (arith, longer, length-append p.file (codes ".tmp")))

lookup-delete_temp :
    (p : Places) (disk : Dict Bytes Bytes)
    → lookup p.file (delete (temp_file p) disk) ≡ lookup p.file disk
lookup-delete_temp p disk = lookup-delete_ne (temp_file p) p.file disk (temp_file-other p)

lookup-insert_temp :
    (p : Places) (bytes : Bytes) (disk : Dict Bytes Bytes)
    → lookup p.file (insert (temp_file p) bytes disk) ≡ lookup p.file disk
lookup-insert_temp p bytes disk =
    lookup-insert_ne (temp_file p) p.file bytes disk (temp_file-other p)

-- The new contents in the file, or an error and the file as it was.
AllOrNothing :
    Places → Option Bytes → Dict Bytes Bytes → Dict Bytes Bytes × Option CheckpointError → Type 0
AllOrNothing p new before r =
    ((r.1 ≡ none) × (bytes : Bytes) × (new ≡ some bytes) × (lookup p.file r.0 ≡ some bytes))
    ⊎ ((e : CheckpointError) × (r.1 ≡ some e) × (lookup p.file r.0 ≡ lookup p.file before))

write_checkpoint-AllOrNothing :
    (p : Places) (o : Outcomes) (new : Option Bytes) (disk : Dict Bytes Bytes)
    → AllOrNothing p new disk (write_checkpoint p o new disk)
unfolding AllOrNothing
write_checkpoint-AllOrNothing p o none disk = inr (CheckpointError.marshal_failed, refl, refl)
write_checkpoint-AllOrNothing p o (some bytes) disk = elim (Bool-cases o.directory_made) [
  | inr d ↦ rw d (inr (CheckpointError.directory_failed, refl, refl))
  | inl d ↦ elim (Bool-cases o.written) [
    | inr w ↦ rw (d, w) (inr (CheckpointError.write_failed, refl, lookup-insert_temp p o.left disk))
    | inl w ↦ elim (Bool-cases o.renamed) [
      | inl r ↦
          rw (d, w, r)
            (inl (
              refl,
              bytes,
              refl,
              lookup-insert_self p.file bytes
                  (delete (temp_file p) (insert (temp_file p) bytes disk)),
            ))
      | inr r ↦ elim (Bool-cases o.removed) [
        | inl m ↦
            rw (d, w, r, m)
              (inr (
                CheckpointError.rename_failed,
                refl,
                lookup-delete_temp p (insert (temp_file p) bytes disk)
                    ∙ lookup-insert_temp p bytes disk,
              ))
        | inr m ↦
            rw (d, w, r, m)
              (inr (CheckpointError.rename_failed, refl, lookup-insert_temp p bytes disk))
      ]
    ]
  ]
]

-- Where what JSON writes is read back and the configuration has a file, whichever of the calls fail
-- and whatever a failed write leaves: the save returns no error, and a load in which the file is
-- readable gives the saved position; or it returns an error, and a load gives exactly what it gave
-- before the save, whether or not the file is readable.
pub load_checkpoint-save_checkpoint :
    (marshal : Checkpoint → Option Bytes) (unmarshal : Bytes → Option Checkpoint) (p : Places)
    (o : Outcomes) (now position start : ℕ) (readable : Bool) (disk : Dict Bytes Bytes)
    → ((c : Checkpoint) (bytes : Bytes) → marshal c ≡ some bytes → unmarshal bytes ≡ some c)
    → equal p.file [] ≡ false
    → (((save_checkpoint marshal p o now position disk).1 ≡ none)
        × (load_checkpoint unmarshal p true (save_checkpoint marshal p o now position disk).0 start
            ≡ (position, none)))
      ⊎ ((e : CheckpointError) × ((save_checkpoint marshal p o now position disk).1 ≡ some e)
          × (load_checkpoint unmarshal p readable
                (save_checkpoint marshal p o now position disk).0
                start
              ≡ load_checkpoint unmarshal p readable disk start))
unfolding load_checkpoint save_checkpoint AllOrNothing
load_checkpoint-save_checkpoint marshal unmarshal p o now position start readable disk back named =
    let c : Checkpoint = record { lsn = position; timestamp = now; slot_name = p.slot } in
    rw named (elim (write_checkpoint-AllOrNothing p o (marshal c) disk) [
      | inl (done, bytes, made, found) ↦ inl (
        done,
        ap (read_checkpoint unmarshal p true start) found
            ∙ ap (loaded p start) (back c bytes made)
            ∙ ap (λ b. if (equal p.slot [] || b) then (position, none) else (start, none))
                (equal_refl p.slot)
            ∙ either (equal p.slot []),
      )
      | inr (e, failed, kept) ↦
          inr (e, failed, ap (read_checkpoint unmarshal p readable start) kept)
    ])
  where
    either :
        (b : Bool)
        → ◌≡◌ {A = ℕ × Option CheckpointError}
            (if (b || true) then (position, none) else (start, none))
            (position, none)
    either true = refl
    either false = refl
