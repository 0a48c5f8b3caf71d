-- ===== src/Binlog/Disk.antt =====
-- The binlog directory: the bytes of each numbered file. A file that was never written is empty.
use my_proxy.Base.{
  ℕ, ◌≡◌, ◌≢◌, refl, ◌++◌, [], none, some, Bytes, ◌==◌, ==_iff, if◌then◌else◌, arith,
}
use my_proxy.Base.Dict.{Dict, lookup, insert, lookup-insert}
use my_proxy.Base.Eq.{nat_eq}

abbrev pub Disk : Type 0
Disk = Dict ℕ Bytes

unfoldable pub content : ℕ → Disk → Bytes
content n d = elim (lookup n d) [ none ↦ [] | some bs ↦ bs ]

-- A write at the end of a file that was opened with `O_APPEND`.
unfoldable pub append_file : ℕ → Bytes → Disk → Disk
append_file n bs d = insert n (content n d ++ bs) d

pub content-append_file :
    (n m : ℕ) (bs : Bytes) (d : Disk)
    → content m (append_file n bs d) ≡ (if n == m then content n d ++ bs else content m d)
unfolding content append_file
content-append_file n m bs d = ground (arith, lookup-insert n m (content n d ++ bs) d)

pub content-append_file_self :
    (n : ℕ) (bs : Bytes) (d : Disk) → content n (append_file n bs d) ≡ content n d ++ bs
content-append_file_self n bs d = rw (content-append_file n n bs d, (==_iff n n).1 refl)

pub content-append_file_ne :
    (n m : ℕ) (bs : Bytes) (d : Disk) → m ≢ n → content m (append_file n bs d) ≡ content m d
content-append_file_ne n m bs d h = ground (arith, content-append_file n m bs d, h)

pub content_of_lookup : (n : ℕ) (d : Disk) (bs : Bytes) → lookup n d ≡ some bs → content n d ≡ bs
unfolding content
content_of_lookup n d bs h = rw (h, content)
