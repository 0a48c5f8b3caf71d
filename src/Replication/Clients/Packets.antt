-- ===== src/Replication/Clients/Packets.antt =====
-- A client's reader of packets: the length in three bytes, the sequence number, and the body. A
-- body of the greatest length is continued by the next packet: of it the reader gets nothing.
use mathlib.Core.List.{append_assoc}
use my_proxy.Base.{
  ℕ, zero, suc, ◌+◌, ◌-◌, ◌%◌, ◌^◌, ◌<◌, ◌≡◌, refl, ap, ◌∙◌, false, Option, none, some, ◌==◌,
  if◌then◌else◌, List, [], ◌∷◌, ◌++◌, Bytes, length, All, take, drop, take-append, drop-append,
  arith,
}
use my_proxy.Base.Wire.{put_le, get_le, get_le-put_le}
use my_proxy.Replication.Clients.{packet}
use my_proxy.Replication.Clients.Delivery.{packets}

-- A body of `n` bytes with its sequence number, and the bytes behind it.
abbrev body_of : ℕ → ℕ → Bytes → Option ((ℕ × Bytes) × Bytes)
body_of seq n rest = if n == 2 ^ 24 - 1 then none else some ((seq, take n rest), drop n rest)

unfoldable pub read_packet : Bytes → Option ((ℕ × Bytes) × Bytes)
read_packet (a ∷ b ∷ c ∷ seq ∷ rest) = body_of seq (get_le (a ∷ b ∷ c ∷ [])) rest
read_packet _ = none

abbrev Received : Type 0
Received = Option (List (ℕ × Bytes) × Bytes)

abbrev behind_first : ℕ × Bytes → Received → Received
behind_first first none = none
behind_first first (some (more, left)) = some (first ∷ more, left)

abbrev first_then : (Bytes → Received) → Option ((ℕ × Bytes) × Bytes) → Received
first_then read none = none
first_then read (some (first, behind)) = behind_first first (read behind)

unfoldable pub read_packets : ℕ → Bytes → Option (List (ℕ × Bytes) × Bytes)
read_packets zero bytes = some ([], bytes)
read_packets (suc k) bytes = first_then (read_packets k) (read_packet bytes)

-- Payloads behind the byte that says OK, with consecutive numbers of one byte.
unfoldable pub numbered : ℕ → List Bytes → List (ℕ × Bytes)
numbered seq [] = []
numbered seq (payload ∷ payloads) = (seq, 0 ∷ payload) ∷ numbered ((seq + 1) % 2 ^ 8) payloads

read_packet-packet :
    (seq : ℕ) (payload rest : Bytes)
    → length payload + 1 < 2 ^ 24 - 1
    → read_packet (packet seq payload ++ rest) ≡ some ((seq, 0 ∷ payload), rest)
unfolding read_packet packet put_le
read_packet-packet seq payload rest small =
    let n = length payload + 1 in
    let size : get_le (put_le 3 n) ≡ length (0 ∷ payload) =
      get_le-put_le 3 n (omega arith) ∙ omega arith in
    let shorter : (length (0 ∷ payload) == 2 ^ 24 - 1) ≡ false = ground arith in
    ap (λ m. body_of seq m (0 ∷ payload ++ rest)) size
    ∙ ap
        (λ b.
          if b
          then none
          else some (
            (seq, take (length (0 ∷ payload)) (0 ∷ payload ++ rest)),
            drop (length (0 ∷ payload)) (0 ∷ payload ++ rest),
          ))
        shorter
    ∙ ap (λ body. some ((seq, body), drop (length (0 ∷ payload)) (0 ∷ payload ++ rest)))
        (take-append (0 ∷ payload) rest)
    ∙ ap (λ more. some ((seq, 0 ∷ payload), more)) (drop-append (0 ∷ payload) rest)

-- Where every payload with its OK byte is shorter than 2 ^ 24 - 1, from which on the protocol splits
-- a packet, a client that reads as many packets as there are payloads gets each payload behind the
-- OK byte, in order, with consecutive sequence numbers, and what follows the packets is left.
pub read_packets-packets :
    (seq : ℕ) (payloads : List Bytes) (rest : Bytes)
    → All (λ (payload : Bytes). length payload + 1 < 2 ^ 24 - 1) payloads
    → read_packets (length payloads) (packets seq payloads ++ rest)
      ≡ some (numbered seq payloads, rest)
unfolding read_packets packets numbered
read_packets-packets seq [] rest h = refl
read_packets-packets seq (payload ∷ payloads) rest (small, h) =
    let next = (seq + 1) % 2 ^ 8 in
    let first : read_packet ((packet seq payload ++ packets next payloads) ++ rest)
        ≡ some ((seq, 0 ∷ payload), packets next payloads ++ rest) =
      ap read_packet (append_assoc (packet seq payload) (packets next payloads) rest)
      ∙ read_packet-packet seq payload (packets next payloads ++ rest) small in
    ap (first_then (read_packets (length payloads))) first
    ∙ ap (behind_first (seq, 0 ∷ payload)) (read_packets-packets next payloads rest h)
