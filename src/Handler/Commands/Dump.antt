-- ===== src/Handler/Commands/Dump.antt =====
-- The packet of COM_BINLOG_DUMP, from its bytes to the server's clients.
use my_proxy.Base.{
  ℕ, ◌^◌, ◌<◌, ◌≤◌, ◌≡◌, refl, ap, ◌∙◌, Bool, false, ◌++◌, none, some, Bytes, length, take, drop,
  ltb, arith,
}
use my_proxy.Base.Wire.{put_le, get_le, get_le-put_le}
use my_proxy.Replication.Changes.{Now}
use my_proxy.Replication.Clients.{Server, handle_binlog_dump}
use my_proxy.Handler.Commands.{DumpRequest, parse_dump, handle_dump, dump_parsed}

-- The packet, as the protocol lays it out.
abbrev pub dump_packet : ℕ → ℕ → ℕ → Bytes → Bytes
dump_packet pos flags server_id filename =
    put_le 4 pos ++ (put_le 2 flags ++ (put_le 4 server_id ++ filename))

abbrev request : ℕ → ℕ → Bytes → DumpRequest
request pos server_id filename = record { pos = pos; server_id = server_id; filename = filename }

parse_dump-long :
    (bs : Bytes)
    → 10 ≤ length bs
    → parse_dump bs ≡ some (request (get_le (take 4 bs)) (get_le (take 4 (drop 6 bs))) (drop 10 bs))
unfolding parse_dump
parse_dump-long bs le = let long : ltb (length bs) 10 ≡ false = ground arith in rw long refl

parse_dump-dump_packet :
    (pos flags server_id : ℕ) (filename : Bytes)
    → pos < 2 ^ 32
    → server_id < 2 ^ 32
    → parse_dump (dump_packet pos flags server_id filename) ≡ some (request pos server_id filename)
unfolding put_le
parse_dump-dump_packet pos flags server_id filename small few =
    parse_dump-long (dump_packet pos flags server_id filename) (omega arith)
    ∙ ap (λ n. some (request n (get_le (put_le 4 server_id)) filename))
        (get_le-put_le 4 pos (omega arith))
    ∙ ap (λ n. some (request pos n filename)) (get_le-put_le 4 server_id (omega arith))

-- A packet that holds a position
-- and a number of a server below 2 ^ 32, whatever its flags, starts the server's stream to this
-- client, by that number, from that file and position.
pub handle_dump-dump_packet :
    {N : Type 0} (write : N → Bytes → N × Bool) (close_conn : N → N) (now : Now) (conn : N)
    (server : Server N) (pos flags server_id : ℕ) (filename : Bytes)
    → pos < 2 ^ 32
    → server_id < 2 ^ 32
    → handle_dump write close_conn now conn (dump_packet pos flags server_id filename) (some server)
      ≡ (some (handle_binlog_dump write close_conn now conn server_id (filename, pos) server), none)
unfolding handle_dump
handle_dump-dump_packet write close_conn now conn server pos flags server_id filename small few =
    ap (dump_parsed write close_conn now conn server)
      (parse_dump-dump_packet pos flags server_id filename small few)
