-- ===== src/Handler/Commands.antt =====
-- pkg/protocol/mysql/handler.go: `HandleOtherCommand` with the commands of replication. The server
-- of replication is there or not; the start of a stream is a call of its `HandleBinlogDump`.
pub mod Dump
use my_proxy.Base.{
  ℕ, Bool, true, false, List, [], ◌∷◌, ◌++◌, Option, none, some, Bytes, codes, length, take, drop,
  ltb, if◌then◌else◌,
}
use my_proxy.Base.Text.{decimal}
use my_proxy.Base.Wire.{get_le}
use my_proxy.Postgres.{Postgres}
use my_proxy.Replication.Changes.{Now}
use my_proxy.Replication.Clients.{Server, handle_binlog_dump}
use my_proxy.Handler.State.{
  State, Failure, mysql_failed, er_master_fatal_error_reading_binlog, er_malformed_packet,
  er_unknown_com,
}
use my_proxy.Handler.Connection.{use_db, close_connection}

-- The library's commands, by their names there.
pub data OtherCommand : Type 0 where
  com_ping com_init_db com_quit com_binlog_dump com_binlog_dump_gtid com_register_slave :
      OtherCommand
  com_other : ℕ → OtherCommand

pub record DumpRequest : Type 0 where
  pub pos : ℕ
  pub server_id : ℕ
  pub filename : Bytes

unfoldable pub parse_dump : Bytes → Option DumpRequest
parse_dump bs =
    if ltb (length bs) 10
    then none
    else some (record {
      pos = get_le (take 4 bs);
      server_id = get_le (take 4 (drop 6 bs));
      filename = drop 10 bs;
    })

abbrev disabled : Failure
disabled =
    mysql_failed er_master_fatal_error_reading_binlog (codes "binlog replication not enabled")

module _ {N : Type 0} (write : N → Bytes → N × Bool) (close_conn : N → N) where
  abbrev pub dump_parsed :
      Now → N → Server N → Option DumpRequest → Option (Server N) × Option Failure
  dump_parsed now conn server none = (
    some server,
    some (mysql_failed er_malformed_packet (codes "invalid COM_BINLOG_DUMP packet")),
  )
  dump_parsed now conn server (some r) = (
    some (handle_binlog_dump write close_conn now conn r.server_id (r.filename, r.pos) server),
    none,
  )

  -- Up to the start of the stream, whose error is left out.
  unfoldable pub handle_dump :
      Now → N → Bytes → Option (Server N) → Option (Server N) × Option Failure
  handle_dump now conn bs none = (none, some disabled)
  handle_dump now conn bs (some server) = dump_parsed now conn server (parse_dump bs)

abbrev pub dump_gtid : {N : Type 0} → Option (Server N) → Failure
dump_gtid none = disabled
dump_gtid (some server) =
    mysql_failed er_master_fatal_error_reading_binlog
      (codes "GTID-based replication not supported, please use file-based replication")

abbrev pub register_slave : {N : Type 0} → Bytes → Option (Server N) → Option Failure
register_slave bs none = some disabled
register_slave bs (some server) =
    if ltb (length bs) 4
    then some (mysql_failed er_malformed_packet (codes "invalid COM_REGISTER_SLAVE packet"))
    else none

module _ {H C R N : Type 0} (pg : Postgres C R) (closing : C → Bool) (write : N → Bytes → N × Bool)
    (close_conn : N → N) where
  -- `Close` always returns nil.
  unfoldable pub handle_other_command :
      Now
      → N
      → OtherCommand
      → Bytes
      → State H C × Option (Server N)
      → (State H C × Option (Server N)) × Option Failure
  handle_other_command now conn com_ping bs p = (p, none)
  handle_other_command now conn com_init_db bs (s, server) =
      let (after, error) = use_db pg bs s in ((after, server), error)
  handle_other_command now conn com_quit bs (s, server) =
      ((close_connection pg closing s, server), none)
  handle_other_command now conn com_binlog_dump bs (s, server) =
      let (after, error) = handle_dump write close_conn now conn bs server in ((s, after), error)
  handle_other_command now conn com_binlog_dump_gtid bs (s, server) =
      ((s, server), some (dump_gtid server))
  handle_other_command now conn com_register_slave bs (s, server) =
      ((s, server), register_slave bs server)
  handle_other_command now conn (com_other n) bs p = (
    p,
    some (mysql_failed er_unknown_com (codes "command " ++ (decimal n ++ codes " not supported"))),
  )
