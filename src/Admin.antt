-- ===== src/Admin.antt =====
-- pkg/admin/replication.go: MySQL's statements on replication as calls of PostgreSQL. A connection
-- is a state of the driver. `QueryRow` scans a truth value, whose text is `t` or `f`.
pub mod Commands
mod Tests
use my_proxy.Base.{
  ℕ, ◌+◌, Bool, true, false, ◌||◌, List, [], ◌∷◌, ◌++◌, Option, none, some, Bytes, codes, drop,
  if◌then◌else◌,
}
use my_proxy.Base.Dict.{Dict, lookup, insert}
use my_proxy.Base.Eq.{equal, bytes_eq}
use my_proxy.Base.Text.{has_prefix, trim_space, to_upper}
use my_proxy.Base.Search.{index, trim, split_byte, split_two}
use my_proxy.Rewrite.Accounts.{join}
use my_proxy.Postgres.{PgError, Sent, refused, sent, Postgres}

pub data AdminError : Type 0 where
  check_failed : PgError → AdminError
  not_a_standby no_parameters : AdminError
  call_failed : Bytes → PgError → AdminError

abbrev upper_command : Bytes → Bytes
upper_command sql = to_upper (trim_space sql)

abbrev replication_prefixes : List Bytes
replication_prefixes =
    codes "START SLAVE"
    ∷ codes "START REPLICA"
    ∷ codes "STOP SLAVE"
    ∷ codes "STOP REPLICA"
    ∷ codes "CHANGE MASTER TO"
    ∷ codes "CHANGE REPLICATION SOURCE TO"
    ∷ codes "RESET SLAVE"
    ∷ codes "RESET REPLICA"
    ∷ codes "RESET MASTER"
    ∷ []

abbrev pub has_any_prefix : List Bytes → Bytes → Bool
has_any_prefix [] s = false
has_any_prefix (p ∷ ps) s = has_prefix s p || has_any_prefix ps s

unfoldable pub is_replication_command : Bytes → Bool
is_replication_command sql = has_any_prefix replication_prefixes (upper_command sql)

-- The assignments that have a `=`.
unfoldable pub add_params : List Bytes → Dict Bytes Bytes → Dict Bytes Bytes
add_params [] params = params
add_params (assign ∷ rest) params = elim (split_two b'=' assign) [
  | none ↦ add_params rest params
  | some (key, value) ↦
      add_params rest
        (insert (trim_space (to_upper key)) (trim (trim_space value) (codes "'\"")) params)
]

-- The place is found in the trimmed text and cut from the one that is given.
unfoldable pub parse_change_master_params : Bytes → Dict Bytes Bytes
parse_change_master_params sql = elim (index (upper_command sql) (codes " TO ")) [
  | none ↦ []
  | some i ↦
      let (first, rest) = split_byte b',' (trim_space (drop (i + 4) sql)) in
      add_params (first ∷ rest) []
]

abbrev part : Bytes → Option Bytes → List Bytes
part name none = []
part name (some value) = (name ++ value) ∷ []

unfoldable pub conn_parts : Dict Bytes Bytes → List Bytes
conn_parts params =
    part (codes "host=") (lookup (codes "MASTER_HOST") params)
    ++ (part (codes "port=") (lookup (codes "MASTER_PORT") params)
        ++ (part (codes "user=") (lookup (codes "MASTER_USER") params)
            ++ part (codes "password=") (lookup (codes "MASTER_PASSWORD") params)))

module _ {C R : Type 0} (pg : Postgres C R) where
  abbrev error_of : Bytes → Sent ℕ → Option AdminError
  error_of what (refused e) = some (call_failed what e)
  error_of what (sent n) = none

  -- One statement, with the name that its error gets.
  abbrev call : Bytes → Bytes → C → C × Option AdminError
  call what sql c = let answer = pg.exec sql [] c in (answer.0, error_of what answer.1)

  -- A second statement where the first has no error.
  abbrev then_call : Bytes → Bytes → C × Option AdminError → C × Option AdminError
  then_call what sql (c, some e) = (c, some e)
  then_call what sql (c, none) = call what sql c

  abbrev on_standby : Bytes → Bytes → C × Sent Bytes → C × Option AdminError
  on_standby what sql (c, refused e) = (c, some (check_failed e))
  on_standby what sql (c, sent answer) =
      if equal answer (codes "t") then call what sql c else (c, some not_a_standby)

  abbrev pub start_slave : C → C × Option AdminError
  start_slave c =
      on_standby (codes "pg_wal_replay_resume()") (codes "SELECT pg_wal_replay_resume()")
        (pg.query_text (codes "SELECT pg_is_in_recovery()") c)

  abbrev pub stop_slave : C → C × Option AdminError
  stop_slave c =
      on_standby (codes "pg_wal_replay_pause()") (codes "SELECT pg_wal_replay_pause()")
        (pg.query_text (codes "SELECT pg_is_in_recovery()") c)

  abbrev alter_conninfo : List Bytes → C → C × Option AdminError
  alter_conninfo [] c = (c, none)
  alter_conninfo (p ∷ parts) c =
      then_call (codes "pg_reload_conf()") (codes "SELECT pg_reload_conf()") (
        call (codes "ALTER SYSTEM SET primary_conninfo")
          (codes "ALTER SYSTEM SET primary_conninfo = '"
            ++ (join (codes " ") (p ∷ parts) ++ codes "'"))
          c)

  abbrev change_with : Dict Bytes Bytes → C → C × Option AdminError
  change_with [] c = (c, some no_parameters)
  change_with (p ∷ params) c = alter_conninfo (conn_parts (p ∷ params)) c

  unfoldable pub change_master : Bytes → C → C × Option AdminError
  change_master sql c = change_with (parse_change_master_params sql) c

  abbrev pub reset_slave : C → C × Option AdminError
  reset_slave c = then_call (codes "pg_reload_conf()") (codes "SELECT pg_reload_conf()") (
      call (codes "ALTER SYSTEM RESET primary_conninfo")
        (codes "ALTER SYSTEM RESET primary_conninfo") c)

  abbrev pub reset_master : C → C × Option AdminError
  reset_master c = call (codes "pg_switch_wal()") (codes "SELECT pg_switch_wal()") c

  abbrev was_handled : C × Option AdminError → C × (Bool × Option AdminError)
  was_handled (c, e) = (c, (true, e))

  -- Whether the statement was handled, and the error.
  unfoldable pub handle_replication_command : Bytes → C → C × (Bool × Option AdminError)
  handle_replication_command sql c =
      let upper = upper_command sql in
      if has_prefix upper (codes "START SLAVE") || has_prefix upper (codes "START REPLICA")
      then was_handled (start_slave c)
      else if has_prefix upper (codes "STOP SLAVE") || has_prefix upper (codes "STOP REPLICA")
      then was_handled (stop_slave c)
      else if has_prefix upper (codes "CHANGE MASTER TO")
          || has_prefix upper (codes "CHANGE REPLICATION SOURCE TO")
      then was_handled (change_master sql c)
      else if has_prefix upper (codes "RESET SLAVE") || has_prefix upper (codes "RESET REPLICA")
      then was_handled (reset_slave c)
      else if has_prefix upper (codes "RESET MASTER")
      then was_handled (reset_master c)
      else (c, (false, none))
