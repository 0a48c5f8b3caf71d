-- ===== src/Mapper/Variables/Table.antt =====
-- pkg/mapper/variables.go: the tables of the variables and of the status variables.
use my_proxy.Base.{
  Bool, true, false, ◌||◌, [], ◌∷◌, ◌++◌, Option, none, some, Bytes, codes, if◌then◌else◌,
}
use my_proxy.Base.Dict.{Dict}
use my_proxy.Base.Eq.{equal}
use my_proxy.Base.Text.{to_upper}

pub data VarScope : Type 0 where
  session global internal : VarScope

pub record VarMapping : Type 0 where
  pub pg_var : Bytes
  pub scope : VarScope
  pub need_restart : Bool
  pub no_op : Bool
  pub transform : Option (Bytes → Bytes)
  pub reverse : Option (Bytes → Bytes)
  pub static_value : Bytes

pub record StatusVarMapping : Type 0 where
  pub pg_query : Bytes
  pub status_transform : Option (Bytes → Bytes)
  pub status_value : Bytes

-- A variable of PostgreSQL with no conversions, and one that is kept here.
abbrev forwarded : Bytes → VarScope → VarMapping
forwarded pg_var scope = record {
  pg_var = pg_var;
  scope = scope;
  need_restart = false;
  no_op = false;
  transform = none;
  reverse = none;
  static_value = [];
}

abbrev kept_here : Bool → Bytes → VarMapping
kept_here no_op value = record {
  pg_var = [];
  scope = VarScope.internal;
  need_restart = false;
  no_op = no_op;
  transform = none;
  reverse = none;
  static_value = value;
}

abbrev is_on : Bytes → Bool
is_on v = equal v (codes "1") || equal (to_upper v) (codes "ON")

abbrev is_off : Bytes → Bool
is_off v = equal v (codes "0") || equal (to_upper v) (codes "OFF")

abbrev is_synchronous : Bytes → Bool
is_synchronous v =
    equal v (codes "on") || (equal v (codes "remote_write") || equal v (codes "remote_apply"))

abbrev digit : Bool → Bytes
digit b = if b then codes "1" else codes "0"

abbrev pub read_only : VarMapping
read_only = record (forwarded (codes "default_transaction_read_only") VarScope.global) {
  transform =
      some (λ v. if is_on v || equal (to_upper v) (codes "TRUE") then codes "on" else codes "off");
  reverse = some (λ v. digit (equal v (codes "on")));
}

abbrev semi_sync_master_enabled : VarMapping
semi_sync_master_enabled = record (forwarded (codes "synchronous_commit") VarScope.global) {
  transform = some (λ v. if is_on v then codes "on" else codes "local");
  reverse = some (λ v. digit (is_synchronous v));
}

abbrev wait_timeout : VarMapping
wait_timeout = record (forwarded (codes "idle_in_transaction_session_timeout") VarScope.global) {
  transform = some (λ v. v ++ codes "000");
}

abbrev pub foreign_key_checks : VarMapping
foreign_key_checks = record (forwarded (codes "session_replication_role") VarScope.session) {
  transform = some (λ v. if is_off v then codes "replica" else codes "origin");
  reverse = some (λ v. if equal v (codes "replica") then codes "0" else codes "1");
}

abbrev sql_log_bin : VarMapping
sql_log_bin = record (forwarded (codes "log_statement") VarScope.session) {
  transform = some (λ v. if is_off v then codes "none" else codes "all");
  reverse = some (λ v. if equal v (codes "none") then codes "0" else codes "1");
}

abbrev pg_version : VarMapping
pg_version = record (forwarded (codes "server_version") VarScope.global) {
  reverse = some (λ v. v ++ codes "-MyProxy");
}

unfoldable pub mysql_to_postgres_vars : Dict Bytes VarMapping
mysql_to_postgres_vars =
    (codes "read_only", read_only)
    ∷ (codes "super_read_only", read_only)
    ∷ (codes "rpl_semi_sync_master_enabled", semi_sync_master_enabled)
    ∷ (codes "rpl_semi_sync_slave_enabled", record (forwarded [] VarScope.global) { no_op = true })
    ∷ (
      codes "rpl_semi_sync_master_timeout",
      record (forwarded (codes "synchronous_commit") VarScope.global) { no_op = true },
    )
    ∷ (
      codes "max_connections",
      record (forwarded (codes "max_connections") VarScope.global) { need_restart = true },
    )
    ∷ (codes "wait_timeout", wait_timeout)
    ∷ (codes "foreign_key_checks", foreign_key_checks)
    ∷ (codes "sql_log_bin", sql_log_bin)
    ∷ (codes "version", pg_version)
    ∷ (codes "version_comment", kept_here false (codes "MyProxy (MySQL to PostgreSQL Proxy)"))
    ∷ (codes "server_id", kept_here true (codes "1"))
    ∷ (codes "server_uuid", kept_here false (codes "38db14f0-9bcc-487a-8001-9bcc38db18d8"))
    ∷ (codes "report_host", kept_here true [])
    ∷ (codes "binlog_format", kept_here false (codes "ROW"))
    ∷ (codes "binlog_row_image", kept_here false (codes "FULL"))
    ∷ (codes "log_bin", kept_here false (codes "ON"))
    ∷ (codes "binlog_checksum", kept_here false (codes "CRC32"))
    ∷ (codes "gtid_mode", kept_here false (codes "OFF"))
    ∷ (codes "gtid_purged", kept_here true [])
    ∷ (codes "gtid_executed", kept_here false [])
    ∷ (codes "character_set_client", kept_here true (codes "utf8mb4"))
    ∷ (codes "character_set_connection", kept_here true (codes "utf8mb4"))
    ∷ (codes "character_set_results", kept_here true (codes "utf8mb4"))
    ∷ (codes "character_set_server", kept_here true (codes "utf8mb4"))
    ∷ (codes "character_set_database", kept_here true (codes "utf8mb4"))
    ∷ (codes "collation_connection", kept_here true (codes "utf8mb4_general_ci"))
    ∷ (codes "collation_server", kept_here true (codes "utf8mb4_general_ci"))
    ∷ (codes "collation_database", kept_here true (codes "utf8mb4_general_ci"))
    ∷ (codes "sql_mode", kept_here true (codes "TRADITIONAL"))
    ∷ (codes "max_allowed_packet", kept_here true (codes "67108864"))
    ∷ (codes "net_write_timeout", kept_here true [])
    ∷ (codes "net_read_timeout", kept_here true [])
    ∷ (codes "interactive_timeout", kept_here true [])
    ∷ []

unfoldable pub mysql_status_vars : Dict Bytes StatusVarMapping
mysql_status_vars =
    (
      codes "rpl_semi_sync_master_status",
      record {
        pg_query = codes "SHOW synchronous_commit";
        status_transform = some (λ v. if is_synchronous v then codes "ON" else codes "OFF");
        status_value = [];
      },
    )
    ∷ (
      codes "rpl_semi_sync_master_clients",
      record {
        pg_query = codes "SELECT count(*)::text FROM pg_stat_replication WHERE sync_state = 'sync'";
        status_transform = none;
        status_value = [];
      },
    )
    ∷ (
      codes "rpl_semi_sync_slave_enabled",
      record { pg_query = []; status_transform = none; status_value = codes "OFF" },
    )
    ∷ []
