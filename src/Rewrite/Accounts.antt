-- ===== src/Rewrite/Accounts.antt =====
-- pkg/sqlrewrite/rewrite_acl.go: statements on users and privileges. A statement is what the
-- library's parser gives, and the names of its own privileges are a parameter.
pub mod Quoting
use my_proxy.Base.{
  ℕ, Bool, true, false, ◌&&◌, ◌||◌, List, [], ◌∷◌, ◌++◌, map, Option, none, some, Bytes, codes, leb,
  ◌==◌, if◌then◌else◌,
}
use my_proxy.Base.Text.{has_prefix, replace_all, trim_space, to_upper, is_decimal_digit}

unfoldable pub is_acl_command : Bytes → Bool
is_acl_command sql =
    let upper = to_upper (trim_space sql) in
    has_prefix upper (codes "CREATE USER")
    || (has_prefix upper (codes "DROP USER")
        || (has_prefix upper (codes "GRANT ")
            || (has_prefix upper (codes "REVOKE ") || has_prefix upper (codes "FLUSH PRIVILEGES"))))

-- The bytes that `Trim` takes off both ends.
abbrev pub is_trimmed : ℕ → Bool
is_trimmed c = c == b'`' || (c == b'\'' || c == b'"')

unfoldable pub trim_quotes_left : Bytes → Bytes
trim_quotes_left [] = []
trim_quotes_left (c ∷ s) = let rest = trim_quotes_left s in if is_trimmed c then rest else c ∷ s

unfoldable pub trim_quotes_right : Bytes → Bytes
trim_quotes_right [] = []
trim_quotes_right (c ∷ s) = elim (trim_quotes_right s) [
  | [] ↦ if is_trimmed c then [] else c ∷ []
  | d ∷ rest ↦ c ∷ d ∷ rest
]

abbrev pub is_simple : ℕ → Bool
is_simple c =
    (leb b'a' c && leb c b'z') || ((leb b'A' c && leb c b'Z') || (is_decimal_digit c || c == b'_'))

unfoldable pub all_simple : Bytes → Bool
all_simple [] = true
all_simple (c ∷ s) = is_simple c && all_simple s

-- A name of simple bytes, the empty one too, is not quoted.
abbrev pub quoted : Bytes → Bytes
quoted name = if all_simple name then name else b'"' ∷ (name ++ b'"' ∷ [])

unfoldable pub quote_identifier : Bytes → Bytes
quote_identifier name = quoted (trim_quotes_right (trim_quotes_left name))

unfoldable pub escape_string : Bytes → Bytes
escape_string s = replace_all s (codes "'") (codes "''")

-- `strings.Join`.
abbrev pub join : Bytes → List Bytes → Bytes
join separator [] = []
join separator (s ∷ []) = s
join separator (s ∷ t ∷ rest) = s ++ (separator ++ join separator (t ∷ rest))

-- The privileges that the code names; any other has its number.
pub data Privilege : Type 0 where
  all select insert update delete create drop alter index execute references trigger : Privilege
  usage grant show_db create_user process reload file super : Privilege
  replication_slave replication_client : Privilege
  unnamed : ℕ → Privilege

pub data GrantLevel : Type 0 where
  on_global : GrantLevel
  on_database : Bytes → GrantLevel
  on_table : Bytes → Bytes → GrantLevel
  on_other : GrantLevel

-- A user, with the password that is given as a text.
pub record UserSpec : Type 0 where
  pub username : Bytes
  pub password : Option Bytes

pub data AclStmt : Type 0 where
  create_user_stmt : List UserSpec → AclStmt
  drop_user_stmt : Bool → List Bytes → AclStmt
  grant_stmt revoke_stmt : List Privilege → Option GrantLevel → List UserSpec → AclStmt
  flush_privileges_stmt other_stmt : AclStmt

abbrev user_names : List UserSpec → List Bytes
user_names users = map (λ (u : UserSpec). quote_identifier u.username) users

abbrev password_parts : Option Bytes → List Bytes
password_parts none = []
password_parts (some s) = (codes "PASSWORD '" ++ (escape_string s ++ codes "'")) ∷ []

unfoldable pub rewrite_create_user : List UserSpec → Bytes
rewrite_create_user [] = codes "CREATE ROLE WITH LOGIN"
rewrite_create_user (u ∷ users) = join (codes " ") (
    codes "CREATE ROLE"
    ∷ quote_identifier u.username
    ∷ codes "WITH LOGIN"
    ∷ password_parts u.password)

unfoldable pub rewrite_drop_user : Bool → List Bytes → Bytes
rewrite_drop_user if_exists users =
    let names = join (codes ", ") (map quote_identifier users) in
    join (codes " ") (
      if if_exists
      then codes "DROP ROLE" ∷ codes "IF EXISTS" ∷ names ∷ []
      else codes "DROP ROLE" ∷ names ∷ [])

abbrev is_replication : Privilege → Bool
is_replication Privilege.replication_slave = true
is_replication Privilege.replication_client = true
is_replication _ = false

unfoldable pub has_replication_priv : List Privilege → Bool
has_replication_priv [] = false
has_replication_priv (p ∷ privileges) = is_replication p || has_replication_priv privileges

-- `names` is the library's table of names.
module _ (names : ℕ → Option Bytes) where
  abbrev named : Option Bytes → List Bytes
  named none = []
  named (some s) = to_upper s ∷ []

  abbrev pub priv_names : Privilege → List Bytes
  priv_names Privilege.all = codes "ALL PRIVILEGES" ∷ []
  priv_names Privilege.select = codes "SELECT" ∷ []
  priv_names Privilege.insert = codes "INSERT" ∷ []
  priv_names Privilege.update = codes "UPDATE" ∷ []
  priv_names Privilege.delete = codes "DELETE" ∷ []
  priv_names Privilege.create = codes "CREATE" ∷ []
  priv_names Privilege.drop = codes "DROP" ∷ []
  priv_names Privilege.alter = codes "ALTER" ∷ []
  priv_names Privilege.index = codes "CREATE" ∷ []
  priv_names Privilege.execute = codes "EXECUTE" ∷ []
  priv_names Privilege.references = codes "REFERENCES" ∷ []
  priv_names Privilege.trigger = codes "TRIGGER" ∷ []
  priv_names Privilege.usage = codes "USAGE" ∷ []
  priv_names Privilege.grant = codes "ALL PRIVILEGES" ∷ []
  priv_names Privilege.show_db = codes "CONNECT" ∷ []
  priv_names Privilege.create_user = codes "CREATEROLE" ∷ []
  priv_names Privilege.process = codes "pg_read_all_stats" ∷ []
  priv_names Privilege.reload = codes "EXECUTE" ∷ []
  priv_names Privilege.file = codes "pg_read_server_files" ∷ []
  priv_names Privilege.super = codes "SUPERUSER" ∷ []
  priv_names Privilege.replication_slave = codes "REPLICATION" ∷ []
  priv_names Privilege.replication_client = codes "REPLICATION" ∷ []
  priv_names (Privilege.unnamed n) = named (names n)

  abbrev all_names : List Privilege → List Bytes
  all_names [] = []
  all_names (p ∷ privileges) = priv_names p ++ all_names privileges

  abbrev joined_or_usage : List Bytes → Bytes
  joined_or_usage [] = codes "USAGE"
  joined_or_usage (s ∷ rest) = join (codes ", ") (s ∷ rest)

  unfoldable pub map_privs_from_ast : List Privilege → Bytes
  map_privs_from_ast privileges = joined_or_usage (all_names privileges)

  abbrev everything : Bytes
  everything = codes "ALL TABLES IN SCHEMA public"

  unfoldable pub map_grant_level_from_ast : Option GrantLevel → Bytes
  map_grant_level_from_ast (some (GrantLevel.on_database (c ∷ db))) =
      codes "ALL TABLES IN SCHEMA " ++ quote_identifier (c ∷ db)
  map_grant_level_from_ast (some (GrantLevel.on_table [] (d ∷ table))) =
      codes "TABLE " ++ quote_identifier (d ∷ table)
  map_grant_level_from_ast (some (GrantLevel.on_table (c ∷ db) (d ∷ table))) =
      codes "TABLE " ++ (quote_identifier (c ∷ db) ++ b'.' ∷ quote_identifier (d ∷ table))
  map_grant_level_from_ast _ = everything

  abbrev granted : Bytes → Bytes → List Privilege → Option GrantLevel → List UserSpec → Bytes
  granted verb preposition privileges level users =
      verb
      ++ (map_privs_from_ast privileges
          ++ (codes " ON "
              ++ (map_grant_level_from_ast level
                  ++ (preposition ++ join (codes ", ") (user_names users)))))

  unfoldable pub rewrite_grant : List Privilege → Option GrantLevel → List UserSpec → Bytes
  rewrite_grant privileges level [] = codes "-- empty GRANT (no users)"
  rewrite_grant privileges level (u ∷ users) =
      if has_replication_priv privileges
      then codes "ALTER ROLE " ++ (quote_identifier u.username ++ codes " REPLICATION")
      else granted (codes "GRANT ") (codes " TO ") privileges level (u ∷ users)

  unfoldable pub rewrite_revoke : List Privilege → Option GrantLevel → List UserSpec → Bytes
  rewrite_revoke privileges level [] = codes "-- empty REVOKE (no users)"
  rewrite_revoke privileges level (u ∷ users) =
      if has_replication_priv privileges
      then codes "ALTER ROLE " ++ (quote_identifier u.username ++ codes " NOREPLICATION")
      else granted (codes "REVOKE ") (codes " FROM ") privileges level (u ∷ users)

  -- By the first statement; whether it was handled.
  abbrev rewritten_stmt : Bytes → AclStmt → Bytes × Bool
  rewritten_stmt sql (AclStmt.create_user_stmt users) = (rewrite_create_user users, true)
  rewritten_stmt sql (AclStmt.drop_user_stmt if_exists users) =
      (rewrite_drop_user if_exists users, true)
  rewritten_stmt sql (AclStmt.grant_stmt privileges level users) =
      (rewrite_grant privileges level users, true)
  rewritten_stmt sql (AclStmt.revoke_stmt privileges level users) =
      (rewrite_revoke privileges level users, true)
  rewritten_stmt sql AclStmt.flush_privileges_stmt = ([], true)
  rewritten_stmt sql AclStmt.other_stmt = (sql, false)

  abbrev of_parsed : Bytes → Option (List AclStmt) → Bytes × Bool
  of_parsed sql none = (sql, false)
  of_parsed sql (some []) = (sql, false)
  of_parsed sql (some (s ∷ stmts)) = rewritten_stmt sql s

  unfoldable pub rewrite_acl : (Bytes → Option (List AclStmt)) → Bytes → Bytes × Bool
  rewrite_acl parse sql = of_parsed sql (parse sql)
