-- ===== src/Mapper/Show.antt =====
-- pkg/mapper/show.go: `HandleShowCommand`. The statements of pkg/mapper/show_admin.go, on
-- replication and on processes, are a parameter, which gets the text of the statement.
pub mod Texts
pub mod Columns
use my_proxy.Base.{
  ℕ, ◌+◌, ◌⊎◌, inl, inr, Bool, true, false, ◌||◌, List, [], ◌∷◌, ◌++◌, Option, none, some, Bytes,
  codes, length, take, drop, if◌then◌else◌,
}
use my_proxy.Base.Eq.{equal}
use my_proxy.Base.Text.{has_prefix, contains_byte, replace_all, trim_space, to_upper}
use my_proxy.Base.Search.{index, contains, fields, trim, to_lower, split_two}
use my_proxy.Postgres.{PgError, other_error, Sent, refused, sent, Rows, Postgres}
use my_proxy.Mapper.Variables.Access.{
  Overrides, VarError, alter_failed, call_failed, get_mysql_var_value,
}
use my_proxy.Mapper.Show.Columns.{full_columns_sql, columns_sql, index_sql}
use my_proxy.Mapper.Show.Texts.{
  databases_sql, tables_in_sql, tables_sql, describe_sql, create_table_sql, status_sql, value_sql,
  settings_sql, variables_sql, warnings_sql, global_variables_sql,
}

abbrev show_marks : Bytes
show_marks = codes "`\"';"

-- The word behind the first FROM or IN that another word follows.
unfoldable pub named_schema : List Bytes → Bytes
named_schema [] = []
named_schema (word ∷ words) =
    let later = named_schema words in
    if equal (to_upper word) (codes "FROM") || equal (to_upper word) (codes "IN")
    then elim words [ [] ↦ later | name ∷ rest ↦ trim name show_marks ]
    else later

abbrev tables_of : Bytes → Bytes
tables_of [] = tables_sql
tables_of (c ∷ schema) = tables_in_sql (c ∷ schema)

unfoldable pub show_tables : Bytes → Bytes
show_tables sql =
    if contains (to_upper sql) (codes "FROM") || contains (to_upper sql) (codes "IN")
    then tables_of (named_schema (fields sql))
    else tables_sql

-- The first word behind the first of the keywords that stands in the text and has one behind it.
unfoldable pub behind_keyword : List Bytes → Bytes → Option Bytes
behind_keyword [] sql = none
behind_keyword (keyword ∷ keywords) sql =
    let later = behind_keyword keywords sql in
    elim (index (to_upper sql) keyword) [
      | none ↦ later
      | some i ↦ elim (fields (drop (i + length keyword) sql)) [
        | [] ↦ later
        | word ∷ words ↦ some (trim word show_marks)
      ]
    ]

abbrev last_of : Bytes → List Bytes → Bytes
last_of word [] = word
last_of word (next ∷ words) = last_of next words

abbrev last_word : List Bytes → Bytes
last_word (first ∷ second ∷ words) = trim (last_of second words) show_marks
last_word _ = []

abbrev table_or_last : Bytes → Option Bytes → Bytes
table_or_last sql none = last_word (fields sql)
table_or_last sql (some name) = name

unfoldable pub extract_table_name : Bytes → Bytes
extract_table_name sql = table_or_last sql (
    behind_keyword
      (codes "FROM" ∷ codes "IN" ∷ codes "COLUMNS" ∷ codes "FIELDS" ∷ codes "INDEX" ∷ []) sql)

-- The schema, as it is put into the query, and the table of a name without backticks.
abbrev schema_and_table : Bytes → Option (Bytes × Bytes) → Bytes × Bytes
schema_and_table name none = (codes "current_schema()", name)
schema_and_table name (some (schema, table)) = (codes "'" ++ (schema ++ codes "'"), table)

abbrev split_table : Bytes → Bytes × Bytes
split_table name =
    let plain = replace_all name (codes "`") [] in schema_and_table plain (split_two b'.' plain)

-- The query of a statement that names a table, or the text of an error.
abbrev with_table_name : (Bytes → Bytes → Bytes) → Bytes → Bytes → Bytes ⊎ Bytes
with_table_name query sql [] = inl (codes "table name not found in: " ++ sql)
with_table_name query sql (c ∷ name) =
    let (schema, table) = split_table (c ∷ name) in inr (query schema table)

unfoldable pub show_columns : Bytes → Bytes ⊎ Bytes
show_columns sql =
    with_table_name
      (if contains (to_upper sql) (codes "FULL") then full_columns_sql else columns_sql) sql
      (extract_table_name sql)

unfoldable pub show_index : Bytes → Bytes ⊎ Bytes
show_index sql = with_table_name index_sql sql (extract_table_name sql)

abbrev describe_words : Bytes → List Bytes → Bytes ⊎ Bytes
describe_words sql (first ∷ table ∷ words) = inr (describe_sql (trim table show_marks))
describe_words sql _ = inl (codes "invalid DESCRIBE command: " ++ sql)

abbrev create_words : Bytes → List Bytes → Bytes ⊎ Bytes
create_words sql (a ∷ b ∷ c ∷ table ∷ words) = inr (create_table_sql (trim table show_marks))
create_words sql _ = inl (codes "invalid SHOW CREATE TABLE command: " ++ sql)

-- The second part of `strings.Split(sql, "LIKE")`.
abbrev up_to : Bytes → Option ℕ → Bytes
up_to rest none = rest
up_to rest (some i) = take i rest

abbrev behind_like : Bytes → Option ℕ → Option Bytes
behind_like sql none = none
behind_like sql (some i) =
    let rest = drop (i + 4) sql in some (up_to rest (index rest (codes "LIKE")))

unfoldable pub like_pattern : Bytes → Option Bytes
like_pattern sql = elim (behind_like sql (index sql (codes "LIKE"))) [
  | none ↦ none
  | some part ↦ some (trim (trim_space part) (codes "'\""))
]

abbrev without_percent : Bytes → Bytes
without_percent pattern = replace_all pattern (codes "%") []

abbrev as_pg_error : VarError → PgError
as_pg_error (alter_failed name e) = e
as_pg_error (call_failed e) = e

-- The answers of the replication variables that the table does not have.
unfoldable pub fixed_variable : Bytes → Bytes
fixed_variable pattern =
    if equal pattern (codes "binlog_format")
    then value_sql pattern (codes "ROW")
    else if equal pattern (codes "binlog_row_image")
    then value_sql pattern (codes "FULL")
    else if equal pattern (codes "server_id")
    then value_sql pattern (codes "1")
    else if equal pattern (codes "server_uuid")
    then value_sql pattern (codes "38db14f0-9bcc-487a-8001-9bcc38db18d8")
    else if equal pattern (codes "gtid_mode")
    then value_sql pattern (codes "OFF")
    else if equal pattern (codes "log_bin")
    then value_sql pattern (codes "ON")
    else if equal pattern (codes "binlog_checksum")
    then value_sql pattern (codes "CRC32")
    else global_variables_sql

abbrev has_one_of : List Bytes → Bytes → Bool
has_one_of [] s = false
has_one_of (p ∷ ps) s = has_prefix s p || has_one_of ps s

abbrev settings_of : Bytes → Bytes
settings_of pattern = settings_sql (replace_all pattern (codes "%") (codes "%%"))

module _ {C R : Type 0} (pg : Postgres C R) where
  abbrev ask : Bytes → C → C × Sent (Rows R)
  ask sql c = pg.query sql [] c

  abbrev ask_or_refuse : Bytes ⊎ Bytes → C → C × Sent (Rows R)
  ask_or_refuse (inl text) c = (c, refused (other_error text))
  ask_or_refuse (inr sql) c = ask sql c

  -- Behind `GetMySQLVarValue`: its value, its error, or another query.
  abbrev value_or : Bytes → Bytes → C × (Bytes × (Bool × Option VarError)) → C × Sent (Rows R)
  value_or name other (c, (value, (false, e))) = ask other c
  value_or name other (c, (value, (true, none))) = ask (value_sql name value) c
  value_or name other (c, (value, (true, some e))) = (c, refused (as_pg_error e))

  abbrev by_pattern : Overrides → Bytes → Bytes → C → C × Sent (Rows R)
  by_pattern o pattern [] c = ask (settings_of pattern) c
  by_pattern o pattern (d ∷ name) c =
      value_or (d ∷ name) (settings_of pattern) (get_mysql_var_value pg (d ∷ name) o c)

  abbrev variables_like : Overrides → Option Bytes → C → C × Sent (Rows R)
  variables_like o none c = ask variables_sql c
  variables_like o (some pattern) c = by_pattern o pattern (without_percent pattern) c

  -- The word LIKE is looked for in capitals, whatever the test before says.
  unfoldable pub show_variables : Overrides → Bytes → C → C × Sent (Rows R)
  show_variables o sql c = variables_like o (like_pattern sql) c

  abbrev global_like : Overrides → Option Bytes → C → C × Sent (Rows R)
  global_like o none c = ask global_variables_sql c
  global_like o (some pattern) c =
      let name = without_percent (to_lower pattern) in
      value_or name (fixed_variable name) (get_mysql_var_value pg name o c)

  unfoldable pub show_global_variables : Overrides → Bytes → C → C × Sent (Rows R)
  show_global_variables o sql c = global_like o (like_pattern (to_upper sql)) c

  unfoldable pub handle_show :
      (Bytes → C → C × Sent (Rows R)) → Overrides → Bytes → C → C × Sent (Rows R)
  handle_show admin o sql c =
      let upper = to_upper (trim_space sql) in
      if has_prefix upper (codes "SHOW DATABASES")
      then ask databases_sql c
      else if has_prefix upper (codes "SHOW TABLES")
      then ask (show_tables sql) c
      else if has_one_of
          (codes "SHOW COLUMNS"
            ∷ codes "SHOW FIELDS"
            ∷ codes "SHOW FULL COLUMNS"
            ∷ codes "SHOW FULL FIELDS"
            ∷ [])
          upper
      then ask_or_refuse (show_columns sql) c
      else if has_one_of (codes "DESCRIBE " ∷ codes "DESC " ∷ []) upper
      then ask_or_refuse (describe_words sql (fields sql)) c
      else if has_prefix upper (codes "SHOW CREATE TABLE")
      then ask_or_refuse (create_words sql (fields sql)) c
      else if has_prefix upper (codes "SHOW INDEX")
      then ask_or_refuse (show_index sql) c
      else if has_prefix upper (codes "SHOW STATUS")
      then ask status_sql c
      else if has_prefix upper (codes "SHOW VARIABLES")
      then show_variables o sql c
      else if has_prefix upper (codes "SHOW GLOBAL VARIABLES")
      then show_global_variables o sql c
      else if has_prefix upper (codes "SHOW WARNINGS")
      then ask warnings_sql c
      else if has_one_of
          (codes "SHOW GLOBAL STATUS"
            ∷ codes "SHOW SLAVE STATUS"
            ∷ codes "SHOW SLAVE HOSTS"
            ∷ codes "SHOW REPLICAS"
            ∷ codes "SHOW MASTER STATUS"
            ∷ codes "SHOW BINARY LOGS"
            ∷ codes "SHOW MASTER LOGS"
            ∷ codes "SHOW PROCESSLIST"
            ∷ codes "SHOW FULL PROCESSLIST"
            ∷ [])
          upper
      then admin sql c
      else (c, refused (other_error (codes "unsupported SHOW command: " ++ sql)))
