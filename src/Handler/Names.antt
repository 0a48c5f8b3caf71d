-- ===== src/Handler/Names.antt =====
-- pkg/protocol/mysql/handler.go: the names that are cut out of statements. `none` is the panic of a
-- slice that starts behind the end of the text.
pub mod Plain
use my_proxy.Base.{
  ℕ, ◌+◌, Bool, true, false, ◌&&◌, ◌||◌, List, [], ◌∷◌, Option, none, some, Bytes, codes, length,
  drop, ltb, ◌==◌, if◌then◌else◌,
}
use my_proxy.Base.Text.{has_prefix, trim_space, to_upper}
use my_proxy.Base.Search.{index, contains, fields, fields_func, trim, trim_left_set}

abbrev pub quote_marks : Bytes
quote_marks = codes "`\""

abbrev pub first_trimmed : Bytes → List Bytes → Bytes
first_trimmed cutset [] = []
first_trimmed cutset (word ∷ words) = trim word cutset

-- The end of every function: the first word without its quotes.
unfoldable pub first_name : Bytes → Bytes
first_name sql = first_trimmed quote_marks (fields (trim sql quote_marks))

-- Twelve bytes are skipped for a keyword of eleven and a space.
abbrev pub name_behind_insert : Bytes → Option ℕ → Option Bytes
name_behind_insert sql none = some []
name_behind_insert sql (some i) =
    if ltb (length sql) (i + 12) then none else some (first_name (trim_space (drop (i + 12) sql)))

unfoldable pub extract_insert_table_name : Bytes → Option Bytes
extract_insert_table_name sql = name_behind_insert sql (index (to_upper sql) (codes "INSERT INTO"))

-- A clause of `n` bytes is skipped where it stands in front.
abbrev skip_clause : Bytes → ℕ → Bytes → Bytes
skip_clause clause n sql = if has_prefix (to_upper sql) clause then trim_space (drop n sql) else sql

abbrev pub name_behind : Bytes → ℕ → (Bytes → Bytes) → Bytes → Bytes
name_behind keyword n skip sql = elim (index (to_upper sql) keyword) [
  | none ↦ []
  | some i ↦ first_name (skip (trim_space (drop (i + n) sql)))
]

unfoldable pub extract_create_table_name : Bytes → Bytes
extract_create_table_name sql =
    name_behind (codes "CREATE TABLE") 12 (skip_clause (codes "IF NOT EXISTS") 13) sql

unfoldable pub extract_alter_table_name : Bytes → Bytes
extract_alter_table_name sql = name_behind (codes "ALTER TABLE") 11 (λ rest. rest) sql

unfoldable pub extract_drop_table_name : Bytes → Bytes
extract_drop_table_name sql =
    name_behind (codes "DROP TABLE") 10 (skip_clause (codes "IF EXISTS") 9) sql

-- The loop over the definitions of columns; a definition that has no word is passed over.
unfoldable pub marked_column : List Bytes → Bytes
marked_column [] = []
marked_column (definition ∷ definitions) =
    let later = marked_column definitions in
    let text = trim_space definition in
    if contains (to_upper text) (codes "AUTO_INCREMENT")
    then elim (fields (trim_left_set text (codes " \t`\""))) [
      | [] ↦ later
      | word ∷ words ↦ trim word (codes "`\",")
    ]
    else later

abbrev is_column_end : ℕ → Bool
is_column_end c = c == b',' || c == 10

unfoldable pub extract_auto_increment_column : Bytes → Bytes
extract_auto_increment_column sql =
    if contains (to_upper sql) (codes "AUTO_INCREMENT")
    then elim (index sql (codes "(")) [
      | none ↦ []
      | some i ↦ marked_column (fields_func is_column_end (drop (i + 1) sql))
    ]
    else []

abbrev pub upper_query : Bytes → Bytes
upper_query sql = to_upper (trim_space sql)

unfoldable pub is_kill_statement : Bytes → Bool
is_kill_statement query = has_prefix (upper_query query) (codes "KILL ")

unfoldable pub is_flush_statement : Bytes → Bool
is_flush_statement query = has_prefix (upper_query query) (codes "FLUSH ")

unfoldable pub is_tablespace_statement : Bytes → Bool
is_tablespace_statement query =
    contains (upper_query query) (codes "DISCARD TABLESPACE")
    || contains (upper_query query) (codes "IMPORT TABLESPACE")

unfoldable pub is_database_statement : Bytes → Bool
is_database_statement query =
    has_prefix (upper_query query) (codes "CREATE DATABASE")
    || has_prefix (upper_query query) (codes "DROP DATABASE")
