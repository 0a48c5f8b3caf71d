-- ===== src/Schema.antt =====
-- pkg/schema/cache.go: the `Cache` of table information, one for all sessions. A connection is
-- what its three queries answer; times are nanoseconds, which a call takes as arguments in the
-- order in which it reads the clock. `none` is the panic at a nil pointer. Locks are left out.
pub mod Types
pub mod Tables
pub mod Caching
pub mod Keys
mod Tests
use my_proxy.Base.{
  ℕ, ◌+◌, ◌%◌, ◌^◌, Bool, true, false, List, [], ◌∷◌, ◌++◌, Option, none, some, Bytes, codes,
  length, ltb, if◌then◌else◌,
}
use my_proxy.Base.Dict.{Dict, lookup, insert, delete}
use my_proxy.Base.Eq.{equal, bytes_eq}
use my_proxy.Schema.Tables.{TableInfo, Connection, read_table}

-- The map holds pointers, which may be nil.
pub record Cache : Type 0 where
  pub tables : Dict Bytes (Option TableInfo)
  pub ttl : ℕ
  pub next_table_id : ℕ

abbrev pub build_table_cache_key : Bytes → Bytes → Bytes
build_table_cache_key schema table = schema ++ (b'.' ∷ table)

-- `time.Since(info.LastRefreshed) < info.TTL`.
abbrev pub is_fresh : ℕ → TableInfo → Bool
is_fresh now info = ltb now (info.last_refreshed + info.ttl)

abbrev found_or_empty : Option Bytes → Bytes
found_or_empty none = []
found_or_empty (some name) = name

abbrev pub invalidate_table : Bytes → Bytes → Cache → Cache
invalidate_table schema table c = record c {
  tables = delete (build_table_cache_key schema table) c.tables;
}

-- `to_lower` is `strings.ToLower`.
module _ (to_lower : Bytes → Bytes) where
  abbrev pub query_auto_increment_column : Option Connection → Bytes → Bytes → Bytes
  query_auto_increment_column none schema table = []
  query_auto_increment_column (some conn) schema table =
      found_or_empty (conn.auto_increment schema (to_lower table))

  abbrev pub auto_increment_info : ℕ → Option Connection → Bytes → Bytes → Cache → TableInfo
  auto_increment_info stored conn schema table c = record {
    table_name = table;
    schema = schema;
    auto_incr_column = query_auto_increment_column conn schema table;
    columns = [];
    primary_key = [];
    table_id = 0;
    last_refreshed = stored;
    ttl = c.ttl;
  }

  -- Behind a miss.
  abbrev pub store_column : ℕ → Option Connection → Bytes → Bytes → Cache → Cache × Bytes
  store_column stored conn schema table c =
      let info = auto_increment_info stored conn schema table c in
      (
        record c { tables = insert (build_table_cache_key schema table) (some info) c.tables },
        info.auto_incr_column,
      )

  -- Behind `Load`.
  abbrev pub column_behind :
      Option (Option TableInfo)
      → ℕ
      → ℕ
      → Option Connection
      → Bytes
      → Bytes
      → Cache
      → Option (Cache × Bytes)
  column_behind none now stored conn schema table c = some (store_column stored conn schema table c)
  column_behind (some none) now stored conn schema table c = none
  column_behind (some (some info)) now stored conn schema table c =
      if is_fresh now info
      then some (c, info.auto_incr_column)
      else some (store_column stored conn schema table c)

  unfoldable pub get_auto_increment_column :
      ℕ → ℕ → Option Connection → Bytes → Bytes → Cache → Option (Cache × Bytes)
  get_auto_increment_column now stored conn schema table c =
      column_behind (lookup (build_table_cache_key schema table) c.tables) now stored conn schema
        table c

  unfoldable pub refresh_table :
      ℕ → ℕ → Option Connection → Bytes → Bytes → Cache → Option (Cache × Bytes)
  refresh_table now stored conn schema table c =
      get_auto_increment_column now stored conn schema table (invalidate_table schema table c)

abbrev pub invalidate_all : Cache → Cache
invalidate_all c = record c { tables = [] }

abbrev pub get_cache_stats : Cache → ℕ × ℕ
get_cache_stats c = (length c.tables, c.ttl)

abbrev pub set_ttl : ℕ → Cache → Cache
set_ttl ttl c = record c { ttl = ttl }

-- The keys of the expired entries; a nil entry panics.
pub expired_keys : ℕ → Dict Bytes (Option TableInfo) → Option (List Bytes)
expired_keys now [] = some []
expired_keys now ((key, none) ∷ rest) = none
expired_keys now ((key, some info) ∷ rest) = elim (expired_keys now rest) [
  | none ↦ none
  | some keys ↦ some (if is_fresh now info then keys else key ∷ keys)
]

pub delete_keys : List Bytes → Dict Bytes (Option TableInfo) → Dict Bytes (Option TableInfo)
delete_keys [] tables = tables
delete_keys (key ∷ keys) tables = delete_keys keys (delete key tables)

unfoldable pub refresh_expired_entries : ℕ → Cache → Option Cache
refresh_expired_entries now c = elim (expired_keys now c.tables) [
  | none ↦ none
  | some keys ↦ some (record c { tables = delete_keys keys c.tables })
]

-- `failed` is an error; a pointer may be nil without one.
pub data Fetched : Type 0 where
  failed : Fetched
  fetched : Option TableInfo → Fetched

abbrev fetched_or_failed : Option TableInfo → Fetched
fetched_or_failed none = failed
fetched_or_failed (some info) = fetched (some info)

abbrev empty_info : ℕ → Bytes → Bytes → Cache → TableInfo
empty_info now schema table c = record {
  table_name = table;
  schema = schema;
  auto_incr_column = [];
  columns = [];
  primary_key = [];
  table_id = (c.next_table_id + 1) % 2 ^ 64;
  last_refreshed = now;
  ttl = c.ttl;
}

unfoldable pub query_table_info : ℕ → Option Connection → Bytes → Bytes → Cache → Cache × Fetched
query_table_info now none schema table c = (c, fetched none)
query_table_info now (some conn) schema table c = (
  record c { next_table_id = (c.next_table_id + 1) % 2 ^ 64 },
  fetched_or_failed (
      read_table (conn.column_rows schema table) (conn.key_rows schema table)
        (empty_info now schema table c)),
)

abbrev pub store_table : Bytes → Cache × Fetched → Cache × Fetched
store_table key (c, failed) = (c, failed)
store_table key (c, fetched info) = (record c { tables = insert key info c.tables }, fetched info)

abbrev pub table_behind :
    Option (Option TableInfo)
    → ℕ
    → ℕ
    → Option Connection
    → Bytes
    → Bytes
    → Cache
    → Option (Cache × Fetched)
table_behind none now stored conn schema table c =
    some (
      store_table (build_table_cache_key schema table)
        (query_table_info stored conn schema table c))
table_behind (some none) now stored conn schema table c = none
table_behind (some (some info)) now stored conn schema table c =
    if is_fresh now info
    then some (c, fetched (some info))
    else some (
        store_table (build_table_cache_key schema table)
          (query_table_info stored conn schema table c))

unfoldable pub get_table_info :
    ℕ → ℕ → Option Connection → Bytes → Bytes → Cache → Option (Cache × Fetched)
get_table_info now stored conn schema table c =
    table_behind (lookup (build_table_cache_key schema table) c.tables) now stored conn schema table
      c
