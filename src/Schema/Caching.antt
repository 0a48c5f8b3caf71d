-- ===== src/Schema/Caching.antt =====
-- What stands in the cache behind a refresh, and a read with no connection.
use my_proxy.Base.{
  ℕ, ◌+◌, ◌<◌, ◌≡◌, refl, ap, ◌∙◌, [], Option, none, some, Bytes, if◌then◌else◌, lt→ltb,
}
use my_proxy.Base.Dict.{lookup, insert, lookup-insert_self, lookup-delete_self}
use my_proxy.Base.Eq.{bytes_eq}
use my_proxy.Schema.{
  Cache, build_table_cache_key, query_auto_increment_column, auto_increment_info, store_column,
  column_behind, get_auto_increment_column, invalidate_table, refresh_table, fetched, store_table,
  table_behind, query_table_info, get_table_info,
}
use my_proxy.Schema.Tables.{TableInfo, Connection}

module _ (to_lower : Bytes → Bytes) where
  -- What stands under a key is what a read of the column finds.
  column-hit :
      (now stored : ℕ) (conn : Option Connection) (schema table : Bytes) (c : Cache)
      (info : TableInfo)
      → lookup (build_table_cache_key schema table) c.tables ≡ some (some info)
      → now < info.last_refreshed + info.ttl
      → get_auto_increment_column to_lower now stored conn schema table c
        ≡ some (c, info.auto_incr_column)
  unfolding get_auto_increment_column
  column-hit now stored conn schema table c info found h =
      ap (λ t. column_behind to_lower t now stored conn schema table c) found
      ∙ ap
          (λ b.
            if b
            then some (c, info.auto_incr_column)
            else some (store_column to_lower stored conn schema table c))
          (lt→ltb now (info.last_refreshed + info.ttl) h)

  -- `RefreshTable` returns the database's answer, whatever the cache held, and does not panic; and
  -- a later read below the time to live returns the same, whatever its connection, and changes
  -- nothing.
  pub refresh_table-caches :
      (now stored later again : ℕ) (conn other : Option Connection) (schema table : Bytes)
      (c : Cache)
      → later < stored + c.ttl
      → (v : Cache) × (refresh_table to_lower now stored conn schema table c
          ≡ some (v, query_auto_increment_column to_lower conn schema table))
        × (get_auto_increment_column to_lower later again other schema table v
            ≡ some (v, query_auto_increment_column to_lower conn schema table))
  unfolding refresh_table get_auto_increment_column
  refresh_table-caches now stored later again conn other schema table c h =
      let key = build_table_cache_key schema table in
      let cleared = invalidate_table schema table c in
      let info = auto_increment_info to_lower stored conn schema table c in
      let v = record c { tables = insert key (some info) cleared.tables } in
      (
        v,
        ap (λ t. column_behind to_lower t now stored conn schema table cleared)
            (lookup-delete_self key c.tables),
        column-hit later again other schema table v info
            (lookup-insert_self key (some info) cleared.tables) h,
      )

  -- With no connection, a read of a table that is not cached returns a nil pointer and no error,
  -- and every later read of the table panics, of its column or of the whole, at any time and with
  -- any connection.
  pub get_table_info-nil_panics :
      (now stored : ℕ) (schema table : Bytes) (c : Cache)
      → lookup (build_table_cache_key schema table) c.tables ≡ none
      → (v : Cache) × (get_table_info now stored none schema table c ≡ some (v, fetched none))
        × ((later again : ℕ) (conn : Option Connection)
            → (get_table_info later again conn schema table v ≡ none)
              × (get_auto_increment_column to_lower later again conn schema table v ≡ none))
  unfolding get_table_info query_table_info get_auto_increment_column
  get_table_info-nil_panics now stored schema table c missing =
      let key = build_table_cache_key schema table in
      let v = record c { tables = insert key none c.tables } in
      let nil = lookup-insert_self key none c.tables in
      (
        v,
        ap (λ t. table_behind t now stored none schema table c) missing,
        λ later again conn. (
          ap (λ t. table_behind t later again conn schema table v) nil,
          ap (λ t. column_behind to_lower t later again conn schema table v) nil,
        ),
      )

  -- A read of the column of a table that is not cached hides the table: below the time to live, a
  -- read of the whole returns a table with no columns, no key and the identifier 0, whatever the
  -- connection would answer.
  pub get_table_info-hidden :
      (now stored later again : ℕ) (conn other : Option Connection) (schema table : Bytes)
      (c : Cache)
      → lookup (build_table_cache_key schema table) c.tables ≡ none
      → later < stored + c.ttl
      → (v : Cache) × (get_auto_increment_column to_lower now stored conn schema table c
          ≡ some (v, query_auto_increment_column to_lower conn schema table))
        × (info : TableInfo) × (get_table_info later again other schema table v
            ≡ some (v, fetched (some info)))
        × (info.columns ≡ [])
        × (info.primary_key ≡ [])
        × (info.table_id ≡ 0)
  unfolding get_auto_increment_column get_table_info
  get_table_info-hidden now stored later again conn other schema table c missing h =
      let key = build_table_cache_key schema table in
      let info = auto_increment_info to_lower stored conn schema table c in
      let v = record c { tables = insert key (some info) c.tables } in
      let kept = lookup-insert_self key (some info) c.tables in
      (
        v,
        ap (λ t. column_behind to_lower t now stored conn schema table c) missing,
        info,
        ap (λ t. table_behind t later again other schema table v) kept
            ∙ ap
                (λ b.
                  if b
                  then some (v, fetched (some info))
                  else some (store_table key (query_table_info again other schema table v)))
                (lt→ltb later (stored + c.ttl) h),
        refl,
        refl,
        refl,
      )
