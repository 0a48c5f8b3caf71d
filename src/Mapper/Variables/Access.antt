-- ===== src/Mapper/Variables/Access.antt =====
-- pkg/mapper/variables.go: reading and writing the variables. The lock is left out.
use my_proxy.Base.{
  ℕ, Bool, true, false, ◌||◌, [], ◌∷◌, ◌++◌, Option, none, some, Bytes, codes, if◌then◌else◌,
}
use my_proxy.Base.Dict.{Dict, lookup, insert}
use my_proxy.Base.Eq.{bytes_eq}
use my_proxy.Base.Search.{to_lower}
use my_proxy.Postgres.{PgError, Sent, refused, sent, Postgres}
use my_proxy.Mapper.Variables.Table.{
  VarScope, VarMapping, StatusVarMapping, mysql_to_postgres_vars, mysql_status_vars,
}

-- The values at run time, `internalVarOverrides`.
abbrev pub Overrides : Type 0
Overrides = Dict Bytes Bytes

abbrev pub set_internal_var : Bytes → Bytes → Overrides → Overrides
set_internal_var name value o = insert (to_lower name) value o

abbrev pub get_internal_var : Bytes → Overrides → Option Bytes
get_internal_var name o = lookup (to_lower name) o

unfoldable pub get_var_mapping : Bytes → Option VarMapping
get_var_mapping mysql_var = lookup (to_lower mysql_var) mysql_to_postgres_vars

unfoldable pub get_status_var_mapping : Bytes → Option StatusVarMapping
get_status_var_mapping mysql_var = lookup (to_lower mysql_var) mysql_status_vars

pub data VarError : Type 0 where
  alter_failed : Bytes → PgError → VarError
  call_failed : PgError → VarError

abbrev is_internal : VarScope → Bool
is_internal VarScope.internal = true
is_internal _ = false

abbrev is_empty : Bytes → Bool
is_empty [] = true
is_empty (c ∷ s) = false

abbrev pub converted : Option (Bytes → Bytes) → Bytes → Bytes
converted none value = value
converted (some f) value = f value

abbrev assignment : Bytes → Bytes → Bytes → Bytes
assignment verb pg_var value = verb ++ (pg_var ++ (codes " = '" ++ (value ++ codes "'")))

module _ {C R : Type 0} (pg : Postgres C R) where
  -- The error of a call whose result is dropped.
  abbrev error_of : {X : Type 0} → Sent X → Option VarError
  error_of (refused e) = some (call_failed e)
  error_of (sent x) = none

  abbrev reload : Bytes → C × Sent ℕ → C × Option VarError
  reload pg_var (c, refused e) = (c, some (alter_failed pg_var e))
  reload pg_var (c, sent n) =
      let answer = pg.exec (codes "SELECT pg_reload_conf()") [] c in (answer.0, error_of answer.1)

  -- The two statements of `HandleSetGlobal`, which are the same for every mapping.
  abbrev alter_system : VarMapping → Bytes → C → C × Option VarError
  alter_system m value c =
      reload m.pg_var (
        pg.exec (assignment (codes "ALTER SYSTEM SET ") m.pg_var (converted m.transform value)) []
          c)

  abbrev pub set_mapped :
      Bytes → Bytes → Overrides → C → Option VarMapping → Overrides × (C × (Bool × Option VarError))
  set_mapped name value o c none = (o, (c, (false, none)))
  set_mapped name value o c (some m) =
      if is_internal m.scope || m.no_op
      then (set_internal_var name value o, (c, (true, none)))
      else let altered = alter_system m value c in
        (set_internal_var name value o, (altered.0, (true, altered.1)))

  -- Whether the variable was handled, and the error.
  unfoldable pub handle_set_global :
      Bytes → Bytes → Overrides → C → Overrides × (C × (Bool × Option VarError))
  handle_set_global name value o c = set_mapped name value o c (get_var_mapping name)

  abbrev set_session_mapped : Bytes → C → Option VarMapping → C × (Bool × Option VarError)
  set_session_mapped value c none = (c, (false, none))
  set_session_mapped value c (some m) =
      if m.no_op || is_internal m.scope
      then (c, (true, none))
      else let answer =
          pg.exec (assignment (codes "SET ") m.pg_var (converted m.transform value)) [] c in
        (answer.0, (true, error_of answer.1))

  unfoldable pub handle_set_session : Bytes → Bytes → C → C × (Bool × Option VarError)
  handle_set_session name value c = set_session_mapped value c (get_var_mapping name)

  abbrev shown : Option (Bytes → Bytes) → C × Sent Bytes → C × (Bytes × (Bool × Option VarError))
  shown conversion (c, refused e) = (c, ([], (true, some (call_failed e))))
  shown conversion (c, sent value) = (c, (converted conversion value, (true, none)))

  abbrev ask_server : VarMapping → C → C × (Bytes × (Bool × Option VarError))
  ask_server m c =
      if m.no_op || is_empty m.pg_var
      then (c, ([], (true, none)))
      else shown m.reverse (pg.query_text (codes "SHOW " ++ m.pg_var) c)

  -- Behind the look at the overrides.
  abbrev static_or_server : VarMapping → C → C × (Bytes × (Bool × Option VarError))
  static_or_server m c =
      if is_empty m.static_value then ask_server m c else (c, (m.static_value, (true, none)))

  abbrev pub overridden_or : VarMapping → C → Option Bytes → C × (Bytes × (Bool × Option VarError))
  overridden_or m c none = static_or_server m c
  overridden_or m c (some value) = (c, (value, (true, none)))

  abbrev pub value_of_mapped :
      Bytes → Overrides → C → Option VarMapping → C × (Bytes × (Bool × Option VarError))
  value_of_mapped name o c none = (c, ([], (false, none)))
  value_of_mapped name o c (some m) = overridden_or m c (get_internal_var name o)

  unfoldable pub get_mysql_var_value :
      Bytes → Overrides → C → C × (Bytes × (Bool × Option VarError))
  get_mysql_var_value name o c = value_of_mapped name o c (get_var_mapping name)

  abbrev status_of : C → Option StatusVarMapping → C × (Bytes × (Bool × Option VarError))
  status_of c none = (c, ([], (false, none)))
  status_of c (some m) =
      if is_empty m.status_value
      then shown m.status_transform (pg.query_text m.pg_query c)
      else (c, (m.status_value, (true, none)))

  unfoldable pub get_mysql_status_value : Bytes → C → C × (Bytes × (Bool × Option VarError))
  get_mysql_status_value name c = status_of c (get_status_var_mapping name)
