-- ===== src/Handler/Variables.antt =====
-- pkg/protocol/mysql/handler.go: `handleSetCommand` and `handleSelectVariable`, with the text
-- fallback `HandleSetCommand` of pkg/mapper/show.go.
use my_proxy.Base.{
  Bool, true, false, ◌||◌, List, [], ◌∷◌, ◌++◌, Option, none, some, Bytes, codes, length, drop,
  if◌then◌else◌,
}
use my_proxy.Base.Eq.{equal}
use my_proxy.Base.Text.{has_prefix, trim_space, to_upper}
use my_proxy.Base.Search.{fields, trim, to_lower, split_two}
use my_proxy.Session.{Session, SessionError, set_autocommit, set_session_var}
use my_proxy.Postgres.{Postgres}
use my_proxy.Mapper.Variables.Access.{
  Overrides, VarError, handle_set_global, handle_set_session, get_mysql_var_value,
}
use my_proxy.Handler.State.{
  State, Failure, session_failed, var_failed, invalid_set, Reply, done, value_of, failed,
  SetVarInfo, SelectVarInfo, Library, session_exec, on_conn,
}

abbrev names_assignments : Bytes → List (Bytes × Bytes)
names_assignments charset =
    (codes "names", charset)
    ∷ (codes "character_set_client", charset)
    ∷ (codes "character_set_connection", charset)
    ∷ (codes "character_set_results", charset)
    ∷ []

abbrev collation_part : List Bytes → List (Bytes × Bytes)
collation_part (word ∷ collation ∷ rest) =
    if equal (to_upper word) (codes "COLLATE")
    then (codes "collation_connection", trim collation (codes "'\"")) ∷ []
    else []
collation_part _ = []

abbrev scopes : List Bytes
scopes =
    codes "GLOBAL " ∷ codes "SESSION " ∷ codes "@@GLOBAL." ∷ codes "@@SESSION." ∷ codes "@@" ∷ []

unfoldable pub strip_scope : List Bytes → Bytes → Bytes
strip_scope [] assignment = assignment
strip_scope (prefix ∷ prefixes) assignment =
    let rest = strip_scope prefixes assignment in
    if has_prefix (to_upper assignment) prefix then drop (length prefix) assignment else rest

abbrev one_assignment : Option (Bytes × Bytes) → Option (List (Bytes × Bytes))
one_assignment none = none
one_assignment (some (name, value)) =
    some ((trim_space name, trim (trim_space value) (codes "'\"")) ∷ [])

abbrev by_fields : Bytes → List Bytes → Option (List (Bytes × Bytes))
by_fields assignment (word ∷ charset ∷ rest) =
    if equal (to_upper word) (codes "NAMES")
    then some (names_assignments (trim charset (codes "'\"")) ++ collation_part rest)
    else one_assignment (split_two b'=' (strip_scope scopes assignment))
by_fields assignment _ = one_assignment (split_two b'=' (strip_scope scopes assignment))

abbrev by_words : Bytes → Option (List (Bytes × Bytes))
by_words assignment = by_fields assignment (fields assignment)

-- The variables of a text that the parser refuses, `none` for an error.
unfoldable pub set_command_vars : Bytes → Option (List (Bytes × Bytes))
set_command_vars sql =
    let normalized = trim_space sql in
    if has_prefix (to_upper normalized) (codes "SET ")
    then by_words (trim_space (drop 4 normalized))
    else none

abbrev is_autocommit_on : Bytes → Bool
is_autocommit_on value =
    equal (to_upper value) (codes "ON")
    || (equal value (codes "1") || equal (to_upper value) (codes "TRUE"))

abbrev global_error : Option VarError → Option Failure
global_error none = none
global_error (some e) = some (var_failed e)

abbrev variable_column : SelectVarInfo → Bytes
variable_column v = (if v.of_global then codes "@@global." else codes "@@") ++ v.var_name

abbrev value_reply :
    {R : Type 0} → SelectVarInfo → Bytes × (Bool × Option VarError) → Option (Reply R)
value_reply v (value, (true, none)) = some (value_of (variable_column v) value)
value_reply v _ = none

abbrev global_call :
    {C R : Type 0} → Postgres C R → SetVarInfo → Overrides → C → C × (Overrides × Option VarError)
global_call pg v overrides c =
    let (after, answer) = handle_set_global pg v.name v.value overrides c in
    (answer.0, (after, answer.1.1))

module _ {H C : Type 0} where
  abbrev store : Bytes → Bytes → State H C → State H C
  store name value s = record s { session = set_session_var name value s.session }

  abbrev pub reply_done : {R : Type 0} → State H C × Option Failure → State H C × Reply R
  reply_done (s, some e) = (s, failed e)
  reply_done (s, none) = (s, done 0 0)

  -- The next round of a loop that stops at the first error.
  abbrev pub or_stop :
      State H C × Option Failure
      → (State H C → State H C × Option Failure)
      → State H C × Option Failure
  or_stop (s, some e) next = (s, some e)
  or_stop (s, none) next = next s

module _ {H C R : Type 0} (pg : Postgres C R) where
  -- A change of the mode; its variable is stored where there was no error.
  abbrev autocommit_answer :
      Bytes → Bytes → State H C → Session C Bytes × Option SessionError → State H C × Option Failure
  autocommit_answer name value s (session, some e) =
      (record s { session = session }, some (session_failed e))
  autocommit_answer name value s (session, none) =
      (store name value (record s { session = session }), none)

  abbrev set_mode : Bytes → Bytes → State H C → State H C × Option Failure
  set_mode name value s =
      autocommit_answer name value s
        (set_autocommit (session_exec pg) (is_autocommit_on value) s.session)

  -- `SET GLOBAL`; a variable that is not known is passed over.
  abbrev set_global : SetVarInfo → State H C → State H C × Option Failure
  set_global v s =
      let (after, answer) = on_conn (global_call pg v s.overrides) (s.overrides, none) s in
      (record after { overrides = answer.0 }, global_error answer.1)

  -- Whatever becomes of the server's variable, the session's is set.
  abbrev set_session : SetVarInfo → State H C → State H C
  set_session v s =
      let sent_on =
        if v.is_system
        then (on_conn (handle_set_session pg v.name v.value) (false, none) s).0
        else s in
      store v.name v.value sent_on

  abbrev set_one : SetVarInfo → State H C → State H C × Option Failure
  set_one v s =
      if v.is_global
      then set_global v s
      else if equal (to_lower v.name) (codes "autocommit")
      then set_mode v.name v.value s
      else (set_session v s, none)

  unfoldable pub set_all : List SetVarInfo → State H C → State H C × Option Failure
  set_all [] s = (s, none)
  set_all (v ∷ vars) s = or_stop (set_one v s) (set_all vars)

  -- The loop behind the fallback.
  unfoldable pub set_texts : List (Bytes × Bytes) → State H C → State H C × Option Failure
  set_texts [] s = (s, none)
  set_texts ((name, value) ∷ vars) s =
      or_stop
        (if equal (to_lower name) (codes "autocommit")
          then set_mode name value s
          else (store name value s, none))
        (set_texts vars)

  abbrev set_fallback : Bytes → Option (List (Bytes × Bytes)) → State H C → State H C × Reply R
  set_fallback query none s = (s, failed (invalid_set query))
  set_fallback query (some vars) s = reply_done (set_texts vars s)

  -- By the variables that the parser gives; none is the parser's nil.
  abbrev set_by : Bytes → List SetVarInfo → State H C → State H C × Reply R
  set_by query [] s = set_fallback query (set_command_vars query) s
  set_by query (v ∷ vars) s = reply_done (set_all (v ∷ vars) s)

  module _ (lib : Library C R) where
    unfoldable pub handle_set_command : Bytes → State H C → State H C × Reply R
    handle_set_command query s = set_by query (lib.parse_set query) s

    abbrev pub select_variable : Option SelectVarInfo → State H C → State H C × Option (Reply R)
    select_variable none s = (s, none)
    select_variable (some v) s =
        let (after, answer) =
          on_conn (get_mysql_var_value pg v.var_name s.overrides) ([], (false, none)) s in
        (after, value_reply v answer)

    -- `none` where the statement is left to what follows.
    unfoldable pub handle_select_variable : Bytes → State H C → State H C × Option (Reply R)
    handle_select_variable query s = select_variable (lib.parse_select_variable query) s
