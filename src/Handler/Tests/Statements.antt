-- ===== src/Handler/Tests/Statements.antt =====
-- Prepared statements and transactions, on a server of one flag.
use my_proxy.Base.{
  ℕ, ◌≡◌, refl, ◌⊎◌, Bool, true, false, ◌||◌, List, [], ◌∷◌, none, some, Bytes, codes,
  if◌then◌else◌, arith,
}
use my_proxy.Base.Dict.{lookup}
use my_proxy.Base.Eq.{equal, bytes_eq, nat_eq}
use my_proxy.Base.Text.{has_prefix, to_upper, trim_left, trim_right, replace_from}
use my_proxy.Session.{get_prepared_statement, PreparedStatement}
use my_proxy.Session.Transactions.{IsServer, Agrees, Covers}
use my_proxy.Postgres.{other_error, refused, sent, Postgres}
use my_proxy.Rewrite.Statements.{strip_tidb_syntax, rewrite, rewrite_prepared}
use my_proxy.Handler.State.{State, Env, session_exec}
use my_proxy.Handler.Query.{dispatch}
use my_proxy.Handler.Query.Transactions.{
  begins, commits, commit_semicolon, dispatch_all, RepliesLost, dispatch_all-Agrees,
  dispatch-disagrees,
}
use my_proxy.Handler.Prepared.{new_stmt, add_stmt, stmt_id, handle_stmt_close}
use my_proxy.Handler.Prepared.Numbers.{add_stmt-overwrites}
use my_proxy.Handler.Tests.{library, env, connected}

abbrev first_stmt : PreparedStatement
first_stmt = new_stmt 1 (codes "SELECT 1") (codes "SELECT 1") 0

abbrev second_stmt : PreparedStatement
second_stmt = new_stmt 2 (codes "SELECT 2") (codes "SELECT 2") 0

abbrev two_stmts : State ℕ Bytes
two_stmts =
    let s : State ℕ Bytes = connected (codes "shop") in
    record s {
      session = record s.session { prepared_stmts = (1, first_stmt) ∷ (2, second_stmt) ∷ [] };
    }

add_stmt-overwrites_example :
    (get_prepared_statement 2 (handle_stmt_close (stmt_id 1) two_stmts).0.session
      ≡ some second_stmt)
    × (get_prepared_statement 2
          (add_stmt library
            (codes "DELETE FROM t")
            (handle_stmt_close (stmt_id 1) two_stmts).0).0.session
        ≡ some (
            new_stmt 2
              (rewrite_prepared none true (codes "DELETE FROM t")).0
              (codes "DELETE FROM t")
              (rewrite_prepared none true (codes "DELETE FROM t")).1))
unfolding lookup
add_stmt-overwrites_example =
    add_stmt-overwrites library 2 1 first_stmt second_stmt (codes "DELETE FROM t") two_stmts
      (omega arith, (omega arith, omega arith)) refl (omega arith) (omega arith) refl refl

-- A server of one flag, which reads a semicolon like the end of the text.
abbrev act : Bytes → Bool → Bool
act sql c =
    if equal sql (codes "BEGIN") || equal sql (codes "BEGIN;")
    then true
    else if equal sql (codes "COMMIT")
        || (equal sql (codes "COMMIT;") || equal sql (codes "ROLLBACK"))
    then false
    else c

abbrev flags : Postgres Bool ℕ
flags = record {
  exec = λ sql args c. (act sql c, sent 0);
  query = λ sql args c. (act sql c, sent (record { found = []; err = none }));
  query_text = λ sql c. (c, refused (other_error []));
  scan_id = λ r. some r;
}

abbrev flag_of : Bool → Bool
flag_of c = c

absurd_failure : {A : Type 0} → false ≡ true → A
absurd_failure e = absurd (ground arith)

flags-IsServer : IsServer flag_of (session_exec flags)
unfolding equal
flags-IsServer = record {
  begins = λ c h. refl;
  commits = λ c h. refl;
  rolls_back = λ c h. refl;
  stays = λ c e. absurd_failure e;
}

abbrev controls : List (Env ℕ × Bytes)
controls = (env, codes " begin ") ∷ (env, codes "Commit") ∷ []

dispatch_all-Agrees_example :
    Covers flag_of
      (session_exec flags)
      (dispatch_all flags library controls (connected false)).session
    × (RepliesLost flags library controls (connected false)
        ⊎ Agrees flag_of
            (session_exec flags)
            (dispatch_all flags library controls (connected false)).session)
unfolding to_upper trim_left trim_right
dispatch_all-Agrees_example =
    dispatch_all-Agrees flags library flag_of controls (connected false) flags-IsServer
      (
        record { text = begins refl; plain = refl },
        (record { text = commits refl; plain = refl }, tt),
      )
      refl

abbrev busy : State ℕ Bool
busy =
    let s : State ℕ Bool = connected true in
    record s { session = record s.session { in_transaction = true } }

dispatch-disagrees_example :
    ((dispatch flags library env (codes "COMMIT;") busy).0.session.in_transaction ≡ true)
    × ¬ Agrees flag_of
        (session_exec flags)
        (dispatch flags library env (codes "COMMIT;") busy).0.session
unfolding to_upper trim_left trim_right rewrite strip_tidb_syntax replace_from has_prefix equal
dispatch-disagrees_example =
    dispatch-disagrees flags library flag_of env (codes "COMMIT;") busy true (commit_semicolon refl)
      refl refl (λ e. absurd_failure e)
