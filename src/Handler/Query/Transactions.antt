-- ===== src/Handler/Query/Transactions.antt =====
-- The statements that open and end transactions, through the handler.
use mathlib.Core.Path.{subst}
use my_proxy.Base.{
  ◌≡◌, ◌≢◌, refl, sym, ap, ◌∙◌, ◌⊎◌, inl, inr, Bool, List, [], ◌∷◌, Option, none, some, Bytes,
  codes, All,
}
use my_proxy.Base.Eq.{equal}
use my_proxy.Base.Text.{has_prefix}
use my_proxy.Base.Search.{contains}
use my_proxy.Session.{Session, SessionError, commit_failed, rollback_failed}
use my_proxy.Session.Transactions.{
  IsServer, Agrees, Covers, Agrees-Covers, IsLost, lost_commit, lost_rollback, Op, begin, commit,
  rollback, apply, apply-Covers, apply-Agrees,
}
use my_proxy.Postgres.{Postgres}
use my_proxy.Admin.{is_replication_command}
use my_proxy.Rewrite.Accounts.{is_acl_command}
use my_proxy.Rewrite.Statements.{
  rewrite, is_show_statement, is_set_statement, is_use_statement, is_begin_statement,
  is_commit_statement, is_rollback_statement,
}
use my_proxy.Handler.State.{
  State, Reply, failed, session_failed, Library, Env, session_exec, on_session_conn, closed_conn,
  query_conn,
}
use my_proxy.Handler.Names.{
  is_kill_statement, is_flush_statement, is_tablespace_statement, is_database_statement,
  upper_query,
}
use my_proxy.Handler.Variables.{handle_select_variable, select_variable}
use my_proxy.Handler.Control.{session_reply, run_begin, run_commit, run_rollback}
use my_proxy.Handler.Query.{is_ddl, run_statement, run_plain, or_next, run_other, dispatch}

-- A text that the handler takes for a statement on transactions, and the session's call for it.
pub data Controls (query : Bytes) : Type 0 where
  begins : upper_query query ≡ codes "BEGIN" → Controls query
  starts : upper_query query ≡ codes "START TRANSACTION" → Controls query
  commits : upper_query query ≡ codes "COMMIT" → Controls query
  rolls_back : upper_query query ≡ codes "ROLLBACK" → Controls query

-- The same with a semicolon.
pub data Unseen (query : Bytes) : Type 0 where
  begin_semicolon : upper_query query ≡ codes "BEGIN;" → Unseen query
  commit_semicolon : upper_query query ≡ codes "COMMIT;" → Unseen query
  rollback_semicolon : upper_query query ≡ codes "ROLLBACK;" → Unseen query

-- The call of the session that a text leads to.
abbrev pub op_of : {query : Bytes} → Controls query → Op Bytes
op_of (begins e) = begin
op_of (starts e) = begin
op_of (commits e) = commit
op_of (rolls_back e) = rollback

-- The reply that a COMMIT or a ROLLBACK failed.
pub data IsLostReply {R : Type 0} : Reply R → Type 0 where
  lost_commit_reply : IsLostReply (failed (session_failed commit_failed))
  lost_rollback_reply : IsLostReply (failed (session_failed rollback_failed))

module _ {H C R : Type 0} (pg : Postgres C R) (lib : Library C R) where
  session_reply-session :
      (s : State H C) (r : Session C Bytes × Option SessionError)
      → (session_reply pg lib s r).0.session ≡ r.0
  session_reply-session s (session, none) = refl
  session_reply-session s (session, some e) = refl

  session_reply-lost :
      (s : State H C) (session : Session C Bytes) (e : Option SessionError)
      → IsLost e
      → IsLostReply (session_reply pg lib s (session, e)).1
  session_reply-lost s session _ lost_commit = lost_commit_reply
  session_reply-lost s session _ lost_rollback = lost_rollback_reply

  through :
      (env : Env H) (query : Bytes) (s : State H C) (r : State H C × Reply R)
      → lib.parse_select_variable query ≡ none
      → run_other pg lib env query s ≡ r
      → or_next pg lib (handle_select_variable pg lib query s) (run_other pg lib env query) ≡ r
  unfolding handle_select_variable
  through env query s r v e =
      ap (λ o. or_next pg lib (select_variable pg lib o s) (run_other pg lib env query)) v ∙ e

  run_control : {query : Bytes} → Controls query → State H C → State H C × Reply R
  run_control (begins e) s = run_begin pg lib s
  run_control (starts e) s = run_begin pg lib s
  run_control (commits e) s = run_commit pg lib s
  run_control (rolls_back e) s = run_rollback pg lib s

  dispatch-control :
      (env : Env H) (query : Bytes) (s : State H C) (k : Controls query)
      → lib.parse_select_variable query ≡ none
      → dispatch pg lib env query s ≡ run_control k s
  unfolding dispatch is_show_statement is_set_statement is_use_statement is_database_statement
      run_other is_begin_statement is_commit_statement is_rollback_statement has_prefix equal
      run_control
  dispatch-control env query s (begins e) v = rw e (through env query s _ v (rw e refl))
  dispatch-control env query s (starts e) v = rw e (through env query s _ v (rw e refl))
  dispatch-control env query s (commits e) v = rw e (through env query s _ v (rw e refl))
  dispatch-control env query s (rolls_back e) v = rw e (through env query s _ v (rw e refl))

  run_control-session :
      {query : Bytes} (k : Controls query) (s : State H C)
      → (run_control k s).0.session ≡ (apply (session_exec pg) (op_of k) s.session).0
  unfolding run_control run_begin run_commit run_rollback apply
  run_control-session (begins e) s = session_reply-session s _
  run_control-session (starts e) s = session_reply-session s _
  run_control-session (commits e) s = session_reply-session s _
  run_control-session (rolls_back e) s = session_reply-session s _

  run_control-lost :
      {query : Bytes} (k : Controls query) (s : State H C)
      → IsLost (apply (session_exec pg) (op_of k) s.session).1
      → IsLostReply (run_control k s).1
  unfolding run_control run_begin run_commit run_rollback apply
  run_control-lost (begins e) s h = session_reply-lost s _ _ h
  run_control-lost (starts e) s h = session_reply-lost s _ _ h
  run_control-lost (commits e) s h = session_reply-lost s _ _ h
  run_control-lost (rolls_back e) s h = session_reply-lost s _ _ h

  -- The state behind some queries.
  unfoldable pub dispatch_all : List (Env H × Bytes) → State H C → State H C
  dispatch_all [] s = s
  dispatch_all ((env, query) ∷ queries) s = dispatch_all queries (dispatch pg lib env query s).0

  -- A query that is one of the texts, and that the parser takes for no variable.
  pub record IsControl (entry : Env H × Bytes) : Type 0 where
    pub text : Controls entry.1
    pub plain : lib.parse_select_variable entry.1 ≡ none

  -- One of the queries got the reply that a COMMIT or a ROLLBACK failed.
  unfoldable pub RepliesLost : List (Env H × Bytes) → State H C → Type 0
  RepliesLost [] s = ⊥
  RepliesLost ((env, query) ∷ queries) s =
      IsLostReply (dispatch pg lib env query s).1
      ⊎ RepliesLost queries (dispatch pg lib env query s).0

  module _ (open_tx : C → Bool) where
    dispatch-session :
        (env : Env H) (query : Bytes) (s : State H C) (one : IsControl (env, query))
        → (dispatch pg lib env query s).0.session
          ≡ (apply (session_exec pg) (op_of one.text) s.session).0
    dispatch-session env query s one =
        ap (λ r. r.0.session) (dispatch-control env query s one.text one.plain)
        ∙ run_control-session one.text s

    dispatch-kept :
        (env : Env H) (query : Bytes) (s : State H C)
        → IsControl (env, query)
        → IsServer open_tx (session_exec pg)
        → Agrees open_tx (session_exec pg) s.session
        → IsLostReply (dispatch pg lib env query s).1
          ⊎ Agrees open_tx (session_exec pg) (dispatch pg lib env query s).0.session
    dispatch-kept env query s one server h =
        elim (apply-Agrees open_tx (session_exec pg) (op_of one.text) s.session server h) [
          | inl lost ↦ inl (
              subst (λ r. IsLostReply r.1) (sym (dispatch-control env query s one.text one.plain))
                (run_control-lost one.text s lost))
          | inr kept ↦ inr (
              subst (Agrees open_tx (session_exec pg)) (sym (dispatch-session env query s one))
                kept)
        ]

    dispatch_all-Covers :
        (queries : List (Env H × Bytes)) (s : State H C)
        → IsServer open_tx (session_exec pg)
        → All IsControl queries
        → Covers open_tx (session_exec pg) s.session
        → Covers open_tx (session_exec pg) (dispatch_all queries s).session
    unfolding dispatch_all
    dispatch_all-Covers [] s server k h = h
    dispatch_all-Covers ((env, query) ∷ queries) s server (one, k) h =
        dispatch_all-Covers queries (dispatch pg lib env query s).0 server k (
          subst (Covers open_tx (session_exec pg)) (sym (dispatch-session env query s one))
            (apply-Covers open_tx (session_exec pg) (op_of one.text) s.session server h))

    dispatch_all-RepliesLost :
        (queries : List (Env H × Bytes)) (s : State H C)
        → IsServer open_tx (session_exec pg)
        → All IsControl queries
        → Agrees open_tx (session_exec pg) s.session
        → RepliesLost queries s ⊎ Agrees open_tx (session_exec pg) (dispatch_all queries s).session
    unfolding dispatch_all RepliesLost
    dispatch_all-RepliesLost [] s server k h = inr h
    dispatch_all-RepliesLost ((env, query) ∷ queries) s server (one, k) h =
        elim (dispatch-kept env query s one server h) [
          | inl lost ↦ inl (inl lost)
          | inr kept ↦
              elim (dispatch_all-RepliesLost queries (dispatch pg lib env query s).0 server k
                kept) [ inl lost ↦ inl (inr lost) | inr last ↦ inr last ]
        ]

    -- Through any queries BEGIN, START TRANSACTION, COMMIT and ROLLBACK that the parser takes for
    -- no variable, in any case and with any white space around them, in any order and whatever
    -- errors they return: where one that succeeds opens or ends the transaction at the server, and
    -- a BEGIN that fails leaves it, and the session's flag is the state of the transaction of its
    -- connection: behind them a session whose flag is down has no transaction open, and the flag is
    -- that state again, unless one of the replies was that a COMMIT or a ROLLBACK failed.
    pub dispatch_all-Agrees :
        (queries : List (Env H × Bytes)) (s : State H C)
        → IsServer open_tx (session_exec pg)
        → All IsControl queries
        → Agrees open_tx (session_exec pg) s.session
        → Covers open_tx (session_exec pg) (dispatch_all queries s).session
          × (RepliesLost queries s
              ⊎ Agrees open_tx (session_exec pg) (dispatch_all queries s).session)
    dispatch_all-Agrees queries s server k h = (
      dispatch_all-Covers queries s server k (Agrees-Covers open_tx (session_exec pg) s.session h),
      dispatch_all-RepliesLost queries s server k h,
    )

  run_statement-Unseen :
      (env : Env H) (query : Bytes) (s : State H C) (conn : C)
      → Unseen query
      → s.session.pg_conn ≡ some conn
      → (run_statement pg lib env query s).0.session ≡ record s.session {
        pg_conn = some (pg.query (rewrite lib.ast lib.enabled query) [] conn).0;
      }
  unfolding run_statement is_ddl has_prefix
  run_statement-Unseen env query s conn k own = plain k
    where
      sql : Bytes
      sql = rewrite lib.ast lib.enabled query

      asked :
          (query_conn pg sql [] s).0.session
          ≡ record s.session { pg_conn = some (pg.query sql [] conn).0 }
      asked = ap (λ o. (on_session_conn (pg.query sql []) closed_conn s o).0.session) own

      plain :
          Unseen query
          → (run_statement pg lib env query s).0.session
            ≡ record s.session { pg_conn = some (pg.query sql [] conn).0 }
      plain (begin_semicolon e) = rw e asked
      plain (commit_semicolon e) = rw e asked
      plain (rollback_semicolon e) = rw e asked

  dispatch-Unseen :
      (env : Env H) (query : Bytes) (s : State H C)
      → Unseen query
      → lib.parse_select_variable query ≡ none
      → dispatch pg lib env query s ≡ run_statement pg lib env query s
  unfolding dispatch is_show_statement is_set_statement is_use_statement is_database_statement
      run_other is_begin_statement is_commit_statement is_rollback_statement is_kill_statement
      is_replication_command is_acl_command run_plain is_flush_statement is_tablespace_statement
      has_prefix equal contains
  dispatch-Unseen env query s (begin_semicolon e) v = rw e (through env query s _ v (rw e refl))
  dispatch-Unseen env query s (commit_semicolon e) v = rw e (through env query s _ v (rw e refl))
  dispatch-Unseen env query s (rollback_semicolon e) v = rw e (through env query s _ v (rw e refl))

  -- A query BEGIN, COMMIT or ROLLBACK with a semicolon, which the parser takes for no variable, is
  -- sent to the server as rewritten, and the session's flag stays: where the server acts on it, so
  -- that its transaction is no more in the state of the flag, the two disagree.
  pub dispatch-disagrees :
      (open_tx : C → Bool) (env : Env H) (query : Bytes) (s : State H C) (conn : C)
      → Unseen query
      → lib.parse_select_variable query ≡ none
      → s.session.pg_conn ≡ some conn
      → open_tx (pg.query (rewrite lib.ast lib.enabled query) [] conn).0 ≢ s.session.in_transaction
      → ((dispatch pg lib env query s).0.session.in_transaction ≡ s.session.in_transaction)
        × ¬ Agrees open_tx (session_exec pg) (dispatch pg lib env query s).0.session
  dispatch-disagrees open_tx env query s conn k v own acts =
      let same =
        ap (λ r. r.0.session) (dispatch-Unseen env query s k v)
        ∙ run_statement-Unseen env query s conn k own in
      (
        ap (λ (t : Session C Bytes). t.in_transaction) same,
        λ h. acts (subst (Agrees open_tx (session_exec pg)) same h),
      )
