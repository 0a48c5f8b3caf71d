-- ===== src/Handler/Prepared/Numbers.antt =====
-- The numbers of prepared statements.
use mathlib.Core.Path.{subst}
use my_proxy.Base.{
  ℕ, ◌+◌, ◌^◌, ◌<◌, ◌≤◌, ◌≡◌, refl, sym, ap, ◌∙◌, List, [], ◌∷◌, ◌++◌, some, Bytes, length, arith,
}
use my_proxy.Base.Dict.{lookup, insert, lookup-insert_self, lookup-insert_ne, lookup-delete_ne}
use my_proxy.Base.Eq.{nat_eq}
use my_proxy.Base.Ordered.{Ordered, insert-new, delete-old}
use my_proxy.Session.{PreparedStatement, get_prepared_statement, remove_prepared_statement}
use my_proxy.Rewrite.Statements.{rewrite_prepared}
use my_proxy.Handler.State.{State, Library}
use my_proxy.Handler.Prepared.{
  new_stmt, next_stmt_id, stmt_of, add_stmt, stmt_id, handle_stmt_close, close_stmt_found,
}

module _ {H C R : Type 0} (lib : Library C R) where
  -- The state behind the preparation of some statements, the first first.
  unfoldable pub add_all : List Bytes → State H C → State H C
  add_all [] s = s
  add_all (query ∷ queries) s = add_all queries (add_stmt lib query s).0

  -- The statements are numbered from one without a gap, and there are `n`.
  abbrev Numbered : ℕ → State H C → Type 0
  Numbered n s = Ordered 0 n s.session.prepared_stmts × (length s.session.prepared_stmts ≡ n)

  -- The next number, and what the preparation leaves.
  add_stmt-Numbered :
      (n : ℕ) (query : Bytes) (s : State H C)
      → n + 1 < 2 ^ 32
      → Numbered n s
      → (next_stmt_id s.session ≡ n + 1) × Numbered (n + 1) (add_stmt lib query s).0
  unfolding add_stmt
  add_stmt-Numbered n query s small (o, e) =
      let whole : next_stmt_id s.session ≡ n + 1 = omega (arith, e) in
      let (o', e') =
        insert-new 0 n (n + 1) (stmt_of lib query s.session) s.session.prepared_stmts (omega arith)
          o in
      (
        whole,
        subst
            (λ id.
              Ordered 0 (n + 1) (insert id (stmt_of lib query s.session) s.session.prepared_stmts)
              × (length (insert id (stmt_of lib query s.session) s.session.prepared_stmts) ≡ n + 1))
            (sym whole) (o', e' ∙ ap (λ k. k + 1) e),
      )

  add_stmt_self :
      (id : ℕ) (query : Bytes) (s : State H C)
      → next_stmt_id s.session ≡ id
      → get_prepared_statement id (add_stmt lib query s).0.session
        ≡ some (stmt_of lib query s.session)
  unfolding add_stmt
  add_stmt_self id query s whole =
      ap
        (λ k.
          lookup k (
            insert (next_stmt_id s.session) (stmt_of lib query s.session) s.session.prepared_stmts))
        (sym whole)
      ∙ lookup-insert_self (next_stmt_id s.session) _ s.session.prepared_stmts

  add_stmt_other :
      (n id : ℕ) (query : Bytes) (s : State H C)
      → next_stmt_id s.session ≡ n + 1
      → id ≤ n
      → get_prepared_statement id (add_stmt lib query s).0.session
        ≡ get_prepared_statement id s.session
  unfolding add_stmt
  add_stmt_other n id query s whole le =
      lookup-insert_ne (next_stmt_id s.session) id _ s.session.prepared_stmts
        (λ e. absurd (omega arith))

  -- A statement with a number up to `n` stays through later preparations.
  add_all-kept :
      (queries : List Bytes) (n id : ℕ) (stmt : PreparedStatement) (s : State H C)
      → n + length queries < 2 ^ 32
      → id ≤ n
      → Numbered n s
      → get_prepared_statement id s.session ≡ some stmt
      → get_prepared_statement id (add_all queries s).session ≡ some stmt
  unfolding add_all
  add_all-kept [] n id stmt s small le num found = found
  add_all-kept (query ∷ queries) n id stmt s small le num found =
      let (whole, next) = add_stmt-Numbered n query s (omega arith) num in
      add_all-kept queries (n + 1) id stmt _ (omega arith) (omega arith) next
        (add_stmt_other n id query s whole le ∙ found)

  add_all-found :
      (before : List Bytes) (query : Bytes) (after : List Bytes) (n : ℕ) (s : State H C)
      → n + length (before ++ query ∷ after) < 2 ^ 32
      → Numbered n s
      → (t : PreparedStatement) × (get_prepared_statement
            (n + length before + 1)
            (add_all (before ++ query ∷ after) s).session
          ≡ some t)
        × (t.id ≡ n + length before + 1)
        × (t.original_sql ≡ query)
        × (t.sql ≡ (rewrite_prepared lib.ast lib.enabled query).0)
        × (t.param_count ≡ (rewrite_prepared lib.ast lib.enabled query).1)
  unfolding add_all
  add_all-found [] query after n s small num =
      let (whole, next) = add_stmt-Numbered n query s (omega arith) num in
      (
        stmt_of lib query s.session,
        subst
            (λ k.
              get_prepared_statement k (add_all after (add_stmt lib query s).0).session
              ≡ some (stmt_of lib query s.session))
            (omega arith)
            (add_all-kept after (n + 1) (n + 1) (stmt_of lib query s.session) _ (omega arith)
              (omega arith) next (add_stmt_self (n + 1) query s whole)),
        omega (arith, whole),
        refl,
        refl,
        refl,
      )
  add_all-found (first ∷ before) query after n s small num =
      let (whole, next) = add_stmt-Numbered n first s (omega arith) num in
      let (t, found, id, text, sql, params) =
        add_all-found before query after (n + 1) (add_stmt lib first s).0 (omega arith) next in
      (
        t,
        subst
            (λ k.
              get_prepared_statement k
                (add_all (before ++ query ∷ after) (add_stmt lib first s).0).session
              ≡ some t)
            (omega arith) found,
        omega (arith, id),
        text,
        sql,
        params,
      )

  -- In a session with no prepared statements, where fewer than 2 ^ 32 are prepared in all and none
  -- is closed: the n-th statement has the number n, and under it the session finds, when all are
  -- prepared, that statement, with its own text and what the rewriter made of it.
  pub add_all-numbers :
      (before : List Bytes) (query : Bytes) (after : List Bytes) (s : State H C)
      → s.session.prepared_stmts ≡ []
      → length (before ++ query ∷ after) < 2 ^ 32
      → (t : PreparedStatement) × (get_prepared_statement
            (length before + 1)
            (add_all (before ++ query ∷ after) s).session
          ≡ some t)
        × (t.id ≡ length before + 1)
        × (t.original_sql ≡ query)
        × (t.sql ≡ (rewrite_prepared lib.ast lib.enabled query).0)
        × (t.param_count ≡ (rewrite_prepared lib.ast lib.enabled query).1)
  add_all-numbers before query after s fresh small =
      let num : Numbered 0 s =
        subst (λ m. Ordered 0 0 m × (length m ≡ 0)) (sym fresh) (omega arith, refl) in
      let (t, found, id, text, sql, params) =
        add_all-found before query after 0 s (omega arith) num in
      (
        t,
        subst (λ k. get_prepared_statement k (add_all (before ++ query ∷ after) s).session ≡ some t)
            (omega arith) found,
        omega (arith, id),
        text,
        sql,
        params,
      )

  -- In a session whose statements are numbered from 1 to `n` without a gap, with `n` below 2 ^ 32: a
  -- client that closes one before the last and prepares another gets the number of the last, which
  -- it still holds; that statement was there until then, and is the new one from then on.
  pub add_stmt-overwrites :
      (n k : ℕ) (closed last : PreparedStatement) (query : Bytes) (s : State H C)
      → Ordered 0 n s.session.prepared_stmts
      → length s.session.prepared_stmts ≡ n
      → n < 2 ^ 32
      → k < n
      → get_prepared_statement k s.session ≡ some closed
      → get_prepared_statement n s.session ≡ some last
      → (get_prepared_statement n (handle_stmt_close (stmt_id k) s).0.session ≡ some last)
        × (get_prepared_statement n
              (add_stmt lib query (handle_stmt_close (stmt_id k) s).0).0.session
            ≡ some (
                new_stmt n
                  (rewrite_prepared lib.ast lib.enabled query).0
                  query
                  (rewrite_prepared lib.ast lib.enabled query).1))
  unfolding handle_stmt_close
  add_stmt-overwrites n k closed last query s o e small lt found held =
      let gone : (handle_stmt_close (stmt_id k) s).0 ≡ close_stmt_found k (some closed) s =
        ap (λ f. close_stmt_found k f s) found in
      let left = record s { session = remove_prepared_statement k s.session } in
      let (o', e') = delete-old 0 n k closed s.session.prepared_stmts found o in
      let whole : next_stmt_id left.session ≡ n = omega (arith, e, e') in
      let text = (rewrite_prepared lib.ast lib.enabled query).0 in
      let params = (rewrite_prepared lib.ast lib.enabled query).1 in
      subst
        (λ t.
          (get_prepared_statement n t.session ≡ some last)
          × (get_prepared_statement n (add_stmt lib query t).0.session
              ≡ some (new_stmt n text query params)))
        (sym gone)
        (
          lookup-delete_ne k n s.session.prepared_stmts (λ same. absurd (omega arith)) ∙ held,
          add_stmt_self n query left whole ∙ ap (λ i. some (new_stmt i text query params)) whole,
        )
