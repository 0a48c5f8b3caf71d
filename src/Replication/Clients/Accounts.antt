-- ===== src/Replication/Clients/Accounts.antt =====
-- The registered clients and the closed connections, through a run of the server.
use mathlib.Core.Path.{subst}
use my_proxy.Base.{
  absurd_none, Option-cases, ℕ, suc, ◌+◌, ◌%◌, ◌^◌, ◌<◌, ◌≡◌, refl, sym, ap, ◌∙◌, Bool, List, [],
  ◌∷◌, Option, none, some, Bytes, length, Bool-cases, inl, inr, All, arith,
}
use my_proxy.Base.Dict.{Dict, lookup, insert, lookup-insert_self}
use my_proxy.Base.Ordered.{Ordered, total-insert_new, total-insert_old, total-delete_old}
use my_proxy.Base.Eq.{nat_eq}
use my_proxy.Encoder.Events.{Event}
use my_proxy.Replication.Changes.{ChangeEvent, Core, Now}
use my_proxy.Replication.Events.{advance, convert_to_mysql_events}
use my_proxy.Replication.Clients.Weights.{
  dumps, IsWeight, weight_of_dumps, weight_of_conns, weight_of_clients,
}
use my_proxy.Replication.Clients.{
  DumpClient, Server, Input, send_binlog_packet, remove_dump_client, keep_or_remove,
  handle_binlog_dump, stream_tick, format_description_event, send_events, broadcast, distribute,
  process_change_event, step, run_inputs, packet, send_data,
}

-- After `n` dumps of connections with the weight `m` in all.
record Accounted {Conn : Type 0} (close : Conn → Conn) (f : Conn → ℕ) (n m : ℕ) (s : Server Conn)
    : Type 0 where
  next : s.next_client_id ≡ n
  ordered : Ordered 0 n s.clients
  weight : weight_of_clients f s.clients + weight_of_conns f s.closed ≡ m
  ended : All (λ conn. (c : Conn) × (conn ≡ close c)) s.closed

module _ {Conn : Type 0} (write : Conn → Bytes → Conn × Bool) (close : Conn → Conn) where
  module _ (f : Conn → ℕ) (fixed : IsWeight write close f) where
    remove_dump_client-Accounted :
        (n k id : ℕ) (s : Server Conn)
        → Accounted close f n k s
        → Accounted close f n k (remove_dump_client write close id s)
    unfolding remove_dump_client
    remove_dump_client-Accounted n k id s a = elim (Option-cases (lookup id s.clients)) [
      | inl gone ↦ rw (remove_dump_client, gone) a
      | inr (c, found) ↦
          let (o, l) = total-delete_old (λ d. f d.conn) 0 n id c s.clients found a.ordered in
          rw (remove_dump_client, found)
            (record {
              next = a.next;
              ordered = o;
              weight = omega (arith, l, a.weight, fixed.closed c.conn);
              ended = ((c.conn, refl), a.ended);
            })
    ]

    keep_or_remove-Accounted :
        (n k id : ℕ) (s : Server Conn) (w : DumpClient Conn) (r : DumpClient Conn × Bool)
        → lookup id s.clients ≡ some w
        → f r.0.conn ≡ f w.conn
        → Accounted close f n k s
        → Accounted close f n k (keep_or_remove write close id s r)
    keep_or_remove-Accounted n k id s w (c, sent) found same a =
        let (o, l) = total-insert_old (λ d. f d.conn) 0 n id c w s.clients found a.ordered in
        let kept : Accounted close f n k (record s { clients = insert id c s.clients }) = record {
          next = a.next;
          ordered = o;
          weight = omega (arith, l, a.weight, same);
          ended = a.ended;
        } in
        elim (Bool-cases sent) [
          | inl p ↦ rw p kept
          | inr p ↦ rw p (
              remove_dump_client-Accounted n k id (record s { clients = insert id c s.clients })
                kept)
        ]

    handle_binlog_dump-Accounted :
        (now : Now) (conn : Conn) (server_id : ℕ) (position : Bytes × ℕ) (n k : ℕ) (s : Server Conn)
        → n + 1 < 2 ^ 32
        → Accounted close f n k s
        → Accounted close f
            (n + 1)
            (k + f conn)
            (handle_binlog_dump write close now conn server_id position s)
    unfolding handle_binlog_dump send_binlog_packet
    handle_binlog_dump-Accounted now conn server_id position n k s small a =
        let id = (s.next_client_id + 1) % 2 ^ 32 in
        let client : DumpClient Conn = record {
          id = id;
          server_id = server_id;
          conn = conn;
          position = position;
          start_time = now.seconds;
          events_sent = 0;
          seq_num = 1;
        } in
        let registered : Server Conn = record s {
          next_client_id = id;
          clients = insert id client s.clients;
        } in
        let next : id ≡ n + 1 = omega (arith, a.next) in
        let (o, l) =
          total-insert_new (λ (d : DumpClient Conn). f d.conn) 0 n id client s.clients
            (omega (arith, next)) a.ordered in
        keep_or_remove-Accounted (n + 1) (k + f conn) id registered client
          (send_binlog_packet write close client (format_description_event s.core now))
          (lookup-insert_self id client s.clients) (fixed.written conn _)
          (record {
            next = next;
            ordered = subst (λ j. Ordered 0 j (insert id client s.clients)) next o;
            weight = omega (arith, l, a.weight);
            ended = a.ended;
          })

    stream_tick-Accounted :
        (now : Now) (n k id : ℕ) (s : Server Conn)
        → Accounted close f n k s
        → Accounted close f n k (stream_tick write close now id s)
    unfolding stream_tick send_binlog_packet
    stream_tick-Accounted now n k id s a = elim (Option-cases (lookup id s.clients)) [
      | inl gone ↦ rw (stream_tick, gone) a
      | inr (c, found) ↦
          rw (stream_tick, found)
            (keep_or_remove-Accounted n k id s c _ found (fixed.written c.conn _) a)
    ]

    module _ (encode : Event → Option Bytes) where
      send_data-weight :
          (c : DumpClient Conn) (payload : Bytes)
          → f (send_data write close c payload).conn ≡ f c.conn
      unfolding send_data send_binlog_packet
      send_data-weight c payload = elim (Bool-cases (write c.conn (packet c.seq_num payload)).1) [
        | inl p ↦ rw p (fixed.written c.conn _)
        | inr p ↦ rw p (fixed.written c.conn _)
      ]

      send_events-weight :
          (events : List Event) (c d : DumpClient Conn)
          → send_events write close encode events c ≡ some d
          → f d.conn ≡ f c.conn
      unfolding send_events
      send_events-weight [] c d h =
          ap (λ (t : DumpClient Conn). f t.conn) (let same : d ≡ c = cc in same)
      send_events-weight (e ∷ events) c d h = elim (Option-cases (encode e)) [
        | inl failed ↦ absurd_none (sym h ∙ rw (send_events, failed) refl)
        | inr (payload, done) ↦
            let found : send_events write close encode events (send_data write close c payload)
                ≡ some d =
              sym (rw (send_events, done) refl) ∙ h in
            send_events-weight events (send_data write close c payload) d found
            ∙ send_data-weight c payload
      ]

      broadcast-Ordered :
          (low high : ℕ) (events : List Event) (m t : Dict ℕ (DumpClient Conn))
          → broadcast write close encode events m ≡ some t
          → Ordered low high m
          → Ordered low high t × (weight_of_clients f t ≡ weight_of_clients f m)
      unfolding broadcast
      broadcast-Ordered low high events [] t e h = let same : t ≡ [] = cc in rw same (h, refl)
      broadcast-Ordered low high events ((id, c) ∷ m) t e (above, h) =
          elim (Option-cases (send_events write close encode events c)) [
            | inl failed ↦ absurd_none (sym e ∙ rw (broadcast, failed) refl)
            | inr (d, sent) ↦ elim (Option-cases (broadcast write close encode events m)) [
              | inl failed ↦ absurd_none (sym e ∙ rw (broadcast, sent, failed) refl)
              | inr (rest, done) ↦
                  let found : broadcast write close encode events ((id, c) ∷ m)
                      ≡ some ((id, d) ∷ rest) =
                    rw (broadcast, sent, done) refl in
                  let both : some t ≡ some ((id, d) ∷ rest) = sym e ∙ found in
                  let same : t ≡ (id, d) ∷ rest = cc in
                  let (o, l) = broadcast-Ordered id high events m rest done h in
                  rw same ((above, o), omega (arith, l, send_events-weight events c d sent))
            ]
          ]

      process_change_event-Accounted :
          (now : Now) (e : ChangeEvent) (n k : ℕ) (s t : Server Conn)
          → process_change_event write close encode now e s ≡ some t
          → Accounted close f n k s
          → Accounted close f n k t
      unfolding process_change_event distribute
      process_change_event-Accounted now e n k s t h a = go (convert_to_mysql_events s.core now e) h
        where
          go :
              (o : Option (Core × List Event))
              → distribute write close encode s o ≡ some t
              → Accounted close f n k t
          go none h = absurd_none (sym h)
          go (some (core, events)) h =
              elim (Option-cases (broadcast write close encode events s.clients)) [
                | inl failed ↦ absurd_none (sym h ∙ rw (distribute, failed) refl)
                | inr (clients, done) ↦
                    let u : Server Conn = record s {
                      core = advance (length events) core;
                      clients = clients;
                    } in
                    let both : some t ≡ some u = sym h ∙ rw (distribute, done) refl in
                    let same : t ≡ u = cc in
                    let (o, l) = broadcast-Ordered 0 n events s.clients clients done a.ordered in
                    rw same (record {
                      next = a.next;
                      ordered = o;
                      weight = omega (arith, l, a.weight);
                      ended = a.ended;
                    })
              ]

      run_inputs-Accounted :
          (inputs : List (Now × Input Conn)) (n k : ℕ) (s t : Server Conn)
          → run_inputs write close encode inputs s ≡ some t
          → n + dumps inputs < 2 ^ 32
          → Accounted close f n k s
          → Accounted close f (n + dumps inputs) (k + weight_of_dumps f inputs) t
      unfolding run_inputs step
      run_inputs-Accounted [] n k s t h small a =
          let same : t ≡ s = cc in
          let zero_more : n + 0 ≡ n = omega arith in
          let no_more : k + 0 ≡ k = omega arith in rw (same, zero_more, no_more) a
      run_inputs-Accounted ((now, Input.dump conn server_id position) ∷ inputs) n k s t h small a =
          let more : n + suc (dumps inputs) ≡ n + 1 + dumps inputs = omega arith in
          let heavier : k + (f conn + weight_of_dumps f inputs)
              ≡ k + f conn + weight_of_dumps f inputs =
            omega arith in
          rw (more, heavier)
            (run_inputs-Accounted inputs (n + 1) (k + f conn) _ t h (omega arith)
              (handle_binlog_dump-Accounted now conn server_id position n k s (omega arith) a))
      run_inputs-Accounted ((now, Input.tick id) ∷ inputs) n k s t h small a =
          run_inputs-Accounted inputs n k _ t h small (stream_tick-Accounted now n k id s a)
      run_inputs-Accounted ((now, Input.done id) ∷ inputs) n k s t h small a =
          run_inputs-Accounted inputs n k _ t h small (remove_dump_client-Accounted n k id s a)
      run_inputs-Accounted ((now, Input.change e) ∷ inputs) n k s t h small a =
          elim (Option-cases (process_change_event write close encode now e s)) [
            | inl failed ↦ absurd_none (sym h ∙ rw (run_inputs, step, failed) refl)
            | inr (u, done) ↦
                let found : run_inputs write close encode inputs u ≡ some t =
                  sym (rw (run_inputs, step, done) refl) ∙ h in
                run_inputs-Accounted inputs n k u t found small
                  (process_change_event-Accounted now e n k s u done a)
          ]

  -- From a server with no clients, through any sequence of dump requests, changes, heartbeat ticks
  -- and ends of streams that goes through, with fewer than 2 ^ 32 requests: the connections of the
  -- clients and those that `Close` was called on are together, each as often, the connections that
  -- asked for a dump, by every weight that tells connections apart and that writes and closes leave;
  -- the clients have ascending identifiers, and the last identifier is the count of the requests.
  pub run_inputs-registered_or_closed :
      (f : Conn → ℕ) (encode : Event → Option Bytes) (core : Core)
      (inputs : List (Now × Input Conn)) (t : Server Conn)
      → IsWeight write close f
      → run_inputs write close encode inputs
          (record { core = core; clients = []; next_client_id = 0; closed = [] })
        ≡ some t
      → dumps inputs < 2 ^ 32
      → (weight_of_clients f t.clients + weight_of_conns f t.closed ≡ weight_of_dumps f inputs)
        × All (λ conn. (c : Conn) × (conn ≡ close c)) t.closed
        × Ordered 0 (dumps inputs) t.clients
        × (t.next_client_id ≡ dumps inputs)
  run_inputs-registered_or_closed f encode core inputs t fixed h small =
      let start : Server Conn = record {
        core = core;
        clients = [];
        next_client_id = 0;
        closed = [];
      } in
      let a =
        run_inputs-Accounted f fixed encode inputs 0 0 start t h (omega arith)
          (record { next = refl; ordered = omega arith; weight = refl; ended = tt }) in
      let none_before : 0 + dumps inputs ≡ dumps inputs = omega arith in
      let light : 0 + weight_of_dumps f inputs ≡ weight_of_dumps f inputs = omega arith in
      (
        a.weight ∙ light,
        a.ended,
        subst (λ k. Ordered 0 k t.clients) none_before a.ordered,
        a.next ∙ none_before,
      )
