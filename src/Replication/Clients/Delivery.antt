-- ===== src/Replication/Clients/Delivery.antt =====
-- What a client receives of the changes: the packets of all events, and how they are read back.
use mathlib.Core.List.{append_assoc, append-nil}
use mathlib.Core.Path.{subst}
use my_proxy.Base.{
  ℕ, ◌+◌, ◌%◌, ◌^◌, ◌≡◌, refl, sym, ap, ◌∙◌, Bool, true, List, [], ◌∷◌, ◌++◌, Option, none, some,
  Bytes, length, if◌then◌else◌, ◌==◌, Bool-cases, inl, inr, arith,
}
use my_proxy.Base.Dict.{Dict, lookup}
use my_proxy.Base.Eq.{nat_eq}
use my_proxy.Encoder.Events.{Event}
use my_proxy.Replication.Changes.{ChangeEvent, Core, Now}
use my_proxy.Replication.Events.{advance, convert_all}
use my_proxy.Replication.Clients.Encodings.{
  Encodes, Encodes-split, Encodes-nil, length-Encodes, convert_all-step,
}
use my_proxy.Replication.Clients.{
  DumpClient, Server, packet, send_binlog_packet, send_data, send_events, broadcast, distribute,
  process_change_event, process_all,
}

-- The packets of some payloads, with consecutive sequence numbers of one byte.
unfoldable pub packets : ℕ → List Bytes → Bytes
packets seq [] = []
packets seq (payload ∷ payloads) = packet seq payload ++ packets ((seq + 1) % 2 ^ 8) payloads

-- A client's packet through a connection that takes it whole.
pub record Taken {Conn : Type 0} (write : Conn → Bytes → Conn × Bool) (healthy : Conn → Type 0)
    (received : Conn → Bytes) (conn : Conn) (p : Bytes) : Type 0 where
  pub accepted : (write conn p).1 ≡ true
  pub still_healthy : healthy (write conn p).0
  pub all_received : received (write conn p).0 ≡ received conn ++ p

module _ {Conn : Type 0} (write : Conn → Bytes → Conn × Bool) (close : Conn → Conn) where
  -- A client after some payloads.
  unfoldable pub send_each : List Bytes → DumpClient Conn → DumpClient Conn
  send_each [] c = c
  send_each (payload ∷ payloads) c = send_each payloads (send_data write close c payload)

  send_each-append :
      (xs ys : List Bytes) (c : DumpClient Conn)
      → send_each (xs ++ ys) c ≡ send_each ys (send_each xs c)
  unfolding send_each
  send_each-append [] ys c = refl
  send_each-append (x ∷ xs) ys c = send_each-append xs ys (send_data write close c x)

  send_to_all : List Bytes → Dict ℕ (DumpClient Conn) → Dict ℕ (DumpClient Conn)
  send_to_all payloads [] = []
  send_to_all payloads ((id, c) ∷ clients) =
      (id, send_each payloads c) ∷ send_to_all payloads clients

  lookup-send_to_all :
      (payloads : List Bytes) (id : ℕ) (clients : Dict ℕ (DumpClient Conn)) (c : DumpClient Conn)
      → lookup id clients ≡ some c
      → lookup id (send_to_all payloads clients) ≡ some (send_each payloads c)
  unfolding lookup send_to_all
  lookup-send_to_all payloads id [] c h = cc
  lookup-send_to_all payloads id ((j, d) ∷ clients) c h = elim (Bool-cases (j == id)) [
    | inl p ↦
        let same : some d ≡ some c =
          subst (λ b. (if b then some d else lookup id clients) ≡ some c) p h in
        rw p (ap (λ o. elim o [ none ↦ none | some x ↦ some (send_each payloads x) ]) same)
    | inr p ↦
        let rest : lookup id clients ≡ some c =
          subst (λ b. (if b then some d else lookup id clients) ≡ some c) p h in
        rw p (lookup-send_to_all payloads id clients c rest)
  ]

  send_to_all-nil : (clients : Dict ℕ (DumpClient Conn)) → send_to_all [] clients ≡ clients
  unfolding send_to_all send_each
  send_to_all-nil [] = refl
  send_to_all-nil ((id, c) ∷ clients) = ap (◌∷◌ (id, c)) (send_to_all-nil clients)

  send_to_all-append :
      (ps qs : List Bytes) (clients : Dict ℕ (DumpClient Conn))
      → send_to_all (ps ++ qs) clients ≡ send_to_all qs (send_to_all ps clients)
  unfolding send_to_all
  send_to_all-append ps qs [] = refl
  send_to_all-append ps qs ((id, c) ∷ clients) =
      ap (λ d. (id, d) ∷ send_to_all (ps ++ qs) clients) (send_each-append ps qs c)
      ∙ ap (◌∷◌ (id, send_each qs (send_each ps c))) (send_to_all-append ps qs clients)

  module _ (encode : Event → Option Bytes) where
    send_events-send_each :
        (events : List Event) (payloads : List Bytes) (c : DumpClient Conn)
        → Encodes encode events payloads
        → send_events write close encode events c ≡ some (send_each payloads c)
    unfolding send_events send_each
    send_events-send_each [] _ c Encodes.no_events = refl
    send_events-send_each (e ∷ events) _ c (Encodes.next_event _ _ p payloads found h) =
        rw (send_events, found)
          (send_events-send_each events payloads (send_data write close c p) h)

    broadcast-send_to_all :
        (events : List Event) (payloads : List Bytes) (clients : Dict ℕ (DumpClient Conn))
        → Encodes encode events payloads
        → broadcast write close encode events clients ≡ some (send_to_all payloads clients)
    unfolding broadcast send_to_all
    broadcast-send_to_all events payloads [] h = refl
    broadcast-send_to_all events payloads ((id, c) ∷ clients) h =
        rw
          (
            broadcast,
            send_events-send_each events payloads c h,
            broadcast-send_to_all events payloads clients h,
          )
          refl

    process_all-send_to_all :
        (changes : List (Now × ChangeEvent)) (s : Server Conn) (core : Core) (events : List Event)
        (payloads : List Bytes)
        → convert_all s.core changes ≡ some (core, events)
        → Encodes encode events payloads
        → process_all write close encode changes s
          ≡ some (record s { core = core; clients = send_to_all payloads s.clients })
    unfolding process_all convert_all process_change_event distribute
    process_all-send_to_all [] s core events payloads h h' =
        let same : (s.core, []) ≡ (core, events) = cc in
        let silent : payloads ≡ [] =
          Encodes-nil encode events payloads h' (sym (ap (λ (x : Core × List Event). x.1) same)) in
        ap (λ c. some (record s { core = c })) (ap (λ (x : Core × List Event). x.0) same)
        ∙ ap (λ m. some (record s { core = core; clients = m }))
            (sym (ap (λ ps. send_to_all ps s.clients) silent ∙ send_to_all-nil s.clients))
    process_all-send_to_all ((now, e) ∷ changes) s core all payloads h h' =
        let (t, events, more, converted, rest, same) =
          convert_all-step s.core now e changes core all h in
        let (ps, qs, parts, left, right) =
          Encodes-split encode events more payloads
            (subst (λ x. Encodes encode x payloads) same h') in
        let u : Server Conn = record s {
          core = advance (length events) t;
          clients = send_to_all ps s.clients;
        } in
        rw
          (
            process_all,
            process_change_event,
            converted,
            distribute,
            broadcast-send_to_all events ps s.clients left,
          )
          (process_all-send_to_all changes u core more qs rest right
            ∙ ap (λ m. some (record s { core = core; clients = m }))
                (sym
                  (ap (λ x. send_to_all x s.clients) parts ∙ send_to_all-append ps qs s.clients)))

  module _ (healthy : Conn → Type 0) (received : Conn → Bytes) where
    abbrev Takes : Type 0
    Takes = (conn : Conn) (p : Bytes) → healthy conn → Taken write healthy received conn p

    -- What some payloads make of a client.
    record Sent (payloads : List Bytes) (c d : DumpClient Conn) : Type 0 where
      stays_healthy : healthy d.conn
      stream : received d.conn ≡ received c.conn ++ packets c.seq_num payloads
      counted : d.events_sent % 2 ^ 64 ≡ (c.events_sent + length payloads) % 2 ^ 64

    send_data-Sent :
        (c : DumpClient Conn) (payload : Bytes)
        → Takes
        → healthy c.conn
        → Sent (payload ∷ []) c (send_data write close c payload)
    unfolding packets send_data send_binlog_packet
    send_data-Sent c payload takes h =
        let w = takes c.conn (packet c.seq_num payload) h in
        rw w.accepted (record {
          stays_healthy = w.still_healthy;
          stream =
              w.all_received
              ∙ ap (◌++◌ (received c.conn)) (sym (append-nil (packet c.seq_num payload)));
          counted = omega arith;
        })

    send_data-seq_num :
        (c : DumpClient Conn) (payload : Bytes)
        → (send_data write close c payload).seq_num ≡ (c.seq_num + 1) % 2 ^ 8
    unfolding send_data send_binlog_packet
    send_data-seq_num c payload = elim (Bool-cases (write c.conn (packet c.seq_num payload)).1) [
      | inl p ↦ rw p refl
      | inr p ↦ rw p refl
    ]

    send_each-Sent :
        (payloads : List Bytes) (c : DumpClient Conn)
        → Takes
        → healthy c.conn
        → Sent payloads c (send_each payloads c)
    unfolding packets send_each
    send_each-Sent [] c takes h = record {
      stays_healthy = h;
      stream = sym (append-nil (received c.conn));
      counted = omega arith;
    }
    send_each-Sent (p ∷ payloads) c takes h =
        let d = send_data write close c p in
        let one = send_data-Sent c p takes h in
        let rest = send_each-Sent payloads d takes one.stays_healthy in
        record {
          stays_healthy = rest.stays_healthy;
          stream =
              rest.stream
              ∙ ap (λ r. r ++ packets d.seq_num payloads)
                  (one.stream ∙ ap (◌++◌ (received c.conn)) (append-nil (packet c.seq_num p)))
              ∙ ap (λ n. (received c.conn ++ packet c.seq_num p) ++ packets n payloads)
                  (send_data-seq_num c p)
              ∙ append_assoc (received c.conn) (packet c.seq_num p)
                  (packets ((c.seq_num + 1) % 2 ^ 8) payloads);
          counted = omega (arith, rest.counted, one.counted);
        }

  -- Through connections that take what is written: where the changes convert and each event has an
  -- encoding, the server processes them all, also with other clients whose writes fail, and a client
  -- whose connection is healthy receives, behind what it had, exactly the packets of those
  -- encodings in their order, numbered from its sequence number on; its events are counted.
  pub process_all-packets :
      (encode : Event → Option Bytes) (healthy : Conn → Type 0) (received : Conn → Bytes)
      (changes : List (Now × ChangeEvent)) (s : Server Conn) (core : Core) (events : List Event)
      (payloads : List Bytes) (id : ℕ) (c : DumpClient Conn)
      → ((conn : Conn) (p : Bytes) → healthy conn → Taken write healthy received conn p)
      → convert_all s.core changes ≡ some (core, events)
      → Encodes encode events payloads
      → lookup id s.clients ≡ some c
      → healthy c.conn
      → (t : Server Conn) × (d : DumpClient Conn) × (process_all write close encode changes s
          ≡ some t)
        × (t.core ≡ core)
        × (lookup id t.clients ≡ some d)
        × (received d.conn ≡ received c.conn ++ packets c.seq_num payloads)
        × (d.events_sent % 2 ^ 64 ≡ (c.events_sent + length events) % 2 ^ 64)
  process_all-packets encode healthy received changes s core events payloads id c takes h encoded
        found well =
      let sent = send_each-Sent healthy received payloads c takes well in
      (
        record s { core = core; clients = send_to_all payloads s.clients },
        send_each payloads c,
        process_all-send_to_all encode changes s core events payloads h encoded,
        refl,
        lookup-send_to_all payloads id s.clients c found,
        sent.stream,
        sent.counted
            ∙ ap (λ n. (c.events_sent + n) % 2 ^ 64)
                (length-Encodes encode events payloads encoded),
      )
