-- ===== src/Replication/Events/Transactions.antt =====
-- The numbers of the transactions in a stream of changes.
use mathlib.Core.List.{append_assoc}
use my_proxy.Base.{
  ℕ, zero, suc, ◌+◌, ◌%◌, ◌^◌, ◌<◌, ◌≡◌, refl, sym, ap, ◌∙◌, true, List, [], ◌∷◌, ◌++◌, Option,
  some, Bytes, codes, length, if◌then◌else◌, arith,
}
use my_proxy.Encoder.Events.{Event, Body}
use my_proxy.Replication.Changes.{ChangeType, ChangeEvent, Core, Now}
use my_proxy.Replication.Events.Tables.{create_table_map_event-some}
use my_proxy.Replication.Events.{
  truncate_query, create_gtid_event, create_query_event, create_xid_event, create_table_map_event,
  create_rows_event, next_transaction, statement, change_rows, convert_by, convert_to_mysql_events,
  advance, advanced, and_events, convert_all,
}

-- The number of a GTID event, if the body is one.
abbrev pub gno_of : Body → List ℕ
gno_of (Body.gtid g) = g.gno ∷ []
gno_of (Body.query e) = []
gno_of (Body.xid x) = []
gno_of (Body.table_map e) = []
gno_of (Body.rows e) = []
gno_of Body.other = []

-- The numbers of the GTID events, in their order.
pub gnos : List Event → List ℕ
gnos [] = []
gnos (e ∷ events) = gno_of e.body ++ gnos events

-- The changes that begin a transaction.
abbrev pub begins : ChangeType → ℕ
begins ChangeType.begin = 1
begins ChangeType.ddl = 1
begins ChangeType.truncate = 1
begins _ = 0

unfoldable pub transactions : List (Now × ChangeEvent) → ℕ
transactions [] = 0
transactions ((now, e) ∷ changes) = begins e.change_type + transactions changes

abbrev pub range : ℕ → ℕ → List ℕ
range n zero = []
range n (suc k) = n ∷ range (n + 1) k

-- A state and the events with which a change has gone by that begins `k` transactions.
record Converted (s : Core) (k : ℕ) (t : Core) (events : List Event) : Type 0 where
  numbers : gnos events ≡ range (s.transaction_id + 1) k
  next : t.transaction_id ≡ s.transaction_id + k
  still_enabled : t.gtid_enabled ≡ true

Goes : Core → ℕ → Option (Core × List Event) → Type 0
Goes s k result =
    (t : Core) × (events : List Event) × (result ≡ some (t, events)) × Converted s k t events

statement-Goes :
    (s : Core) (now : Now) (query : Bytes)
    → s.gtid_enabled ≡ true
    → s.transaction_id + 1 < 2 ^ 64
    → Goes s 1 (advanced (statement s now query))
unfolding Goes gnos create_gtid_event create_query_event
statement-Goes s now query on small =
    let t = next_transaction s in
    let asked = create_query_event t now query in
    let events = create_gtid_event t now ∷ asked ∷ [] in
    let number : (s.transaction_id + 1) % 2 ^ 64 ≡ s.transaction_id + 1 = omega arith in
    (
      advance 2 t,
      events,
      ap (λ b. advanced (some (t, if b then create_gtid_event t now ∷ asked ∷ [] else asked ∷ [])))
          on,
      record { numbers = ap (λ n. n ∷ []) number; next = number; still_enabled = on },
    )

quiet :
    (s t : Core) (events : List Event) (result : Option (Core × List Event))
    → result ≡ some (s, events)
    → gnos events ≡ []
    → s.gtid_enabled ≡ true
    → Goes s 0 (advanced result)
unfolding Goes
quiet s t events result e silent on = (
  advance (length events) s,
  events,
  ap advanced e,
  record { numbers = silent; next = omega arith; still_enabled = on },
)

rows-Goes :
    (s : Core) (now : Now) (e : ChangeEvent)
    → s.gtid_enabled ≡ true
    → Goes s 0 (advanced (change_rows s now e (create_table_map_event s now e)))
unfolding gnos create_rows_event
rows-Goes s now e on =
    let (bitmap, created, size, bits) = create_table_map_event-some s now e in
    quiet s s _ _ (ap (change_rows s now e) created) refl on

convert_by-Goes :
    (c : ChangeType) (s : Core) (now : Now) (e : ChangeEvent)
    → s.gtid_enabled ≡ true
    → s.transaction_id + begins c < 2 ^ 64
    → Goes s (begins c) (advanced (convert_by c s now e))
unfolding gnos create_xid_event
convert_by-Goes ChangeType.begin s now e on small = statement-Goes s now (codes "BEGIN") on small
convert_by-Goes ChangeType.ddl s now e on small =
    statement-Goes s now (codes "-- DDL event") on small
convert_by-Goes ChangeType.truncate s now e on small =
    statement-Goes s now (truncate_query e) on small
convert_by-Goes ChangeType.commit s now e on small =
    quiet s s (create_xid_event s now ∷ []) _ refl refl on
convert_by-Goes ChangeType.insert s now e on small = rows-Goes s now e on
convert_by-Goes ChangeType.update s now e on small = rows-Goes s now e on
convert_by-Goes ChangeType.delete s now e on small = rows-Goes s now e on
convert_by-Goes ChangeType.unknown s now e on small = quiet s s [] _ refl refl on

gnos-append : (xs ys : List Event) → gnos (xs ++ ys) ≡ gnos xs ++ gnos ys
unfolding gnos
gnos-append [] ys = refl
gnos-append (x ∷ xs) ys =
    ap (λ t. gno_of x.body ++ t) (gnos-append xs ys)
    ∙ sym (append_assoc (gno_of x.body) (gnos xs) (gnos ys))

range-append : (n a b : ℕ) → range n a ++ range (n + a) b ≡ range n (a + b)
range-append n zero b =
    let start : n + 0 ≡ n = omega arith in
    let count : b ≡ 0 + b = omega arith in ap (λ m. range m b) start ∙ ap (range n) count
range-append n (suc a) b =
    let start : n + suc a ≡ n + 1 + a = omega arith in
    let count : suc (a + b) ≡ suc a + b = omega arith in
    ap (λ m. n ∷ (range (n + 1) a ++ range m b)) start
    ∙ ap (◌∷◌ n) (range-append (n + 1) a b)
    ∙ ap (range n) count

-- With GTIDs on, every sequence of changes is converted, and the GTID events among the events
-- carry consecutive numbers from the one after the server's, one for each BEGIN, DDL and TRUNCATE,
-- where the numbers stay below 2 ^ 64; the server goes on with the last.
pub convert_all-gnos :
    (s : Core) (changes : List (Now × ChangeEvent))
    → s.gtid_enabled ≡ true
    → s.transaction_id + transactions changes < 2 ^ 64
    → (t : Core) × (events : List Event) × (convert_all s changes ≡ some (t, events))
      × (gnos events ≡ range (s.transaction_id + 1) (transactions changes))
      × (t.transaction_id ≡ s.transaction_id + transactions changes)
unfolding convert_all transactions gnos convert_to_mysql_events Goes
convert_all-gnos s [] on small = (s, [], refl, refl, omega arith)
convert_all-gnos s ((now, e) ∷ changes) on small =
    let k = begins e.change_type in
    let (t, events, done, c) = convert_by-Goes e.change_type s now e on (omega arith) in
    let (u, more, all, numbers, last) =
      convert_all-gnos t changes c.still_enabled (omega (arith, c.next)) in
    let behind : t.transaction_id + 1 ≡ s.transaction_id + 1 + k = omega (arith, c.next) in
    (
      u,
      events ++ more,
      rw (convert_all, convert_to_mysql_events, done) (ap (and_events events) all),
      gnos-append events more
          ∙ ap (λ x. x ++ gnos more) c.numbers
          ∙ ap (λ x. range (s.transaction_id + 1) k ++ x)
              (numbers ∙ ap (λ m. range m (transactions changes)) behind)
          ∙ range-append (s.transaction_id + 1) k (transactions changes),
      omega (arith, last, c.next),
    )
