-- ===== src/Replication/Streamer/Nullable.antt =====
-- Whether the columns of the streamed changes are nullable.
use mathlib.Core.Path.{subst}
use my_proxy.Base.{
  ℕ, ◌+◌, ◌≡◌, refl, Bool, false, List, [], ◌∷◌, ◌++◌, map, Option, none, some, Bytes, All,
  if◌then◌else◌, ◌==◌, Bool-cases, Option-cases, inl, inr,
}
use my_proxy.Base.Dict.{Dict, lookup, insert}
use my_proxy.Base.Eq.{nat_eq}
use my_proxy.Replication.Changes.{ChangeType, ChangeEvent}
use my_proxy.Replication.Events.Tables.{is_nullable}
use my_proxy.Replication.Streamer.{
  ColumnInfo, TableInfo, Message, Streamer, get_table_info, convert_columns, send_event,
  send_for_table, bare_event, table_event, handle_relation_message, handle_insert_message,
  handle_update_message, handle_delete_message, handle_truncate_message, handle_parsed, kind_of,
  handle_kind, parse_logical_replication_message, handle_x_log_data, handle_all,
}
use my_proxy.Replication.Streamer.Types.{Scanners}

IsPlain : ColumnInfo → Type 0
IsPlain c = c.nullable ≡ false

Plain : TableInfo → Type 0
Plain t = All IsPlain t.columns

PlainCache : Dict ℕ TableInfo → Type 0
PlainCache m = All (λ (entry : ℕ × TableInfo). Plain entry.1) m

-- No column of the change counts as nullable.
abbrev pub Never : ChangeEvent → Type 0
Never e = (j : ℕ) → is_nullable 0 e.columns j ≡ false

record Inv (s : Streamer) : Type 0 where
  cache : PlainCache s.table_cache
  events : All Never s.sent

module _ {A : Type 0} (P : A → Type 0) where
  All-append : (xs : List A) (y : A) → All P xs → P y → All P (xs ++ y ∷ [])
  All-append [] y h k = (k, tt)
  All-append (x ∷ xs) y (p, h) k = (p, All-append xs y h k)

is_nullable-convert_columns :
    (i j : ℕ) (cs : List ColumnInfo) (t : TableInfo)
    → All IsPlain cs
    → is_nullable i (convert_columns (record t { columns = cs })) j ≡ false
unfolding is_nullable convert_columns IsPlain
is_nullable-convert_columns i j [] t h = refl
is_nullable-convert_columns i j (c ∷ cs) t (p, h) =
    rw p (is_nullable-convert_columns (i + 1) j cs t h)

insert-PlainCache :
    (id : ℕ) (t : TableInfo) (m : Dict ℕ TableInfo)
    → Plain t
    → PlainCache m
    → PlainCache (insert id t m)
unfolding insert PlainCache
insert-PlainCache id t [] p h = (p, tt)
insert-PlainCache id t ((j, u) ∷ m) p (q, h) = elim (Bool-cases (j == id)) [
  | inl e ↦ rw e (p, h)
  | inr e ↦ rw e (q, insert-PlainCache id t m p h)
]

lookup-Plain :
    (id : ℕ) (t : TableInfo) (m : Dict ℕ TableInfo) → lookup id m ≡ some t → PlainCache m → Plain t
unfolding lookup PlainCache
lookup-Plain id t [] found h = cc
lookup-Plain id t ((j, u) ∷ m) found (q, h) = elim (Bool-cases (j == id)) [
  | inl e ↦
      let both : some u ≡ some t =
        subst (λ b. (if b then some u else lookup id m) ≡ some t) e found in
      let same : u ≡ t = cc in subst Plain same q
  | inr e ↦
      lookup-Plain id t m (subst (λ b. (if b then some u else lookup id m) ≡ some t) e found) h
]

map-Plain :
    (cs : List (Bytes × ℕ))
    → All IsPlain
        (map (λ (c : Bytes × ℕ). record { name = c.0; data_type = c.1; nullable = false }) cs)
unfolding IsPlain
map-Plain [] = tt
map-Plain (c ∷ cs) = (refl, map-Plain cs)

module _ (f : Scanners) (takes : List ChangeEvent → Bool) where
  send_event-Inv : (e : ChangeEvent) (s : Streamer) → Never e → Inv s → Inv (send_event f takes e s)
  unfolding send_event
  send_event-Inv e s never v = elim (Bool-cases (takes s.sent)) [
    | inl p ↦ rw p (record {
      cache = v.cache;
      events = All-append Never s.sent (record e { lsn = s.client_x_log_pos }) v.events never;
    })
    | inr p ↦ rw p v
  ]

  bare_event-Never : (k : ChangeType) (now : ℕ) → Never (bare_event f takes k now)
  unfolding is_nullable
  bare_event-Never k now = λ j. refl

  -- An event with the columns of a cached table.
  cached-Never :
      (s : Streamer) (id : ℕ) (t : TableInfo)
      → Inv s
      → get_table_info s id ≡ some t
      → (j : ℕ) → is_nullable 0 (convert_columns t) j ≡ false
  unfolding Plain
  cached-Never s id t v found j =
      is_nullable-convert_columns 0 j t.columns t (lookup-Plain id t s.table_cache found v.cache)

  send_for_table-Inv :
      (id : ℕ) (event_for : TableInfo → ChangeEvent) (s : Streamer)
      → ((t : TableInfo) → get_table_info s id ≡ some t → Never (event_for t))
      → Inv s
      → Inv (send_for_table f takes id event_for s)
  unfolding send_for_table
  send_for_table-Inv id event_for s never v = elim (Option-cases (lookup id s.table_cache)) [
    | inl gone ↦ rw (send_for_table, gone) v
    | inr (t, found) ↦ rw (send_for_table, found) (send_event-Inv (event_for t) s (never t found) v)
  ]

  handle_truncate_message-Inv :
      (now : ℕ) (ids : List ℕ) (s : Streamer)
      → Inv s
      → Inv (handle_truncate_message f takes now ids s)
  unfolding handle_truncate_message is_nullable
  handle_truncate_message-Inv now [] s v = v
  handle_truncate_message-Inv now (id ∷ ids) s v = handle_truncate_message-Inv now ids _ (
      send_for_table-Inv id (table_event f takes ChangeType.truncate now id) s (λ t found j. refl)
        v)

  handle_parsed-Inv :
      (now : ℕ) (m : Option Message) (s : Streamer) → Inv s → Inv (handle_parsed f takes now m s)
  unfolding handle_relation_message handle_insert_message handle_update_message
      handle_delete_message PlainCache Plain
  handle_parsed-Inv now none s v = v
  handle_parsed-Inv now (some (Message.relation id schema name columns)) s v = record {
    cache = insert-PlainCache id _ s.table_cache (map-Plain columns) v.cache;
    events = v.events;
  }
  handle_parsed-Inv now (some (Message.insert_row id tuple)) s v =
      send_for_table-Inv id _ s (λ t found. cached-Never s id t v found) v
  handle_parsed-Inv now (some (Message.update_row id old new)) s v =
      send_for_table-Inv id _ s (λ t found. cached-Never s id t v found) v
  handle_parsed-Inv now (some (Message.delete_row id old)) s v =
      send_for_table-Inv id _ s (λ t found. cached-Never s id t v found) v
  handle_parsed-Inv now (some (Message.truncate_tables ids)) s v =
      handle_truncate_message-Inv now ids s v
  handle_parsed-Inv now (some Message.ignored) s v = v

  handle_kind-Inv :
      (now c : ℕ) (m : Option Message) (s : Streamer) → Inv s → Inv (handle_kind f takes now c m s)
  handle_kind-Inv now c none s v = v
  handle_kind-Inv now c (some m) s v = elim (Bool-cases (c == kind_of f takes m)) [
    | inl e ↦ rw e (handle_parsed-Inv now (some m) s v)
    | inr e ↦ rw e v
  ]

  handle_x_log_data-Inv :
      (parse : Bytes → Option Message) (now start : ℕ) (wal : Bytes) (s : Streamer)
      → Inv s
      → Inv (handle_x_log_data f takes parse now (start, wal) s)
  unfolding handle_x_log_data parse_logical_replication_message
  handle_x_log_data-Inv parse now start wal s v =
      let w = message wal in record { cache = w.cache; events = w.events }
    where
      message : (wal : Bytes) → Inv (parse_logical_replication_message f takes parse now wal s)
      message [] = v
      message (c ∷ wal) = elim (Bool-cases (c == b'B')) [
        | inl b ↦ rw b (send_event-Inv _ s (bare_event-Never ChangeType.begin now) v)
        | inr b ↦ elim (Bool-cases (c == b'C')) [
          | inl k ↦ rw (b, k) (send_event-Inv _ s (bare_event-Never ChangeType.commit now) v)
          | inr k ↦ rw (b, k) (handle_kind-Inv now c (parse (c ∷ wal)) s v)
        ]
      ]

  handle_all-Inv :
      (parse : Bytes → Option Message) (xs : List (ℕ × (ℕ × Bytes))) (s : Streamer)
      → Inv s
      → Inv (handle_all f takes parse xs s)
  unfolding handle_all
  handle_all-Inv parse [] s v = v
  handle_all-Inv parse ((now, (start, wal)) ∷ xs) s v =
      handle_all-Inv parse xs _ (handle_x_log_data-Inv parse now start wal s v)

  -- Whatever the messages of a stream are, from its start no change that is sent on has a column that
  -- counts as nullable: the relation messages leave the mark unset.
  pub handle_all-Never :
      (parse : Bytes → Option Message) (xs : List (ℕ × (ℕ × Bytes))) (position : ℕ)
      → All Never
          (handle_all f takes parse xs
            (record { table_cache = []; client_x_log_pos = position; sent = [] })).sent
  unfolding PlainCache
  handle_all-Never parse xs position =
      (handle_all-Inv parse xs (record { table_cache = []; client_x_log_pos = position; sent = [] })
        (record { cache = tt; events = tt })).events
