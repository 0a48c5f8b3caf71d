-- ===== src/Tracker/Reports.antt =====
-- What the list of the slow requests reports of the requests in flight.
use my_proxy.Base.{
  ℕ, ◌-◌, ◌≤◌, ◌<◌, ◌≡◌, ◌⊎◌, All, refl, Bool, true, false, List, [], ◌∷◌, ltb, leb, Bool-cases,
  inl, inr, arith, if◌then◌else◌,
}
use my_proxy.Base.Dict.{Dict}
use my_proxy.Tracker.{Request, duration_of, timed, select_slow, insert_by_start, sort_by_start}

-- `x` is one of the list.
abbrev pub IsIn : {A : Type 0} → A → List A → Type 0
IsIn x [] = ⊥
IsIn x (y ∷ ys) = (x ≡ y) ⊎ IsIn x ys

-- `x` says of the request `r` what it is, and how long it has been running.
pub record Reports (now : ℕ) (r x : Request) : Type 0 where
  pub id_is : x.id ≡ r.id
  pub session_is : x.session_id ≡ r.session_id
  pub sql_is : x.sql ≡ r.sql
  pub start_is : x.start_time ≡ r.start_time
  pub duration_is : x.duration ≡ now - r.start_time

-- The requests in flight.
abbrev pub in_flight : Dict ℕ Request → List Request
in_flight [] = []
in_flight ((id, r) ∷ requests) = r ∷ in_flight requests

-- What a list that is made at a time reports of a request that is one of those in flight.
abbrev pub IsReport : ℕ → ℕ → Dict ℕ Request → Request → Type 0
IsReport threshold now requests x =
    (r : Request) × IsIn r (in_flight requests) × Reports now r x × (threshold ≤ x.duration)

-- A request that is too young for the list, or has a report there.
abbrev pub IsReported : ℕ → ℕ → List Request → Request → Type 0
IsReported threshold now reports r =
    (now - r.start_time < threshold) ⊎ ((x : Request) × IsIn x reports × Reports now r x)

timed-Reports : (now : ℕ) (r : Request) → Reports now r (timed now r)
timed-Reports now r = record {
  id_is = refl;
  session_is = refl;
  sql_is = refl;
  start_is = refl;
  duration_is = refl;
}

pub All-weaken :
    {P Q : Request → Type 0} (rs : List Request) → ((r : Request) → P r → Q r) → All P rs → All Q rs
All-weaken [] k h = tt
All-weaken (r ∷ rs) k (one, h) = (k r one, All-weaken rs k h)

insert_by_start-All :
    (P : Request → Type 0) (r : Request) (rest : List Request)
    → P r
    → All P rest
    → All P (insert_by_start r rest)
unfolding insert_by_start
insert_by_start-All P r [] one h = (one, tt)
insert_by_start-All P r (s ∷ rest) one (two, h) =
    elim (Bool-cases (ltb s.start_time r.start_time)) [
      | inl e ↦ rw e (two, insert_by_start-All P r rest one h)
      | inr e ↦ rw e (one, (two, h))
    ]

pub sort_by_start-All :
    (P : Request → Type 0) (rs : List Request) → All P rs → All P (sort_by_start rs)
unfolding sort_by_start
sort_by_start-All P [] h = tt
sort_by_start-All P (r ∷ rs) (one, h) =
    insert_by_start-All P r (sort_by_start rs) one (sort_by_start-All P rs h)

-- Behind a first entry that stays where it is.
behind-IsIn :
    (x r s : Request) (rest later : List Request)
    → (IsIn x (r ∷ rest) → IsIn x later)
    → IsIn x (r ∷ s ∷ rest)
    → IsIn x (s ∷ later)
behind-IsIn x r s rest later k (inl first) = inr (k (inl first))
behind-IsIn x r s rest later k (inr (inl second)) = inl second
behind-IsIn x r s rest later k (inr (inr third)) = inr (k (inr third))

insert_by_start-IsIn :
    (x r : Request) (rest : List Request) → IsIn x (r ∷ rest) → IsIn x (insert_by_start r rest)
unfolding insert_by_start
insert_by_start-IsIn x r [] h = h
insert_by_start-IsIn x r (s ∷ rest) h = elim (Bool-cases (ltb s.start_time r.start_time)) [
  | inl e ↦ rw e (behind-IsIn x r s rest (insert_by_start r rest) (insert_by_start-IsIn x r rest) h)
  | inr e ↦ rw e h
]

sort_by_start-IsIn : (x : Request) (rs : List Request) → IsIn x rs → IsIn x (sort_by_start rs)
unfolding sort_by_start
sort_by_start-IsIn x [] h = h
sort_by_start-IsIn x (r ∷ rs) (inl first) = insert_by_start-IsIn x r (sort_by_start rs) (inl first)
sort_by_start-IsIn x (r ∷ rs) (inr later) =
    insert_by_start-IsIn x r (sort_by_start rs) (inr (sort_by_start-IsIn x rs later))

-- What the loop selects is a report of a request in flight.
pub select_slow-IsReport :
    (threshold now : ℕ) (requests : Dict ℕ Request)
    → All (IsReport threshold now requests) (select_slow threshold now requests)
unfolding select_slow
select_slow-IsReport threshold now [] = tt
select_slow-IsReport threshold now ((id, r) ∷ requests) =
    let rest =
      All-weaken {P = IsReport threshold now requests}
        {Q = IsReport threshold now ((id, r) ∷ requests)} (select_slow threshold now requests)
        (λ x (s, found, report, old). (s, inr found, report, old))
        (select_slow-IsReport threshold now requests) in
    elim (Bool-cases (leb threshold (duration_of now r))) [
      | inl e ↦ rw e ((r, inl refl, timed-Reports now r, ground arith), rest)
      | inr e ↦ rw e rest
    ]

-- Every request in flight is too young, or reported.
pub select_slow-IsReported :
    (threshold now : ℕ) (requests : Dict ℕ Request)
    → All (IsReported threshold now (select_slow threshold now requests)) (in_flight requests)
unfolding select_slow
select_slow-IsReported threshold now [] = tt
select_slow-IsReported threshold now ((id, r) ∷ requests) =
    grow (leb threshold (duration_of now r)) refl (select_slow-IsReported threshold now requests)
  where
    slow : List Request
    slow = select_slow threshold now requests

    more :
        (s : Request)
        → IsReported threshold now slow s
        → IsReported threshold now (timed now r ∷ slow) s
    more s (inl young) = inl young
    more s (inr (x, found, report)) = inr (x, inr found, report)

    grow :
        (b : Bool)
        → leb threshold (duration_of now r) ≡ b
        → All (IsReported threshold now slow) (in_flight requests)
        → All
            (IsReported threshold now (if b then timed now r ∷ slow else slow))
            (r ∷ in_flight requests)
    grow true e h =
        (inr (timed now r, inl refl, timed-Reports now r), All-weaken (in_flight requests) more h)
    grow false e h = (inl (ground arith), h)

pub sort_by_start-IsReported :
    (threshold now : ℕ) (reports : List Request) (r : Request)
    → IsReported threshold now reports r
    → IsReported threshold now (sort_by_start reports) r
sort_by_start-IsReported threshold now reports r (inl young) = inl young
sort_by_start-IsReported threshold now reports r (inr (x, found, report)) =
    inr (x, sort_by_start-IsIn x reports found, report)
