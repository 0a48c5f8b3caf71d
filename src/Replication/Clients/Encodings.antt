-- ===== src/Replication/Clients/Encodings.antt =====
-- The encodings of a sequence of events, and the first step of a conversion of changes.
use mathlib.Core.Path.{subst}
use my_proxy.Base.{
  absurd_none, ◌≡◌, refl, sym, ap, List, [], ◌∷◌, ◌++◌, Option, none, some, Bytes, length, suc, inl,
  inr, Option-cases,
}
use my_proxy.Encoder.Events.{Event}
use my_proxy.Replication.Changes.{ChangeEvent, Core, Now}
use my_proxy.Replication.Events.{
  advance, advanced, and_events, convert_to_mysql_events, convert_all,
}

-- Payload by payload, the encodings of some events.
pub data Encodes (encode : Event → Option Bytes) : List Event → List Bytes → Type 0 where
  no_events : Encodes encode [] []
  next_event :
      (e : Event) (events : List Event) (payload : Bytes) (payloads : List Bytes)
      → encode e ≡ some payload
      → Encodes encode events payloads
      → Encodes encode (e ∷ events) (payload ∷ payloads)

pub Encodes-split :
    (encode : Event → Option Bytes) (xs ys : List Event) (payloads : List Bytes)
    → Encodes encode (xs ++ ys) payloads
    → (ps : List Bytes) × (qs : List Bytes) × (payloads ≡ ps ++ qs)
      × Encodes encode xs ps
      × Encodes encode ys qs
Encodes-split encode [] ys payloads h = ([], payloads, refl, Encodes.no_events, h)
Encodes-split encode (x ∷ xs) ys _ (Encodes.next_event _ _ p payloads found h) =
    let (ps, qs, same, left, right) = Encodes-split encode xs ys payloads h in
    (p ∷ ps, qs, ap (◌∷◌ p) same, Encodes.next_event x xs p ps found left, right)

pub Encodes-nil :
    (encode : Event → Option Bytes) (events : List Event) (payloads : List Bytes)
    → Encodes encode events payloads
    → events ≡ []
    → payloads ≡ []
Encodes-nil encode [] _ Encodes.no_events h = refl
Encodes-nil encode (e ∷ events) _ (Encodes.next_event _ _ p payloads found more) h = cc

pub length-Encodes :
    (encode : Event → Option Bytes) (events : List Event) (payloads : List Bytes)
    → Encodes encode events payloads
    → length payloads ≡ length events
length-Encodes encode [] _ Encodes.no_events = refl
length-Encodes encode (e ∷ events) _ (Encodes.next_event _ _ p payloads found more) =
    ap suc (length-Encodes encode events payloads more)

and_events-some :
    (events : List Event) (o : Option (Core × List Event)) (core : Core) (all : List Event)
    → and_events events o ≡ some (core, all)
    → (more : List Event) × (o ≡ some (core, more)) × (all ≡ events ++ more)
and_events-some events none core all h = cc
and_events-some events (some (t, more)) core all h =
    let same : (t, events ++ more) ≡ (core, all) = cc in
    (
      more,
      ap (λ x. some (x, more)) (ap (λ (x : Core × List Event). x.0) same),
      sym (ap (λ (x : Core × List Event). x.1) same),
    )

pub convert_all-step :
    (s : Core) (now : Now) (e : ChangeEvent) (changes : List (Now × ChangeEvent)) (core : Core)
    (all : List Event)
    → convert_all s ((now, e) ∷ changes) ≡ some (core, all)
    → (t : Core) × (events : List Event) × (more : List Event) × (convert_to_mysql_events s now e
        ≡ some (t, events))
      × (convert_all (advance (length events) t) changes ≡ some (core, more))
      × (all ≡ events ++ more)
unfolding convert_all
convert_all-step s now e changes core all h =
    elim (Option-cases (convert_to_mysql_events s now e)) [
      | inl failed ↦
          absurd_none (sym (subst (λ o. then_all (advanced o) ≡ some (core, all)) failed h))
      | inr ((t, events), found) ↦
          let (more, rest, same) =
            and_events-some events (convert_all (advance (length events) t) changes) core all
              (subst (λ o. then_all (advanced o) ≡ some (core, all)) found h) in
          (t, events, more, found, rest, same)
    ]
  where
    then_all : Option (Core × List Event) → Option (Core × List Event)
    then_all o = elim o [
      | none ↦ none
      | some (t, events) ↦ and_events events (convert_all t changes)
    ]
