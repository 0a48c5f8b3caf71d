-- ===== src/Base/Ordered.antt =====
-- Maps whose keys are in ascending order, through writes of new and old keys and `delete`.
use mathlib.Core.Path.{subst, ◌≡◌, refl, sym, ap}
use mathlib.Core.Logic.{inl, inr}
use mathlib.Core.Bool.{false}
use mathlib.Core.List.{[], ◌∷◌}
use mathlib.Core.Option.{Option, none, some}
use native.Mathlib.Omega.{arith}
use Prim.Native.Nat.{ℕ, ◌+◌, ◌≤◌, ◌<◌}
use my_proxy.Base.Dict.{Dict, lookup, insert, delete}
use my_proxy.Base.Eq.{nat_eq}
use my_proxy.Base.Lists.{length}
use my_proxy.Base.Tests.{if◌then◌else◌, ◌==◌, Bool-cases}

-- The keys of a map ascend from above `low` to `high`.
abbrev pub Ordered : {V : Type 0} → ℕ → ℕ → Dict ℕ V → Type 0
Ordered low high [] = low ≤ high
Ordered low high ((k, v) ∷ m) = (low < k) × Ordered k high m

-- The sum of a number of each value.
abbrev pub total : {V : Type 0} → (V → ℕ) → Dict ℕ V → ℕ
total f [] = 0
total f ((k, v) ∷ m) = f v + total f m

module _ {V : Type 0} where
  -- The number of a value that is there, or of another one.
  abbrev lookup_or : (V → ℕ) → V → Option V → ℕ
  lookup_or f v none = f v
  lookup_or f v (some w) = f w

  Ordered-le : (low high : ℕ) (m : Dict ℕ V) → Ordered low high m → low ≤ high
  Ordered-le low high [] h = h
  Ordered-le low high ((k, v) ∷ m) (above, h) = omega (arith, Ordered-le k high m h)

  Ordered-lower :
      (low lower high : ℕ) (m : Dict ℕ V) → lower ≤ low → Ordered low high m → Ordered lower high m
  Ordered-lower low lower high [] le h = omega arith
  Ordered-lower low lower high ((k, v) ∷ m) le (above, h) = (omega arith, h)

  pub total-insert_new :
      (f : V → ℕ) (low high k : ℕ) (v : V) (m : Dict ℕ V)
      → high < k
      → Ordered low high m
      → Ordered low k (insert k v m) × (total f (insert k v m) ≡ total f m + f v)
  unfolding insert
  total-insert_new f low high k v [] lt h = ((omega arith, omega arith), omega arith)
  total-insert_new f low high k v ((j, w) ∷ m) lt (above, h) =
      let (o, n) = total-insert_new f j high k v m lt h in
      let below = Ordered-le j high m h in
      let other : (j == k) ≡ false = ground arith in rw other ((above, o), omega (arith, n))

  pub total-insert_old :
      (f : V → ℕ) (low high k : ℕ) (v w : V) (m : Dict ℕ V)
      → lookup k m ≡ some w
      → Ordered low high m
      → Ordered low high (insert k v m) × (total f (insert k v m) + f w ≡ total f m + f v)
  unfolding insert lookup
  total-insert_old f low high k v w [] found h = cc
  total-insert_old f low high k v w ((j, x) ∷ m) found (above, h) = elim (Bool-cases (j == k)) [
    | inl p ↦
        let same : j ≡ k = ground arith in
        let held : f x ≡ f w =
          ap (lookup_or f x) (subst (λ b. (if b then some x else lookup k m) ≡ some w) p found) in
        rw p ((rw (sym same) above, rw (sym same) h), omega arith)
    | inr p ↦
        let (o, n) =
          total-insert_old f j high k v w m
            (subst (λ b. (if b then some x else lookup k m) ≡ some w) p found) h in
        rw p ((above, o), omega (arith, n))
  ]

  delete-other : (low high k : ℕ) (m : Dict ℕ V) → k ≤ low → Ordered low high m → delete k m ≡ m
  unfolding delete
  delete-other low high k [] le h = refl
  delete-other low high k ((j, w) ∷ m) le (above, h) =
      let other : (j == k) ≡ false = ground arith in
      rw other (ap (◌∷◌ (j, w)) (delete-other j high k m (omega arith) h))

  pub total-delete_old :
      (f : V → ℕ) (low high k : ℕ) (w : V) (m : Dict ℕ V)
      → lookup k m ≡ some w
      → Ordered low high m
      → Ordered low high (delete k m) × (total f (delete k m) + f w ≡ total f m)
  unfolding delete lookup
  total-delete_old f low high k w [] found h = cc
  total-delete_old f low high k w ((j, x) ∷ m) found (above, h) = elim (Bool-cases (j == k)) [
    | inl p ↦
        let same : j ≡ k = ground arith in
        let held : f x ≡ f w =
          ap (lookup_or f x) (subst (λ b. (if b then some x else lookup k m) ≡ some w) p found) in
        let gone : delete k m ≡ m = delete-other j high k m (omega arith) h in
        rw (p, gone) (Ordered-lower j low high m (omega arith) h, omega arith)
    | inr p ↦
        let (o, n) =
          total-delete_old f j high k w m
            (subst (λ b. (if b then some x else lookup k m) ≡ some w) p found) h in
        rw p ((above, o), omega (arith, n))
  ]

  total-one : (m : Dict ℕ V) → total (λ v. 1) m ≡ length m
  total-one [] = refl
  total-one ((k, v) ∷ m) = omega (arith, total-one m)

  pub insert-new :
      (low high k : ℕ) (v : V) (m : Dict ℕ V)
      → high < k
      → Ordered low high m
      → Ordered low k (insert k v m) × (length (insert k v m) ≡ length m + 1)
  insert-new low high k v m lt h =
      let (o, n) = total-insert_new (λ w. 1) low high k v m lt h in
      (o, omega (arith, n, total-one (insert k v m), total-one m))

  pub delete-old :
      (low high k : ℕ) (w : V) (m : Dict ℕ V)
      → lookup k m ≡ some w
      → Ordered low high m
      → Ordered low high (delete k m) × (length (delete k m) + 1 ≡ length m)
  delete-old low high k w m found h =
      let (o, n) = total-delete_old (λ w. 1) low high k w m found h in
      (o, omega (arith, n, total-one (delete k m), total-one m))
