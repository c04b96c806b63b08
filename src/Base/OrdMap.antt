-- ===== src/Base/OrdMap.antt =====
-- `BTreeMap` as a list of entries with strictly ascending keys.
use Prim.Native.Nat.Ordering.{lt, eq, gt}
use mathlib.Core.Path.{◌≡◌, refl}
use mathlib.Core.List.{[], ◌∷◌}
use mathlib.Core.Option.{none, some}
use native.Mathlib.Omega.{arith}
use myko.Base.Tests.{if◌then◌else◌}
use myko.Base.Key.{Key, ◌==◌, ◌≺◌}
use myko.Base.Assoc.{Assoc, lookup}

module _ {ℓ κ} {K : Type ℓ} {V : Type κ} ⦃k : Key K⦄ where
  unfoldable pub insert : K → V → Assoc K V → Assoc K V
  insert q v [] = (q, v) ∷ []
  insert q v ((j, w) ∷ m) =
      let rest = insert q v m in
      elim (k.cmp q j) [ lt ↦ (q, v) ∷ (j, w) ∷ m | eq ↦ (j, v) ∷ m | gt ↦ (j, w) ∷ rest ]

  abbrev pub KeysAbove : K → Assoc K V → Type 0
  KeysAbove a [] = Unit
  KeysAbove a ((j, _) ∷ m) = (a ≺ j) × KeysAbove a m

  abbrev pub KeysAscend : Assoc K V → Type 0
  KeysAscend [] = Unit
  KeysAscend ((j, _) ∷ m) = KeysAbove j m × KeysAscend m

  pub lookup-insert :
      (q p : K) (v : V) (m : Assoc K V)
      → lookup p (insert q v m) ≡ (if q == p then some v else lookup p m)
  unfolding lookup insert
  lookup-insert q p v [] = refl
  lookup-insert q p v ((j, w) ∷ m) = ground (
    arith,
    k.eq_of_cmp q j,
    k.eq_of_cmp q p,
    k.eq_of_cmp j p,
    k.cmp_refl p,
    lookup-insert q p v m,
  )

  KeysAbove-trans : (a b : K) (m : Assoc K V) → a ≺ b → KeysAbove b m → KeysAbove a m
  KeysAbove-trans a b [] h g = tt
  KeysAbove-trans a b ((j, _) ∷ m) h g = (k.cmp_trans a b j h g.0, KeysAbove-trans a b m h g.1)

  pub lookup-KeysAbove : (a : K) (m : Assoc K V) → KeysAbove a m → lookup a m ≡ none
  unfolding lookup
  lookup-KeysAbove a [] h = refl
  lookup-KeysAbove a ((j, _) ∷ m) h = ground (arith, k.cmp_flip a j, lookup-KeysAbove a m h.1)

  KeysAbove-insert :
      (a q : K) (v : V) (m : Assoc K V) → a ≺ q → KeysAbove a m → KeysAbove a (insert q v m)
  unfolding insert
  KeysAbove-insert a q v [] h g = (h, tt)
  KeysAbove-insert a q v ((j, w) ∷ m) h g = ground (arith, KeysAbove-insert a q v m h g.1)

  pub insert-KeysAscend : (q : K) (v : V) (m : Assoc K V) → KeysAscend m → KeysAscend (insert q v m)
  unfolding insert
  insert-KeysAscend q v [] s = (tt, tt)
  insert-KeysAscend q v ((j, w) ∷ m) s = ground (
    arith,
    k.cmp_flip q j,
    KeysAbove-trans q j m,
    KeysAbove-insert j q v m,
    insert-KeysAscend q v m s.1,
  )
