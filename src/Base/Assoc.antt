-- ===== src/Base/Assoc.antt =====
-- `HashMap` and `BTreeMap` as association lists. The order of the entries is no part of a map:
-- statements read a map through `lookup`.
use mathlib.Core.Path.{◌≡◌, refl}
use mathlib.Core.Bool.{Bool}
use mathlib.Core.List.{List, [], ◌∷◌}
use mathlib.Core.Option.{Option, none, some}
use native.Mathlib.Omega.{arith}
use myko.Base.Tests.{if◌then◌else◌, is_some}
use myko.Base.Key.{Key, ◌==◌}

abbrev pub Assoc {ℓ κ} : Type ℓ → Type κ → Type (ℓ ⊔ κ)
Assoc K V = List (K × V)

module _ {ℓ κ} {K : Type ℓ} {V : Type κ} ⦃k : Key K⦄ where
  unfoldable pub lookup : K → Assoc K V → Option V
  lookup q [] = none
  lookup q ((j, v) ∷ m) = if j == q then some v else lookup q m

  unfoldable pub contains_key : K → Assoc K V → Bool
  unfolding lookup
  contains_key q m = is_some (lookup q m)

  -- A key keeps its place when its value is replaced.
  unfoldable pub insert : K → V → Assoc K V → Assoc K V
  insert q v [] = (q, v) ∷ []
  insert q v ((j, w) ∷ m) = let rest = insert q v m in if j == q then (j, v) ∷ m else (j, w) ∷ rest

  unfoldable pub remove : K → Assoc K V → Assoc K V
  remove q [] = []
  remove q ((j, w) ∷ m) = let rest = remove q m in if j == q then rest else (j, w) ∷ rest

  pub lookup-insert :
      (q p : K) (v : V) (m : Assoc K V)
      → lookup p (insert q v m) ≡ (if q == p then some v else lookup p m)
  unfolding lookup insert
  lookup-insert q p v [] = refl
  lookup-insert q p v ((j, w) ∷ m) =
      ground (arith, k.eq_of_cmp j q, k.cmp_refl q, k.eq_of_cmp q p, lookup-insert q p v m)

  pub lookup-remove :
      (q p : K) (m : Assoc K V) → lookup p (remove q m) ≡ (if q == p then none else lookup p m)
  unfolding lookup remove
  lookup-remove q p [] = ground arith
  lookup-remove q p ((j, w) ∷ m) =
      ground (
        arith,
        k.eq_of_cmp j q,
        k.eq_of_cmp j p,
        k.cmp_refl q,
        k.eq_of_cmp q p,
        lookup-remove q p m,
      )

pub ruleset map_laws = (lookup-insert, lookup-remove)
