-- ===== src/Query/Filter/Numeric.antt =====
-- `NumericFilter` of libs/myko/core/src/core/query/filter.rs, for the integer types and for floats:
-- the order is a `PartialOrd`, in which a value that is not a number equals nothing, itself included.
-- `slice::sort_by` promises an order only where the comparison is total, and otherwise that it keeps
-- the elements, so it is a parameter.
pub mod Matches
mod Tests
use Prim.Native.Nat.Ordering.{lt, eq, gt}
use mathlib.Core.List.{Perm}
use myko.Base.{◌≡◌, Bool, true, false, ◌&&◌, Option, none, some, List, [], ◌∷◌, Ordering}
use myko.Base.{if◌then◌else◌, any, is_none_or}

pub data NumericFilter (T : Type 0) : Type 0 where
  equal : T → NumericFilter T
  any_in : List T → NumericFilter T
  range : Option T → Option T → NumericFilter T

-- `PartialOrd` and `PartialEq` with the laws that their documentation asks of an implementation
pub record PartialOrd (T : Type 0) : Type 0 where
  pub partial_cmp : T → T → Option Ordering
  pub eq_comm : (a b : T) → partial_cmp a b ≡ some eq → partial_cmp b a ≡ some eq
  pub eq_trans :
      (a b c : T)
      → partial_cmp a b ≡ some eq
      → partial_cmp b c ≡ some eq
      → partial_cmp a c ≡ some eq
  pub gt_flip : (a b : T) → partial_cmp a b ≡ some gt → partial_cmp b a ≡ some lt
  pub lt_trans :
      (a b c : T)
      → partial_cmp a b ≡ some lt
      → partial_cmp b c ≡ some lt
      → partial_cmp a c ≡ some lt

-- `slice::sort_by`
pub record SortBy (T : Type 0) : Type 0 where
  pub sort_by : (T → T → Ordering) → List T → List T
  pub sort_by_perm : (compare : T → T → Ordering) (xs : List T) → Perm (sort_by compare xs) xs

abbrev pub is_eq : Option Ordering → Bool
is_eq (some eq) = true
is_eq _ = false

-- `>=` and `<=`
abbrev pub is_ge : Option Ordering → Bool
is_ge (some eq) = true
is_ge (some gt) = true
is_ge _ = false

abbrev pub is_le : Option Ordering → Bool
is_le (some eq) = true
is_le (some lt) = true
is_le _ = false

abbrev pub or_equal : Option Ordering → Ordering
or_equal none = eq
or_equal (some o) = o

module _ {T : Type 0} ⦃p : PartialOrd T⦄ where
  infix 50 ◌≈◌
  abbrev pub ◌≈◌ : T → T → Bool
  a ≈ b = is_eq (p.partial_cmp a b)

  -- `dedup_by`: an element goes if it equals the one kept last
  unfoldable pub dedup_by_eq : T → List T → List T
  dedup_by_eq x [] = x ∷ []
  dedup_by_eq x (y ∷ ys) = elim (y ≈ x) [ true ↦ dedup_by_eq x ys | false ↦ x ∷ dedup_by_eq y ys ]

  unfoldable pub dedup_by : List T → List T
  unfolding dedup_by_eq
  dedup_by [] = []
  dedup_by (x ∷ xs) = dedup_by_eq x xs

  unfoldable pub numeric_matches : NumericFilter T → T → Bool
  unfolding any
  numeric_matches (NumericFilter.equal expected) value = value ≈ expected
  numeric_matches (NumericFilter.any_in values) value = any (λ v. v ≈ value) values
  numeric_matches (NumericFilter.range min max) value =
      is_none_or min (λ low. is_ge (p.partial_cmp value low))
      && is_none_or max (λ high. is_le (p.partial_cmp value high))

unfoldable pub numeric_of_values : {T : Type 0} → List T → NumericFilter T
numeric_of_values (only ∷ []) = NumericFilter.equal only
numeric_of_values values = NumericFilter.any_in values

module _ {T : Type 0} ⦃p : PartialOrd T⦄ (std : SortBy T) where
  unfoldable pub canonical_in_values_partial : List T → List T
  unfolding dedup_by
  canonical_in_values_partial values =
      dedup_by (std.sort_by (λ a b. or_equal (p.partial_cmp a b)) values)

  unfoldable pub numeric_canonicalize : NumericFilter T → NumericFilter T
  unfolding numeric_of_values canonical_in_values_partial
  numeric_canonicalize (NumericFilter.any_in values) =
      numeric_of_values (canonical_in_values_partial values)
  numeric_canonicalize (NumericFilter.range (some a) (some b)) =
      if a ≈ b then NumericFilter.equal a else NumericFilter.range (some a) (some b)
  numeric_canonicalize (NumericFilter.equal value) = NumericFilter.equal value
  numeric_canonicalize (NumericFilter.range none max) = NumericFilter.range none max
  numeric_canonicalize (NumericFilter.range (some a) none) = NumericFilter.range (some a) none
