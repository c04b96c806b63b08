-- ===== src/Query/Filter.antt =====
-- libs/myko/core/src/core/query/filter.rs: the filters of each kind of field, what they match, and
-- their canonical form. `Numeric` is the filter of numeric fields, whose order need not be total.
pub mod Canonical
pub mod Numeric
mod Tests
use Prim.Native.Nat.Ordering.{lt, eq, gt}
use myko.Base.{Bool, true, false, not, ◌&&◌, ◌||◌, Option, none, some, List, [], ◌∷◌, Ordering}
use myko.Base.{if◌then◌else◌, any, is_none_or}
use myko.Base.Key.{Key, ◌==◌, ltk}
use myko.Base.Text.{Str, str_key, starts_with, contains_text}

pub data IdFilter (T : Type 0) : Type 0 where
  equal : T → IdFilter T
  any_in : List T → IdFilter T

pub data StringFilter : Type 0 where
  equal : Str → StringFilter
  any_in : List Str → StringFilter
  contains : Str → StringFilter
  prefixed : Str → StringFilter  -- `StartsWith`

pub data EqFilter (T : Type 0) : Type 0 where
  equal : T → EqFilter T
  any_in : List T → EqFilter T

module _ {T : Type 0} ⦃k : Key T⦄ where
  -- `slice::sort`: stable, so an element goes behind its equals
  unfoldable pub insert_sorted : T → List T → List T
  insert_sorted x [] = x ∷ []
  insert_sorted x (y ∷ ys) =
      let rest = insert_sorted x ys in
      elim (k.cmp x y) [ lt ↦ x ∷ y ∷ ys | eq ↦ x ∷ y ∷ ys | gt ↦ y ∷ rest ]

  unfoldable pub sort : List T → List T
  unfolding insert_sorted
  sort [] = []
  sort (x ∷ xs) = insert_sorted x (sort xs)

  -- `Vec::dedup`: of each run of equal elements, the first stays
  unfoldable pub dedup_from : T → List T → List T
  dedup_from x [] = x ∷ []
  dedup_from x (y ∷ ys) = elim (y == x) [ true ↦ dedup_from x ys | false ↦ x ∷ dedup_from y ys ]

  unfoldable pub dedup : List T → List T
  unfolding dedup_from
  dedup [] = []
  dedup (x ∷ xs) = dedup_from x xs

  unfoldable pub canonical_in_values : List T → List T
  unfolding sort dedup
  canonical_in_values values = dedup (sort values)

  unfoldable pub in_matches : List T → T → Bool
  unfolding any
  in_matches values value = any (λ v. v == value) values

  -- `IdFilter`
  unfoldable pub key_values : IdFilter T → List T
  key_values (IdFilter.equal value) = value ∷ []
  key_values (IdFilter.any_in values) = values

  unfoldable pub id_of_values : List T → IdFilter T
  id_of_values (only ∷ []) = IdFilter.equal only
  id_of_values values = IdFilter.any_in values

  unfoldable pub id_canonicalize : IdFilter T → IdFilter T
  unfolding id_of_values canonical_in_values
  id_canonicalize (IdFilter.any_in values) = id_of_values (canonical_in_values values)
  id_canonicalize (IdFilter.equal value) = IdFilter.equal value

  unfoldable pub id_matches : IdFilter T → T → Bool
  unfolding in_matches
  id_matches (IdFilter.equal expected) value = value == expected
  id_matches (IdFilter.any_in values) value = in_matches values value

  -- `EqFilter`
  unfoldable pub eq_of_values : List T → EqFilter T
  eq_of_values (only ∷ []) = EqFilter.equal only
  eq_of_values values = EqFilter.any_in values

  unfoldable pub eq_canonicalize : EqFilter T → EqFilter T
  unfolding eq_of_values canonical_in_values
  eq_canonicalize (EqFilter.any_in values) = eq_of_values (canonical_in_values values)
  eq_canonicalize (EqFilter.equal value) = EqFilter.equal value

  unfoldable pub eq_matches : EqFilter T → T → Bool
  unfolding any
  eq_matches (EqFilter.equal expected) value = value == expected
  eq_matches (EqFilter.any_in values) value = any (λ v. v == value) values

-- `StringFilter`
unfoldable pub string_of_values : List Str → StringFilter
string_of_values (only ∷ []) = StringFilter.equal only
string_of_values values = StringFilter.any_in values

unfoldable pub string_canonicalize : StringFilter → StringFilter
unfolding string_of_values canonical_in_values
string_canonicalize (StringFilter.any_in values) = string_of_values (canonical_in_values values)
string_canonicalize (StringFilter.equal value) = StringFilter.equal value
string_canonicalize (StringFilter.contains value) = StringFilter.contains value
string_canonicalize (StringFilter.prefixed value) = StringFilter.prefixed value

unfoldable pub string_matches : StringFilter → Str → Bool
unfolding in_matches contains_text starts_with
string_matches (StringFilter.equal expected) value = value == expected
string_matches (StringFilter.any_in values) value = in_matches values value
string_matches (StringFilter.contains needle) value = contains_text needle value
string_matches (StringFilter.prefixed start) value = starts_with start value
