-- ===== src/Query/Filter/Canonical.antt =====
-- The canonical form of a filter matches what the filter matches, and is one for each set of values.
use mathlib.Core.Path.{ap}
use myko.Base.{◌≡◌, refl, sym, ◌∙◌, false, ◌||◌}
use myko.Base.{List, [], ◌∷◌, arith, any}
use myko.Base.Key.{Key, ◌==◌, ltk, ◌≺◌}
use myko.Base.Text.{Str, str_key}
use myko.Base.OrdSet
use myko.Base.OrdSet.{IsAscending, Above, Above-trans, ascending_ext}
use myko.Query.Filter.{
  IdFilter, StringFilter, EqFilter, insert_sorted, sort, dedup_from, dedup, canonical_in_values,
  in_matches, key_values, id_of_values, id_canonicalize, id_matches, eq_of_values, eq_canonicalize,
  eq_matches, string_of_values, string_canonicalize, string_matches,
}

module _ {T : Type 0} ⦃k : Key T⦄ where
  any-contains : (v : T) (xs : List T) → any (λ x. x == v) xs ≡ OrdSet.contains v xs
  unfolding any OrdSet.contains
  any-contains v [] = refl
  any-contains v (x ∷ xs) = ap (λ b. (x == v) || b) (any-contains v xs)

  equal-contains : (v x : T) → (v == x) ≡ OrdSet.contains v (x ∷ [])
  unfolding OrdSet.contains
  equal-contains v x = ground (arith, k.cmp_flip x v)

  -- ascending, with repetitions
  abbrev NotBelow : T → List T → Type 0
  NotBelow x [] = Unit
  NotBelow x (y ∷ ys) = (ltk y x ≡ false) × NotBelow x ys

  abbrev IsSorted : List T → Type 0
  IsSorted [] = Unit
  IsSorted (x ∷ xs) = NotBelow x xs × IsSorted xs

  NotBelow-trans : (x y : T) (ys : List T) → ltk y x ≡ false → NotBelow y ys → NotBelow x ys
  NotBelow-trans x y [] h g = tt
  NotBelow-trans x y (z ∷ zs) h g = (below z g.0, NotBelow-trans x y zs h g.1)
    where
      below : (z : T) → ltk z y ≡ false → ltk z x ≡ false
      below z q = ground (
        arith,
        k.cmp_flip y x,
        k.cmp_flip z y,
        k.cmp_flip z x,
        k.cmp_trans z x y,
        k.eq_of_cmp y x,
        k.eq_of_cmp z y,
        k.cmp_refl x,
      )

  NotBelow-insert :
      (a x : T) (xs : List T) → ltk x a ≡ false → NotBelow a xs → NotBelow a (insert_sorted x xs)
  unfolding insert_sorted
  NotBelow-insert a x [] h g = (h, tt)
  NotBelow-insert a x (y ∷ ys) h g = ground (arith, NotBelow-insert a x ys h g.1)

  insert_sorted-IsSorted : (x : T) (xs : List T) → IsSorted xs → IsSorted (insert_sorted x xs)
  unfolding insert_sorted
  insert_sorted-IsSorted x [] s = (tt, tt)
  insert_sorted-IsSorted x (y ∷ ys) s = ground (
    arith,
    k.cmp_flip x y,
    NotBelow-trans x y ys,
    NotBelow-insert y x ys,
    insert_sorted-IsSorted x ys s.1,
  )

  sort-IsSorted : (xs : List T) → IsSorted (sort xs)
  unfolding sort
  sort-IsSorted [] = tt
  sort-IsSorted (x ∷ xs) = insert_sorted-IsSorted x (sort xs) (sort-IsSorted xs)

  contains-insert_sorted :
      (v x : T) (xs : List T)
      → OrdSet.contains v (insert_sorted x xs) ≡ ((x == v) || OrdSet.contains v xs)
  unfolding insert_sorted OrdSet.contains
  contains-insert_sorted v x [] = refl
  contains-insert_sorted v x (y ∷ ys) = ground (arith, contains-insert_sorted v x ys)

  contains-sort : (v : T) (xs : List T) → OrdSet.contains v (sort xs) ≡ OrdSet.contains v xs
  unfolding sort OrdSet.contains
  contains-sort v [] = refl
  contains-sort v (x ∷ xs) =
      contains-insert_sorted v x (sort xs) ∙ ap (λ b. (x == v) || b) (contains-sort v xs)

  Above-dedup_from :
      (a x : T) (xs : List T) → a ≺ x → NotBelow x xs → IsSorted xs → Above a (dedup_from x xs)
  unfolding dedup_from
  Above-dedup_from a x [] h n s = (h, tt)
  Above-dedup_from a x (y ∷ ys) h n s = ground (
    arith,
    Above-dedup_from a x ys h n.1 s.1,
    Above-dedup_from a y ys,
    k.cmp_trans a x y,
    k.cmp_flip y x,
  )

  dedup_from-IsAscending :
      (x : T) (xs : List T) → NotBelow x xs → IsSorted xs → IsAscending (dedup_from x xs)
  unfolding dedup_from
  dedup_from-IsAscending x [] n s = (tt, tt)
  dedup_from-IsAscending x (y ∷ ys) n s = ground (
    arith,
    dedup_from-IsAscending x ys n.1 s.1,
    dedup_from-IsAscending y ys s.0 s.1,
    Above-dedup_from x y ys,
    k.cmp_flip y x,
  )

  contains-dedup_from :
      (v x : T) (xs : List T)
      → OrdSet.contains v (dedup_from x xs) ≡ ((x == v) || OrdSet.contains v xs)
  unfolding dedup_from OrdSet.contains
  contains-dedup_from v x [] = refl
  contains-dedup_from v x (y ∷ ys) =
      ground (arith, contains-dedup_from v x ys, contains-dedup_from v y ys, k.eq_of_cmp y x)

  canonical-IsAscending : (xs : List T) → IsAscending (canonical_in_values xs)
  unfolding canonical_in_values dedup
  canonical-IsAscending xs = go (sort xs) (sort-IsSorted xs)
    where
      go : (ys : List T) → IsSorted ys → IsAscending (dedup ys)
      go [] s = tt
      go (y ∷ ys) s = dedup_from-IsAscending y ys s.0 s.1

  contains-canonical :
      (v : T) (xs : List T) → OrdSet.contains v (canonical_in_values xs) ≡ OrdSet.contains v xs
  unfolding canonical_in_values dedup OrdSet.contains
  contains-canonical v xs = go (sort xs) ∙ contains-sort v xs
    where
      go : (ys : List T) → OrdSet.contains v (dedup ys) ≡ OrdSet.contains v ys
      go [] = refl
      go (y ∷ ys) = contains-dedup_from v y ys

  id_matches-of_values :
      (xs : List T) (v : T) → id_matches (id_of_values xs) v ≡ OrdSet.contains v xs
  unfolding id_matches id_of_values in_matches any OrdSet.contains
  id_matches-of_values [] v = refl
  id_matches-of_values (x ∷ []) v = equal-contains v x
  id_matches-of_values (x ∷ y ∷ ys) v = any-contains v (x ∷ y ∷ ys)

  id_matches-key_values :
      (f : IdFilter T) (v : T) → id_matches f v ≡ OrdSet.contains v (key_values f)
  unfolding id_matches key_values in_matches any OrdSet.contains
  id_matches-key_values (IdFilter.equal x) v = equal-contains v x
  id_matches-key_values (IdFilter.any_in xs) v = any-contains v xs

  canonical_single : (x : T) → canonical_in_values (x ∷ []) ≡ x ∷ []
  unfolding canonical_in_values sort insert_sorted dedup dedup_from
  canonical_single x = refl

  id_canonicalize-values :
      (f : IdFilter T) → id_canonicalize f ≡ id_of_values (canonical_in_values (key_values f))
  unfolding id_canonicalize key_values id_of_values
  id_canonicalize-values (IdFilter.equal x) = ap id_of_values (sym (canonical_single x))
  id_canonicalize-values (IdFilter.any_in xs) = refl

  -- The canonical form of an id filter matches exactly the ids that the filter matches.
  pub id_matches-canonicalize :
      (f : IdFilter T) (v : T) → id_matches (id_canonicalize f) v ≡ id_matches f v
  id_matches-canonicalize f v =
      ap (λ g. id_matches g v) (id_canonicalize-values f)
      ∙ id_matches-of_values (canonical_in_values (key_values f)) v
      ∙ contains-canonical v (key_values f)
      ∙ sym (id_matches-key_values f v)

  canonical_ext :
      (xs ys : List T)
      → ((v : T) → OrdSet.contains v xs ≡ OrdSet.contains v ys)
      → canonical_in_values xs ≡ canonical_in_values ys
  canonical_ext xs ys same =
      ascending_ext (canonical_in_values xs) (canonical_in_values ys) (canonical-IsAscending xs)
        (canonical-IsAscending ys)
        (λ v. contains-canonical v xs ∙ same v ∙ sym (contains-canonical v ys))

  -- Two id filters that match the same ids have the same canonical form, whether they were written
  -- as one id or as a list, in whatever order and with whatever repetitions.
  pub id_canonicalize_complete :
      (f g : IdFilter T)
      → ((v : T) → id_matches f v ≡ id_matches g v)
      → id_canonicalize f ≡ id_canonicalize g
  id_canonicalize_complete f g same =
      id_canonicalize-values f
      ∙ ap id_of_values (canonical_ext (key_values f) (key_values g) keys)
      ∙ sym (id_canonicalize-values g)
    where
      keys : (v : T) → OrdSet.contains v (key_values f) ≡ OrdSet.contains v (key_values g)
      keys v = sym (id_matches-key_values f v) ∙ same v ∙ id_matches-key_values g v

  -- An equality filter and its canonical form match the same values.
  pub eq_matches-canonicalize :
      (f : EqFilter T) (v : T) → eq_matches (eq_canonicalize f) v ≡ eq_matches f v
  unfolding eq_canonicalize eq_matches eq_of_values any OrdSet.contains
  eq_matches-canonicalize (EqFilter.equal x) v = refl
  eq_matches-canonicalize (EqFilter.any_in xs) v =
      of_values (canonical_in_values xs) ∙ contains-canonical v xs ∙ sym (any-contains v xs)
    where
      of_values : (ys : List T) → eq_matches (eq_of_values ys) v ≡ OrdSet.contains v ys
      of_values [] = refl
      of_values (y ∷ []) = equal-contains v y
      of_values (y ∷ z ∷ zs) = any-contains v (y ∷ z ∷ zs)

-- A string filter and its canonical form match the same strings.
pub string_matches-canonicalize :
    (f : StringFilter) (v : Str) → string_matches (string_canonicalize f) v ≡ string_matches f v
unfolding string_canonicalize string_matches string_of_values in_matches any OrdSet.contains
string_matches-canonicalize (StringFilter.equal x) v = refl
string_matches-canonicalize (StringFilter.any_in xs) v =
    of_values (canonical_in_values xs) ∙ contains-canonical v xs ∙ sym (any-contains v xs)
  where
    of_values : (ys : List Str) → string_matches (string_of_values ys) v ≡ OrdSet.contains v ys
    of_values [] = refl
    of_values (y ∷ []) = equal-contains v y
    of_values (y ∷ z ∷ zs) = any-contains v (y ∷ z ∷ zs)
string_matches-canonicalize (StringFilter.contains x) v = refl
string_matches-canonicalize (StringFilter.prefixed x) v = refl
