-- ===== src/Base/OrdSet.antt =====
-- `BTreeSet` as a strictly ascending list, with the operations of the standard library.
use Prim.Native.Nat.Ordering.{lt, eq, gt}
use mathlib.Core.Path.{◌≡◌, refl, ap₂}
use mathlib.Core.Bool.{Bool, true, false, not, ◌&&◌, ◌||◌}
use mathlib.Core.List.{List, [], ◌∷◌}
use native.Mathlib.Omega.{arith}
use myko.Base.Tests.{if◌then◌else◌}
use Prim.Native.Nat.{suc, ◌≤◌}
use myko.Base.Lists.{filter, length}
use myko.Base.Key.{Key, ◌==◌, ◌≺◌}

module _ {ℓ} {K : Type ℓ} ⦃k : Key K⦄ where
  unfoldable pub contains : K → List K → Bool
  contains x [] = false
  contains x (y ∷ ys) = (y == x) || contains x ys

  unfoldable pub insert : K → List K → List K
  insert x [] = x ∷ []
  insert x (y ∷ ys) =
      let rest = insert x ys in elim (k.cmp x y) [ lt ↦ x ∷ y ∷ ys | eq ↦ y ∷ ys | gt ↦ y ∷ rest ]

  unfoldable pub remove : K → List K → List K
  remove x [] = []
  remove x (y ∷ ys) = let rest = remove x ys in if y == x then ys else y ∷ rest

  -- `BTreeSet::extend`, and `collect` into a set
  unfoldable pub extend : List K → List K → List K
  unfolding insert
  extend xs [] = xs
  extend xs (y ∷ ys) = extend (insert y xs) ys

  abbrev pub Above : K → List K → Type 0
  Above a [] = Unit
  Above a (y ∷ ys) = (a ≺ y) × Above a ys

  abbrev pub IsAscending : List K → Type 0
  IsAscending [] = Unit
  IsAscending (y ∷ ys) = Above y ys × IsAscending ys

  pub Above-trans : (a b : K) (ys : List K) → a ≺ b → Above b ys → Above a ys
  Above-trans a b [] h g = tt
  Above-trans a b (y ∷ ys) h g = (k.cmp_trans a b y h g.0, Above-trans a b ys h g.1)

  pub contains-Above : (a : K) (ys : List K) → Above a ys → contains a ys ≡ false
  unfolding contains
  contains-Above a [] h = refl
  contains-Above a (y ∷ ys) h = ground (arith, k.cmp_flip a y, contains-Above a ys h.1)

  Above-insert : (a x : K) (ys : List K) → a ≺ x → Above a ys → Above a (insert x ys)
  unfolding insert
  Above-insert a x [] h g = (h, tt)
  Above-insert a x (y ∷ ys) h g = ground (arith, Above-insert a x ys h g.1)

  pub insert-IsAscending : (x : K) (ys : List K) → IsAscending ys → IsAscending (insert x ys)
  unfolding insert
  insert-IsAscending x [] s = (tt, tt)
  insert-IsAscending x (y ∷ ys) s =
      ground (
        arith,
        k.cmp_flip x y,
        Above-trans x y ys,
        Above-insert y x ys,
        insert-IsAscending x ys s.1,
      )

  Above-remove : (a x : K) (ys : List K) → Above a ys → Above a (remove x ys)
  unfolding remove
  Above-remove a x [] g = tt
  Above-remove a x (y ∷ ys) g = ground (arith, Above-remove a x ys g.1)

  pub remove-IsAscending : (x : K) (ys : List K) → IsAscending ys → IsAscending (remove x ys)
  unfolding remove
  remove-IsAscending x [] s = tt
  remove-IsAscending x (y ∷ ys) s =
      ground (arith, Above-remove y x ys s.0, remove-IsAscending x ys s.1)

  pub contains-insert :
      (p x : K) (ys : List K) → contains p (insert x ys) ≡ ((x == p) || contains p ys)
  unfolding contains insert
  contains-insert p x [] = refl
  contains-insert p x (y ∷ ys) =
      ground (arith, k.eq_of_cmp x y, k.eq_of_cmp y p, contains-insert p x ys)

  pub contains-remove :
      (p x : K) (ys : List K)
      → IsAscending ys
      → contains p (remove x ys) ≡ (not (x == p) && contains p ys)
  unfolding contains remove
  contains-remove p x [] s = ground arith
  contains-remove p x (y ∷ ys) s = ground (
    arith,
    k.eq_of_cmp x p,
    k.eq_of_cmp y x,
    k.eq_of_cmp y p,
    k.cmp_refl x,
    k.cmp_refl y,
    contains-Above y ys s.0,
    contains-remove p x ys s.1,
  )

  pub extend-IsAscending : (xs ys : List K) → IsAscending xs → IsAscending (extend xs ys)
  unfolding extend
  extend-IsAscending xs [] s = s
  extend-IsAscending xs (y ∷ ys) s = extend-IsAscending (insert y xs) ys (insert-IsAscending y xs s)

  pub contains-extend :
      (p : K) (xs ys : List K) → contains p (extend xs ys) ≡ (contains p xs || contains p ys)
  unfolding extend contains
  contains-extend p xs [] = ground arith
  contains-extend p xs (y ∷ ys) =
      ground (arith, contains-extend p (insert y xs) ys, contains-insert p y xs)

  Above-filter : (a : K) (f : K → Bool) (ys : List K) → Above a ys → Above a (filter f ys)
  unfolding filter
  Above-filter a f [] h = tt
  Above-filter a f (y ∷ ys) h = ground (arith, Above-filter a f ys h.1)

  pub filter-IsAscending : (f : K → Bool) (ys : List K) → IsAscending ys → IsAscending (filter f ys)
  unfolding filter
  filter-IsAscending f [] s = tt
  filter-IsAscending f (y ∷ ys) s =
      ground (arith, Above-filter y f ys s.0, filter-IsAscending f ys s.1)

  pub contains-filter :
      (p : K) (f : K → Bool) (ys : List K) → contains p (filter f ys) ≡ (f p && contains p ys)
  unfolding contains filter
  contains-filter p f [] = ground arith
  contains-filter p f (y ∷ ys) = ground (arith, k.eq_of_cmp y p, contains-filter p f ys)

  pub length-insert : (x : K) (ys : List K) → length (insert x ys) ≤ suc (length ys)
  unfolding insert
  length-insert x [] = omega arith
  length-insert x (y ∷ ys) = ground (arith, length-insert x ys)

  pub length-insert_new :
      (x : K) (ys : List K) → contains x ys ≡ false → length (insert x ys) ≡ suc (length ys)
  unfolding insert contains
  length-insert_new x [] h = refl
  length-insert_new x (y ∷ ys) h =
      ground (arith, length-insert_new x ys, k.eq_of_cmp x y, k.cmp_refl y)

  pub length-remove_member :
      (x : K) (ys : List K) → contains x ys ≡ true → suc (length (remove x ys)) ≡ length ys
  unfolding remove contains
  length-remove_member x [] h = cc
  length-remove_member x (y ∷ ys) h = ground (arith, length-remove_member x ys)

  -- Two ascending lists with the same members are the same list.
  Same : List K → List K → Type ℓ
  Same xs ys = (p : K) → contains p xs ≡ contains p ys

  head_eq : (x y : K) (xs ys : List K) → Above x xs → Above y ys → Same (x ∷ xs) (y ∷ ys) → x ≡ y
  unfolding contains Same
  head_eq x y xs ys h g same = ground (
    arith,
    same x,
    same y,
    k.cmp_refl x,
    k.cmp_refl y,
    k.eq_of_cmp x y,
    k.cmp_flip x y,
    contains-Above x ys,
    contains-Above y xs,
    Above-trans x y ys,
    Above-trans y x xs,
  )

  tail-Same :
      (x y : K) (xs ys : List K)
      → Above x xs
      → Above y ys
      → x ≡ y
      → Same (x ∷ xs) (y ∷ ys)
      → Same xs ys
  unfolding contains Same
  tail-Same x y xs ys h g e same p = ground (
    arith,
    same p,
    k.eq_of_cmp x p,
    k.eq_of_cmp y p,
    contains-Above x xs h,
    contains-Above y ys g,
  )

  pub ascending_ext :
      (xs ys : List K)
      → IsAscending xs
      → IsAscending ys
      → ((p : K) → contains p xs ≡ contains p ys)
      → xs ≡ ys
  unfolding contains Same
  ascending_ext [] [] s t same = refl
  ascending_ext [] (y ∷ ys) s t same = ground (arith, same y, k.cmp_refl y)
  ascending_ext (x ∷ xs) [] s t same = ground (arith, same x, k.cmp_refl x)
  ascending_ext (x ∷ xs) (y ∷ ys) s t same =
      let e = head_eq x y xs ys s.0 t.0 same in
      ap₂ ◌∷◌ e (ascending_ext xs ys s.1 t.1 (tail-Same x y xs ys s.0 t.0 e same))
