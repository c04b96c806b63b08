-- ===== src/Base/Key.antt =====
-- Totally ordered keys: what `HashMap` and `BTreeSet` ask of a key (`Eq` and `Ord`), with the laws
-- that those traits document. `str` compares bytewise and lexicographically.
use Prim.Native.Nat.{ℕ, compare, Ordering}
use Prim.Native.Nat.Ordering.{lt, eq, gt}
use mathlib.Core.Path.{◌≡◌, refl, ap}
use mathlib.Core.Bool.{Bool, true, false}
use mathlib.Core.List.{List, [], ◌∷◌}
use mathlib.Core.Option.{Option, none, some}
use native.Mathlib.Omega.{arith}

abbrev pub flip_order : Ordering → Ordering
flip_order lt = gt
flip_order eq = eq
flip_order gt = lt

-- the laws of `Ord`: a total order, with equality of keys as equality of values
pub record IsTotal {ℓ} {K : Type ℓ} (order : K → K → Ordering) : Type ℓ where
  pub cmp_flip : (x y : K) → order y x ≡ flip_order (order x y)
  pub cmp_trans : (x y z : K) → order x y ≡ lt → order y z ≡ lt → order x z ≡ lt
  pub cmp_refl : (x : K) → order x x ≡ eq
  pub eq_of_cmp : (x y : K) → order x y ≡ eq → x ≡ y

pub record Key {ℓ} (K : Type ℓ) : Type ℓ where
  pub cmp : K → K → Ordering
  pub total : IsTotal cmp
  pub open total use *

infix 50 ◌==◌ ◌≺◌
abbrev pub ◌==◌ {ℓ} : {K : Type ℓ} ⦃k : Key K⦄ → K → K → Bool
◌==◌ ⦃k⦄ a b = elim (k.cmp a b) [ eq ↦ true | _ ↦ false ]

-- `a < b` of the source
abbrev pub ltk {ℓ} : {K : Type ℓ} ⦃k : Key K⦄ → K → K → Bool
ltk ⦃k⦄ a b = elim (k.cmp a b) [ lt ↦ true | _ ↦ false ]

abbrev pub ◌≺◌ {ℓ} : {K : Type ℓ} ⦃k : Key K⦄ → K → K → Type 0
◌≺◌ ⦃k⦄ a b = k.cmp a b ≡ lt

module _ {ℓ} {K : Type ℓ} ⦃k : Key K⦄ where
  pub ==_refl : (a : K) → (a == a) ≡ true
  ==_refl a = ground (arith, k.cmp_refl a)

  pub eq_of_== : (a b : K) → (a == b) ≡ true → a ≡ b
  eq_of_== a b h = ground (arith, k.eq_of_cmp a b)

  pub ==_comm : (a b : K) → (a == b) ≡ (b == a)
  ==_comm a b = ground (arith, k.cmp_flip a b)

pub compare-IsTotal : IsTotal compare
compare-IsTotal = ground arith

instance unfoldable pub nat_key : Key ℕ
nat_key = record { cmp = compare; total = compare-IsTotal }

abbrev pub lex_then : Ordering → Ordering → Ordering
lex_then eq second = second
lex_then first _ = first

module _ {ℓ κ} {A : Type ℓ} {B : Type κ} ⦃a : Key A⦄ ⦃b : Key B⦄ where
  abbrev pub cmp_pair : A × B → A × B → Ordering
  cmp_pair x y = lex_then (a.cmp x.0 y.0) (b.cmp x.1 y.1)

  pub cmp_pair-IsTotal : IsTotal {K = A × B} cmp_pair
  cmp_pair-IsTotal = record {
    cmp_flip = λ p q. ground (arith, a.cmp_flip p.0 q.0, b.cmp_flip p.1 q.1);
    cmp_trans = λ p q r. ground (
      arith,
      a.eq_of_cmp p.0 q.0,
      a.eq_of_cmp q.0 r.0,
      a.cmp_trans p.0 q.0 r.0,
      b.cmp_trans p.1 q.1 r.1,
    );
    cmp_refl = λ p. ground (arith, a.cmp_refl p.0, b.cmp_refl p.1);
    eq_of_cmp = λ p q. ground (arith, a.eq_of_cmp p.0 q.0, b.eq_of_cmp p.1 q.1);
  }

  instance unfoldable pub pair_key : Key (A × B)
  pair_key = record { cmp = cmp_pair; total = cmp_pair-IsTotal }

module _ {ℓ} {A : Type ℓ} ⦃a : Key A⦄ where
  -- `None < Some(_)`, as derived
  unfoldable pub cmp_option : Option A → Option A → Ordering
  cmp_option none none = eq
  cmp_option none (some _) = lt
  cmp_option (some _) none = gt
  cmp_option (some x) (some y) = a.cmp x y

  pub cmp_option-IsTotal : IsTotal cmp_option
  unfolding cmp_option
  cmp_option-IsTotal = record {
    cmp_refl = elim [ none ↦ refl | some x ↦ a.cmp_refl x ];
    eq_of_cmp = eq_lem;
    cmp_flip = flip_lem;
    cmp_trans = trans_lem;
  }
    where
      eq_lem : (x y : Option A) → cmp_option x y ≡ eq → x ≡ y
      eq_lem none none h = refl
      eq_lem none (some _) h = cc
      eq_lem (some _) none h = cc
      eq_lem (some x) (some y) h = ap some (a.eq_of_cmp x y h)

      flip_lem : (x y : Option A) → cmp_option y x ≡ flip_order (cmp_option x y)
      flip_lem none none = refl
      flip_lem none (some _) = refl
      flip_lem (some _) none = refl
      flip_lem (some x) (some y) = a.cmp_flip x y

      trans_lem :
          (x y z : Option A) → cmp_option x y ≡ lt → cmp_option y z ≡ lt → cmp_option x z ≡ lt
      trans_lem none none z h g = cc
      trans_lem none (some _) none h g = cc
      trans_lem none (some _) (some _) h g = refl
      trans_lem (some _) none z h g = cc
      trans_lem (some _) (some _) none h g = cc
      trans_lem (some x) (some y) (some z) h g = a.cmp_trans x y z h g

  instance unfoldable pub option_key : Key (Option A)
  option_key = record { cmp = cmp_option; total = cmp_option-IsTotal }

  unfoldable pub cmp_list : List A → List A → Ordering
  cmp_list [] [] = eq
  cmp_list [] (_ ∷ _) = lt
  cmp_list (_ ∷ _) [] = gt
  cmp_list (x ∷ xs) (y ∷ ys) = lex_then (a.cmp x y) (cmp_list xs ys)

  cmp_list_refl : (xs : List A) → cmp_list xs xs ≡ eq
  unfolding cmp_list
  cmp_list_refl [] = refl
  cmp_list_refl (x ∷ xs) = rw (a.cmp_refl x) (cmp_list_refl xs)

  eq_of_cmp_list : (xs ys : List A) → cmp_list xs ys ≡ eq → xs ≡ ys
  unfolding cmp_list
  eq_of_cmp_list [] [] h = refl
  eq_of_cmp_list [] (_ ∷ _) h = cc
  eq_of_cmp_list (_ ∷ _) [] h = cc
  eq_of_cmp_list (x ∷ xs) (y ∷ ys) h = ground (arith, a.eq_of_cmp x y, eq_of_cmp_list xs ys)

  cmp_list-flip : (xs ys : List A) → cmp_list ys xs ≡ flip_order (cmp_list xs ys)
  unfolding cmp_list
  cmp_list-flip [] [] = refl
  cmp_list-flip [] (_ ∷ _) = refl
  cmp_list-flip (_ ∷ _) [] = refl
  cmp_list-flip (x ∷ xs) (y ∷ ys) = ground (arith, a.cmp_flip x y, cmp_list-flip xs ys)

  cmp_list_trans :
      (xs ys zs : List A) → cmp_list xs ys ≡ lt → cmp_list ys zs ≡ lt → cmp_list xs zs ≡ lt
  unfolding cmp_list
  cmp_list_trans [] [] zs h g = cc
  cmp_list_trans [] (_ ∷ _) [] h g = cc
  cmp_list_trans [] (_ ∷ _) (_ ∷ _) h g = refl
  cmp_list_trans (_ ∷ _) [] zs h g = cc
  cmp_list_trans (_ ∷ _) (_ ∷ _) [] h g = cc
  cmp_list_trans (x ∷ xs) (y ∷ ys) (z ∷ zs) h g =
      ground (arith, a.eq_of_cmp x y, a.eq_of_cmp y z, a.cmp_trans x y z, cmp_list_trans xs ys zs)

  pub cmp_list-IsTotal : IsTotal cmp_list
  cmp_list-IsTotal = record {
    cmp_refl = cmp_list_refl;
    eq_of_cmp = eq_of_cmp_list;
    cmp_flip = cmp_list-flip;
    cmp_trans = cmp_list_trans;
  }

  instance unfoldable pub list_key : Key (List A)
  list_key = record { cmp = cmp_list; total = cmp_list-IsTotal }

-- A derived order: that of an encoding that can be undone.
module _ {ℓ κ} {A : Type ℓ} {B : Type κ} ⦃b : Key B⦄ (encode : A → B) (decode : B → A)
    (undo : (x : A) → decode (encode x) ≡ x) where
  abbrev pub cmp_via : A → A → Ordering
  cmp_via x y = b.cmp (encode x) (encode y)

  eq_of_cmp_via : (x y : A) → cmp_via x y ≡ eq → x ≡ y
  eq_of_cmp_via x y h = cc (undo x, undo y, b.eq_of_cmp (encode x) (encode y) h)

  pub cmp_via-IsTotal : IsTotal cmp_via
  cmp_via-IsTotal = record {
    cmp_refl = λ x. b.cmp_refl (encode x);
    eq_of_cmp = eq_of_cmp_via;
    cmp_flip = λ x y. b.cmp_flip (encode x) (encode y);
    cmp_trans = λ x y z. b.cmp_trans (encode x) (encode y) (encode z);
  }
