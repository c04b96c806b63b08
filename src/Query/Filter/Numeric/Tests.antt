-- ===== src/Query/Filter/Numeric/Tests.antt =====
-- Numbers with a value that is not a number.
use Prim.Native.Nat.Ordering.{lt, eq, gt}
use Prim.Native.Nat.{ℕ}
use mathlib.Core.List.Perm
use myko.Base.{◌≡◌, refl, Option, none, some, [], ◌∷◌, Ordering, arith}
use myko.Base.Key.{nat_key}
use myko.Query.Filter.Numeric.{NumericFilter, PartialOrd, SortBy, numeric_canonicalize}

abbrev compare_numbers : Option ℕ → Option ℕ → Option Ordering
compare_numbers none _ = none
compare_numbers (some a) none = none
compare_numbers (some a) (some b) = some (nat_key.cmp a b)

eq_comm_lem : (a b : Option ℕ) → compare_numbers a b ≡ some eq → compare_numbers b a ≡ some eq
eq_comm_lem none b h = absurd (ground (arith, h))
eq_comm_lem (some a) none h = absurd (ground (arith, h))
eq_comm_lem (some a) (some b) h = ground (arith, h, nat_key.cmp_flip a b)

eq_trans_lem :
    (a b c : Option ℕ)
    → compare_numbers a b ≡ some eq
    → compare_numbers b c ≡ some eq
    → compare_numbers a c ≡ some eq
eq_trans_lem none b c h g = absurd (ground (arith, h))
eq_trans_lem (some a) none c h g = absurd (ground (arith, h))
eq_trans_lem (some a) (some b) none h g = absurd (ground (arith, g))
eq_trans_lem (some a) (some b) (some c) h g = ground (arith, h, g, nat_key.eq_of_cmp a b)

gt_flip_lem : (a b : Option ℕ) → compare_numbers a b ≡ some gt → compare_numbers b a ≡ some lt
gt_flip_lem none b h = absurd (ground (arith, h))
gt_flip_lem (some a) none h = absurd (ground (arith, h))
gt_flip_lem (some a) (some b) h = ground (arith, h, nat_key.cmp_flip a b)

lt_trans_lem :
    (a b c : Option ℕ)
    → compare_numbers a b ≡ some lt
    → compare_numbers b c ≡ some lt
    → compare_numbers a c ≡ some lt
lt_trans_lem none b c h g = absurd (ground (arith, h))
lt_trans_lem (some a) none c h g = absurd (ground (arith, h))
lt_trans_lem (some a) (some b) none h g = absurd (ground (arith, g))
lt_trans_lem (some a) (some b) (some c) h g = ground (arith, h, g, nat_key.cmp_trans a b c)

instance abbrev numbers : PartialOrd (Option ℕ)
numbers = record {
  partial_cmp = compare_numbers;
  eq_comm = eq_comm_lem;
  eq_trans = eq_trans_lem;
  gt_flip = gt_flip_lem;
  lt_trans = lt_trans_lem;
}

-- a sort that keeps the order
abbrev unsorted : SortBy (Option ℕ)
unsorted = record { sort_by = λ compare xs. xs; sort_by_perm = λ compare xs. Perm.refl xs }

abbrev values : NumericFilter (Option ℕ)
values = NumericFilter.any_in (none ∷ some 4 ∷ some 4 ∷ none ∷ [])

abbrev at_four : NumericFilter (Option ℕ)
at_four = NumericFilter.range (some (some 4)) (some (some 4))

canonical_at_four : numeric_canonicalize unsorted at_four ≡ NumericFilter.equal (some 4)
unfolding numeric_canonicalize nat_key
canonical_at_four = refl
