-- ===== src/Query/Filter/Numeric/Matches.antt =====
-- The canonical form of a numeric filter matches what the filter matches.
use myko.Base.{◌≡◌, none, some, Ordering}
use myko.Base.{false, List, [], ◌∷◌}
use myko.Query.Filter.Numeric.{NumericFilter, PartialOrd, ◌≈◌}

module _ {T : Type 0} ⦃p : PartialOrd T⦄ where
  -- no two neighbours are equal
  abbrev pub Apart : List T → Type 0
  Apart [] = Unit
  Apart (x ∷ []) = Unit
  Apart (x ∷ y ∷ ys) = ((y ≈ x) ≡ false) × Apart (y ∷ ys)

  -- A form that is not one value where it could be: a list of one value, a range between equal
  -- bounds, or a list with a repetition next to its value.
  abbrev pub IsCollapsed : NumericFilter T → Type 0
  IsCollapsed (NumericFilter.equal x) = Unit
  IsCollapsed (NumericFilter.any_in []) = Unit
  IsCollapsed (NumericFilter.any_in (x ∷ [])) = ⊥
  IsCollapsed (NumericFilter.any_in (x ∷ y ∷ ys)) = Apart (x ∷ y ∷ ys)
  IsCollapsed (NumericFilter.range none max) = Unit
  IsCollapsed (NumericFilter.range (some a) none) = Unit
  IsCollapsed (NumericFilter.range (some a) (some b)) = (a ≈ b) ≡ false
