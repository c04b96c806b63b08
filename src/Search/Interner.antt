-- ===== src/Search/Interner.antt =====
-- libs/myko/core/src/search/typed/interner.rs: dense `u32` slots for ids, with the freed slots
-- reused. A `Vec` used as a stack has its top first; the map is an association list.
pub mod Slots
mod Tests
use myko.Base.{
  ℕ, Bool, Option, none, some, List, [], ◌∷◌, ◌++◌, if◌then◌else◌, leb, length, get_elem?, set,
}
use myko.Base.Key.{Key}
use myko.Base.Assoc
use myko.Base.Assoc.{Assoc}

abbrev pub u32_max : ℕ
u32_max = 4294967295

pub record IdInterner (I : Type 0) : Type 0 where
  pub forward : Assoc I ℕ
  pub reverse : List (Option I)
  pub free_list : List ℕ

-- `u32::try_from(n).unwrap_or(u32::MAX)`
unfoldable pub u32_or_max : ℕ → ℕ
u32_or_max n = if leb n u32_max then n else u32_max

module _ {I : Type 0} ⦃k : Key I⦄ where
  unfoldable pub new : IdInterner I
  new = record { forward = []; reverse = []; free_list = [] }

  -- The slot is taken from the free list, else it is the next one.
  unfoldable pub assign : I → IdInterner I → ℕ × IdInterner I
  unfolding u32_or_max Assoc.insert
  assign id t = elim t.free_list [
    | reused ∷ rest ↦ (
      reused,
      record {
        forward = Assoc.insert id reused t.forward;
        reverse = set t.reverse reused (some id);
        free_list = rest;
      },
    )
    | [] ↦
        let new_slot = u32_or_max (length t.reverse) in
        (
          new_slot,
          record {
            forward = Assoc.insert id new_slot t.forward;
            reverse = t.reverse ++ (some id ∷ []);
            free_list = [];
          },
        )
  ]

  unfoldable pub intern : I → IdInterner I → ℕ × IdInterner I
  unfolding assign Assoc.lookup
  intern id t = elim (Assoc.lookup id t.forward) [
    | some existing ↦ (existing, t)
    | none ↦ assign id t
  ]

  unfoldable pub lookup : I → IdInterner I → Option ℕ
  unfolding Assoc.lookup
  lookup id t = Assoc.lookup id t.forward

  unfoldable pub id_of : ℕ → IdInterner I → Option I
  id_of slot t = elim (get_elem? t.reverse slot) [ none ↦ none | some entry ↦ entry ]

  unfoldable pub release : I → IdInterner I → IdInterner I
  unfolding Assoc.lookup Assoc.remove
  release id t = elim (Assoc.lookup id t.forward) [
    | some slot ↦ record {
      forward = Assoc.remove id t.forward;
      reverse = set t.reverse slot none;
      free_list = slot ∷ t.free_list;
    }
    | none ↦ t
  ]

  unfoldable pub len : IdInterner I → ℕ
  len t = length t.forward

  unfoldable pub is_empty : IdInterner I → Bool
  is_empty t = elim t.forward [ [] ↦ Bool.true | _ ∷ _ ↦ Bool.false ]
