-- ===== src/Server/Relationships/ReverseIndex/Valid.antt =====
-- What every operation of the reverse index keeps: its two maps are the inverse of each other.
use myko.Base.{ℕ, ◌≡◌, refl, sym, some, Bool, true, false, ◌||◌}
use myko.Base.{inl, inr, [], if◌then◌else◌, arith, Bool-cases, Option-cases}
use mathlib.Core.Path.{subst}
use myko.Base.Key.{◌==◌, nat_key}
use myko.Base.Text.{Str, str_key}
use myko.Base.Assoc
use myko.Base.Assoc.{lookup-insert, lookup-remove}
use myko.Graph.Types.{AnyItem}
use myko.Server.Relationships.{BelongsToLookup, Stores}
use myko.Server.Relationships.ReverseIndex.{ReverseIndex, ParentByChild, forget_child}
use myko.Server.Relationships.ReverseIndex.{add_child, drop_child}
use myko.Server.Relationships.ReverseIndex.{remove_belongs_to_child, index_belongs_to_child}
use myko.Server.Relationships.ReverseIndex.{ensure_belongs_to_index_loaded}
use myko.Server.Relationships.ReverseIndex.Inverse.{IsInverse-empty}
use myko.Server.Relationships.ReverseIndex.Slots.{Maps, maps_of, parents_of, children_of_lookup}
use myko.Server.Relationships.ReverseIndex.Slots.{without, with_parent, loaded_maps, is_loaded}
use myko.Server.Relationships.ReverseIndex.Slots.{maps_of-remove, maps_of-index}
use myko.Server.Relationships.ReverseIndex.Slots.{ensure_loaded_known, maps_of-ensure_loaded_new}
use myko.Server.Relationships.ReverseIndex.Load.{IsStore, InverseMaps}
use myko.Server.Relationships.ReverseIndex.Load.{without-IsInverse, lookup-without}
use myko.Server.Relationships.ReverseIndex.Load.{with_parent-IsInverse, load_entries-IsInverse}

-- The two maps of every lookup are inverse to each other, and a lookup has both or neither.
pub record IsValid (index : ReverseIndex) : Type 0 where
  pub inverse : (i : ℕ) → InverseMaps (maps_of i index)
  pub together :
      (i : ℕ)
      → Assoc.contains_key i index.children_by_parent ≡ Assoc.contains_key i index.parent_by_child

loaded-IsInverse :
    (lookup : BelongsToLookup) (stores : Stores)
    → IsStore (stores lookup.local_type)
    → InverseMaps (loaded_maps lookup stores)
unfolding Assoc.lookup
loaded-IsInverse lookup stores s =
    load_entries-IsInverse lookup.extract_fk (stores lookup.local_type) ([], []) s (λ c. inl refl)
      IsInverse-empty

maps_of-if :
    (b : Bool) (m n : Maps) → InverseMaps m → InverseMaps n → InverseMaps (if b then m else n)
maps_of-if true m n v w = v
maps_of-if false m n v w = w

abbrev Together : ℕ → ReverseIndex → Type 0
Together i index =
    Assoc.contains_key i index.children_by_parent ≡ Assoc.contains_key i index.parent_by_child

contains_key-insert :
    {V : Type 0} (i j : ℕ) (x : V) (m : Assoc.Assoc ℕ V)
    → Assoc.contains_key i (Assoc.insert j x m) ≡ ((j == i) || Assoc.contains_key i m)
unfolding Assoc.contains_key
contains_key-insert i j x m = ground (arith, lookup-insert j i x m)

Together-forget :
    (i id : ℕ) (child parent : Str) (parents : ParentByChild) (index : ReverseIndex)
    → Assoc.lookup id index.parent_by_child ≡ some parents
    → ((j : ℕ) → Together j index)
    → Together i (forget_child id child parents index parent)
unfolding Assoc.contains_key
Together-forget i id child parent parents index h v =
    elim (Option-cases (Assoc.lookup id index.children_by_parent)) [
      | inl e ↦ absurd (ground (arith, v id))
      | inr (m, e) ↦
          rw (e, forget_child)
            (ground (
              arith,
              v i,
              lookup-insert id i (Assoc.remove child parents) index.parent_by_child,
              lookup-insert id i (drop_child child parent m) index.children_by_parent,
            ))
    ]

Together-remove :
    (i : ℕ) (lookup : BelongsToLookup) (child : Str) (index : ReverseIndex)
    → ((j : ℕ) → Together j index)
    → Together i (remove_belongs_to_child lookup child index)
unfolding remove_belongs_to_child
Together-remove i lookup child index v =
    elim (Option-cases (Assoc.lookup lookup.id index.parent_by_child)) [
      | inl e ↦ rw (e, remove_belongs_to_child) (v i)
      | inr (parents, e) ↦ elim (Option-cases (Assoc.lookup child parents)) [
        | inl q ↦ rw (e, remove_belongs_to_child, q) (v i)
        | inr (parent, q) ↦
            rw (e, remove_belongs_to_child, q)
              (Together-forget i lookup.id child parent parents index e v)
      ]
    ]

Together-index :
    (i : ℕ) (lookup : BelongsToLookup) (item : AnyItem) (index : ReverseIndex)
    → ((j : ℕ) → Together j index)
    → Together i (index_belongs_to_child lookup item index)
unfolding index_belongs_to_child
Together-index i lookup item index v =
    let cleared = remove_belongs_to_child lookup item.id index in
    let was = Together-remove i lookup item.id index v in
    elim (Option-cases (lookup.extract_fk item)) [
      | inl e ↦ rw (e, index_belongs_to_child) was
      | inr (parent, e) ↦
          rw (e, index_belongs_to_child)
            (ground (
              arith,
              was,
              contains_key-insert i lookup.id
                  (Assoc.insert item.id parent (parents_of lookup.id cleared))
                  cleared.parent_by_child,
              contains_key-insert i lookup.id
                  (add_child item.id parent (children_of_lookup lookup.id cleared))
                  cleared.children_by_parent,
            ))
    ]

Together-load :
    (i : ℕ) (lookup : BelongsToLookup) (stores : Stores) (index : ReverseIndex)
    → ((j : ℕ) → Together j index)
    → is_loaded lookup index ≡ false
    → Together i (ensure_belongs_to_index_loaded lookup stores index)
unfolding ensure_belongs_to_index_loaded
Together-load i lookup stores index v e =
    rw (e, ensure_belongs_to_index_loaded)
      (ground (
        arith,
        v i,
        contains_key-insert i lookup.id (loaded_maps lookup stores).0 index.parent_by_child,
        contains_key-insert i lookup.id (loaded_maps lookup stores).1 index.children_by_parent,
      ))

pub remove-IsValid :
    (lookup : BelongsToLookup) (child : Str) (index : ReverseIndex)
    → IsValid index
    → IsValid (remove_belongs_to_child lookup child index)
remove-IsValid lookup child index v = record {
  inverse = λ i.
      subst (λ m. InverseMaps m) (sym (maps_of-remove i lookup child index))
        (maps_of-if (lookup.id == i) (without child (maps_of lookup.id index)) (maps_of i index)
          (without-IsInverse child (maps_of lookup.id index) (v.inverse lookup.id)) (v.inverse i));
  together = λ i. Together-remove i lookup child index v.together;
}

pub index-IsValid :
    (lookup : BelongsToLookup) (item : AnyItem) (index : ReverseIndex)
    → IsValid index
    → IsValid (index_belongs_to_child lookup item index)
index-IsValid lookup item index v =
    let cleared = without item.id (maps_of lookup.id index) in
    record {
      inverse = λ i.
          subst (λ m. InverseMaps m) (sym (maps_of-index i lookup item index))
            (maps_of-if (lookup.id == i) (with_parent item.id (lookup.extract_fk item) cleared)
              (maps_of i index)
              (with_parent-IsInverse item.id (lookup.extract_fk item) cleared
                (lookup-without item.id (maps_of lookup.id index))
                (without-IsInverse item.id (maps_of lookup.id index) (v.inverse lookup.id)))
              (v.inverse i));
      together = λ i. Together-index i lookup item index v.together;
    }

pub ensure_loaded-IsValid :
    (lookup : BelongsToLookup) (stores : Stores) (index : ReverseIndex)
    → IsStore (stores lookup.local_type)
    → IsValid index
    → IsValid (ensure_belongs_to_index_loaded lookup stores index)
ensure_loaded-IsValid lookup stores index s v = elim (Bool-cases (is_loaded lookup index)) [
  | inl e ↦ rw (ensure_loaded_known lookup stores index e) v
  | inr e ↦ record {
    inverse = λ i.
        subst (λ m. InverseMaps m) (sym (maps_of-ensure_loaded_new i lookup stores index e))
          (maps_of-if (lookup.id == i) (loaded_maps lookup stores) (maps_of i index)
            (loaded-IsInverse lookup stores s) (v.inverse i));
    together = λ i. Together-load i lookup stores index v.together e;
  }
]

-- The three operations of the reverse index keep it valid: for every lookup, a child is in the set
-- of a parent exactly if that parent is the child's recorded one, the sets are ascending, and none
-- is kept when its last child has left. The store that a load reads files each item once, under
-- its id.
pub operations-IsValid :
    (lookup : BelongsToLookup) (stores : Stores) (item : AnyItem) (child : Str)
    (index : ReverseIndex)
    → IsStore (stores lookup.local_type)
    → IsValid index
    → IsValid (index_belongs_to_child lookup item index)
      × IsValid (remove_belongs_to_child lookup child index)
      × IsValid (ensure_belongs_to_index_loaded lookup stores index)
operations-IsValid lookup stores item child index s v = (
  index-IsValid lookup item index v,
  remove-IsValid lookup child index v,
  ensure_loaded-IsValid lookup stores index s v,
)
