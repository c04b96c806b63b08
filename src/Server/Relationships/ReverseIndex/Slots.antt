-- ===== src/Server/Relationships/ReverseIndex/Slots.antt =====
-- The reverse index, one lookup at a time: an operation on a lookup changes the two maps of that
-- lookup and no other. A map that is absent is read as the empty one.
use myko.Base.{ℕ, ◌≡◌, refl, Option, none, some, Bool, true, false, []}
use myko.Base.{if◌then◌else◌, arith, Option-cases, inl, inr}
use myko.Base.Key.{◌==◌, nat_key}
use myko.Base.Text.{Str, str_key}
use myko.Base.Assoc
use myko.Base.Assoc.{Assoc, lookup-insert, lookup-remove}
use myko.Graph.Types.{AnyItem}
use myko.Server.Relationships.{BelongsToLookup, Stores}
use myko.Server.Relationships.ReverseIndex.{ReverseIndex, ParentByChild, ChildrenByParent}
use myko.Server.Relationships.ReverseIndex.{or_default, add_child, drop_child}
use myko.Server.Relationships.ReverseIndex.{forget_child, record_child}
use myko.Server.Relationships.ReverseIndex.{remove_belongs_to_child, index_belongs_to_child}
use myko.Server.Relationships.ReverseIndex.{load_entries, ensure_belongs_to_index_loaded}

abbrev pub parents_of : ℕ → ReverseIndex → ParentByChild
parents_of i index = or_default (Assoc.lookup i index.parent_by_child)

abbrev pub children_of_lookup : ℕ → ReverseIndex → ChildrenByParent
children_of_lookup i index = or_default (Assoc.lookup i index.children_by_parent)

abbrev pub Maps : Type 0
Maps = ParentByChild × ChildrenByParent

abbrev pub maps_of : ℕ → ReverseIndex → Maps
maps_of i index = (parents_of i index, children_of_lookup i index)

-- The operations on the two maps of one lookup
abbrev pub without : Str → Maps → Maps
without child m = elim (Assoc.lookup child m.0) [
  | none ↦ m
  | some parent ↦ (Assoc.remove child m.0, drop_child child parent m.1)
]

abbrev pub with_parent : Str → Option Str → Maps → Maps
with_parent child none m = m
with_parent child (some parent) m = (Assoc.insert child parent m.0, add_child child parent m.1)

without-none : (child : Str) (m : Maps) → Assoc.lookup child m.0 ≡ none → without child m ≡ m
without-none child m h = rw (h, without) refl

without-some :
    (child parent : Str) (m : Maps)
    → Assoc.lookup child m.0 ≡ some parent
    → without child m ≡ (Assoc.remove child m.0, drop_child child parent m.1)
without-some child parent m h = rw (h, without) refl

maps_of-forget :
    (i id : ℕ) (child parent : Str) (parents : ParentByChild) (index : ReverseIndex)
    → Assoc.lookup id index.parent_by_child ≡ some parents
    → maps_of i (forget_child id child parents index parent) ≡ (
        if id == i
        then (Assoc.remove child parents, drop_child child parent (children_of_lookup id index))
        else maps_of i index)
unfolding drop_child Assoc.lookup
maps_of-forget i id child parent parents index h =
    elim (Option-cases (Assoc.lookup id index.children_by_parent)) [
      | inl e ↦ rw e (
          ground (
            arith,
            lookup-insert id i (Assoc.remove child parents) index.parent_by_child,
            nat_key.eq_of_cmp id i,
          ))
      | inr (m, e) ↦ rw e (
          ground (
            arith,
            lookup-insert id i (Assoc.remove child parents) index.parent_by_child,
            lookup-insert id i (drop_child child parent m) index.children_by_parent,
          ))
    ]

pub maps_of-remove :
    (i : ℕ) (lookup : BelongsToLookup) (child : Str) (index : ReverseIndex)
    → maps_of i (remove_belongs_to_child lookup child index)
      ≡ (if lookup.id == i then without child (maps_of lookup.id index) else maps_of i index)
unfolding remove_belongs_to_child
maps_of-remove i lookup child index =
    elim (Option-cases (Assoc.lookup lookup.id index.parent_by_child)) [
      | inl e ↦ rw (e, remove_belongs_to_child) (ground (arith, nat_key.eq_of_cmp lookup.id i))
      | inr (parents, e) ↦ elim (Option-cases (Assoc.lookup child parents)) [
        | inl q ↦
            rw
              (
                e,
                remove_belongs_to_child,
                q,
                without-none child (parents, children_of_lookup lookup.id index) q,
              )
              (ground (arith, nat_key.eq_of_cmp lookup.id i))
        | inr (parent, q) ↦
            rw
              (
                e,
                remove_belongs_to_child,
                q,
                without-some child parent (parents, children_of_lookup lookup.id index) q,
              )
              (maps_of-forget i lookup.id child parent parents index e)
      ]
    ]

maps_of-record :
    (i id : ℕ) (child parent : Str) (index : ReverseIndex)
    → maps_of i (record_child id child parent index)
      ≡ (if id == i then with_parent child (some parent) (maps_of id index) else maps_of i index)
maps_of-record i id child parent index = ground (
  arith,
  lookup-insert id i (Assoc.insert child parent (parents_of id index)) index.parent_by_child,
  lookup-insert id i (add_child child parent (children_of_lookup id index))
      index.children_by_parent,
)

pub maps_of-index :
    (i : ℕ) (lookup : BelongsToLookup) (item : AnyItem) (index : ReverseIndex)
    → maps_of i (index_belongs_to_child lookup item index) ≡ (
        if lookup.id == i
        then with_parent item.id
            (lookup.extract_fk item)
            (without item.id (maps_of lookup.id index))
        else maps_of i index)
unfolding index_belongs_to_child
maps_of-index i lookup item index = elim (Option-cases (lookup.extract_fk item)) [
  | inl e ↦ rw (e, index_belongs_to_child) (maps_of-remove i lookup item.id index)
  | inr (parent, e) ↦
      rw (e, index_belongs_to_child)
        (ground (
          arith,
          maps_of-record i lookup.id item.id parent (remove_belongs_to_child lookup item.id index),
          maps_of-remove i lookup item.id index,
          maps_of-remove lookup.id lookup item.id index,
          nat_key.cmp_refl lookup.id,
        ))
]

-- What a load puts into the maps of its lookup
abbrev pub loaded_maps : BelongsToLookup → Stores → Maps
loaded_maps lookup stores = load_entries lookup.extract_fk (stores lookup.local_type) [] []

abbrev pub is_loaded : BelongsToLookup → ReverseIndex → Bool
is_loaded lookup index = Assoc.contains_key lookup.id index.parent_by_child

pub ensure_loaded_known :
    (lookup : BelongsToLookup) (stores : Stores) (index : ReverseIndex)
    → is_loaded lookup index ≡ true
    → ensure_belongs_to_index_loaded lookup stores index ≡ index
unfolding ensure_belongs_to_index_loaded
ensure_loaded_known lookup stores index h = rw (h, ensure_belongs_to_index_loaded) refl

pub maps_of-ensure_loaded_new :
    (i : ℕ) (lookup : BelongsToLookup) (stores : Stores) (index : ReverseIndex)
    → is_loaded lookup index ≡ false
    → maps_of i (ensure_belongs_to_index_loaded lookup stores index)
      ≡ (if lookup.id == i then loaded_maps lookup stores else maps_of i index)
unfolding ensure_belongs_to_index_loaded
maps_of-ensure_loaded_new i lookup stores index h =
    rw (h, ensure_belongs_to_index_loaded)
      (ground (
        arith,
        lookup-insert lookup.id i (loaded_maps lookup stores).0 index.parent_by_child,
        lookup-insert lookup.id i (loaded_maps lookup stores).1 index.children_by_parent,
      ))
