-- ===== src/Server/Relationships/ReverseIndex.antt =====
-- The reverse `belongs_to` index of libs/myko/core/src/server/relationship_manager.rs: for every
-- registered lookup, the parent of each child and the children of each parent.
pub mod Inverse
pub mod Slots
pub mod Load
pub mod Valid
pub mod Children
pub mod Reflects
use myko.Base.{ℕ, Option, none, some, Bool, true, false, List, [], ◌∷◌, if◌then◌else◌, map, filter}
use myko.Base.Key.{Key, ◌==◌, nat_key}
use myko.Base.Text.{Str, str_key}
use myko.Base.Assoc
use myko.Base.Assoc.{Assoc}
use myko.Base.OrdSet
use myko.Graph.Types.{AnyItem}
use myko.Server.Relationships.{BelongsToLookup, Store, Stores}

abbrev pub ParentByChild : Type 0
ParentByChild = Assoc Str Str

abbrev pub ChildrenByParent : Type 0
ChildrenByParent = Assoc Str (List Str)

pub record ReverseIndex : Type 0 where
  pub children_by_parent : Assoc ℕ ChildrenByParent
  pub parent_by_child : Assoc ℕ ParentByChild

-- `Entry::or_default`
abbrev pub or_default {ℓ} : {A : Type ℓ} → Option (List A) → List A
or_default none = []
or_default (some xs) = xs

abbrev pub is_empty {ℓ} : {A : Type ℓ} → List A → Bool
is_empty [] = true
is_empty (_ ∷ _) = false

-- `entry(parent).or_default().insert(child)`
unfoldable pub add_child : Str → Str → ChildrenByParent → ChildrenByParent
unfolding Assoc.insert Assoc.lookup OrdSet.insert
add_child child parent m =
    Assoc.insert parent (OrdSet.insert child (or_default (Assoc.lookup parent m))) m

-- a child leaves its parent's set, and a set left empty is removed
unfoldable pub drop_child : Str → Str → ChildrenByParent → ChildrenByParent
unfolding Assoc.insert Assoc.remove Assoc.lookup OrdSet.remove
drop_child child parent m = elim (Assoc.lookup parent m) [
  | none ↦ m
  | some child_ids ↦
      let left = OrdSet.remove child child_ids in
      if is_empty left then Assoc.remove parent m else Assoc.insert parent left m
]

abbrev forget_child : ℕ → Str → ParentByChild → ReverseIndex → Str → ReverseIndex
forget_child id child parents index parent = record {
  parent_by_child = Assoc.insert id (Assoc.remove child parents) index.parent_by_child;
  children_by_parent = elim (Assoc.lookup id index.children_by_parent) [
    | none ↦ index.children_by_parent
    | some m ↦ Assoc.insert id (drop_child child parent m) index.children_by_parent
  ];
}

unfoldable pub remove_belongs_to_child : BelongsToLookup → Str → ReverseIndex → ReverseIndex
unfolding Assoc.lookup
remove_belongs_to_child lookup child_id index =
    elim (Assoc.lookup lookup.id index.parent_by_child) [
      | none ↦ index
      | some parents ↦ elim (Assoc.lookup child_id parents) [
        | none ↦ index
        | some parent_id ↦ forget_child lookup.id child_id parents index parent_id
      ]
    ]

abbrev record_child : ℕ → Str → Str → ReverseIndex → ReverseIndex
record_child id child parent index = record {
  parent_by_child =
      Assoc.insert id
        (Assoc.insert child parent (or_default (Assoc.lookup id index.parent_by_child)))
        index.parent_by_child;
  children_by_parent =
      Assoc.insert id
        (add_child child parent (or_default (Assoc.lookup id index.children_by_parent)))
        index.children_by_parent;
}

unfoldable pub index_belongs_to_child : BelongsToLookup → AnyItem → ReverseIndex → ReverseIndex
unfolding remove_belongs_to_child
index_belongs_to_child lookup item index =
    let cleared = remove_belongs_to_child lookup item.id index in
    elim (lookup.extract_fk item) [
      | none ↦ cleared
      | some parent_id ↦ record_child lookup.id item.id parent_id cleared
    ]

-- the loop over the snapshot, with the two maps it fills
unfoldable pub load_entries :
    (AnyItem → Option Str)
    → Store
    → ParentByChild
    → ChildrenByParent
    → ParentByChild × ChildrenByParent
unfolding add_child
load_entries extract_fk [] child_index parent_index = (child_index, parent_index)
load_entries extract_fk ((_, item) ∷ rest) child_index parent_index = elim (extract_fk item) [
  | none ↦ load_entries extract_fk rest child_index parent_index
  | some parent_id ↦
      load_entries extract_fk rest (Assoc.insert item.id parent_id child_index)
        (add_child item.id parent_id parent_index)
]

unfoldable pub ensure_belongs_to_index_loaded :
    BelongsToLookup → Stores → ReverseIndex → ReverseIndex
unfolding load_entries Assoc.contains_key
ensure_belongs_to_index_loaded lookup stores index =
    if Assoc.contains_key lookup.id index.parent_by_child
    then index
    else (let (child_index, parent_index) =
          load_entries lookup.extract_fk (stores lookup.local_type) [] [] in
        record {
          parent_by_child = Assoc.insert lookup.id child_index index.parent_by_child;
          children_by_parent = Assoc.insert lookup.id parent_index index.children_by_parent;
        })

-- what `forward_set_batch` does for one lookup of the items' type
unfoldable pub index_items : BelongsToLookup → List AnyItem → ReverseIndex → ReverseIndex
unfolding index_belongs_to_child
index_items lookup [] index = index
index_items lookup (item ∷ items) index =
    index_items lookup items (index_belongs_to_child lookup item index)

unfoldable pub index_batch : BelongsToLookup → Stores → List AnyItem → ReverseIndex → ReverseIndex
unfolding index_items ensure_belongs_to_index_loaded
index_batch lookup stores items index =
    index_items lookup items (ensure_belongs_to_index_loaded lookup stores index)

-- `child_ids.iter().filter_map(|child_id| store.get_value(child_id))`
unfoldable pub stored_items : Store → List Str → List AnyItem
unfolding Assoc.lookup
stored_items store [] = []
stored_items store (id ∷ ids) = elim (Assoc.lookup id store) [
  | none ↦ stored_items store ids
  | some item ↦ item ∷ stored_items store ids
]

abbrev pub has_fk : (AnyItem → Option Str) → Str → AnyItem → Bool
has_fk extract_fk parent item = elim (extract_fk item) [ none ↦ false | some fk ↦ fk == parent ]

-- the scan, where no index was loaded
unfoldable pub scan_children : (AnyItem → Option Str) → Store → Str → List AnyItem
unfolding filter
scan_children extract_fk store parent =
    map (λ entry. entry.1) (filter (λ entry. has_fk extract_fk parent entry.1) store)

-- the search in an index that has been loaded
unfoldable pub find_in_loaded : BelongsToLookup → Store → Str → ReverseIndex → List AnyItem
unfolding stored_items scan_children Assoc.lookup
find_in_loaded lookup store parent_id loaded =
    elim (Assoc.lookup lookup.id loaded.children_by_parent) [
      | none ↦ scan_children lookup.extract_fk store parent_id
      | some parent_map ↦ elim (Assoc.lookup parent_id parent_map) [
        | none ↦ []
        | some child_ids ↦ stored_items store child_ids
      ]
    ]

unfoldable pub find_children_by_fk :
    BelongsToLookup → Stores → Str → ReverseIndex → List AnyItem × ReverseIndex
unfolding ensure_belongs_to_index_loaded find_in_loaded
find_children_by_fk lookup stores parent_id index =
    let loaded = ensure_belongs_to_index_loaded lookup stores index in
    (find_in_loaded lookup (stores lookup.local_type) parent_id loaded, loaded)
