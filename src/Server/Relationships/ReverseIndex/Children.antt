-- ===== src/Server/Relationships/ReverseIndex/Children.antt =====
-- A search of the children of a parent by the reverse index finds what a scan of the store finds.
use myko.Base.{◌≡◌, refl, Option, none, some, Bool, true, false, List, [], ◌∷◌, ◌⊎◌, inl, inr}
use myko.Base.{if◌then◌else◌, arith, Bool-cases, Option-cases, find?, filter, sym, ◌∙◌, ap}
use myko.Base.Key.{◌==◌, nat_key}
use myko.Base.Text.{Str, str_key}
use myko.Base.Assoc
use myko.Base.Assoc.{lookup-insert}
use myko.Base.OrdSet
use myko.Graph.Types.{AnyItem}
use myko.Server.Relationships.{BelongsToLookup, Store, Stores}
use myko.Server.Relationships.ReverseIndex.{ReverseIndex, has_fk, stored_items}
use myko.Server.Relationships.ReverseIndex.{ensure_belongs_to_index_loaded, scan_children}
use myko.Server.Relationships.ReverseIndex.{find_children_by_fk, find_in_loaded}
use myko.Server.Relationships.ReverseIndex.Inverse.{is_parent, children_of}
use myko.Server.Relationships.ReverseIndex.Slots.{is_loaded, children_of_lookup, loaded_maps}
use myko.Server.Relationships.ReverseIndex.Slots.{ensure_loaded_known}
use myko.Server.Relationships.ReverseIndex.Load.{IsStore, fk_of}
use myko.Server.Relationships.ReverseIndex.Valid.{IsValid, ensure_loaded-IsValid}
use myko.Server.Relationships.ReverseIndex.Reflects.{Reflects, ensure_loaded-Reflects}

abbrev pub with_id : Str → AnyItem → Bool
with_id id item = item.id == id

-- the stored item of a child, if its foreign key is the given parent
abbrev pub child_of : (AnyItem → Option Str) → Str → Option AnyItem → Option AnyItem
child_of extract_fk parent none = none
child_of extract_fk parent (some item) = if has_fk extract_fk parent item then some item else none

lookup-IsStore :
    (id : Str) (item : AnyItem) (store : Store)
    → IsStore store
    → Assoc.lookup id store ≡ some item
    → item.id ≡ id
unfolding Assoc.lookup
lookup-IsStore id item [] s h = cc
lookup-IsStore id item ((j, other) ∷ rest) s h =
    ground (arith, lookup-IsStore id item rest s.2, str_key.eq_of_cmp j id, s.0)

find-scan_children :
    (c parent : Str) (extract_fk : AnyItem → Option Str) (store : Store)
    → IsStore store
    → find? (with_id c) (scan_children extract_fk store parent)
      ≡ child_of extract_fk parent (Assoc.lookup c store)
unfolding scan_children find? filter Assoc.lookup
find-scan_children c parent extract_fk [] s = refl
find-scan_children c parent extract_fk ((j, item) ∷ rest) s =
    elim (Bool-cases (has_fk extract_fk parent item)) [
      | inl e ↦
          rw (e, scan_children)
            (ground (
              arith,
              find-scan_children c parent extract_fk rest s.2,
              str_key.eq_of_cmp j c,
              s.0,
              s.1,
            ))
      | inr e ↦
          rw (e, scan_children)
            (ground (
              arith,
              find-scan_children c parent extract_fk rest s.2,
              str_key.eq_of_cmp j c,
              s.0,
              s.1,
            ))
    ]

find-stored_items :
    (c : Str) (store : Store) (ids : List Str)
    → IsStore store
    → find? (with_id c) (stored_items store ids)
      ≡ (if OrdSet.contains c ids then Assoc.lookup c store else none)
unfolding stored_items find? OrdSet.contains
find-stored_items c store [] s = refl
find-stored_items c store (id ∷ ids) s = elim (Option-cases (Assoc.lookup id store)) [
  | inl e ↦
      rw (e, stored_items) (ground (arith, find-stored_items c store ids s, str_key.eq_of_cmp id c))
  | inr (item, e) ↦
      rw (e, stored_items)
        (ground (
          arith,
          find-stored_items c store ids s,
          str_key.eq_of_cmp id c,
          lookup-IsStore id item store s e,
        ))
]

-- what a search reads of the index
children_in : BelongsToLookup → Str → ReverseIndex → List Str
children_in lookup parent index = children_of parent (children_of_lookup lookup.id index)

find_in_loaded_known :
    (lookup : BelongsToLookup) (store : Store) (parent : Str) (loaded : ReverseIndex)
    → Assoc.contains_key lookup.id loaded.children_by_parent ≡ true
    → find_in_loaded lookup store parent loaded
      ≡ stored_items store (children_in lookup parent loaded)
unfolding find_in_loaded Assoc.contains_key children_in stored_items
find_in_loaded_known lookup store parent loaded h =
    elim (Option-cases (Assoc.lookup lookup.id loaded.children_by_parent)) [
      | inl e ↦ absurd (ground arith)
      | inr (m, e) ↦
          rw (e, find_in_loaded)
            (elim (Option-cases (Assoc.lookup parent m)) [
              | inl q ↦ rw (q, find_in_loaded) refl
              | inr (ids, q) ↦ rw (q, find_in_loaded) refl
            ])
    ]

contains-children_in :
    (c parent : Str) (lookup : BelongsToLookup) (stores : Stores) (loaded : ReverseIndex)
    → IsValid loaded
    → Reflects lookup stores loaded
    → OrdSet.contains c (children_in lookup parent loaded)
      ≡ is_parent parent (fk_of lookup.extract_fk (Assoc.lookup c (stores lookup.local_type)))
unfolding children_in
contains-children_in c parent lookup stores loaded v r =
    (v.inverse lookup.id).members parent c ∙ ap (is_parent parent) (r c)

child_of-is_parent :
    (extract_fk : AnyItem → Option Str) (parent : Str) (o : Option AnyItem)
    → (if is_parent parent (fk_of extract_fk o) then o else none) ≡ child_of extract_fk parent o
child_of-is_parent extract_fk parent none = ground arith
child_of-is_parent extract_fk parent (some item) = ground arith

-- the search in an index that reflects the store
find-find_in_loaded :
    (c parent : Str) (lookup : BelongsToLookup) (stores : Stores) (loaded : ReverseIndex)
    → IsStore (stores lookup.local_type)
    → IsValid loaded
    → Assoc.contains_key lookup.id loaded.children_by_parent ≡ true
    → Reflects lookup stores loaded
    → find? (with_id c) (find_in_loaded lookup (stores lookup.local_type) parent loaded)
      ≡ find? (with_id c) (scan_children lookup.extract_fk (stores lookup.local_type) parent)
find-find_in_loaded c parent lookup stores loaded s v known r =
    let store = stores lookup.local_type in
    ap (find? (with_id c)) (find_in_loaded_known lookup store parent loaded known)
    ∙ find-stored_items c store (children_in lookup parent loaded) s
    ∙ ap (λ b. if b then Assoc.lookup c store else none)
        (contains-children_in c parent lookup stores loaded v r)
    ∙ child_of-is_parent lookup.extract_fk parent (Assoc.lookup c store)
    ∙ sym (find-scan_children c parent lookup.extract_fk store s)

is_loaded-ensure :
    (lookup : BelongsToLookup) (stores : Stores) (index : ReverseIndex)
    → is_loaded lookup (ensure_belongs_to_index_loaded lookup stores index) ≡ true
unfolding ensure_belongs_to_index_loaded Assoc.contains_key
is_loaded-ensure lookup stores index = ground (
  arith,
  nat_key.cmp_refl lookup.id,
  lookup-insert lookup.id lookup.id (loaded_maps lookup stores).0 index.parent_by_child,
)

-- A search of the children of a parent finds, under every id, the item that a scan of the children's
-- store finds. The store files each item once, under its id; the index is valid, and where it is
-- loaded it has the parents that the stored items name.
pub find_children_by_fk-scan :
    (c parent : Str) (lookup : BelongsToLookup) (stores : Stores) (index : ReverseIndex)
    → IsStore (stores lookup.local_type)
    → IsValid index
    → (is_loaded lookup index ≡ false) ⊎ Reflects lookup stores index
    → find? (with_id c) (find_children_by_fk lookup stores parent index).0
      ≡ find? (with_id c) (scan_children lookup.extract_fk (stores lookup.local_type) parent)
unfolding find_children_by_fk
find_children_by_fk-scan c parent lookup stores index s v was =
    let loaded = ensure_belongs_to_index_loaded lookup stores index in
    let valid = ensure_loaded-IsValid lookup stores index s v in
    find-find_in_loaded c parent lookup stores loaded s valid
      (valid.together lookup.id ∙ is_loaded-ensure lookup stores index)
      (elim (Bool-cases (is_loaded lookup index)) [
        | inl e ↦ elim was [
          | inl n ↦ absurd (ground arith)
          | inr r ↦ rw (ensure_loaded_known lookup stores index e) r
        ]
        | inr e ↦ ensure_loaded-Reflects lookup stores index s e
      ])
