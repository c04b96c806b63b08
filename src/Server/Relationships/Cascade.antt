-- ===== src/Server/Relationships/Cascade.antt =====
-- The deletions and updates that follow a deletion
-- (libs/myko/core/src/server/relationship_manager.rs).
use myko.Base.{Bool, false, none, some, if◌then◌else◌, List, [], ◌∷◌}
use myko.Base.{map, filter, any}
use myko.Base.Key.{◌==◌, nat_key}
use myko.Base.Text.{Str, str_key}
use myko.Base.Assoc
use myko.Base.Assoc.{Assoc}
use myko.Base.OrdSet
use myko.Graph.Types.{AnyItem}
use myko.Server.Relationships.{BelongsToLookup, OwnsManyLookup, EnsureForLookup, Store}
use myko.Server.Relationships.{EnsureForDependency}
use myko.Server.Relationships.Tables.{RelationshipTables}
use myko.Server.Relationships.ReverseIndex.{find_children_by_fk, is_empty, or_default, stored_items}
use myko.Server.Relationships.World.{World, ok, Run, try, Publisher}

-- `for lookup in lookups`, where there are any for the item's type
abbrev pub lookups_for {ℓ} : {A : Type ℓ} → Str → Assoc Str (List A) → List A
lookups_for item_type m = or_default (Assoc.lookup item_type m)

-- `children_by_id.entry(child.id()).or_insert(child)`
unfoldable pub insert_children : List AnyItem → Assoc Str AnyItem → Assoc Str AnyItem
unfolding Assoc.insert Assoc.contains_key
insert_children [] by_id = by_id
insert_children (child ∷ children) by_id =
    insert_children children
      (if Assoc.contains_key child.id by_id then by_id else Assoc.insert child.id child by_id)

-- the children of all parents, where each search may load the index
unfoldable pub children_of_parents :
    BelongsToLookup → List Str → Assoc Str AnyItem → World → Assoc Str AnyItem × World
unfolding find_children_by_fk insert_children
children_of_parents lookup [] by_id w = (by_id, w)
children_of_parents lookup (parent_id ∷ parent_ids) by_id w =
    let (children, index) = find_children_by_fk lookup w.stores parent_id w.index in
    children_of_parents lookup parent_ids (insert_children children by_id)
      (record w { index = index })

-- `extract_ids` of a parent, none as no ids
abbrev pub owned_ids : OwnsManyLookup → AnyItem → List Str
owned_ids lookup item = or_default (lookup.extract_ids item)

unfoldable pub collect_owned_ids : OwnsManyLookup → List AnyItem → List Str → List Str
unfolding OrdSet.extend
collect_owned_ids lookup [] child_ids = child_ids
collect_owned_ids lookup (item ∷ items) child_ids =
    collect_owned_ids lookup items (OrdSet.extend child_ids (owned_ids lookup item))

unfoldable pub find_parents_containing : OwnsManyLookup → Store → Str → List AnyItem
unfolding filter any
find_parents_containing lookup store child_id =
    map (λ entry. entry.1)
      (filter (λ entry. any (λ id. id == child_id) (owned_ids lookup entry.1)) store)

-- the updated parents, where `remove_id` gives one
unfoldable pub parents_without : OwnsManyLookup → List AnyItem → Str → List AnyItem
parents_without lookup [] child_id = []
parents_without lookup (parent ∷ parents) child_id =
    let rest = parents_without lookup parents child_id in
    elim (lookup.remove_id parent child_id) [ none ↦ rest | some updated ↦ updated ∷ rest ]

abbrev pub references : List Str → AnyItem → EnsureForDependency → Bool
references dep_ids item dependency = elim (dependency.extract_fk item) [
  | none ↦ false
  | some fk ↦ OrdSet.contains fk dep_ids
]

unfoldable pub find_ensure_for_children_by_dependencies :
    Store → List EnsureForDependency → List Str → List AnyItem
unfolding filter any OrdSet.contains
find_ensure_for_children_by_dependencies store dependencies dep_ids =
    map (λ entry. entry.1) (filter (λ entry. any (references dep_ids entry.1) dependencies) store)

module _ {E : Type 0} (publisher : Publisher E) where
  -- `publish_del_cascade_batch`, and the callers' test for no children
  abbrev publish_del_cascade_batch : List AnyItem → World → Run E Unit
  publish_del_cascade_batch [] w = (w, ok tt)
  publish_del_cascade_batch (item ∷ items) w = publisher.batch_del_dyn (item ∷ items) w

  unfoldable pub belongs_to_cascade : List BelongsToLookup → Str → World → Run E Unit
  unfolding find_children_by_fk
  belongs_to_cascade [] parent_id w = (w, ok tt)
  belongs_to_cascade (lookup ∷ lookups) parent_id w =
      let (children, index) = find_children_by_fk lookup w.stores parent_id w.index in
      try (publish_del_cascade_batch children (record w { index = index }))
        (λ _ after. belongs_to_cascade lookups parent_id after)

  unfoldable pub handle_belongs_to_cascade : RelationshipTables → AnyItem → World → Run E Unit
  unfolding belongs_to_cascade Assoc.lookup
  handle_belongs_to_cascade tables item w =
      belongs_to_cascade (lookups_for item.entity_type tables.belongs_to_by_foreign) item.id w

  unfoldable pub belongs_to_cascade_batch : List BelongsToLookup → List Str → World → Run E Unit
  unfolding children_of_parents
  belongs_to_cascade_batch [] parent_ids w = (w, ok tt)
  belongs_to_cascade_batch (lookup ∷ lookups) parent_ids w =
      let (by_id, searched) = children_of_parents lookup parent_ids [] w in
      try (publish_del_cascade_batch (map (λ entry. entry.1) by_id) searched)
        (λ _ after. belongs_to_cascade_batch lookups parent_ids after)

  unfoldable pub handle_belongs_to_cascade_batch :
      RelationshipTables → List AnyItem → World → Run E Unit
  unfolding belongs_to_cascade_batch Assoc.lookup
  handle_belongs_to_cascade_batch tables [] w = (w, ok tt)
  handle_belongs_to_cascade_batch tables (first ∷ items) w =
      belongs_to_cascade_batch (lookups_for first.entity_type tables.belongs_to_by_foreign)
        (map (λ item. item.id) (first ∷ items)) w

  unfoldable pub owns_many_parent_delete : List OwnsManyLookup → AnyItem → World → Run E Unit
  unfolding stored_items
  owns_many_parent_delete [] item w = (w, ok tt)
  owns_many_parent_delete (lookup ∷ lookups) item w =
      try
        (publish_del_cascade_batch
          (stored_items (w.stores lookup.foreign_type) (owned_ids lookup item)) w)
        (λ _ after. owns_many_parent_delete lookups item after)

  unfoldable pub handle_owns_many_parent_delete : RelationshipTables → AnyItem → World → Run E Unit
  unfolding owns_many_parent_delete Assoc.lookup
  handle_owns_many_parent_delete tables item w =
      owns_many_parent_delete (lookups_for item.entity_type tables.owns_many_by_local) item w

  unfoldable pub owns_many_parent_delete_batch :
      List OwnsManyLookup → List AnyItem → World → Run E Unit
  unfolding stored_items collect_owned_ids
  owns_many_parent_delete_batch [] items w = (w, ok tt)
  owns_many_parent_delete_batch (lookup ∷ lookups) items w =
      try
        (publish_del_cascade_batch
          (stored_items (w.stores lookup.foreign_type) (collect_owned_ids lookup items [])) w)
        (λ _ after. owns_many_parent_delete_batch lookups items after)

  unfoldable pub handle_owns_many_parent_delete_batch :
      RelationshipTables → List AnyItem → World → Run E Unit
  unfolding owns_many_parent_delete_batch Assoc.lookup
  handle_owns_many_parent_delete_batch tables [] w = (w, ok tt)
  handle_owns_many_parent_delete_batch tables (first ∷ items) w =
      owns_many_parent_delete_batch (lookups_for first.entity_type tables.owns_many_by_local)
        (first ∷ items) w

  abbrev publish_fixup : List AnyItem → World → Run E Unit
  publish_fixup [] w = (w, ok tt)
  publish_fixup (item ∷ items) w = publisher.batch_set_dyn (item ∷ items) w

  unfoldable pub owns_many_child_delete : List OwnsManyLookup → Str → World → Run E Unit
  unfolding find_parents_containing parents_without
  owns_many_child_delete [] child_id w = (w, ok tt)
  owns_many_child_delete (lookup ∷ lookups) child_id w =
      let parents = find_parents_containing lookup (w.stores lookup.local_type) child_id in
      try (publish_fixup (parents_without lookup parents child_id) w)
        (λ _ after. owns_many_child_delete lookups child_id after)

  unfoldable pub handle_owns_many_child_delete : RelationshipTables → AnyItem → World → Run E Unit
  unfolding owns_many_child_delete Assoc.lookup
  handle_owns_many_child_delete tables item w =
      owns_many_child_delete (lookups_for item.entity_type tables.owns_many_by_foreign) item.id w

  unfoldable pub ensure_for_delete : List EnsureForLookup → Str → List Str → World → Run E Unit
  unfolding find_ensure_for_children_by_dependencies filter
  ensure_for_delete [] item_type dep_ids w = (w, ok tt)
  ensure_for_delete (lookup ∷ lookups) item_type dep_ids w =
      let dependencies = filter (λ dep. dep.foreign_type == item_type) lookup.dependencies in
      let orphaned =
        if is_empty dependencies
        then []
        else find_ensure_for_children_by_dependencies (w.stores lookup.local_type) dependencies
            dep_ids in
      try (publish_del_cascade_batch orphaned w)
        (λ _ after. ensure_for_delete lookups item_type dep_ids after)

  unfoldable pub handle_ensure_for_delete_batch :
      RelationshipTables → List AnyItem → World → Run E Unit
  unfolding ensure_for_delete Assoc.lookup
  handle_ensure_for_delete_batch tables [] w = (w, ok tt)
  handle_ensure_for_delete_batch tables (first ∷ items) w =
      ensure_for_delete (lookups_for first.entity_type tables.ensure_for_by_dependency)
        first.entity_type (map (λ item. item.id) (first ∷ items)) w
