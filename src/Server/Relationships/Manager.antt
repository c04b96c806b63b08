-- ===== src/Server/Relationships/Manager.antt =====
-- The events that reach the relation manager, and its work at a server's start
-- (libs/myko/core/src/server/relationship_manager.rs).
use myko.Base.{none, some, if◌then◌else◌, List, [], ◌∷◌, map}
use myko.Base.Key.{nat_key}
use myko.Base.Text.{Str, str_key}
use myko.Base.Assoc
use myko.Base.OrdSet
use myko.Graph.Types.{AnyItem}
use myko.Server.Relationships.{BelongsToLookup, OwnsManyLookup, Relation}
use myko.Server.Relationships.Tables.{RelationshipTables, no_tables, register_all}
use myko.Server.Relationships.Cycle.{ensure_for_cycle}
use myko.Server.Relationships.ReverseIndex.{ReverseIndex, index_batch, remove_belongs_to_child}
use myko.Server.Relationships.Combinations.{get_all_items}
use myko.Server.Relationships.Ensure.{handle_ensure_for_type, initialize_ensure_for}
use myko.Server.Relationships.Cascade.{lookups_for, collect_owned_ids}
use myko.Server.Relationships.Cascade.{handle_belongs_to_cascade, handle_belongs_to_cascade_batch}
use myko.Server.Relationships.Cascade.{handle_owns_many_parent_delete}
use myko.Server.Relationships.Cascade.{handle_owns_many_parent_delete_batch}
use myko.Server.Relationships.Cascade.{handle_owns_many_child_delete}
use myko.Server.Relationships.Cascade.{handle_ensure_for_delete_batch}
use myko.Server.Relationships.World.{World, Result, ok, err, Run, try, Publisher}

-- `RelationshipManager::new`: the tables of the registered relations, or the panic on a cycle
unfoldable pub new_manager : List Relation → Result (List Str) RelationshipTables
unfolding register_all ensure_for_cycle
new_manager relations =
    let tables = register_all relations no_tables in
    elim (ensure_for_cycle tables) [ none ↦ ok tables | some cycle ↦ err cycle ]

unfoldable pub index_lookups : List BelongsToLookup → List AnyItem → World → World
unfolding index_batch
index_lookups [] items w = w
index_lookups (lookup ∷ lookups) items w =
    index_lookups lookups items (record w { index = index_batch lookup w.stores items w.index })

unfoldable pub remove_lookups : List BelongsToLookup → Str → ReverseIndex → ReverseIndex
unfolding remove_belongs_to_child
remove_lookups [] child_id index = index
remove_lookups (lookup ∷ lookups) child_id index =
    remove_lookups lookups child_id (remove_belongs_to_child lookup child_id index)

module _ {E : Type 0} (publisher : Publisher E) (tables : RelationshipTables) where
  unfoldable pub forward_set_batch : List AnyItem → World → Run E Unit
  unfolding index_lookups handle_ensure_for_type Assoc.contains_key
  forward_set_batch [] w = (w, ok tt)
  forward_set_batch (first ∷ items) w =
      let item_type = first.entity_type in
      let lookups = lookups_for item_type tables.belongs_to_by_local in
      let indexed = index_lookups lookups (first ∷ items) w in
      if Assoc.contains_key item_type tables.ensure_for_by_dependency
      then handle_ensure_for_type publisher tables item_type indexed
      else (indexed, ok tt)

  unfoldable pub forward_set : AnyItem → World → Run E Unit
  unfolding forward_set_batch
  forward_set item w = forward_set_batch (item ∷ []) w

  abbrev forget : AnyItem → World → World
  forget item w = record w {
    index =
        remove_lookups (lookups_for item.entity_type tables.belongs_to_by_local) item.id w.index;
  }

  unfoldable pub forward_del : AnyItem → World → Run E Unit
  unfolding handle_belongs_to_cascade handle_owns_many_parent_delete handle_owns_many_child_delete
      handle_ensure_for_delete_batch remove_lookups
  forward_del item w = try (handle_belongs_to_cascade publisher tables item w) (λ _ w1.
      try (handle_owns_many_parent_delete publisher tables item w1) (λ _ w2.
        try (handle_owns_many_child_delete publisher tables item w2) (λ _ w3.
          try (handle_ensure_for_delete_batch publisher tables (item ∷ []) w3)
            (λ _ w4. (forget item w4, ok tt)))))

  -- the last loop of a batch of deletions
  unfoldable pub forget_each : List AnyItem → World → Run E Unit
  unfolding handle_owns_many_child_delete remove_lookups
  forget_each [] w = (w, ok tt)
  forget_each (item ∷ items) w =
      try (handle_owns_many_child_delete publisher tables item w)
        (λ _ after. forget_each items (forget item after))

  unfoldable pub forward_del_batch : List AnyItem → World → Run E Unit
  unfolding handle_belongs_to_cascade_batch handle_owns_many_parent_delete_batch
      handle_ensure_for_delete_batch forget_each
  forward_del_batch [] w = (w, ok tt)
  forward_del_batch (first ∷ items) w =
      try (handle_belongs_to_cascade_batch publisher tables (first ∷ items) w) (λ _ w1.
        try (handle_owns_many_parent_delete_batch publisher tables (first ∷ items) w1) (λ _ w2.
          try (handle_ensure_for_delete_batch publisher tables (first ∷ items) w2)
            (λ _ w3. forget_each (first ∷ items) w3)))

  -- `publish_del_cascade`, which reads the item again
  unfoldable pub publish_del_cascade : Str → Str → World → Run E Unit
  unfolding Assoc.lookup
  publish_del_cascade entity_type id w = elim (Assoc.lookup id (w.stores entity_type)) [
    | none ↦ (w, ok tt)
    | some item ↦ publisher.del_dyn item w
  ]

  -- the children of a snapshot whose parent is none of the given ones
  unfoldable pub delete_without_parent :
      BelongsToLookup → Str → List Str → List AnyItem → World → Run E Unit
  unfolding publish_del_cascade OrdSet.contains
  delete_without_parent lookup child_type parent_ids [] w = (w, ok tt)
  delete_without_parent lookup child_type parent_ids (child ∷ children) w =
      let skip = delete_without_parent lookup child_type parent_ids children in
      elim (lookup.extract_fk child) [
        | none ↦ skip w
        | some fk_value ↦
            if OrdSet.contains fk_value parent_ids
            then skip w
            else try (publish_del_cascade child_type child.id w) (λ _ after. skip after)
      ]

  unfoldable pub belongs_to_orphans : Str → List BelongsToLookup → World → Run E Unit
  unfolding delete_without_parent
  belongs_to_orphans child_type [] w = (w, ok tt)
  belongs_to_orphans child_type (lookup ∷ lookups) w =
      let parent_ids = map (λ p. p.id) (get_all_items w.stores lookup.foreign_type) in
      try (delete_without_parent lookup child_type parent_ids (get_all_items w.stores child_type) w)
        (λ _ after. belongs_to_orphans child_type lookups after)

  unfoldable pub cleanup_belongs_to_orphans : List (Str × List BelongsToLookup) → World → Run E Unit
  unfolding belongs_to_orphans
  cleanup_belongs_to_orphans [] w = (w, ok tt)
  cleanup_belongs_to_orphans ((child_type, lookups) ∷ entries) w =
      try (belongs_to_orphans child_type lookups w)
        (λ _ after. cleanup_belongs_to_orphans entries after)

  unfoldable pub delete_unreferenced : Str → List Str → List AnyItem → World → Run E Unit
  unfolding publish_del_cascade OrdSet.contains
  delete_unreferenced foreign_type referenced_ids [] w = (w, ok tt)
  delete_unreferenced foreign_type referenced_ids (child ∷ children) w =
      let skip = delete_unreferenced foreign_type referenced_ids children in
      if OrdSet.contains child.id referenced_ids
      then skip w
      else try (publish_del_cascade foreign_type child.id w) (λ _ after. skip after)

  unfoldable pub owns_many_orphans : Str → List OwnsManyLookup → World → Run E Unit
  unfolding delete_unreferenced collect_owned_ids
  owns_many_orphans parent_type [] w = (w, ok tt)
  owns_many_orphans parent_type (lookup ∷ lookups) w =
      let referenced_ids = collect_owned_ids lookup (get_all_items w.stores parent_type) [] in
      try
        (delete_unreferenced lookup.foreign_type referenced_ids
          (get_all_items w.stores lookup.foreign_type) w)
        (λ _ after. owns_many_orphans parent_type lookups after)

  unfoldable pub cleanup_owns_many_orphans : List (Str × List OwnsManyLookup) → World → Run E Unit
  unfolding owns_many_orphans
  cleanup_owns_many_orphans [] w = (w, ok tt)
  cleanup_owns_many_orphans ((parent_type, lookups) ∷ entries) w =
      try (owns_many_orphans parent_type lookups w)
        (λ _ after. cleanup_owns_many_orphans entries after)

  unfoldable pub establish_relations : World → Run E Unit
  unfolding cleanup_belongs_to_orphans cleanup_owns_many_orphans initialize_ensure_for
  establish_relations w = try (cleanup_belongs_to_orphans tables.belongs_to_by_local w) (λ _ w1.
      try (cleanup_owns_many_orphans tables.owns_many_by_local w1) (λ _ w2.
        try (initialize_ensure_for publisher tables.ensure_for_by_dependency [] w2)
          (λ _ w3. (w3, ok tt))))
