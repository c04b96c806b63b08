-- ===== src/Server/Relationships/Ensure.antt =====
-- The creation of the items that `ensure_for` relations derive
-- (libs/myko/core/src/server/relationship_manager.rs).
pub mod Covered
pub mod Reservations
use myko.Base.{Bool, true, false, Option, none, some, is_some, if◌then◌else◌, List, [], ◌∷◌}
use myko.Base.Key.{◌==◌, pair_key, list_key}
use myko.Base.Text.{Str, str_key}
use myko.Base.Assoc
use myko.Base.OrdSet
use myko.Graph.Types.{AnyItem}
use myko.Server.Relationships.{EnsureForDependency, EnsureForLookup, Store}
use myko.Server.Relationships.Tables.{RelationshipTables}
use myko.Server.Relationships.Combinations.{get_dependency_combinations}
use myko.Server.Relationships.Combinations.{find_ensure_for_entity_in}
use myko.Server.Relationships.World.{World, Result, ok, err, Run, try, Publisher}
use myko.Server.Relationships.World.{is_in_flight, reserve, release, Reservation}

abbrev pub Combo : Type 0
Combo = List Str

-- `.map(..).collect::<Option<Vec<_>>>()` over the dependencies
unfoldable pub collect_fks : List EnsureForDependency → AnyItem → Option Combo
collect_fks [] item = some []
collect_fks (dependency ∷ dependencies) item =
    let rest = collect_fks dependencies item in
    elim (dependency.extract_fk item) [
      | none ↦ none
      | some fk ↦ elim rest [ none ↦ none | some fks ↦ some (fk ∷ fks) ]
    ]

-- the combinations of the stored items, as a set
unfoldable pub existing_combinations : List EnsureForDependency → Store → List Combo
unfolding collect_fks OrdSet.insert
existing_combinations dependencies [] = []
existing_combinations dependencies ((_, item) ∷ items) =
    let rest = existing_combinations dependencies items in
    elim (collect_fks dependencies item) [ none ↦ rest | some combo ↦ combo ∷ rest ]

abbrev pub entity_exists : EnsureForLookup → Combo → World → Bool
entity_exists lookup combo w =
    is_some (find_ensure_for_entity_in (w.stores lookup.local_type) lookup.dependencies combo)

module _ {E : Type 0} (publisher : Publisher E) where
  abbrev after_publish : Reservation → Run E Unit → Run E Bool
  after_publish reservation (w, ok _) = (w, ok true)
  after_publish reservation (w, err e) = (release reservation w, err e)

  unfoldable pub ensure_combination : EnsureForLookup → Combo → World → Run E Bool
  unfolding OrdSet.contains find_ensure_for_entity_in
  ensure_combination lookup combo w =
      let reservation : Reservation = (lookup.local_type, combo) in
      let reserved = reserve reservation w in
      if is_in_flight reservation w
      then (w, ok false)
      else if entity_exists lookup combo reserved
      then (release reservation reserved, ok false)
      else after_publish reservation (publisher.publish_set (lookup.make_entity combo) reserved)

  -- the loop over the combinations
  unfoldable pub ensure_missing : EnsureForLookup → List Combo → List Combo → World → Run E Unit
  unfolding ensure_combination OrdSet.contains
  ensure_missing lookup [] existing w = (w, ok tt)
  ensure_missing lookup (combo ∷ combos) existing w =
      if OrdSet.contains combo existing
      then ensure_missing lookup combos existing w
      else try (ensure_combination lookup combo w) (λ created after.
        ensure_missing lookup combos (if created then combo ∷ existing else existing) after)

  -- what `handle_ensure_for_type` does for one lookup
  unfoldable pub ensure_lookup : EnsureForLookup → World → Run E Unit
  unfolding ensure_missing get_dependency_combinations existing_combinations
  ensure_lookup lookup w =
      ensure_missing lookup (get_dependency_combinations w.stores lookup.dependencies)
        (existing_combinations lookup.dependencies (w.stores lookup.local_type)) w

  unfoldable pub ensure_lookups : List EnsureForLookup → World → Run E Unit
  unfolding ensure_lookup
  ensure_lookups [] w = (w, ok tt)
  ensure_lookups (lookup ∷ lookups) w =
      try (ensure_lookup lookup w) (λ _ after. ensure_lookups lookups after)

  unfoldable pub handle_ensure_for_type : RelationshipTables → Str → World → Run E Unit
  unfolding Assoc.lookup ensure_lookups
  handle_ensure_for_type tables item_type w =
      elim (Assoc.lookup item_type tables.ensure_for_by_dependency) [
        | none ↦ (w, ok tt)
        | some lookups ↦ ensure_lookups lookups w
      ]

  -- the loop of `initialize_ensure_for` over the combinations of one lookup
  unfoldable pub initialize_missing : EnsureForLookup → List Combo → Store → World → Run E Unit
  unfolding ensure_combination find_ensure_for_entity_in
  initialize_missing lookup [] existing_items w = (w, ok tt)
  initialize_missing lookup (combo ∷ combos) existing_items w =
      if is_some (find_ensure_for_entity_in existing_items lookup.dependencies combo)
      then initialize_missing lookup combos existing_items w
      else try (ensure_combination lookup combo w)
          (λ _ after. initialize_missing lookup combos existing_items after)

  unfoldable pub initialize_lookups : List EnsureForLookup → List Str → World → Run E (List Str)
  unfolding initialize_missing get_dependency_combinations OrdSet.contains
  initialize_lookups [] processed w = (w, ok processed)
  initialize_lookups (lookup ∷ lookups) processed w =
      if OrdSet.contains lookup.local_type processed
      then initialize_lookups lookups processed w
      else try
          (initialize_missing lookup (get_dependency_combinations w.stores lookup.dependencies)
            (w.stores lookup.local_type) w)
          (λ _ after. initialize_lookups lookups (lookup.local_type ∷ processed) after)

  unfoldable pub initialize_ensure_for :
      List (Str × List EnsureForLookup) → List Str → World → Run E (List Str)
  unfolding initialize_lookups
  initialize_ensure_for [] processed w = (w, ok processed)
  initialize_ensure_for ((_, lookups) ∷ entries) processed w =
      try (initialize_lookups lookups processed w)
        (λ done after. initialize_ensure_for entries done after)

-- the reservations that a stored item gives free
unfoldable pub release_each : List EnsureForLookup → AnyItem → World → World
unfolding collect_fks
release_each [] item w = w
release_each (lookup ∷ lookups) item w =
    let rest = release_each lookups item in
    if lookup.local_type == item.entity_type
    then elim (collect_fks lookup.dependencies item) [
      | none ↦ rest w
      | some combo ↦ rest (release (lookup.local_type, combo) w)
    ]
    else rest w

unfoldable pub release_ensure_reservation_for_item :
    List (Str × List EnsureForLookup) → AnyItem → World → World
unfolding release_each
release_ensure_reservation_for_item [] item w = w
release_ensure_reservation_for_item ((_, lookups) ∷ entries) item w =
    release_ensure_reservation_for_item entries item (release_each lookups item w)
