-- ===== src/Server/Relationships/Tables.antt =====
-- The lookup tables of libs/myko/core/src/server/relationship_manager.rs, as the registered relations
-- fill them, and the test that a change of an entity type has relation work.
pub mod Coordinates
use myko.Base.{ℕ, Option, none, some, Bool, true, false, ◌||◌, List, [], ◌∷◌, ◌++◌}
use myko.Base.{if◌then◌else◌, saturating_add}
use myko.Base.Text.{Str, str_key}
use myko.Base.Assoc
use myko.Base.Assoc.{Assoc}
use myko.Base.OrdSet
use myko.Graph.Types.{AnyItem}
use myko.Server.Relationships.{BelongsToLookup, OwnsManyLookup, EnsureForDependency}
use myko.Server.Relationships.{EnsureForLookup, Relation, belongs_to, owns_many, ensure_for}
use myko.Server.Relationships.{MEventType, set_event, del_event}

pub record RelationshipTables : Type 0 where
  pub belongs_to_by_foreign : Assoc Str (List BelongsToLookup)
  pub belongs_to_by_local : Assoc Str (List BelongsToLookup)
  pub owns_many_by_local : Assoc Str (List OwnsManyLookup)
  pub owns_many_by_foreign : Assoc Str (List OwnsManyLookup)
  pub ensure_for_by_dependency : Assoc Str (List EnsureForLookup)
  pub next_belongs_to_id : ℕ

-- `RelationshipTables::default`
abbrev pub no_tables : RelationshipTables
no_tables = record {
  belongs_to_by_foreign = [];
  belongs_to_by_local = [];
  owns_many_by_local = [];
  owns_many_by_foreign = [];
  ensure_for_by_dependency = [];
  next_belongs_to_id = 0;
}

-- `entry(key).or_default().push(value)`
unfoldable pub push_entry {ℓ} : {A : Type ℓ} → Str → A → Assoc Str (List A) → Assoc Str (List A)
unfolding Assoc.insert Assoc.lookup
push_entry key value m = elim (Assoc.lookup key m) [
  | none ↦ Assoc.insert key (value ∷ []) m
  | some values ↦ Assoc.insert key (values ++ (value ∷ [])) m
]

abbrev pub belongs_to_lookup :
    Str → Str → (AnyItem → Option Str) → RelationshipTables → BelongsToLookup
unfolding saturating_add
belongs_to_lookup local_type foreign_type extract_fk tables = record {
  id = saturating_add tables.next_belongs_to_id 1;
  local_type = local_type;
  foreign_type = foreign_type;
  extract_fk = extract_fk;
}

unfoldable pub register_belongs_to :
    Str → Str → (AnyItem → Option Str) → RelationshipTables → RelationshipTables
unfolding push_entry saturating_add
register_belongs_to local_type foreign_type extract_fk tables =
    let lookup = belongs_to_lookup local_type foreign_type extract_fk tables in
    record tables {
      next_belongs_to_id = lookup.id;
      belongs_to_by_foreign = push_entry foreign_type lookup tables.belongs_to_by_foreign;
      belongs_to_by_local = push_entry local_type lookup tables.belongs_to_by_local;
    }

unfoldable pub register_owns_many :
    Str
    → Str
    → (AnyItem → Option (List Str))
    → (AnyItem → Str → Option AnyItem)
    → RelationshipTables
    → RelationshipTables
unfolding push_entry
register_owns_many local_type foreign_type extract_ids remove_id tables =
    let lookup : OwnsManyLookup = record {
      local_type = local_type;
      foreign_type = foreign_type;
      extract_ids = extract_ids;
      remove_id = remove_id;
    } in
    record tables {
      owns_many_by_local = push_entry local_type lookup tables.owns_many_by_local;
      owns_many_by_foreign = push_entry foreign_type lookup tables.owns_many_by_foreign;
    }

-- the loop over the dependencies, with the types that it has indexed
unfoldable pub index_dependencies :
    EnsureForLookup
    → List EnsureForDependency
    → List Str
    → Assoc Str (List EnsureForLookup)
    → Assoc Str (List EnsureForLookup)
unfolding push_entry OrdSet.contains OrdSet.insert
index_dependencies lookup [] indexed_types m = m
index_dependencies lookup (dependency ∷ rest) indexed_types m =
    let repeated = index_dependencies lookup rest indexed_types m in
    let indexed =
      index_dependencies lookup rest (OrdSet.insert dependency.foreign_type indexed_types)
        (push_entry dependency.foreign_type lookup m) in
    if OrdSet.contains dependency.foreign_type indexed_types then repeated else indexed

unfoldable pub register_ensure_for :
    Str → List EnsureForDependency → (List Str → AnyItem) → RelationshipTables → RelationshipTables
unfolding index_dependencies
register_ensure_for local_type dependencies make_entity tables =
    let lookup : EnsureForLookup = record {
      local_type = local_type;
      dependencies = dependencies;
      make_entity = make_entity;
    } in
    record tables {
      ensure_for_by_dependency =
          index_dependencies lookup dependencies [] tables.ensure_for_by_dependency;
    }

unfoldable pub register : Relation → RelationshipTables → RelationshipTables
unfolding register_belongs_to register_owns_many register_ensure_for
register (belongs_to local_type foreign_type extract_fk) tables =
    register_belongs_to local_type foreign_type extract_fk tables
register (owns_many local_type foreign_type extract_ids remove_id) tables =
    register_owns_many local_type foreign_type extract_ids remove_id tables
register (ensure_for local_type dependencies make_entity) tables =
    register_ensure_for local_type dependencies make_entity tables

-- the loop of `RelationshipManager::new` over the registrations
unfoldable pub register_all : List Relation → RelationshipTables → RelationshipTables
unfolding register
register_all [] tables = tables
register_all (relation ∷ relations) tables = register_all relations (register relation tables)

unfoldable pub coordinates : Str → MEventType → RelationshipTables → Bool
unfolding Assoc.contains_key
coordinates entity_type set_event tables =
    Assoc.contains_key entity_type tables.belongs_to_by_local
    || Assoc.contains_key entity_type tables.ensure_for_by_dependency
coordinates entity_type del_event tables =
    Assoc.contains_key entity_type tables.belongs_to_by_foreign
    || Assoc.contains_key entity_type tables.belongs_to_by_local
    || Assoc.contains_key entity_type tables.owns_many_by_local
    || Assoc.contains_key entity_type tables.owns_many_by_foreign
    || Assoc.contains_key entity_type tables.ensure_for_by_dependency
