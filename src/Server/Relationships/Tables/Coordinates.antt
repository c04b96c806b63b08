-- ===== src/Server/Relationships/Tables/Coordinates.antt =====
-- Which changes have relation work, read off the registered relations.
use myko.Base.{◌≡◌, refl, Bool, false, not, ◌&&◌, ◌||◌, List, [], ◌∷◌, ◌++◌}
use myko.Base.{arith, Option-cases, inl, inr, any}
use myko.Base.Key.{◌==◌}
use myko.Base.Text.{Str, str_key}
use myko.Base.Assoc
use myko.Base.Assoc.{Assoc, lookup-insert}
use myko.Base.OrdSet
use myko.Base.OrdSet.{contains-insert}
use myko.Server.Relationships.{EnsureForDependency, EnsureForLookup, Relation, OwnsManyLookup}
use myko.Server.Relationships.{belongs_to, owns_many, ensure_for}
use myko.Server.Relationships.{MEventType, set_event, del_event}
use myko.Server.Relationships.Tables.{
  RelationshipTables, no_tables, push_entry, coordinates, belongs_to_lookup,
}
use myko.Server.Relationships.Tables.{index_dependencies, register, register_all}

abbrev pub depends_on : Str → List EnsureForDependency → Bool
depends_on entity_type dependencies =
    any (λ dependency. dependency.foreign_type == entity_type) dependencies

-- Whether a change of an entity type concerns a relation: a write concerns the child of a
-- `belongs_to` and the dependencies of an `ensure_for`, a deletion also all that own or are owned.
abbrev pub concerns : Str → MEventType → Relation → Bool
concerns t set_event (belongs_to local_type foreign_type _) = local_type == t
concerns t set_event (owns_many local_type foreign_type _ _) = false
concerns t set_event (ensure_for local_type dependencies _) = depends_on t dependencies
concerns t del_event (belongs_to local_type foreign_type _) = local_type == t || foreign_type == t
concerns t del_event (owns_many local_type foreign_type _ _) = local_type == t || foreign_type == t
concerns t del_event (ensure_for local_type dependencies _) = depends_on t dependencies

contains_key-push_entry :
    {A : Type 0} (t key : Str) (value : A) (m : Assoc Str (List A))
    → Assoc.contains_key t (push_entry key value m) ≡ ((key == t) || Assoc.contains_key t m)
unfolding push_entry Assoc.contains_key
contains_key-push_entry t key value m = elim (Option-cases (Assoc.lookup key m)) [
  | inl e ↦ rw (e, push_entry) (ground (arith, lookup-insert key t (value ∷ []) m))
  | inr (values, e) ↦
      rw (e, push_entry) (ground (arith, lookup-insert key t (values ++ (value ∷ [])) m))
]

contains_key-index_dependencies :
    (t : Str) (lookup : EnsureForLookup) (dependencies : List EnsureForDependency)
    (indexed : List Str) (m : Assoc Str (List EnsureForLookup))
    → Assoc.contains_key t (index_dependencies lookup dependencies indexed m)
      ≡ (Assoc.contains_key t m || (not (OrdSet.contains t indexed) && depends_on t dependencies))
unfolding index_dependencies any
contains_key-index_dependencies t lookup [] indexed m = ground arith
contains_key-index_dependencies t lookup (d ∷ rest) indexed m = ground (
  arith,
  contains_key-index_dependencies t lookup rest indexed m,
  contains_key-index_dependencies t lookup rest (OrdSet.insert d.foreign_type indexed)
      (push_entry d.foreign_type lookup m),
  contains_key-push_entry t d.foreign_type lookup m,
  contains-insert t d.foreign_type indexed,
  str_key.eq_of_cmp d.foreign_type t,
)

coordinates-register :
    (t : Str) (change : MEventType) (relation : Relation) (tables : RelationshipTables)
    → coordinates t change (register relation tables)
      ≡ (concerns t change relation || coordinates t change tables)
unfolding coordinates register Assoc.contains_key OrdSet.contains
coordinates-register t set_event (belongs_to local_type foreign_type f) tables = ground (
  arith,
  contains_key-push_entry t local_type (belongs_to_lookup local_type foreign_type f tables)
      tables.belongs_to_by_local,
)
coordinates-register t set_event (owns_many local_type foreign_type f r) tables = refl
coordinates-register t set_event (ensure_for local_type dependencies f) tables = ground (
  arith,
  contains_key-index_dependencies t
      (record { local_type = local_type; dependencies = dependencies; make_entity = f })
      dependencies [] tables.ensure_for_by_dependency,
)
coordinates-register t del_event (belongs_to local_type foreign_type f) tables =
    let lookup = belongs_to_lookup local_type foreign_type f tables in
    ground (
      arith,
      contains_key-push_entry t local_type lookup tables.belongs_to_by_local,
      contains_key-push_entry t foreign_type lookup tables.belongs_to_by_foreign,
    )
coordinates-register t del_event (owns_many local_type foreign_type f r) tables =
    let lookup : OwnsManyLookup = record {
      local_type = local_type;
      foreign_type = foreign_type;
      extract_ids = f;
      remove_id = r;
    } in
    ground (
      arith,
      contains_key-push_entry t local_type lookup tables.owns_many_by_local,
      contains_key-push_entry t foreign_type lookup tables.owns_many_by_foreign,
    )
coordinates-register t del_event (ensure_for local_type dependencies f) tables = ground (
  arith,
  contains_key-index_dependencies t
      (record { local_type = local_type; dependencies = dependencies; make_entity = f })
      dependencies [] tables.ensure_for_by_dependency,
)

coordinates-register_all_from :
    (t : Str) (change : MEventType) (relations : List Relation) (tables : RelationshipTables)
    → coordinates t change (register_all relations tables)
      ≡ (any (concerns t change) relations || coordinates t change tables)
unfolding register_all any
coordinates-register_all_from t change [] tables = refl
coordinates-register_all_from t change (relation ∷ relations) tables = ground (
  arith,
  coordinates-register_all_from t change relations (register relation tables),
  coordinates-register t change relation tables,
)

-- Whether a change of an entity type has relation work is what the registered relations say of it.
pub coordinates-register_all :
    (t : Str) (change : MEventType) (relations : List Relation)
    → coordinates t change (register_all relations no_tables) ≡ any (concerns t change) relations
unfolding coordinates Assoc.contains_key Assoc.lookup
coordinates-register_all t set_event relations =
    ground (arith, coordinates-register_all_from t set_event relations no_tables)
coordinates-register_all t del_event relations =
    ground (arith, coordinates-register_all_from t del_event relations no_tables)
