-- ===== src/Server/Relationships/Tests.antt =====
-- The relations of a small schema: projects have tasks, and every pair of a project and a person has
-- a role.
use myko.Base.{◌≡◌, refl, Option, none, some, true, false, List, [], ◌∷◌, inl}
use myko.Base.{if◌then◌else◌, find?, any, length}
use myko.Base.Key
use myko.Base.Key.{◌==◌, nat_key}
use myko.Base.Text.{Str, str, str_key}
use myko.Base.Assoc
use myko.Base.OrdSet
use myko.Graph.Types.{AnyItem}
use myko.Server.Relationships.{BelongsToLookup, EnsureForDependency, EnsureForLookup, Store, Stores}
use myko.Server.Relationships.{Relation, belongs_to, ensure_for, set_event}
use myko.Server.Relationships.Tables.{RelationshipTables, register_all, no_tables, coordinates}
use myko.Server.Relationships.Tables.Coordinates.{coordinates-register_all, concerns}
use myko.Server.Relationships.Cycle.{ensure_for_cycle}
use myko.Server.Relationships.Cycle.Walks.{IsCycle}
use myko.Server.Relationships.Cycle.Verdict.{ensure_for_cycle-IsCycle, ensure_for_cycle-none}
use myko.Server.Relationships.Cycle.Verdict.{graph_of}
use myko.Server.Relationships.ReverseIndex.{ReverseIndex, find_children_by_fk, scan_children}
use myko.Server.Relationships.ReverseIndex.{index_batch, index_belongs_to_child}
use myko.Server.Relationships.ReverseIndex.{remove_belongs_to_child, ensure_belongs_to_index_loaded}
use myko.Server.Relationships.ReverseIndex.Inverse.{IsInverse-empty}
use myko.Server.Relationships.ReverseIndex.Valid.{IsValid, operations-IsValid}
use myko.Server.Relationships.ReverseIndex.Reflects.{Reflects, index_batch-Reflects}
use myko.Server.Relationships.ReverseIndex.Children.{find_children_by_fk-scan, with_id}
use myko.Server.Relationships.Combinations.{cartesian_product, get_dependency_combinations}
use myko.Server.Relationships.Combinations.Product.{cartesian_product-members, has_combo}
use myko.Server.Relationships.Combinations.Product.{takes_one_of_each, sizes}
use myko.Server.Relationships.World.{World, ok, err, Publisher, is_in_flight}
use myko.Server.Relationships.Ensure.{ensure_lookup, ensure_combination}
use myko.Server.Relationships.Ensure.Covered.{covered, ensure_lookup-covered}
use myko.Server.Relationships.Ensure.Reservations.{ensure_combination-free}

-- An item that is about another one has that one's id as its content.
abbrev content_fk : AnyItem → Option Str
content_fk item = elim item.content [ [] ↦ none | c ∷ cs ↦ some (c ∷ cs) ]

abbrev task : Str → AnyItem
task id = record { entity_type = str "task"; id = id; content = str "p" }

abbrev tasks : BelongsToLookup
tasks = record {
  id = 1;
  local_type = str "task";
  foreign_type = str "project";
  extract_fk = content_fk;
}

abbrev two_tasks : Store
two_tasks = (str "a", task (str "a")) ∷ (str "b", task (str "b")) ∷ []

abbrev stores : Stores
stores entity_type = if entity_type == str "task" then two_tasks else []

abbrev no_index : ReverseIndex
no_index = record { children_by_parent = []; parent_by_child = [] }

no_index-IsValid : IsValid no_index
unfolding Assoc.lookup Assoc.contains_key
no_index-IsValid = record { inverse = λ i. IsInverse-empty; together = λ i. refl }

find_children_by_fk-scan_example :
    find? (with_id (str "b")) (find_children_by_fk tasks stores (str "p") no_index).0
    ≡ find? (with_id (str "b")) (scan_children content_fk (stores (str "task")) (str "p"))
unfolding Assoc.lookup Assoc.contains_key str_key Key.list_key Key.cmp_list nat_key
find_children_by_fk-scan_example =
    find_children_by_fk-scan (str "b") (str "p") tasks stores no_index
      (refl, refl, (refl, refl, tt)) no_index-IsValid (inl refl)

operations-IsValid_example :
    IsValid (index_belongs_to_child tasks (task (str "a")) no_index)
    × IsValid (remove_belongs_to_child tasks (str "a") no_index)
    × IsValid (ensure_belongs_to_index_loaded tasks stores no_index)
unfolding Assoc.lookup str_key Key.list_key Key.cmp_list nat_key
operations-IsValid_example =
    operations-IsValid tasks stores (task (str "a")) (str "a") no_index
      (refl, refl, (refl, refl, tt)) no_index-IsValid

index_batch-Reflects_example :
    Reflects tasks stores (index_batch tasks stores (task (str "b") ∷ []) no_index)
unfolding Assoc.lookup Assoc.contains_key str_key Key.list_key Key.cmp_list nat_key
index_batch-Reflects_example =
    index_batch-Reflects tasks stores (task (str "b") ∷ []) no_index (refl, refl, (refl, refl, tt))
      (refl, tt) (inl refl)

abbrev make_role : List Str → AnyItem
make_role combo = record { entity_type = str "role"; id = str "r"; content = [] }

abbrev depends : Str → EnsureForDependency
depends entity_type = record { foreign_type = entity_type; extract_fk = content_fk }

-- What two relations that derive items from each other's types register
abbrev circular : List Relation
circular =
    ensure_for (str "a") (depends (str "b") ∷ []) make_role
    ∷ ensure_for (str "b") (depends (str "a") ∷ []) make_role
    ∷ []

abbrev schema : List Relation
schema =
    belongs_to (str "task") (str "project") content_fk
    ∷ ensure_for (str "role") (depends (str "project") ∷ depends (str "person") ∷ []) make_role
    ∷ []

abbrev tables_of : List Relation → RelationshipTables
tables_of relations = register_all relations no_tables

coordinates-register_all_example :
    coordinates (str "person") set_event (tables_of schema)
    ≡ any (concerns (str "person") set_event) schema
coordinates-register_all_example = coordinates-register_all (str "person") set_event schema

circular_walk : List Str
circular_walk = str "b" ∷ str "a" ∷ str "b" ∷ []

ensure_for_cycle-IsCycle_example : IsCycle (graph_of (tables_of circular)) circular_walk
unfolding ensure_for_cycle register_all circular_walk str_key Key.list_key Key.cmp_list nat_key
    Assoc.lookup OrdSet.contains
ensure_for_cycle-IsCycle_example = ensure_for_cycle-IsCycle (tables_of circular) circular_walk refl

ensure_for_cycle-none_example : ¬ IsCycle (graph_of (tables_of schema)) circular_walk
unfolding ensure_for_cycle register_all str_key Key.list_key Key.cmp_list nat_key Assoc.lookup
    OrdSet.contains
ensure_for_cycle-none_example = ensure_for_cycle-none (tables_of schema) circular_walk refl

cartesian_product-members_example :
    (has_combo
        (str "p" ∷ str "x" ∷ [])
        (cartesian_product ((str "p" ∷ str "q" ∷ []) ∷ (str "x" ∷ []) ∷ []))
      ≡ takes_one_of_each (str "p" ∷ str "x" ∷ []) ((str "p" ∷ str "q" ∷ []) ∷ (str "x" ∷ []) ∷ []))
    × (length (cartesian_product ((str "p" ∷ str "q" ∷ []) ∷ (str "x" ∷ []) ∷ []))
        ≡ sizes ((str "p" ∷ str "q" ∷ []) ∷ (str "x" ∷ []) ∷ []))
cartesian_product-members_example =
    cartesian_product-members (str "p" ∷ str "x" ∷ []) (str "p" ∷ str "q" ∷ [])
      ((str "x" ∷ []) ∷ [])

-- A context that queues every write on a transaction, and one that fails every write
abbrev queueing : Publisher Unit
queueing = record {
  publish_set = λ item w. (w, ok tt);
  del_dyn = λ item w. (w, ok tt);
  batch_del_dyn = λ items w. (w, ok tt);
  batch_set_dyn = λ items w. (w, ok tt);
}

abbrev failing : Publisher Unit
failing = record {
  publish_set = λ item w. (w, err tt);
  del_dyn = λ item w. (w, err tt);
  batch_del_dyn = λ items w. (w, err tt);
  batch_set_dyn = λ items w. (w, err tt);
}

abbrev tags : EnsureForLookup
tags = record {
  local_type = str "tag";
  dependencies = depends (str "task") ∷ [];
  make_entity = make_role;
}

abbrev start : World
start = record { stores = stores; index = no_index; ensure_for_in_flight = [] }

abbrev reserved_tags : World
reserved_tags = record start {
  ensure_for_in_flight = (str "tag", str "b" ∷ []) ∷ (str "tag", str "a" ∷ []) ∷ [];
}

ensure_lookup-covered_example : covered tags (str "b" ∷ []) reserved_tags ≡ true
unfolding ensure_lookup str_key Key.list_key Key.cmp_list Key.pair_key nat_key Assoc.lookup
    OrdSet.contains get_dependency_combinations
ensure_lookup-covered_example =
    ensure_lookup-covered queueing tags (str "b" ∷ []) start reserved_tags (λ item combo w h. h)
      refl refl

ensure_combination-free_example :
    is_in_flight (str "tag", str "a" ∷ []) (ensure_combination failing tags (str "a" ∷ []) start).0
    ≡ false
unfolding ensure_combination str_key Key.list_key Key.cmp_list Key.pair_key nat_key Assoc.lookup
    OrdSet.contains
ensure_combination-free_example =
    ensure_combination-free failing tags (str "a" ∷ []) start refl (λ h. cc)
