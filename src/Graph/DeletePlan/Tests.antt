-- ===== src/Graph/DeletePlan/Tests.antt =====
-- An index that is rebuilt from its stores, and the deletion of the entity at the cascading end of a stored edge.
use mathlib.Core.List.{Mem}
use myko.Base.{ℕ, ◌≡◌, refl, Option, none, some, List, [], ◌∷◌, arith}
use myko.Base.{Bool-cases, inl, inr}
use myko.Base.Key.{◌==◌}
use myko.Base.Text.{Str, str, str_key}
use myko.Base.Assoc
use myko.Base.Assoc.{Assoc}
use myko.Base.OrdSet
use myko.Graph.EdgeIds.{ids}
use myko.Graph.Types.{
  AnyItem, EntityRef, EndpointValue, EdgeEndpoints, directed, parallel, intersect_adjacency, eager,
  demand_driven, reject, concrete, end_a, cascade_edge, restrict_endpoint_delete, entity_key,
}
use myko.Graph.Incidence.{insert_incidence}
use myko.Graph.Index.{EdgeRegistration, GraphIndex, registration, apply, indexed, projects_endpoint}
use myko.Graph.Index.{initial_state}
use myko.Graph.Index.Represents.{edge_of}
use myko.Graph.Index.Faithful.{Canonical, IsFaithful, mutate, apply-IsFaithful, initial-IsFaithful}
use myko.Graph.DeletePlan.{endpoint_delete_plan}
use myko.Graph.Rebuild.{rebuild}
use myko.Graph.Rebuild.Reloaded.{stored, IsLoadable, rebuild-IsFaithful}
use myko.Graph.Rebuild.Planned.{endpoint_delete_plan-rebuild}
use myko.Graph.DeletePlan.Complete.{Every, Every-cons, StoredAs}
use myko.Graph.DeletePlan.Decided.{endpoint_delete_plan_complete}

node : List ℕ → EndpointValue
node id = record { entity = record { entity_type = str "Node"; id = id }; qualifier = none }

ends_of : List ℕ → Option EdgeEndpoints
unfolding node
ends_of (x ∷ y ∷ rest) = some (record { a = node (x ∷ []); b = node (y ∷ []) })
ends_of _ = none

abbrev child_of : EdgeRegistration
child_of = record {
  edge_type = str "ChildOf";
  shape = directed;
  pair_policy = parallel;
  pair_projection = intersect_adjacency;
  requirement_a = concrete (str "Node");
  requirement_b = concrete (str "Node");
  scope_type = none;
  self_loops = reject;
  a_delete = cascade_edge;
  b_delete = restrict_endpoint_delete;
  extract = λ item. ends_of item.content;
  extract_scope = λ item. some none;
  extract_error = λ item. [];
  validate = none;
}

abbrev first_child : AnyItem
first_child = record { entity_type = str "ChildOf"; id = str "e"; content = 1 ∷ 2 ∷ [] }

-- the first end is projected, and the second is scanned
abbrev tree : GraphIndex
tree = record {
  registrations = (str "ChildOf", child_of) ∷ [];
  apply_modes = [];
  endpoint_adjacency = (str "ChildOf", (eager, demand_driven)) ∷ [];
  categories = [];
  registry = (str "ChildOf", (str "e", first_child) ∷ []) ∷ [];
  item_types = str "Node" ∷ [];
  state = initial_state;
}

registered : (t : Str) (r : EdgeRegistration) → registration tree t ≡ some r → r.edge_type ≡ t
unfolding registration Assoc.lookup
registered t r h = ground (arith, str_key.eq_of_cmp (str "ChildOf") t)

known : registration tree (str "ChildOf") ≡ some child_of
unfolding registration Assoc.lookup str_key
known = refl

abbrev nothing : Canonical
nothing t id = none

abbrev children : Canonical
children = mutate nothing (str "ChildOf") (str "e") (edge_of child_of (some first_child))

abbrev planted : GraphIndex
planted = (apply tree none (some first_child)).0

planted-IsFaithful : IsFaithful planted children
unfolding indexed ends_of
planted-IsFaithful =
    (apply-IsFaithful tree nothing none (some first_child) first_child child_of refl known tt
      (refl, refl) refl (initial-IsFaithful tree refl registered)).1

leaf : EntityRef
leaf = record { entity_type = str "Node"; id = 1 ∷ [] }

no_more : (t : Str) (r : EdgeRegistration) → Assoc.lookup t [] ≡ some r → ⊥
unfolding Assoc.lookup
no_more t r found = cc found

children_stored :
    Every planted.registrations
      (λ t r. StoredAs planted leaf children t r (Assoc.lookup t planted.registry))
unfolding Assoc.lookup str_key apply ends_of
children_stored =
    Every-cons (str "ChildOf") child_of []
      (λ t r. StoredAs planted leaf children t r (Assoc.lookup t planted.registry))
      ((refl, tt), λ id. stored id) (λ t r found. absurd (no_more t r found))
  where
    stored :
        (id : Str)
        → children (str "ChildOf") id
          ≡ edge_of child_of (Assoc.lookup id ((str "e", first_child) ∷ []))
    stored id = elim (Bool-cases (str "e" == id)) [
      | inl same ↦ rw same refl
      | inr other ↦ rw other refl
    ]

endpoint_delete_plan_example : Mem first_child (first_child ∷ [])
unfolding endpoint_delete_plan apply leaf ends_of node registration str_key entity_key ids
    OrdSet.extend projects_endpoint indexed Assoc.lookup Assoc.insert insert_incidence
endpoint_delete_plan_example =
    endpoint_delete_plan_complete planted leaf children (first_child ∷ []) planted-IsFaithful
      (refl, tt) children_stored refl (str "ChildOf") child_of refl ((str "e", first_child) ∷ [])
      refl (str "e") first_child refl end_a refl

own_name : Every tree.registrations (λ t r. r.edge_type ≡ t)
own_name =
    Every-cons (str "ChildOf") child_of [] (λ t r. r.edge_type ≡ t) refl
      (λ t r found. absurd (no_more t r found))

loadable : Every tree.registrations (λ t r. IsLoadable t r (Assoc.lookup t tree.registry))
unfolding Assoc.lookup str_key ends_of indexed
loadable =
    Every-cons (str "ChildOf") child_of [] (λ t r. IsLoadable t r (Assoc.lookup t tree.registry))
      (refl, refl, refl, refl, tt) (λ t r found. absurd (no_more t r found))

rebuild-IsFaithful_example :
    ((rebuild tree).1 ≡ some (rebuild tree).0.state.generation)
    × IsFaithful (rebuild tree).0 (stored tree)
unfolding Assoc.lookup
rebuild-IsFaithful_example = rebuild-IsFaithful tree (refl, tt) own_name loadable

endpoint_delete_plan-rebuild_example : Mem first_child (first_child ∷ [])
unfolding rebuild endpoint_delete_plan apply leaf ends_of node registration str_key entity_key ids
    OrdSet.extend projects_endpoint indexed Assoc.lookup Assoc.insert insert_incidence
endpoint_delete_plan-rebuild_example =
    endpoint_delete_plan-rebuild tree leaf (first_child ∷ []) (refl, tt) own_name loadable refl
      (str "ChildOf") child_of refl ((str "e", first_child) ∷ []) refl (str "e") first_child refl
      end_a refl
