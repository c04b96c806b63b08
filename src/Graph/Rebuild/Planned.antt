-- ===== src/Graph/Rebuild/Planned.antt =====
-- A deletion that is planned on a rebuilt index.
use mathlib.Core.Path.{subst}
use myko.Base.{◌≡◌, refl, sym, ◌∙◌, ap, true, Option, none, some, inl, inr}
use myko.Base.{List, [], ◌∷◌, Bool-cases, Option-cases}
use myko.Base.Text.{Str, str_key}
use myko.Base.Assoc
use myko.Base.Assoc.{Assoc}
use myko.Graph.Types.{AnyItem, EntityRef, EndPosition}
use myko.Graph.Index.{EdgeRegistration, GraphIndex, registration, apply, apply_type, type_state}
use myko.Graph.Index.{initial_state}
use myko.Graph.Index.Represents.{edge_of}
use myko.Graph.DeletePlan.{endpoint_delete_plan, cascade_edges, delete_policy}
use myko.Graph.DeletePlan.Ends.{is_incident}
use myko.Graph.DeletePlan.Scan.{IsStore}
use myko.Graph.DeletePlan.Complete.{Distinct, Every, StoredAs}
use myko.Graph.DeletePlan.Decided.{Decided, endpoint_delete_plan_complete}
use myko.Graph.Rebuild.{apply_items, apply_stores, rebuild}
use myko.Graph.Rebuild.Items.{IsEdgeStore}
use myko.Graph.Rebuild.Reloaded.{IsLoadable, stored, stored_at, edges_at, rebuild-IsFaithful}

-- what is fixed when an index is built
abbrev setup_of : GraphIndex → Assoc Str EdgeRegistration × Assoc Str (Assoc Str AnyItem)
setup_of g = (g.registrations, g.registry)

apply_setup : (g : GraphIndex) (item : AnyItem) → setup_of (apply g none (some item)).0 ≡ setup_of g
unfolding apply
apply_setup g item = elim (Option-cases (registration g item.entity_type)) [
  | inl q ↦ rw (q, apply) refl
  | inr (r, q) ↦ elim (Bool-cases (apply_type g r (type_state g r.edge_type) none (some item)).1) [
    | inl ok ↦ rw (q, ok, apply) refl
    | inr bad ↦ rw (q, bad, apply) refl
  ]
]

items_setup :
    (g : GraphIndex) (items : Assoc Str AnyItem) → setup_of (apply_items g items).0 ≡ setup_of g
unfolding apply_items
items_setup g [] = refl
items_setup g ((j, item) ∷ rest) = elim (Option-cases (apply g none (some item)).1) [
  | inl q ↦ rw (q, apply_items) (apply_setup g item)
  | inr (n, q) ↦
      rw (q, apply_items) (items_setup (apply g none (some item)).0 rest ∙ apply_setup g item)
]

stores_setup :
    (registry : Assoc Str (Assoc Str AnyItem)) (g : GraphIndex) (rs : Assoc Str EdgeRegistration)
    → setup_of (apply_stores registry g rs).0 ≡ setup_of g
unfolding apply_stores
stores_setup registry g [] = refl
stores_setup registry g ((t, r) ∷ rest) = elim (Option-cases (Assoc.lookup t registry)) [
  | inl q ↦ rw (q, apply_stores) (stores_setup registry g rest)
  | inr (items, q) ↦ elim (Bool-cases (apply_items g items).1) [
    | inl ok ↦
        rw (q, ok, apply_stores)
          (stores_setup registry (apply_items g items).0 rest ∙ items_setup g items)
    | inr bad ↦ rw (q, bad, apply_stores) (items_setup g items)
  ]
]

rebuild_setup : (g : GraphIndex) → setup_of (rebuild g).0 ≡ setup_of g
unfolding rebuild
rebuild_setup g = stores_setup g.registry (record g { state = initial_state }) g.registrations

stored_as :
    (g : GraphIndex) (endpoint : EntityRef) (t : Str) (r : EdgeRegistration)
    (o : Option (Assoc Str AnyItem))
    → ((id : Str) → stored g t id ≡ edges_at r o id)
    → IsLoadable t r o
    → StoredAs g endpoint (stored g) t r o
stored_as g endpoint t r none same ok = same
stored_as g endpoint t r (some items) same ok = (store items ok, same)
  where
    store : (items : Assoc Str AnyItem) → IsEdgeStore t r items → IsStore items
    store [] ok = tt
    store ((j, item) ∷ rest) (own, type, good, once, ok) = (own, store rest ok)

-- After a rebuild, where each edge type is registered once under its own name, and its store holds
-- each id once, with an item of that id and type on which the extractors succeed: when the deletion
-- of an entity is planned and not refused, every stored edge incident to the entity is among the
-- items of the plan if the policy of that end cascades, and no stored edge is incident at an end
-- whose policy restricts the deletion.
pub endpoint_delete_plan-rebuild :
    (g : GraphIndex) (endpoint : EntityRef) (items : List AnyItem)
    → Distinct g.registrations
    → Every g.registrations (λ t r. r.edge_type ≡ t)
    → Every g.registrations (λ t r. IsLoadable t r (Assoc.lookup t g.registry))
    → endpoint_delete_plan (rebuild g).0 endpoint ≡ cascade_edges items
    → (t : Str) (r : EdgeRegistration) → registration g t ≡ some r
    → (store : Assoc Str AnyItem) → Assoc.lookup t g.registry ≡ some store
    → (id : Str) (item : AnyItem) → Assoc.lookup id store ≡ some item
    → (position : EndPosition) → is_incident endpoint position (edge_of r (some item)) ≡ true
    → Decided (delete_policy r position) item items
unfolding registration
endpoint_delete_plan-rebuild g endpoint items once named ok planned t r known store p id item q
      position incident =
    endpoint_delete_plan_complete (rebuild g).0 endpoint (stored g) items
      (rebuild-IsFaithful g once named ok).1 (subst (λ s. Distinct s.0) same once)
      (subst
        (λ s.
          Every s.0 (λ u v. StoredAs (rebuild g).0 endpoint (stored g) u v (Assoc.lookup u s.1)))
        same
        (λ u v found.
          stored_as g endpoint u v (Assoc.lookup u g.registry)
            (λ i. ap (λ o. stored_at g.registry u o i) found) (ok u v found)))
      planned t r (subst (λ s. Assoc.lookup t s.0 ≡ some r) same known) store
      (subst (λ s. Assoc.lookup t s.1 ≡ some store) same p) id item q position incident
  where
    same : setup_of g ≡ setup_of (rebuild g).0
    same = sym (rebuild_setup g)
