-- ===== src/Graph/DeletePlan/Decided.antt =====
-- The items of a plan against the canonical stores.
use mathlib.Core.List.{Mem, mem-cons_self, mem-cons_of_mem}
use myko.Base.{◌≡◌, refl, ◌∙◌, ap, true, false, some}
use myko.Base.{List, [], ◌∷◌, arith, Bool-cases, Option-cases, inl, inr}
use mathlib.Core.Path.{subst}
use myko.Base.Key.{eq_of_==, pair_key}
use myko.Base.Text.{Str, str_key}
use myko.Base.Assoc
use myko.Base.Assoc.{Assoc}
use myko.Base.OrdSet
use myko.Graph.Types.{AnyItem, EntityRef, EndPosition}
use myko.Graph.Types.{EndpointDeletePolicy, cascade_edge, restrict_endpoint_delete, retain_dangling}
use myko.Graph.Index.{EdgeRegistration, GraphIndex, registration}
use myko.Graph.Index.Represents.{edge_of}
use myko.Graph.Index.Faithful.{Canonical, IsFaithful}
use myko.Graph.DeletePlan.{EdgeName, Planned, cascading, refused, delete_policy, delete_names}
use myko.Graph.DeletePlan.{stored_edges, endpoint_delete_plan, cascade_edges}
use myko.Graph.DeletePlan.Ends.{is_named, allows, is_incident, IfPlanned}
use myko.Graph.DeletePlan.Complete.{Distinct, Every, StoredAs, Allowed, delete_names-passes}

stored_edges-Mem :
    (g : GraphIndex) (t id : Str) (store : Assoc Str AnyItem) (item : AnyItem)
    (names : List EdgeName)
    → Assoc.lookup t g.registry ≡ some store
    → Assoc.lookup id store ≡ some item
    → is_named t id names ≡ true
    → Mem item (stored_edges g names)
unfolding stored_edges OrdSet.contains
stored_edges-Mem g t id store item [] p q h = absurd (ground (arith, h))
stored_edges-Mem g t id store item ((u, i) ∷ names) p q h =
    elim (Bool-cases (is_named t id names)) [
      | inl later ↦ weaken (stored_edges-Mem g t id store item names p q later)
      | inr first ↦ here (same first)
    ]
  where
    weaken : Mem item (stored_edges g names) → Mem item (stored_edges g ((u, i) ∷ names))
    weaken m = elim (Option-cases (Assoc.lookup u g.registry)) [
      | inl none₁ ↦ rw (none₁, stored_edges) m
      | inr (found, e) ↦ elim (Option-cases (Assoc.lookup i found)) [
        | inl none₂ ↦ rw (e, none₂, stored_edges) m
        | inr (x, e') ↦ rw (e, e', stored_edges) (mem-cons_of_mem x m)
      ]
    ]

    same : is_named t id names ≡ false → ◌≡◌ {A = EdgeName} (u, i) (t, id)
    same later = eq_of_== (u, i) (t, id) (ground (arith, later, h))

    here : ◌≡◌ {A = EdgeName} (u, i) (t, id) → Mem item (stored_edges g ((u, i) ∷ names))
    here e =
        let p' : Assoc.lookup u g.registry ≡ some store =
          ap (λ n. Assoc.lookup n.0 g.registry) e ∙ p in
        let q' : Assoc.lookup i store ≡ some item = ap (λ n. Assoc.lookup n.1 store) e ∙ q in
        rw (p', q', stored_edges) mem-cons_self

-- what the policy of an end that is incident asks of the plan's items
abbrev pub Decided : EndpointDeletePolicy → AnyItem → List AnyItem → Type 0
Decided restrict_endpoint_delete item items = ⊥
Decided cascade_edge item items = Mem item items
Decided retain_dangling item items = Unit

decided :
    (g : GraphIndex) (endpoint : EntityRef) (items : List AnyItem) (holds : List EdgeName → Type 0)
    → endpoint_delete_plan g endpoint ≡ cascade_edges items
    → IfPlanned (delete_names g endpoint) holds
    → (names : List EdgeName) × ((stored_edges g names ≡ items) × holds names)
unfolding endpoint_delete_plan
decided g endpoint items holds p h = go (delete_names g endpoint) refl h
  where
    go :
        (plan : Planned)
        → delete_names g endpoint ≡ plan
        → IfPlanned plan holds
        → (names : List EdgeName) × ((stored_edges g names ≡ items) × holds names)
    go (refused error) e h = absurd (clash e)
      where
        clash : delete_names g endpoint ≡ refused error → ⊥
        clash e = ground (arith, e, p)
    go (cascading names) e h = (names, (ground (arith, e, p), h))

-- On a faithful index whose canonical edges are those of the stores, with each edge type registered
-- once and each store keyed by the ids of its items: when the deletion of an entity is planned and
-- not refused, every stored edge incident to the entity, at either end and whether or not that end
-- is projected, is among the items of the plan if the policy of that end cascades; and no stored
-- edge is incident at an end whose policy restricts the deletion.
pub endpoint_delete_plan_complete :
    (g : GraphIndex) (endpoint : EntityRef) (canonical : Canonical) (items : List AnyItem)
    → IsFaithful g canonical
    → Distinct g.registrations
    → Every g.registrations (λ t r. StoredAs g endpoint canonical t r (Assoc.lookup t g.registry))
    → endpoint_delete_plan g endpoint ≡ cascade_edges items
    → (t : Str) (r : EdgeRegistration) → registration g t ≡ some r
    → (store : Assoc Str AnyItem) → Assoc.lookup t g.registry ≡ some store
    → (id : Str) (item : AnyItem) → Assoc.lookup id store ≡ some item
    → (position : EndPosition) → is_incident endpoint position (edge_of r (some item)) ≡ true
    → Decided (delete_policy r position) item items
unfolding registration
endpoint_delete_plan_complete g endpoint canonical items faithful once stored planned t r known
      store p id item q position incident =
    go (delete_policy r position) (allowed.1.1 t r known position id)
  where
    allowed :
        (names : List EdgeName) × ((stored_edges g names ≡ items)
          × Every g.registrations (λ t r. Allowed g endpoint canonical t r names))
    allowed =
        decided g endpoint items
          (λ names. Every g.registrations (λ t r. Allowed g endpoint canonical t r names)) planned
          (delete_names-passes g endpoint canonical faithful once stored)

    kept : canonical t id ≡ edge_of r (some item)
    kept = (subst (StoredAs g endpoint canonical t r) p (stored t r known)).1 id ∙ ap (edge_of r) q

    at_end : is_incident endpoint position (canonical t id) ≡ true
    at_end = rw kept incident

    go :
        (policy : EndpointDeletePolicy)
        → allows policy (is_incident endpoint position (canonical t id)) (is_named t id allowed.0)
          ≡ true
        → Decided policy item items
    go restrict_endpoint_delete h = ground (arith, h, at_end)
    go cascade_edge h =
        subst (Mem item) allowed.1.0
          (stored_edges-Mem g t id store item allowed.0 p q (ground (arith, h, at_end)))
    go retain_dangling h = tt
