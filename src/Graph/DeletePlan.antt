-- ===== src/Graph/DeletePlan.antt =====
-- `GraphIndex::endpoint_delete_plan` of libs/myko/core/src/core/graph.rs: the edges that go with a
-- deleted entity, or the refusal to delete it. Projected ends are read from the entity projections,
-- and the ends of demand-driven edge types from a scan of the canonical items.
pub mod Ends
pub mod Scan
pub mod Complete
pub mod Decided
pub mod Tests
use myko.Base.{Bool, true, false, not, ◌&&◌, ◌||◌, Option, none, some, List, [], ◌∷◌, map}
use myko.Base.{if◌then◌else◌}
use myko.Base.Key.{◌==◌, pair_key}
use myko.Base.Text.{Str, str_key}
use myko.Base.Assoc
use myko.Base.Assoc.{Assoc}
use myko.Base.OrdSet
use myko.Graph.EdgeIds
use myko.Graph.EdgeIds.{EdgeIds, ids}
use myko.Graph.Types.{AnyItem, EntityRef, EndpointValue, IndexedEdge, EndPosition, end_a, end_b}
use myko.Graph.Types.{EndpointDeletePolicy, cascade_edge, restrict_endpoint_delete, retain_dangling}
use myko.Graph.Types.{entity_key}
use myko.Graph.Index.{EdgeRegistration, EdgeTypeState, GraphIndex, projects_endpoint, indexed}

-- an edge by its type and id
abbrev pub EdgeName : Type 0
EdgeName = Str × Str

abbrev pub edge_name : Str → Str → EdgeName
edge_name edge_type id = (edge_type, id)

pub data DeleteError : Type 0 where
  -- the edge of this type and id is incident at this end
  incident_at : Str → Str → EndPosition → DeleteError
  -- an extractor fails on this item
  not_extracted : AnyItem → DeleteError

pub data Planned : Type 0 where
  cascading : List EdgeName → Planned
  refused : DeleteError → Planned

abbrev pub then_plan : Planned → (List EdgeName → Planned) → Planned
then_plan (cascading names) next = next names
then_plan (refused error) next = refused error

abbrev pub delete_policy : EdgeRegistration → EndPosition → EndpointDeletePolicy
delete_policy r end_a = r.a_delete
delete_policy r end_b = r.b_delete

abbrev pub entities_at : EdgeTypeState → EndPosition → Assoc EntityRef EdgeIds
entities_at st end_a = st.a_entities
entities_at st end_b = st.b_entities

-- the ids of a bucket under one policy
unfoldable pub plan_bucket :
    Str → EndPosition → EndpointDeletePolicy → EdgeIds → List EdgeName → Planned
unfolding EdgeIds.first ids OrdSet.extend
plan_bucket edge_type position restrict_endpoint_delete bucket cascade =
    elim (EdgeIds.first bucket) [
      | some id ↦ refused (incident_at edge_type id position)
      | none ↦ cascading cascade
    ]
plan_bucket edge_type position cascade_edge bucket cascade =
    cascading (OrdSet.extend cascade (map (edge_name edge_type) (ids bucket)))
plan_bucket edge_type position retain_dangling bucket cascade = cascading cascade

-- one end of an edge type that is projected
unfoldable pub plan_projected :
    GraphIndex
    → EntityRef
    → Str
    → EdgeRegistration
    → EdgeTypeState
    → EndPosition
    → List EdgeName
    → Planned
unfolding plan_bucket Assoc.lookup
plan_projected g endpoint edge_type r edges position cascade =
    if not (projects_endpoint g edge_type position)
    then cascading cascade
    else elim (Assoc.lookup endpoint (entities_at edges position)) [
      | none ↦ cascading cascade
      | some bucket ↦ plan_bucket edge_type position (delete_policy r position) bucket cascade
    ]

-- the loop over the two ends of an edge type
unfoldable pub plan_both :
    GraphIndex → EntityRef → Str → EdgeRegistration → EdgeTypeState → List EdgeName → Planned
unfolding plan_projected
plan_both g endpoint edge_type r edges cascade =
    then_plan (plan_projected g endpoint edge_type r edges end_b cascade)
      (plan_projected g endpoint edge_type r edges end_a)

unfoldable pub plan_indexed :
    GraphIndex → EntityRef → List (Str × EdgeRegistration) → List EdgeName → Planned
unfolding plan_both Assoc.lookup
plan_indexed g endpoint [] cascade = cascading cascade
plan_indexed g endpoint ((edge_type, r) ∷ registrations) cascade =
    elim (Assoc.lookup edge_type g.state.edge_types) [
      | none ↦ plan_indexed g endpoint registrations cascade
      | some edges ↦
          then_plan (plan_both g endpoint edge_type r edges cascade)
            (plan_indexed g endpoint registrations)
    ]

abbrev pub is_retained : EndpointDeletePolicy → Bool
is_retained retain_dangling = true
is_retained _ = false

abbrev pub value_at : IndexedEdge → EndPosition → EndpointValue
value_at e end_a = e.endpoints.a
value_at e end_b = e.endpoints.b

-- one end of a scanned edge
unfoldable pub plan_end :
    GraphIndex
    → EntityRef
    → Str
    → EdgeRegistration
    → IndexedEdge
    → EndPosition
    → List EdgeName
    → Planned
unfolding OrdSet.insert
plan_end g endpoint edge_type r e position cascade =
    if projects_endpoint g edge_type position
      || is_retained (delete_policy r position)
      || not ((value_at e position).entity == endpoint)
    then cascading cascade
    else elim (delete_policy r position) [
      | restrict_endpoint_delete ↦ refused (incident_at edge_type e.id position)
      | cascade_edge ↦ cascading (OrdSet.insert (edge_type, e.id) cascade)
      | retain_dangling ↦ cascading cascade
    ]

-- the loop over the two ends
unfoldable pub plan_ends :
    GraphIndex → EntityRef → Str → EdgeRegistration → IndexedEdge → List EdgeName → Planned
unfolding plan_end
plan_ends g endpoint edge_type r e cascade =
    then_plan (plan_end g endpoint edge_type r e end_a cascade)
      (plan_end g endpoint edge_type r e end_b)

unfoldable pub plan_scan :
    GraphIndex → EntityRef → Str → EdgeRegistration → Assoc Str AnyItem → List EdgeName → Planned
unfolding plan_ends
plan_scan g endpoint edge_type r [] cascade = cascading cascade
plan_scan g endpoint edge_type r ((_, item) ∷ items) cascade = elim (indexed r item) [
  | none ↦ refused (not_extracted item)
  | some e ↦
      then_plan (plan_ends g endpoint edge_type r e cascade)
        (plan_scan g endpoint edge_type r items)
]

abbrev pub needs_scan : GraphIndex → Str → EdgeRegistration → EndPosition → Bool
needs_scan g edge_type r position =
    not (projects_endpoint g edge_type position) && not (is_retained (delete_policy r position))

unfoldable pub plan_scans :
    GraphIndex → EntityRef → List (Str × EdgeRegistration) → List EdgeName → Planned
unfolding plan_scan Assoc.lookup
plan_scans g endpoint [] cascade = cascading cascade
plan_scans g endpoint ((edge_type, r) ∷ registrations) cascade =
    if needs_scan g edge_type r end_a || needs_scan g edge_type r end_b
    then (elim (Assoc.lookup edge_type g.registry) [
      | none ↦ plan_scans g endpoint registrations cascade
      | some items ↦
          then_plan (plan_scan g endpoint edge_type r items cascade)
            (plan_scans g endpoint registrations)
    ])
    else plan_scans g endpoint registrations cascade

-- the names of the plan, before the canonical items are looked up
unfoldable pub delete_names : GraphIndex → EntityRef → Planned
unfolding plan_indexed plan_scans
delete_names g endpoint =
    then_plan (plan_indexed g endpoint g.registrations []) (plan_scans g endpoint g.registrations)

unfoldable pub stored_edges : GraphIndex → List EdgeName → List AnyItem
unfolding Assoc.lookup
stored_edges g [] = []
stored_edges g ((edge_type, id) ∷ names) =
    let rest = stored_edges g names in
    elim (Assoc.lookup edge_type g.registry) [
      | none ↦ rest
      | some items ↦ elim (Assoc.lookup id items) [ none ↦ rest | some item ↦ item ∷ rest ]
    ]

-- the plan's `cascade_edges`, or the error
pub data EndpointDeletePlan : Type 0 where
  cascade_edges : List AnyItem → EndpointDeletePlan
  failed : DeleteError → EndpointDeletePlan

unfoldable pub endpoint_delete_plan : GraphIndex → EntityRef → EndpointDeletePlan
unfolding delete_names stored_edges
endpoint_delete_plan g endpoint = elim (delete_names g endpoint) [
  | refused error ↦ failed error
  | cascading names ↦ cascade_edges (stored_edges g names)
]
