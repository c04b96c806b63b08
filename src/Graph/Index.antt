-- ===== src/Graph/Index.antt =====
-- `GraphIndex` of libs/myko/core/src/core/graph.rs: the registrations, the projections of each edge
-- type, and the update of the projections by one canonical mutation. The locks only serialise the
-- calls, so a method takes the index and returns the new one.
pub mod Represents
pub mod Faithful
use myko.Base.{ℕ, ◌+◌, Bool, true, false, ◌&&◌, ◌||◌, Option, none, some, List, [], ◌∷◌}
use myko.Base.{if◌then◌else◌, is_some, any, saturating_add}
use myko.Base.Key.{◌==◌, ltk}
use myko.Base.Text.{Str, str_key}
use myko.Base.Assoc
use myko.Base.Assoc.{Assoc}
use myko.Graph.EdgeIds.{EdgeIds}
use myko.Graph.Incidence.{insert_incidence, remove_incidence}
use myko.Graph.Types.{
  AnyItem, EntityRef, IndexValue, EndpointValue, EdgeEndpoints, EdgeShapeKind, directed, undirected,
  PairPolicy, unique, parallel, PairProjectionPolicy, eager_pairs, intersect_adjacency,
  AdjacencyPolicy, demand_driven, eager, SelfLoopPolicy, EndpointDeletePolicy, EdgeApplyMode,
  authoritative, EndpointRequirement, EdgePairKey, IndexedEdge, EndPosition, end_a, end_b,
  entity_key, endpoint_key, edge_pair_key,
}

-- What the generated code supplies for one edge type: the policies; the extractors, which answer
-- `none` where they fail, with the message of that failure; and the validator, which sees the item
-- and which entities exist, and answers with the message of its error, if there is one.
pub record EdgeRegistration : Type 0 where
  pub edge_type : Str
  pub shape : EdgeShapeKind
  pub pair_policy : PairPolicy
  pub pair_projection : PairProjectionPolicy
  pub requirement_a : EndpointRequirement
  pub requirement_b : EndpointRequirement
  pub scope_type : Option Str
  pub self_loops : SelfLoopPolicy
  pub a_delete : EndpointDeletePolicy
  pub b_delete : EndpointDeletePolicy
  pub extract : AnyItem → Option EdgeEndpoints
  pub extract_scope : AnyItem → Option (Option IndexValue)
  pub extract_error : AnyItem → Str
  pub validate : Option ((EntityRef → Bool) → AnyItem → Option Str)

pub record EdgeTypeState : Type 0 where
  pub generation : ℕ  -- u64
  pub edges : Assoc Str IndexedEdge
  pub at_a : Assoc EndpointValue EdgeIds
  pub at_b : Assoc EndpointValue EdgeIds
  pub a_entities : Assoc EntityRef EdgeIds
  pub b_entities : Assoc EntityRef EdgeIds
  pub pairs : Assoc EdgePairKey EdgeIds

abbrev pub empty_state : EdgeTypeState
empty_state = record {
  generation = 0;
  edges = [];
  at_a = [];
  at_b = [];
  a_entities = [];
  b_entities = [];
  pairs = [];
}

pub record GraphState : Type 0 where
  pub generation : ℕ  -- u64
  pub edge_types : Assoc Str EdgeTypeState
  pub invalid_mutations : ℕ  -- u64
  pub uniqueness_rejections : ℕ  -- u64
  pub failed : Bool

abbrev pub initial_state : GraphState
initial_state = record {
  generation = 0;
  edge_types = [];
  invalid_mutations = 0;
  uniqueness_rejections = 0;
  failed = false;
}

-- `registry` holds the entity stores, and `item_types` the types of the global item registrations.
pub record GraphIndex : Type 0 where
  pub registrations : Assoc Str EdgeRegistration
  pub apply_modes : Assoc Str EdgeApplyMode
  pub endpoint_adjacency : Assoc Str (AdjacencyPolicy × AdjacencyPolicy)
  pub categories : Assoc Str (List Str)
  pub registry : Assoc Str (Assoc Str AnyItem)
  pub item_types : List Str
  pub state : GraphState

unfoldable pub registration : GraphIndex → Str → Option EdgeRegistration
registration g edge_type = Assoc.lookup edge_type g.registrations

abbrev is_eager : AdjacencyPolicy → Bool
is_eager eager = true
is_eager demand_driven = false

abbrev policy_at : EndPosition → AdjacencyPolicy × AdjacencyPolicy → AdjacencyPolicy
policy_at end_a (at_a, at_b) = at_a
policy_at end_b (at_a, at_b) = at_b

unfoldable pub projects_endpoint : GraphIndex → Str → EndPosition → Bool
projects_endpoint g edge_type position = elim (Assoc.lookup edge_type g.endpoint_adjacency) [
  | none ↦ false
  | some policies ↦ is_eager (policy_at position policies)
]

unfoldable pub projects_any_endpoint : GraphIndex → Str → Bool
unfolding projects_endpoint
projects_any_endpoint g edge_type =
    projects_endpoint g edge_type end_a || projects_endpoint g edge_type end_b

abbrev pub is_undirected : EdgeShapeKind → Bool
is_undirected undirected = true
is_undirected directed = false

abbrev pub is_unique : PairPolicy → Bool
is_unique unique = true
is_unique parallel = false

abbrev pub is_eager_pairs : PairProjectionPolicy → Bool
is_eager_pairs eager_pairs = true
is_eager_pairs intersect_adjacency = false

unfoldable pub pair_key_from_values :
    EdgeRegistration → EndpointValue → EndpointValue → Option IndexValue → EdgePairKey
pair_key_from_values r x y scope =
    if is_undirected r.shape && ltk y x
    then record { scope = scope; a = y; b = x }
    else record { scope = scope; a = x; b = y }

unfoldable pub pair_key : EdgeRegistration → EdgeEndpoints → Option IndexValue → EdgePairKey
unfolding pair_key_from_values
pair_key r endpoints scope = pair_key_from_values r endpoints.a endpoints.b scope

unfoldable pub projects_pairs : EdgeRegistration → Bool
projects_pairs r = is_unique r.pair_policy || is_eager_pairs r.pair_projection

unfoldable pub endpoints_match :
    EdgeRegistration → EdgeEndpoints → EndpointValue → EndpointValue → Bool
endpoints_match r endpoints x y =
    (endpoints.a == x && endpoints.b == y)
    || (is_undirected r.shape && (endpoints.a == y && endpoints.b == x))

unfoldable pub remove_indexed : EdgeRegistration → EdgeTypeState → IndexedEdge → EdgeTypeState
unfolding projects_pairs pair_key
remove_indexed r st edge = record st {
  at_a = remove_incidence edge.endpoints.a edge.id st.at_a;
  at_b = remove_incidence edge.endpoints.b edge.id st.at_b;
  a_entities = remove_incidence edge.endpoints.a.entity edge.id st.a_entities;
  b_entities = remove_incidence edge.endpoints.b.entity edge.id st.b_entities;
  pairs =
      if projects_pairs r
      then remove_incidence (pair_key r edge.endpoints edge.scope) edge.id st.pairs
      else st.pairs;
}

unfoldable pub insert_indexed :
    GraphIndex → EdgeRegistration → EdgeTypeState → IndexedEdge → EdgeTypeState
unfolding projects_endpoint projects_any_endpoint projects_pairs pair_key
insert_indexed g r st edge =
    let with_a = projects_endpoint g r.edge_type end_a in
    let with_b = projects_endpoint g r.edge_type end_b in
    record st {
      at_a = if with_a then insert_incidence edge.endpoints.a edge.id st.at_a else st.at_a;
      a_entities =
          if with_a
          then insert_incidence edge.endpoints.a.entity edge.id st.a_entities
          else st.a_entities;
      at_b = if with_b then insert_incidence edge.endpoints.b edge.id st.at_b else st.at_b;
      b_entities =
          if with_b
          then insert_incidence edge.endpoints.b.entity edge.id st.b_entities
          else st.b_entities;
      pairs =
          if projects_pairs r
          then insert_incidence (pair_key r edge.endpoints edge.scope) edge.id st.pairs
          else st.pairs;
      edges =
          if projects_any_endpoint g r.edge_type
          then Assoc.insert edge.id edge st.edges
          else st.edges;
    }

-- The edge that an item stands for; `none` where an extractor fails.
unfoldable pub indexed : EdgeRegistration → AnyItem → Option IndexedEdge
indexed r item = elim (r.extract item) [
  | none ↦ none
  | some endpoints ↦ elim (r.extract_scope item) [
    | none ↦ none
    | some scope ↦ some (record { id = item.id; endpoints = endpoints; scope = scope })
  ]
]

-- `or_default` of the edge type's entry
unfoldable pub type_state : GraphIndex → Str → EdgeTypeState
type_state g edge_type = elim (Assoc.lookup edge_type g.state.edge_types) [
  | some st ↦ st
  | none ↦ empty_state
]

-- The half of `apply` that takes out the old item. `false` is the early return of `?`.
unfoldable pub apply_old : EdgeRegistration → EdgeTypeState → Option AnyItem → EdgeTypeState × Bool
unfolding indexed remove_indexed
apply_old r st none = (st, true)
apply_old r st (some old) = elim (indexed r old) [
  | none ↦ (st, false)
  | some edge ↦ (remove_indexed r (record st { edges = Assoc.remove old.id st.edges }) edge, true)
]

unfoldable pub apply_new :
    GraphIndex → EdgeRegistration → EdgeTypeState → Option AnyItem → EdgeTypeState × Bool
unfolding indexed insert_indexed
apply_new g r st none = (st, true)
apply_new g r st (some new) = elim (indexed r new) [
  | none ↦ (st, false)
  | some edge ↦ (insert_indexed g r st edge, true)
]

unfoldable pub apply_type :
    GraphIndex
    → EdgeRegistration
    → EdgeTypeState
    → Option AnyItem
    → Option AnyItem
    → EdgeTypeState × Bool
unfolding apply_old apply_new
apply_type g r st old new =
    let (st₁, ok₁) = apply_old r st old in
    let (st₂, ok₂) = apply_new g r st₁ new in
    if ok₁
    then if ok₂
      then (record st₂ { generation = saturating_add st₂.generation 1 }, true)
      else (st₂, false)
    else (st₁, false)

abbrev pub or_old : Option AnyItem → Option AnyItem → Option AnyItem
or_old old (some new) = some new
or_old old none = old

-- `some` is the generation that the method returns, `none` its error.
unfoldable pub apply : GraphIndex → Option AnyItem → Option AnyItem → GraphIndex × Option ℕ
unfolding registration type_state apply_type
apply g old new = elim (or_old old new) [
  | none ↦ (g, none)
  | some item ↦ elim (registration g item.entity_type) [
    | none ↦ (g, some g.state.generation)
    | some r ↦
        let (st, ok) = apply_type g r (type_state g r.edge_type) old new in
        let edge_types = Assoc.insert r.edge_type st g.state.edge_types in
        let generation = saturating_add g.state.generation 1 in
        let done = record g.state { edge_types = edge_types; generation = generation } in
        let failed = record g.state { edge_types = edge_types } in
        if ok
        then (record g { state = done }, some generation)
        else (record g { state = failed }, none)
  ]
]
