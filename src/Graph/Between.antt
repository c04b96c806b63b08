-- ===== src/Graph/Between.antt =====
-- The queries of libs/myko/core/src/core/graph.rs for the edges between two endpoints.
pub mod Exact
use myko.Base.{ℕ, Bool, true, false, not, ◌&&◌, ◌||◌, Option, none, some, List, [], ◌∷◌, map}
use myko.Base.{if◌then◌else◌, leb, filter, is_none_or, is_some}
use myko.Base.Key.{◌==◌, option_key}
use myko.Base.Text.{Str, str_key}
use myko.Base.Assoc
use myko.Base.Assoc.{Assoc}
use myko.Graph.EdgeIds
use myko.Graph.EdgeIds.{EdgeIds, one, many}
use myko.Graph.Types.{AnyItem, IndexValue, EndpointValue, IndexedEdge, end_a, end_b}
use myko.Graph.Types.{endpoint_key, edge_pair_key}
use myko.Graph.Index.{
  EdgeRegistration, EdgeTypeState, GraphIndex, registration, projects_endpoint,
  projects_any_endpoint, is_undirected, pair_key_from_values, projects_pairs, endpoints_match,
}

-- `scope.is_none_or(|scope| edge.scope.as_ref() == Some(scope))`
abbrev pub in_scope : Option IndexValue → Option IndexValue → Bool
in_scope scope edge_scope = is_none_or scope (λ s. edge_scope == some s)

unfoldable pub accepted_ids : (Str → Bool) → EdgeIds → List Str
accepted_ids accepted (one id) = if accepted id then id ∷ [] else []
accepted_ids accepted (many ids) = filter accepted ids

-- the branch for directed edges with both ends projected
unfoldable pub intersect :
    EdgeTypeState → Option IndexValue → Option EdgeIds → Option EdgeIds → List Str
unfolding accepted_ids
intersect st scope none _ = []
intersect st scope (some a_ids) none = []
intersect st scope (some a_ids) (some b_ids) =
    let (small, other) =
      if leb (EdgeIds.len a_ids) (EdgeIds.len b_ids) then (a_ids, b_ids) else (b_ids, a_ids) in
    accepted_ids
      (λ id.
        EdgeIds.contains id other
        && is_none_or scope (λ s. elim (Assoc.lookup id st.edges) [
          | none ↦ false
          | some edge ↦ edge.scope == some s
        ]))
      small

-- `if let Some(ids) = bucket { ids.extend_cloned(&mut target); }`
unfoldable pub extend_from : Option EdgeIds → List Str → List Str
extend_from none target = target
extend_from (some ids) target = EdgeIds.extend_cloned ids target

unfoldable pub candidates :
    Bool → Bool → Bool → EdgeTypeState → EndpointValue → EndpointValue → List Str
unfolding extend_from
candidates a_eager b_eager undirected st x y =
    let c₁ = if a_eager then extend_from (Assoc.lookup x st.at_a) [] else [] in
    let c₂ = if a_eager && undirected then extend_from (Assoc.lookup y st.at_a) c₁ else c₁ in
    let c₃ = if b_eager then extend_from (Assoc.lookup y st.at_b) c₂ else c₂ in
    if b_eager && undirected then extend_from (Assoc.lookup x st.at_b) c₃ else c₃

unfoldable pub indexed_ids_between :
    GraphIndex
    → EdgeRegistration
    → EdgeTypeState
    → EndpointValue
    → EndpointValue
    → Option IndexValue
    → List Str
unfolding projects_endpoint intersect candidates endpoints_match
indexed_ids_between g r st x y scope =
    let a_eager = projects_endpoint g r.edge_type end_a in
    let b_eager = projects_endpoint g r.edge_type end_b in
    if a_eager && b_eager && not (is_undirected r.shape)
    then intersect st scope (Assoc.lookup x st.at_a) (Assoc.lookup y st.at_b)
    else filter
        (λ id. elim (Assoc.lookup id st.edges) [
          | none ↦ false
          | some edge ↦ endpoints_match r edge.endpoints x y && in_scope scope edge.scope
        ])
        (candidates a_eager b_eager (is_undirected r.shape) st x y)
