-- ===== src/Graph/Traversal.antt =====
-- `run_bounded_traversal` of libs/myko/core/src/core/graph.rs: a breadth-first search with bounds on
-- its depth, its nodes and its edges. The closure that fills the scratch buffer is a parameter.
pub mod Bounds
pub mod Reached
mod Tests
use myko.Base.{ℕ, zero, suc, ◌+◌, ◌-◌, Bool, true, false, Option, none, some, List, [], ◌∷◌, ◌++◌}
use myko.Base.{if◌then◌else◌, leb, length, reverse, is_some}
use myko.Base.Key.{◌==◌, option_key}
use myko.Base.Text.{Str, str_key}
use myko.Base.Assoc
use myko.Base.Assoc.{Assoc}
use myko.Base.OrdSet
use myko.Graph.Types.{EntityRef, entity_key}

pub record TraversalRequest : Type 0 where
  pub start : EntityRef
  pub max_depth : ℕ
  pub max_nodes : ℕ
  pub max_edges : ℕ
  pub collect_edges : Bool
  pub target : Option EntityRef
  pub record_path : Bool

pub record TraversalPath : Type 0 where
  pub nodes : List EntityRef
  pub edge_ids : List Str

pub record TraversalResult : Type 0 where
  pub nodes : List EntityRef
  pub edge_ids : List Str
  pub truncated : Bool

pub record TraversalRun : Type 0 where
  pub result : TraversalResult
  pub path : Option TraversalPath
  pub matched : Bool

-- The buffer that the closure fills for a node; its entries are popped from the end.
abbrev pub Neighbors : Type 0
Neighbors = EntityRef → List (Str × EntityRef)

-- The variables of the search.
pub record Search : Type 0 where
  pub visited : List EntityRef
  pub queue : List (EntityRef × ℕ)
  pub result_edges : List Str
  pub predecessors : Assoc EntityRef (EntityRef × Str)
  pub traversed_edges : ℕ
  pub truncated : Bool
  pub matched : Option EntityRef

abbrev pub Predecessors : Type 0
Predecessors = Assoc EntityRef (EntityRef × Str)

-- What happens at the end of the loop's body: go on, or `break 'search`.
pub data Flow : Type 0 where
  next : Search → Flow
  break : Search → Flow

unfoldable pub empty_at : EntityRef → Option EntityRef → TraversalRun
empty_at start target = record {
  result = record { nodes = []; edge_ids = []; truncated = false };
  path = if target == some start then some (record { nodes = start ∷ []; edge_ids = [] }) else none;
  matched = target == some start;
}

module _ (request : TraversalRequest) where
  open request use {max_nodes, max_edges, max_depth, collect_edges, target, record_path, start}

  -- a neighbor that was not seen before
  unfoldable pub discover : EntityRef → ℕ → Str → EntityRef → Search → Flow
  discover node depth edge_id neighbor s =
      let found = record s {
        visited = OrdSet.insert neighbor s.visited;
        predecessors =
            if record_path
            then Assoc.insert neighbor (node, edge_id) s.predecessors
            else s.predecessors;
      } in
      if leb max_nodes (length s.visited - 1)
      then break (record s { truncated = true })
      else if target == some neighbor
      then break (record found { matched = some neighbor })
      else next (record found { queue = s.queue ++ (neighbor, suc depth) ∷ [] })

  -- the body of the inner loop
  unfoldable pub follow : EntityRef → ℕ → Str → EntityRef → Search → Flow
  unfolding discover
  follow node depth edge_id neighbor s =
      let counted = record s {
        traversed_edges = suc s.traversed_edges;
        result_edges =
            if collect_edges then OrdSet.insert edge_id s.result_edges else s.result_edges;
      } in
      if leb max_edges s.traversed_edges
      then break (record s { truncated = true })
      else if OrdSet.contains neighbor s.visited
      then next counted
      else discover node depth edge_id neighbor counted

  unfoldable pub follow_all : EntityRef → ℕ → List (Str × EntityRef) → Search → Flow
  unfolding follow
  follow_all node depth [] s = next s
  follow_all node depth ((edge_id, neighbor) ∷ rest) s =
      elim (follow node depth edge_id neighbor s) [
        | break s' ↦ break s'
        | next s' ↦ follow_all node depth rest s'
      ]

  -- the search with the front of the queue taken off
  abbrev pub popped : Search → List (EntityRef × ℕ) → Search
  popped s rest = record s { queue = rest }

  -- one round of the outer loop, at the node in front
  unfoldable pub round : Neighbors → EntityRef → ℕ → Search → Flow
  unfolding follow_all
  round neighbors node depth s =
      if leb max_depth depth then next s else follow_all node depth (reverse (neighbors node)) s

  -- The outer loop; `none` where the fuel runs out.
  unfoldable pub loop : Neighbors → ℕ → List (EntityRef × ℕ) → Search → Option Search
  unfolding round
  loop neighbors zero queue s = none
  loop neighbors (suc fuel) [] s = some s
  loop neighbors (suc fuel) ((node, depth) ∷ rest) s =
      elim (round neighbors node depth (popped s rest)) [
        | break s' ↦ some s'
        | next s' ↦ loop neighbors fuel s'.queue s'
      ]

  abbrev pub initial : Search
  initial = record {
    visited = start ∷ [];
    queue = (start, 0) ∷ [];
    result_edges = [];
    predecessors = [];
    traversed_edges = 0;
    truncated = false;
    matched = none;
  }

  -- Each round takes one node off the queue, and at most `max_nodes` nodes are put on it.
  unfoldable pub search_from_start : Neighbors → Option Search
  unfolding loop
  search_from_start neighbors = loop neighbors (suc (suc max_nodes)) initial.queue initial

-- `traversal_path`, from the target back to the start; the lists are built in front, which is the
-- reversal at the end of the source. The walk follows at most `fuel` predecessors.
unfoldable pub traversal_path :
    ℕ → EntityRef → EntityRef → Predecessors → List EntityRef → List Str → TraversalPath
traversal_path zero start cursor predecessors nodes edge_ids = record {
  nodes = nodes;
  edge_ids = edge_ids;
}
traversal_path (suc fuel) start cursor predecessors nodes edge_ids = elim (cursor == start) [
  | true ↦ record { nodes = nodes; edge_ids = edge_ids }
  | false ↦ elim (Assoc.lookup cursor predecessors) [
    | none ↦ record { nodes = nodes; edge_ids = edge_ids }
    | some (previous, edge_id) ↦
        traversal_path fuel start previous predecessors (previous ∷ nodes) (edge_id ∷ edge_ids)
  ]
]

-- what the function returns for the search that ended
unfoldable pub finish : TraversalRequest → Search → TraversalRun
unfolding traversal_path
finish request s = record {
  result = record {
    nodes = OrdSet.remove request.start s.visited;
    edge_ids = s.result_edges;
    truncated = s.truncated;
  };
  path = elim s.matched [
    | none ↦ none
    | some target ↦
        if request.record_path
        then some
            (traversal_path (length s.visited) request.start target s.predecessors (target ∷ []) [])
        else none
  ];
  matched = is_some s.matched;
}

-- `none` would be a search that ran out of fuel.
unfoldable pub run_bounded_traversal : TraversalRequest → Neighbors → Option TraversalRun
unfolding empty_at search_from_start finish
run_bounded_traversal request neighbors =
    if request.target == some request.start
    then some (empty_at request.start request.target)
    else elim (search_from_start request neighbors) [
      | none ↦ none
      | some s ↦ some (finish request s)
    ]
