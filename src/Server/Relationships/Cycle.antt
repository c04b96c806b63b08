-- ===== src/Server/Relationships/Cycle.antt =====
-- `RelationshipTables::ensure_for_cycle` of libs/myko/core/src/server/relationship_manager.rs: the
-- depth-first search that rejects a cyclic `ensure_for` schema. A call of `visit` nests one level for
-- each type of the graph at most, so fuel for one level more is enough.
pub mod Walks
pub mod Depth
pub mod Finished
pub mod Verdict
use myko.Base.{ℕ, zero, suc, Option, none, some, Bool, true, false, List, [], ◌∷◌, ◌++◌, map}
use myko.Base.{if◌then◌else◌, length}
use myko.Base.Key.{◌==◌, nat_key}
use myko.Base.Text.{Str, str_key}
use myko.Base.Assoc
use myko.Base.Assoc.{Assoc}
use myko.Base.OrdSet
use myko.Server.Relationships.{EnsureForLookup}
use myko.Server.Relationships.Tables.{RelationshipTables}

abbrev pub Graph : Type 0
Graph = Assoc Str (List Str)

-- 1 while a node is on the stack, 2 once it is finished
abbrev pub States : Type 0
States = Assoc Str ℕ

-- The end of a visit: a cycle is returned at once, and otherwise the states and the stack are left
-- as the call changed them.
pub data Visit : Type 0 where
  found : List Str → Visit
  clear : States → List Str → Visit
  out_of_fuel : Visit

-- `stack.iter().position(..)` and `stack.get(start..)`, the whole stack where there is no position
unfoldable pub from_entry : Str → List Str → List Str → List Str
from_entry node whole [] = whole
from_entry node whole (entry ∷ rest) =
    if entry == node then entry ∷ rest else from_entry node whole rest

-- `Vec::pop`
unfoldable pub pop : List Str → List Str
pop [] = []
pop (x ∷ []) = []
pop (x ∷ y ∷ ys) = x ∷ pop (y ∷ ys)

-- `Some(cycle)` is returned at once.
abbrev pub and_then : Visit → (States → List Str → Visit) → Visit
and_then (found cycle) next = found cycle
and_then (clear states stack) next = next states stack
and_then out_of_fuel next = out_of_fuel

unfoldable pub in_state : ℕ → Str → States → Bool
unfolding Assoc.lookup
in_state n node states = elim (Assoc.lookup node states) [ none ↦ false | some state ↦ state == n ]

-- the loop over the dependents
unfoldable pub visit_each : (Str → States → List Str → Visit) → List Str → States → List Str → Visit
visit_each visit [] states stack = clear states stack
visit_each visit (dependent ∷ next) states stack =
    and_then (visit dependent states stack) (visit_each visit next)

abbrev pub dependents : Str → Graph → List Str
dependents node graph = elim (Assoc.lookup node graph) [ none ↦ [] | some next ↦ next ]

-- what follows the loop over the dependents
abbrev pub leave_node : Str → Visit → Visit
leave_node node (found cycle) = found cycle
leave_node node (clear states stack) = clear (Assoc.insert node 2 states) (pop stack)
leave_node node out_of_fuel = out_of_fuel

unfoldable pub visit : ℕ → Graph → Str → States → List Str → Visit
unfolding in_state Assoc.lookup Assoc.insert visit_each from_entry pop
visit zero graph node states stack = out_of_fuel
visit (suc fuel) graph node states stack =
    let entered = leave_node node (
      visit_each (visit fuel graph) (dependents node graph) (Assoc.insert node 1 states)
        (stack ++ (node ∷ []))) in
    if in_state 1 node states
    then found (from_entry node stack stack ++ (node ∷ []))
    else if in_state 2 node states
    then clear states stack
    else entered

-- `graph.keys()`, and the visits from each with an empty stack
unfoldable pub visit_roots : ℕ → Graph → List Str → States → Visit
unfolding visit
visit_roots fuel graph [] states = clear states []
visit_roots fuel graph (node ∷ nodes) states =
    and_then (visit fuel graph node states [])
      (λ states_after _. visit_roots fuel graph nodes states_after)

-- The loops that build the graph: the dependents of a dependency, each once
unfoldable pub add_dependents : Str → List EnsureForLookup → Graph → Graph
unfolding Assoc.lookup Assoc.insert OrdSet.contains
add_dependents dependency [] graph = graph
add_dependents dependency (lookup ∷ lookups) graph =
    let known = dependents dependency graph in
    add_dependents dependency lookups (
      if OrdSet.contains lookup.local_type known
      then Assoc.insert dependency known graph
      else Assoc.insert dependency (known ++ (lookup.local_type ∷ [])) graph)

unfoldable pub dependency_graph : Assoc Str (List EnsureForLookup) → Graph → Graph
unfolding add_dependents
dependency_graph [] graph = graph
dependency_graph ((dependency, lookups) ∷ rest) graph =
    dependency_graph rest (add_dependents dependency lookups graph)

abbrev pub keys {ℓ} : {A : Type ℓ} → Assoc Str A → List Str
keys m = map (λ entry. entry.0) m

abbrev pub enough_fuel : Graph → ℕ
enough_fuel graph = suc (length graph)

unfoldable pub graph_cycle : Graph → Visit
unfolding visit_roots
graph_cycle graph = visit_roots (enough_fuel graph) graph (keys graph) []

abbrev pub reported : Visit → Option (List Str)
reported (found cycle) = some cycle
reported _ = none

unfoldable pub ensure_for_cycle : RelationshipTables → Option (List Str)
unfolding dependency_graph graph_cycle
ensure_for_cycle tables =
    reported (graph_cycle (dependency_graph tables.ensure_for_by_dependency []))
