-- ===== src/Server/Relationships/Cycle/Verdict.antt =====
-- What the search for a cycle says of the graph of the `ensure_for` relations.
use myko.Base.{◌≡◌, refl, none, some, Bool, List, [], ◌∷◌}
use myko.Base.{◌++◌, if◌then◌else◌, arith, Option-cases, inl, inr, ◌||◌, ◌&&◌, any, ◌≢◌}
use mathlib.Core.Path.{subst}
use myko.Base.Key.{◌==◌}
use myko.Base.Text.{Str, str_key}
use myko.Base.Assoc
use myko.Base.Assoc.{Assoc, lookup-insert}
use myko.Base.OrdSet
use myko.Server.Relationships.{EnsureForLookup}
use myko.Server.Relationships.Tables.{RelationshipTables}
use myko.Server.Relationships.Cycle.{Graph, States, Visit, found, clear, out_of_fuel}
use myko.Server.Relationships.Cycle.{dependents, keys, enough_fuel, graph_cycle}
use myko.Server.Relationships.Cycle.{reported, add_dependents, dependency_graph, ensure_for_cycle}
use myko.Server.Relationships.Cycle.Finished.{Edge, Safe, safe, Finishes, FinishesIfClear}
use myko.Server.Relationships.Cycle.Finished.{visit_roots-finishes}
use myko.Server.Relationships.Cycle.Walks.{IsWalk, IsCycle, Sound, visit_roots-Sound}
use myko.Server.Relationships.Cycle.Depth.{graph_cycle-ends}

-- a walk of at least one edge
data Reach (graph : Graph) : Str → Str → Type 0 where
  one_edge : {x y : Str} → Edge graph x y → Reach graph x y
  edge_then : {x y z : Str} → Edge graph x y → Reach graph y z → Reach graph x z

Reach-last : {graph : Graph} {x y z : Str} → Reach graph x y → Edge graph y z → Reach graph x z
Reach-last (one_edge e) f = edge_then e (one_edge f)
Reach-last (edge_then e r) f = edge_then e (Reach-last r f)

Reach-walk :
    (graph : Graph) (x z : Str) (between : List Str)
    → IsWalk graph (x ∷ (between ++ (z ∷ [])))
    → Reach graph x z
Reach-walk graph x z [] w = one_edge w.0
Reach-walk graph x z (y ∷ between) w = edge_then w.0 (Reach-walk graph y z between w.1)

Safe-no_return : {graph : Graph} {x : Str} → Safe graph x → ¬ Reach graph x x
Safe-no_return (safe next) (one_edge e) = Safe-no_return (next _ e) (one_edge e)
Safe-no_return (safe next) (edge_then e r) = Safe-no_return (next _ e) (Reach-last r e)

contains-keys :
    (x : Str) (graph : Graph) → OrdSet.contains x (keys graph) ≡ Assoc.contains_key x graph
unfolding OrdSet.contains Assoc.contains_key Assoc.lookup
contains-keys x [] = refl
contains-keys x ((j, next) ∷ graph) = ground (arith, contains-keys x graph)

leaf-Safe : (graph : Graph) (x : Str) → Assoc.lookup x graph ≡ none → Safe graph x
unfolding OrdSet.contains
leaf-Safe graph x h = safe (λ y e. absurd (ground (arith, e, h)))

all-Safe :
    (graph : Graph) (states : States)
    → Finishes graph (keys graph) [] states
    → (x : Str) → Safe graph x
unfolding Assoc.contains_key
all-Safe graph states f x = elim (Option-cases (Assoc.lookup x graph)) [
  | inl e ↦ leaf-Safe graph x e
  | inr (next, e) ↦ f.all_safe x (f.done x (ground (arith, e, contains-keys x graph)))
]

not_found-Safe :
    (graph : Graph) (r : Visit)
    → r ≢ out_of_fuel
    → FinishesIfClear graph (keys graph) [] r
    → reported r ≡ none
    → (x : Str) → Safe graph x
not_found-Safe graph (found c) h f e x = cc
not_found-Safe graph out_of_fuel h f e x = absurd (h refl)
not_found-Safe graph (clear states stack) h f e x = all-Safe graph states f x

found-IsCycle :
    (graph : Graph) (r : Visit) (cycle : List Str)
    → Sound graph [] r
    → reported r ≡ some cycle
    → IsCycle graph cycle
found-IsCycle graph (found c) cycle h e = let same : c ≡ cycle = cc in subst (IsCycle graph) same h
found-IsCycle graph out_of_fuel cycle h e = cc
found-IsCycle graph (clear states stack) cycle h e = cc

abbrev pub graph_of : RelationshipTables → Graph
graph_of tables = dependency_graph tables.ensure_for_by_dependency []

-- A cycle that is reported is a closed walk of the graph of the `ensure_for` relations.
pub ensure_for_cycle-IsCycle :
    (tables : RelationshipTables) (cycle : List Str)
    → ensure_for_cycle tables ≡ some cycle
    → IsCycle (graph_of tables) cycle
unfolding ensure_for_cycle graph_cycle Assoc.lookup
ensure_for_cycle-IsCycle tables cycle h =
    let graph = dependency_graph tables.ensure_for_by_dependency [] in
    found-IsCycle graph (graph_cycle graph) cycle
      (visit_roots-Sound graph (enough_fuel graph) (keys graph) [] (λ x e. cc)) h

-- If no cycle is reported, the graph of the `ensure_for` relations has none.
pub ensure_for_cycle-none :
    (tables : RelationshipTables) (walk : List Str)
    → ensure_for_cycle tables ≡ none
    → ¬ IsCycle (graph_of tables) walk
unfolding ensure_for_cycle graph_cycle Assoc.lookup
ensure_for_cycle-none tables walk h c =
    let graph = dependency_graph tables.ensure_for_by_dependency [] in
    Safe-no_return
      (not_found-Safe graph (graph_cycle graph) (graph_cycle-ends graph)
        (visit_roots-finishes graph (enough_fuel graph) (keys graph) [] (λ x e. cc)) h c.start)
      (Reach-walk graph c.start c.start c.between (subst (IsWalk graph) c.is_closed c.is_walk))

-- the edges that the lookups of a dependency stand for
abbrev derives : Str → List EnsureForLookup → Bool
derives local_type lookups = any (λ lookup. lookup.local_type == local_type) lookups

abbrev relates : Str → Str → Assoc Str (List EnsureForLookup) → Bool
relates x y m = any (λ entry. entry.0 == x && derives y entry.1) m

-- the dependents of a node, counted on to those of an entry
contains-dependents :
    (x y dependency : Str) (next : List Str) (graph : Graph)
    → OrdSet.contains y (dependents x (Assoc.insert dependency next graph))
      ≡ (if dependency == x then OrdSet.contains y next else OrdSet.contains y (dependents x graph))
contains-dependents x y dependency next graph =
    rw (dependents, lookup-insert dependency x next graph) (ground arith)

contains-append_one :
    (y z : Str) (xs : List Str)
    → OrdSet.contains y (xs ++ (z ∷ [])) ≡ (OrdSet.contains y xs || (z == y))
unfolding OrdSet.contains
contains-append_one y z [] = ground arith
contains-append_one y z (x ∷ xs) = ground (arith, contains-append_one y z xs)

edge-add_dependents :
    (x y dependency : Str) (lookups : List EnsureForLookup) (graph : Graph)
    → OrdSet.contains y (dependents x (add_dependents dependency lookups graph))
      ≡ ((dependency == x && derives y lookups) || OrdSet.contains y (dependents x graph))
unfolding add_dependents any
edge-add_dependents x y dependency [] graph = ground arith
edge-add_dependents x y dependency (lookup ∷ lookups) graph =
    let known = dependents dependency graph in
    let pushed = known ++ (lookup.local_type ∷ []) in
    ground (
      arith,
      edge-add_dependents x y dependency lookups (Assoc.insert dependency known graph),
      edge-add_dependents x y dependency lookups (Assoc.insert dependency pushed graph),
      contains-dependents x y dependency known graph,
      contains-dependents x y dependency pushed graph,
      contains-append_one y lookup.local_type known,
      str_key.eq_of_cmp dependency x,
      str_key.eq_of_cmp lookup.local_type y,
    )

edge-dependency_graph :
    (x y : Str) (m : Assoc Str (List EnsureForLookup)) (graph : Graph)
    → OrdSet.contains y (dependents x (dependency_graph m graph))
      ≡ (relates x y m || OrdSet.contains y (dependents x graph))
unfolding dependency_graph any
edge-dependency_graph x y [] graph = ground arith
edge-dependency_graph x y ((dependency, lookups) ∷ m) graph = ground (
  arith,
  edge-dependency_graph x y m (add_dependents dependency lookups graph),
  edge-add_dependents x y dependency lookups graph,
)

-- The graph that is searched has an edge from one entity type to another exactly if a lookup under
-- the first one creates items of the second.
edge-graph_of :
    (x y : Str) (tables : RelationshipTables)
    → OrdSet.contains y (dependents x (graph_of tables))
      ≡ relates x y tables.ensure_for_by_dependency
unfolding Assoc.lookup OrdSet.contains
edge-graph_of x y tables =
    ground (arith, edge-dependency_graph x y tables.ensure_for_by_dependency [])
