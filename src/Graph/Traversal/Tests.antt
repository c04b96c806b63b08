-- ===== src/Graph/Traversal/Tests.antt =====
-- A search over four nodes, and instances of the theorems.
use myko.Base.{ℕ, ◌≡◌, refl, true, false, some, [], ◌∷◌, eqb}
use myko.Base.{if◌then◌else◌}
use myko.Base.Key.{option_key, cmp_option}
use myko.Base.OrdSet
use myko.Base.Assoc
use myko.Base.Text.{Str, str, str_key}
use myko.Graph.Types.{EntityRef, entity_key}
use myko.Graph.Traversal.{TraversalRequest, TraversalRun, Neighbors, run_bounded_traversal}
use myko.Graph.Traversal.Bounds.{Within, traversal_total}
use myko.Graph.Traversal.Reached.{Justified, traversal_sound}

abbrev node : ℕ → EntityRef
node n = record { entity_type = str "Node"; id = n ∷ [] }

abbrev first_of : Str → ℕ
first_of [] = 0
first_of (c ∷ cs) = c

-- Edges 1 → 2, 1 → 3 and 2 → 4, each buffer in descending order of the edge ids.
abbrev neighbors : Neighbors
neighbors u =
    let n = first_of u.id in
    if eqb n 1
    then (str "b", node 3) ∷ (str "a", node 2) ∷ []
    else if eqb n 2
    then (str "c", node 4) ∷ []
    else []

abbrev request : TraversalRequest
request = record {
  start = node 1;
  max_depth = 5;
  max_nodes = 10;
  max_edges = 10;
  collect_edges = true;
  target = some (node 4);
  record_path = true;
}

found :
    run_bounded_traversal request neighbors
    ≡ some (record {
      result = record {
        nodes = node 2 ∷ node 3 ∷ node 4 ∷ [];
        edge_ids = str "a" ∷ str "b" ∷ str "c" ∷ [];
        truncated = false;
      };
      path =
          some
            (record { nodes = node 1 ∷ node 2 ∷ node 4 ∷ []; edge_ids = str "a" ∷ str "c" ∷ [] });
      matched = true;
    })
unfolding run_bounded_traversal str_key entity_key option_key cmp_option OrdSet.contains
    OrdSet.insert OrdSet.remove Assoc.lookup Assoc.insert
found = refl

traversal_total_example :
    (run : TraversalRun) × (run_bounded_traversal request neighbors ≡ some run) × Within request run
traversal_total_example = traversal_total request neighbors

traversal_sound_example :
    (run : TraversalRun) × (run_bounded_traversal request neighbors ≡ some run)
    × Justified request neighbors run
traversal_sound_example = traversal_sound request neighbors
