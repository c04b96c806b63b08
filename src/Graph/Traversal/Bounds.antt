-- ===== src/Graph/Traversal/Bounds.antt =====
-- The search ends, and stays within its bounds.
use myko.Base.{ℕ, zero, suc, ◌+◌, ◌-◌, ◌≤◌, ◌<◌, ◌≡◌, refl, true, false, Option, some}
use myko.Base.{List, [], ◌∷◌, arith, if◌then◌else◌, leb, length, reverse, Bool-cases, inl, inr}
use myko.Base.{length-append}
use myko.Base.Key.{◌==◌, option_key}
use myko.Base.Text.{Str, str_key}
use myko.Base.OrdSet
use myko.Base.OrdSet.{IsAscending}
use myko.Graph.Types.{EntityRef, entity_key}
use myko.Graph.Traversal.{
  TraversalRequest, Search, Neighbors, Flow, next, break, discover, follow, follow_all, round, loop,
  popped, initial, search_from_start, TraversalRun, finish, empty_at, run_bounded_traversal,
}

module _ (request : TraversalRequest) where
  open request use {max_nodes, max_edges, start}

  pub record IsBounded (s : Search) : Type 0 where
    pub ascending : IsAscending s.visited
    pub started : OrdSet.contains start s.visited ≡ true
    pub few_nodes : length s.visited ≤ suc max_nodes
    pub few_edges : s.traversed_edges ≤ max_edges
    pub few_ids : length s.result_edges ≤ s.traversed_edges
    pub ids_ascending : IsAscending s.result_edges

  -- the rounds that are still to come, at most
  abbrev rounds : Search → ℕ
  rounds s = length s.queue + (suc max_nodes - length s.visited)

  abbrev After : ℕ → Flow → Type 0
  After k (next s) = IsBounded s × (rounds s ≡ k)
  After k (break s) = IsBounded s

  discover-After :
      (node : EntityRef) (depth : ℕ) (id : Str) (n : EntityRef) (s : Search)
      → OrdSet.contains n s.visited ≡ false
      → IsBounded s
      → After (rounds s) (discover request node depth id n s)
  unfolding discover
  discover-After node depth id n s new v = ground (
    arith,
    OrdSet.insert-IsAscending n s.visited v.ascending,
    OrdSet.contains-insert start n s.visited,
    OrdSet.length-insert_new n s.visited new,
    length-append s.queue ((n, suc depth) ∷ []),
  )

  follow-After :
      (node : EntityRef) (depth : ℕ) (id : Str) (n : EntityRef) (s : Search)
      → IsBounded s
      → After (rounds s) (follow request node depth id n s)
  unfolding follow
  follow-After node depth id n s v = elim (Bool-cases (leb max_edges s.traversed_edges)) [
    | inl h ↦ rw h (ground arith)
    | inr h ↦
        let counted = record s {
          traversed_edges = suc s.traversed_edges;
          result_edges =
              if request.collect_edges then OrdSet.insert id s.result_edges else s.result_edges;
        } in
        let ok : IsBounded counted = ground (
          arith,
          OrdSet.length-insert id s.result_edges,
          OrdSet.insert-IsAscending id s.result_edges v.ids_ascending,
        ) in
        elim (Bool-cases (OrdSet.contains n s.visited)) [
          | inl old ↦ rw (h, old) (ok, refl)
          | inr new ↦ rw (h, new) (discover-After node depth id n counted new ok)
        ]
  ]

  follow_all-After :
      (node : EntityRef) (depth : ℕ) (edges : List (Str × EntityRef)) (s : Search)
      → IsBounded s
      → After (rounds s) (follow_all request node depth edges s)
  unfolding follow_all
  follow_all-After node depth [] s v = (v, refl)
  follow_all-After node depth ((id, n) ∷ rest) s v =
      go (λ s' v'. follow_all-After node depth rest s' v') (follow request node depth id n s)
        (follow-After node depth id n s v)
    where
      go :
          ((s' : Search) → IsBounded s' → After (rounds s') (follow_all request node depth rest s'))
          → (f : Flow) → After (rounds s) f
          → After
              (rounds s)
              (elim f [ break s' ↦ break s' | next s' ↦ follow_all request node depth rest s' ])
      go ih (break s') a = a
      go ih (next s') a = rw (← a.1) (ih s' a.0)

  round-After :
      (neighbors : Neighbors) (node : EntityRef) (depth : ℕ) (s : Search)
      → IsBounded s
      → After (rounds s) (round request neighbors node depth s)
  unfolding round
  round-After neighbors node depth s v = elim (Bool-cases (leb request.max_depth depth)) [
    | inl h ↦ rw h (v, refl)
    | inr h ↦ rw h (follow_all-After node depth (reverse (neighbors node)) s v)
  ]

  Ends : Option Search → Type 0
  Ends r = (s : Search) × (r ≡ some s) × IsBounded s

  loop-Ends :
      (neighbors : Neighbors) (fuel : ℕ) (queue : List (EntityRef × ℕ)) (s : Search)
      → queue ≡ s.queue
      → IsBounded s
      → rounds s < fuel
      → Ends (loop request neighbors fuel queue s)
  unfolding loop Ends
  loop-Ends neighbors zero queue s q v h = absurd (omega arith)
  loop-Ends neighbors (suc fuel) [] s q v h = (s, refl, v)
  loop-Ends neighbors (suc fuel) ((node, depth) ∷ rest) s q v h =
      go (λ s' v' h'. loop-Ends neighbors fuel s'.queue s' refl v' h')
        (round request neighbors node depth (popped request s rest))
        (round-After neighbors node depth (popped request s rest) below)
    where
      below : IsBounded (popped request s rest)
      below = record {
        ascending = v.ascending;
        started = v.started;
        few_nodes = v.few_nodes;
        few_edges = v.few_edges;
        few_ids = v.few_ids;
        ids_ascending = v.ids_ascending;
      }

      fewer : suc (rounds (popped request s rest)) ≡ rounds s
      fewer = rw (← q) (omega arith)

      go :
          ((s' : Search)
            → IsBounded s'
            → rounds s' < fuel
            → Ends (loop request neighbors fuel s'.queue s'))
          → (f : Flow) → After (rounds (popped request s rest)) f
          → Ends (elim f [ break s' ↦ some s' | next s' ↦ loop request neighbors fuel s'.queue s' ])
      go ih (break s') a = (s', refl, a)
      go ih (next s') a = ih s' a.0 (omega (arith, fewer, a.1))

  initial-IsBounded : IsBounded (initial request)
  unfolding OrdSet.contains
  initial-IsBounded = record {
    ascending = (tt, tt);
    started = ground (arith, entity_key.cmp_refl start);
    few_nodes = omega arith;
    few_edges = omega arith;
    few_ids = omega arith;
    ids_ascending = tt;
  }

  pub search-Ends :
      (neighbors : Neighbors)
      → (s : Search) × (search_from_start request neighbors ≡ some s) × IsBounded s
  unfolding search_from_start Ends
  search-Ends neighbors =
      loop-Ends neighbors (suc (suc max_nodes)) (initial request).queue (initial request) refl
        initial-IsBounded (omega arith)

  -- What the bounds mean for a run.
  pub record Within (run : TraversalRun) : Type 0 where
    pub nodes_bound : length run.result.nodes ≤ max_nodes
    pub edges_bound : length run.result.edge_ids ≤ max_edges
    pub nodes_ascending : IsAscending run.result.nodes
    pub edges_ascending : IsAscending run.result.edge_ids
    pub start_left_out : OrdSet.contains start run.result.nodes ≡ false

  finish-Within : (s : Search) → IsBounded s → Within (finish request s)
  unfolding finish
  finish-Within s v = record {
    nodes_bound = omega (arith, OrdSet.length-remove_member start s.visited v.started, v.few_nodes);
    edges_bound = omega (arith, v.few_ids, v.few_edges);
    nodes_ascending = OrdSet.remove-IsAscending start s.visited v.ascending;
    edges_ascending = v.ids_ascending;
    start_left_out = ground (
      arith,
      OrdSet.contains-remove start start s.visited v.ascending,
      entity_key.cmp_refl start,
    );
  }

  empty_at-Within : Within (empty_at start request.target)
  unfolding empty_at OrdSet.contains
  empty_at-Within = record {
    nodes_bound = omega arith;
    edges_bound = omega arith;
    nodes_ascending = tt;
    edges_ascending = tt;
    start_left_out = refl;
  }

  -- Whatever the neighbors are, the search ends. It reports at most `max_nodes` nodes and at most
  -- `max_edges` edges, both in ascending order without repetition, and never the start.
  pub traversal_total :
      (neighbors : Neighbors)
      → (run : TraversalRun) × (run_bounded_traversal request neighbors ≡ some run) × Within run
  unfolding run_bounded_traversal
  traversal_total neighbors = elim (Bool-cases (request.target == some start)) [
    | inl h ↦ (empty_at start request.target, rw h refl, empty_at-Within)
    | inr h ↦
        let (s, ended, v) = search-Ends neighbors in
        (finish request s, rw (h, run_bounded_traversal, ended) refl, finish-Within s v)
  ]
