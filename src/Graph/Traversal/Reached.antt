-- ===== src/Graph/Traversal/Reached.antt =====
-- What the search reports can be walked to from the start.
use mathlib.Core.List.{reverse-append}
use myko.Base.{
  ℕ, zero, suc, ◌-◌, ◌≤◌, ◌<◌, ◌≡◌, ◌⊎◌, refl, sym, Bool, true, false, not, ◌&&◌, Option, none,
  some,
}
use myko.Base.{
  List, [], ◌∷◌, ◌++◌, arith, if◌then◌else◌, leb, length, reverse, Bool-cases, Option-cases,
  is_some, ap, inl, inr, ◌||◌,
}
use mathlib.Core.Path.{subst}
use mathlib.Core.Option.{some-injective}
use myko.Base.Key.{◌==◌, option_key, eq_of_==}
use myko.Base.Text.{Str, str_key}
use myko.Base.OrdSet
use myko.Graph.Types.{EntityRef, entity_key}
use myko.Graph.Traversal.{
  TraversalRequest, Search, Neighbors, Flow, next, break, discover, follow, follow_all, round, loop,
  popped, initial, search_from_start, TraversalRun, finish, empty_at, run_bounded_traversal,
}
use myko.Graph.Traversal.Bounds.{IsBounded, search-Ends}

abbrev pub InList : {A : Type 0} → A → List A → Type 0
InList x [] = ⊥
InList x (y ∷ ys) = (x ≡ y) ⊎ InList x ys

module _ {A : Type 0} (P : A → Type 0) where
  abbrev All : List A → Type 0
  All [] = Unit
  All (y ∷ rest) = P y × All rest

  All-snoc : (ys : List A) (y : A) → All ys → P y → All (ys ++ y ∷ [])
  All-snoc [] y all holds = (holds, tt)
  All-snoc (z ∷ rest) y all holds = (all.0, All-snoc rest y all.1 holds)

  All-reverse : (ys : List A) → All ys → All (reverse ys)
  All-reverse [] all = tt
  All-reverse (y ∷ rest) all =
      subst All (sym (reverse-append (y ∷ []) rest))
        (All-snoc (reverse rest) y (All-reverse rest all.1) all.0)

All-imp :
    {A : Type 0} {P Q : A → Type 0} → ((x : A) → P x → Q x) → (xs : List A) → All P xs → All Q xs
All-imp f [] h = tt
All-imp f (x ∷ xs) h = (f x h.0, All-imp f xs h.1)

All-in : {A : Type 0} (xs : List A) → All (λ x. InList x xs) xs
All-in [] = tt
All-in (x ∷ xs) = (inl refl, All-imp (λ y h. inr h) xs (All-in xs))

-- A walk of a number of edges from the start, along the neighbors.
pub data Walk (neighbors : Neighbors) (start : EntityRef) : ℕ → EntityRef → Type 0 where
  here : Walk neighbors start zero start
  along :
      {d : ℕ} {u : EntityRef} (id : Str) (v : EntityRef)
      → Walk neighbors start d u
      → InList (id, v) (neighbors u)
      → Walk neighbors start (suc d) v

module _ (request : TraversalRequest) (neighbors : Neighbors) where
  open request use {start, max_depth}

  -- a walk within the depth bound
  abbrev pub Near : EntityRef → Type 0
  Near v = (d : ℕ) × (d ≤ max_depth) × Walk neighbors start d v

  -- an edge that leaves a node at a depth below the bound
  abbrev pub Crossed : Str → Type 0
  Crossed id =
      (d : ℕ) × (u v : EntityRef) × (d < max_depth)
      × Walk neighbors start d u
      × InList (id, v) (neighbors u)

  pub record IsSound (s : Search) : Type 0 where
    pub near : (v : EntityRef) → OrdSet.contains v s.visited ≡ true → Near v
    pub crossed : (id : Str) → OrdSet.contains id s.result_edges ≡ true → Crossed id
    pub queued : All (λ q. Walk neighbors start q.1 q.0) s.queue
    pub hit :
        (t : EntityRef)
        → s.matched ≡ some t
        → (request.target ≡ some t) × (OrdSet.contains t s.visited ≡ true)

  abbrev Keeps : Flow → Type 0
  Keeps (next s) = IsSound s × (s.matched ≡ none)
  Keeps (break s) = IsSound s

  Near-insert :
      (n : EntityRef) (visited : List EntityRef)
      → Near n
      → ((v : EntityRef) → OrdSet.contains v visited ≡ true → Near v)
      → (v : EntityRef) → OrdSet.contains v (OrdSet.insert n visited) ≡ true
      → Near v
  Near-insert n visited w h v q = elim (Bool-cases (n == v)) [
    | inl e ↦ subst Near (eq_of_== n v e) w
    | inr e ↦ h v (rest e (OrdSet.contains-insert v n visited))
  ]
    where
      rest :
          (n == v) ≡ false
          → OrdSet.contains v (OrdSet.insert n visited) ≡ ((n == v) || OrdSet.contains v visited)
          → OrdSet.contains v visited ≡ true
      rest e c = ground (arith, q)

  Crossed-insert :
      (id : Str) (ids : List Str)
      → Crossed id
      → ((i : Str) → OrdSet.contains i ids ≡ true → Crossed i)
      → (i : Str) → OrdSet.contains i (OrdSet.insert id ids) ≡ true
      → Crossed i
  Crossed-insert id ids w h i q = elim (Bool-cases (id == i)) [
    | inl e ↦ subst Crossed (eq_of_== id i e) w
    | inr e ↦ h i (rest e (OrdSet.contains-insert i id ids))
  ]
    where
      rest :
          (id == i) ≡ false
          → OrdSet.contains i (OrdSet.insert id ids) ≡ ((id == i) || OrdSet.contains i ids)
          → OrdSet.contains i ids ≡ true
      rest e c = ground (arith, q)

  discover-Keeps :
      (node : EntityRef) (depth : ℕ) (id : Str) (n : EntityRef) (s : Search)
      → depth < max_depth
      → Walk neighbors start depth node
      → InList (id, n) (neighbors node)
      → s.matched ≡ none
      → IsSound s
      → Keeps (discover request node depth id n s)
  unfolding discover
  discover-Keeps node depth id n s deep w adjacent unmatched v =
      let walk : Walk neighbors start (suc depth) n = along id n w adjacent in
      let near' = Near-insert n s.visited (suc depth, deep, walk) v.near in
      let at_n = OrdSet.contains-insert n n s.visited in
      elim (Bool-cases (leb request.max_nodes (length s.visited - 1))) [
        | inl full ↦
            rw full (record { near = v.near; crossed = v.crossed; queued = v.queued; hit = v.hit })
        | inr room ↦ elim (Bool-cases (request.target == some n)) [
          | inl hit ↦
              rw (room, hit)
                (record {
                  near = near';
                  crossed = v.crossed;
                  queued = v.queued;
                  hit = λ t q.
                      ground
                        (arith, eq_of_== request.target (some n) hit, at_n, entity_key.cmp_refl n);
                })
          | inr miss ↦
              rw (room, miss)
                (
                  record {
                    near = near';
                    crossed = v.crossed;
                    queued = All-snoc _ s.queue (n, suc depth) v.queued walk;
                    hit = λ t q. cc;
                  },
                  unmatched,
                )
        ]
      ]

  follow-Keeps :
      (node : EntityRef) (depth : ℕ) (id : Str) (n : EntityRef) (s : Search)
      → depth < max_depth
      → Walk neighbors start depth node
      → InList (id, n) (neighbors node)
      → s.matched ≡ none
      → IsSound s
      → Keeps (follow request node depth id n s)
  unfolding follow
  follow-Keeps node depth id n s deep w adjacent unmatched v =
      let ids = if request.collect_edges then OrdSet.insert id s.result_edges else s.result_edges in
      let counted = record s { traversed_edges = suc s.traversed_edges; result_edges = ids } in
      let ok : IsSound counted = record {
        near = v.near;
        crossed = collected (depth, node, n, deep, w, adjacent) request.collect_edges;
        queued = v.queued;
        hit = v.hit;
      } in
      elim (Bool-cases (leb request.max_edges s.traversed_edges)) [
        | inl full ↦
            rw full (record { near = v.near; crossed = v.crossed; queued = v.queued; hit = v.hit })
        | inr room ↦ elim (Bool-cases (OrdSet.contains n s.visited)) [
          | inl old ↦ rw (room, old) (ok, unmatched)
          | inr new ↦
              rw (room, new) (discover-Keeps node depth id n counted deep w adjacent unmatched ok)
        ]
      ]
    where
      collected :
          Crossed id
          → (b : Bool) (i : Str)
          → OrdSet.contains i (if b then OrdSet.insert id s.result_edges else s.result_edges) ≡ true
          → Crossed i
      collected c true = Crossed-insert id s.result_edges c v.crossed
      collected c false = v.crossed

  follow_all-Keeps :
      (node : EntityRef) (depth : ℕ) (edges : List (Str × EntityRef)) (s : Search)
      → depth < max_depth
      → Walk neighbors start depth node
      → All (λ e. InList e (neighbors node)) edges
      → s.matched ≡ none
      → IsSound s
      → Keeps (follow_all request node depth edges s)
  unfolding follow_all
  follow_all-Keeps node depth [] s deep w all unmatched v = (v, unmatched)
  follow_all-Keeps node depth ((id, n) ∷ rest) s deep w all unmatched v =
      go (λ s' m' v'. follow_all-Keeps node depth rest s' deep w all.1 m' v')
        (follow request node depth id n s) (follow-Keeps node depth id n s deep w all.0 unmatched v)
    where
      go :
          ((s' : Search)
            → s'.matched ≡ none
            → IsSound s'
            → Keeps (follow_all request node depth rest s'))
          → (f : Flow) → Keeps f
          → Keeps (elim f [ break s' ↦ break s' | next s' ↦ follow_all request node depth rest s' ])
      go ih (break s') a = a
      go ih (next s') a = ih s' a.1 a.0

  round-Keeps :
      (node : EntityRef) (depth : ℕ) (s : Search)
      → Walk neighbors start depth node
      → s.matched ≡ none
      → IsSound s
      → Keeps (round request neighbors node depth s)
  unfolding round
  round-Keeps node depth s w unmatched v = elim (Bool-cases (leb max_depth depth)) [
    | inl deep ↦ rw deep (v, unmatched)
    | inr shallow ↦ rw shallow (
        follow_all-Keeps node depth (reverse (neighbors node)) s (ground arith) w
          (All-reverse _ (neighbors node) (All-in (neighbors node))) unmatched v)
  ]

  loop-IsSound :
      (fuel : ℕ) (queue : List (EntityRef × ℕ)) (s s' : Search)
      → queue ≡ s.queue
      → s.matched ≡ none
      → IsSound s
      → loop request neighbors fuel queue s ≡ some s'
      → IsSound s'
  unfolding loop
  loop-IsSound zero queue s s' q m v h = absurd (cc h)
  loop-IsSound (suc fuel) [] s s' q m v h = subst IsSound (some-injective s s' h) v
  loop-IsSound (suc fuel) ((node, depth) ∷ rest) s s' q m v h =
      go (λ t m' v'. loop-IsSound fuel t.queue t s' refl m' v')
        (round request neighbors node depth (popped request s rest))
        (round-Keeps node depth (popped request s rest) front.0 m below) h
    where
      front : All (λ q. Walk neighbors start q.1 q.0) ((node, depth) ∷ rest)
      front =
          subst (λ l. All (λ (q : EntityRef × ℕ). Walk neighbors start q.1 q.0) l) (sym q) v.queued

      below : IsSound (popped request s rest)
      below = record { near = v.near; crossed = v.crossed; queued = front.1; hit = v.hit }

      go :
          ((t : Search)
            → t.matched ≡ none
            → IsSound t
            → loop request neighbors fuel t.queue t ≡ some s'
            → IsSound s')
          → (f : Flow) → Keeps f
          → ◌≡◌ {A = Option Search}
              (elim f [ break t ↦ some t | next t ↦ loop request neighbors fuel t.queue t ])
              (some s')
          → IsSound s'
      go ih (break t) a e = subst IsSound (some-injective t s' e) a
      go ih (next t) a e = ih t a.1 a.0 e

  initial-IsSound : IsSound (initial request)
  unfolding OrdSet.contains
  initial-IsSound = record {
    near = λ v q. (0, omega arith, subst (Walk neighbors start 0) (only_start v q) here);
    crossed = λ id q. cc;
    queued = (here, tt);
    hit = λ t q. cc;
  }
    where
      only_start : (v : EntityRef) → OrdSet.contains v (start ∷ []) ≡ true → start ≡ v
      only_start v q = ground (arith, entity_key.eq_of_cmp start v)

  -- What a run reports, and how it stands to the walks from the start.
  pub record Justified (run : TraversalRun) : Type 0 where
    pub nodes_near : (v : EntityRef) → OrdSet.contains v run.result.nodes ≡ true → Near v
    pub edges_crossed : (id : Str) → OrdSet.contains id run.result.edge_ids ≡ true → Crossed id
    pub matched_near : run.matched ≡ true → (t : EntityRef) × (request.target ≡ some t) × Near t

  finish-Justified : (s : Search) → IsBounded request s → IsSound s → Justified (finish request s)
  unfolding finish
  finish-Justified s b v = record {
    nodes_near = λ n q. v.near n (kept n (OrdSet.contains-remove n start s.visited b.ascending) q);
    edges_crossed = v.crossed;
    matched_near = λ q. found (Option-cases s.matched) q;
  }
    where
      kept :
          (n : EntityRef)
          → OrdSet.contains n (OrdSet.remove start s.visited)
            ≡ (not (start == n) && OrdSet.contains n s.visited)
          → OrdSet.contains n (OrdSet.remove start s.visited) ≡ true
          → OrdSet.contains n s.visited ≡ true
      kept n e q = ground arith

      found :
          (s.matched ≡ none) ⊎ ((t : EntityRef) × (s.matched ≡ some t))
          → is_some s.matched ≡ true
          → (t : EntityRef) × (request.target ≡ some t) × Near t
      found (inl e) q = absurd (cc (ap is_some e, q))
      found (inr (t, e)) q = let (aim, seen) = v.hit t e in (t, aim, v.near t seen)

  empty_at-Justified : Justified (empty_at start request.target)
  unfolding empty_at OrdSet.contains
  empty_at-Justified = record {
    nodes_near = λ v q. absurd (cc q);
    edges_crossed = λ id q. absurd (cc q);
    matched_near = λ q. (start, eq_of_== request.target (some start) q, (0, omega arith, here));
  }

  -- The search ends, and all that it reports is real: every node is the end of a walk of at most
  -- `max_depth` edges from the start, every edge leaves the end of a walk of fewer edges than that,
  -- and a match means that the target is the end of such a walk.
  pub traversal_sound :
      (run : TraversalRun) × (run_bounded_traversal request neighbors ≡ some run) × Justified run
  unfolding run_bounded_traversal search_from_start
  traversal_sound = elim (Bool-cases (request.target == some start)) [
    | inl h ↦ (empty_at start request.target, rw h refl, empty_at-Justified)
    | inr h ↦
        let (s, ended, b) = search-Ends request neighbors in
        let sound =
          loop-IsSound (suc (suc request.max_nodes)) (initial request).queue (initial request) s
            refl refl initial-IsSound ended in
        (finish request s, rw (h, run_bounded_traversal, ended) refl, finish-Justified s b sound)
  ]
