-- ===== src/Graph/DeletePlan/Complete.antt =====
-- The loops over the edge types, and the whole plan.
use myko.Base.{◌≡◌, refl, ◌∙◌, ap, true, false, ◌&&◌, ◌||◌, Option, none, some}
use myko.Base.{List, [], ◌∷◌, arith, Bool-cases, Option-cases, inl, inr}
use mathlib.Core.Path.{subst}
use mathlib.Core.Option.{some-injective}
use myko.Base.Key.{◌==◌, eq_of_==}
use myko.Base.Text.{Str, str_key}
use myko.Base.Assoc
use myko.Base.Assoc.{Assoc}
use myko.Graph.Types.{AnyItem, EntityRef, IndexedEdge, EndPosition, end_a, end_b, entity_key}
use myko.Graph.Incidence.Tracks.{in_bucket, keyed}
use myko.Graph.Index.{EdgeRegistration, EdgeTypeState, GraphIndex, projects_endpoint}
use myko.Graph.Index.{type_state, registration}
use myko.Graph.Index.Represents.{a_entity_of, b_entity_of, Represents}
use myko.Graph.Index.Faithful.{Canonical, IsFaithful}
use myko.Graph.DeletePlan.{EdgeName, Planned, cascading, refused, then_plan, delete_policy}
use myko.Graph.DeletePlan.{entities_at, plan_projected, plan_both, plan_indexed}
use myko.Graph.DeletePlan.{needs_scan, plan_scan, plan_scans, delete_names}
use myko.Graph.DeletePlan.Ends.{
  is_named, is_incident, Grows, IfPlanned, Passes, AllowsAll, then-passes, allows_idle,
  plan_projected-passes,
}
use myko.Graph.DeletePlan.Scan.{IsStore, edges_of, Scanned, AllowsAll-Grows, plan_scan-passes}

-- each edge type is registered once
abbrev pub Distinct : Assoc Str EdgeRegistration → Type 0
Distinct [] = Unit
Distinct ((t, r) ∷ rest) = (Assoc.lookup t rest ≡ none) × Distinct rest

-- a fact of every registered edge type
abbrev pub Every : Assoc Str EdgeRegistration → (Str → EdgeRegistration → Type 0) → Type 0
Every rs holds = (t : Str) (r : EdgeRegistration) → Assoc.lookup t rs ≡ some r → holds t r

module _ (t₀ : Str) (r₀ : EdgeRegistration) (rest : Assoc Str EdgeRegistration)
    (holds : Str → EdgeRegistration → Type 0) where
  pub Every-tail : Assoc.lookup t₀ rest ≡ none → Every ((t₀, r₀) ∷ rest) holds → Every rest holds
  unfolding Assoc.lookup
  Every-tail once every t r found = elim (Bool-cases (t₀ == t)) [
    | inl same ↦ absurd (clash (ap (λ u. Assoc.lookup u rest) (eq_of_== t₀ t same)))
    | inr other ↦ every t r (rw (other, Assoc.lookup) found)
  ]
    where
      clash : Assoc.lookup t₀ rest ≡ Assoc.lookup t rest → ⊥
      clash p = cc (p, once, found)

  pub Every-head : Every ((t₀, r₀) ∷ rest) holds → holds t₀ r₀
  unfolding Assoc.lookup
  Every-head every = every t₀ r₀ (ground (arith, str_key.cmp_refl t₀))

  pub Every-cons : holds t₀ r₀ → Every rest holds → Every ((t₀, r₀) ∷ rest) holds
  unfolding Assoc.lookup
  Every-cons h every t r found = elim (Bool-cases (t₀ == t)) [
    | inl same ↦
        subst (λ u. holds u r) (eq_of_== t₀ t same)
          (subst (holds t₀) (some-injective r₀ r (rw (same, Assoc.lookup) at found)) h)
    | inr other ↦ every t r (rw (other, Assoc.lookup) at found)
  ]

-- a fact of an edge type and the names planned, kept as names are added
abbrev Post : Type 1
Post = Str → EdgeRegistration → List EdgeName → Type 0

module _ (post : Post)
    (kept : (t : Str) (r : EdgeRegistration) (before after : List EdgeName)
      → Grows before after
      → post t r before
      → post t r after) where
  cons-passes :
      (t₀ : Str) (r₀ : EdgeRegistration) (rest : Assoc Str EdgeRegistration) (names : List EdgeName)
      (plan : Planned) (next : List EdgeName → Planned)
      → Passes names plan (post t₀ r₀)
      → ((mid : List EdgeName)
          → Passes mid (next mid) (λ after. Every rest (λ t r. post t r after)))
      → Passes names
          (then_plan plan next)
          (λ after. Every ((t₀, r₀) ∷ rest) (λ t r. post t r after))
  cons-passes t₀ r₀ rest names plan next first others =
      then-passes names plan next (post t₀ r₀)
        (λ after. Every ((t₀, r₀) ∷ rest) (λ t r. post t r after)) first
        (λ mid h. go mid h (next mid) (others mid))
    where
      go :
          (mid : List EdgeName)
          → post t₀ r₀ mid
          → (plan : Planned) → Passes mid plan (λ after. Every rest (λ t r. post t r after))
          → Passes mid plan (λ after. Every ((t₀, r₀) ∷ rest) (λ t r. post t r after))
      go mid h (refused error) q = tt
      go mid h (cascading last) q =
          (q.0, Every-cons t₀ r₀ rest (λ t r. post t r last) (kept t₀ r₀ mid last q.0 h) q.1)

module _ (g : GraphIndex) (endpoint : EntityRef) (canonical : Canonical) where
  -- the projected ends of one edge type
  abbrev Indexed : Post
  Indexed t r names =
      (position : EndPosition)
      → projects_endpoint g t position ≡ true
      → AllowsAll endpoint t r (canonical t) position names

  -- the bucket of the entity at each projected end holds the incident edges
  abbrev Buckets : Str → EdgeTypeState → Type 0
  Buckets t st =
      (position : EndPosition) (id : Str)
      → projects_endpoint g t position ≡ true
      → in_bucket id (Assoc.lookup endpoint (entities_at st position))
        ≡ is_incident endpoint position (canonical t id)

  Indexed-kept :
      (t : Str) (r : EdgeRegistration) (before after : List EdgeName)
      → Grows before after
      → Indexed t r before
      → Indexed t r after
  Indexed-kept t r before after grows h position on =
      AllowsAll-Grows endpoint t r (canonical t) position before after grows (h position on)

  plan_both-passes :
      (t : Str) (r : EdgeRegistration) (st : EdgeTypeState) (names : List EdgeName)
      → Buckets t st
      → Passes names (plan_both g endpoint t r st names) (Indexed t r)
  unfolding plan_both
  plan_both-passes t r st names reads =
      then-passes names (plan_projected g endpoint t r st end_b names)
        (plan_projected g endpoint t r st end_a) (at end_b) (Indexed t r)
        (plan_projected-passes g endpoint t r st (canonical t) end_b names (reads end_b))
        (λ mid b.
          go mid b (plan_projected g endpoint t r st end_a mid)
            (plan_projected-passes g endpoint t r st (canonical t) end_a mid (reads end_a)))
    where
      at : EndPosition → List EdgeName → Type 0
      at position after =
          projects_endpoint g t position ≡ true
          → AllowsAll endpoint t r (canonical t) position after

      go :
          (mid : List EdgeName)
          → at end_b mid
          → (plan : Planned) → Passes mid plan (at end_a)
          → Passes mid plan (Indexed t r)
      go mid b (refused error) h = tt
      go mid b (cascading last) h = (
        h.0,
        elim [
          | end_a ↦ h.1
          | end_b ↦ λ on. AllowsAll-Grows endpoint t r (canonical t) end_b mid last h.0 (b on)
        ],
      )

  state_found :
      (t : Str) (st : EdgeTypeState)
      → Assoc.lookup t g.state.edge_types ≡ some st
      → type_state g t ≡ st
  unfolding type_state
  state_found t st q = rw (q, type_state) refl

  no_state :
      (t : Str) (r : EdgeRegistration) (names : List EdgeName)
      → Assoc.lookup t g.state.edge_types ≡ none
      → Buckets t (type_state g t)
      → Indexed t r names
  unfolding type_state Assoc.lookup
  no_state t r names q reads end_a on id =
      allows_idle r.a_delete (is_incident endpoint end_a (canonical t id)) (is_named t id names)
        (ground (arith, q, reads end_a id on))
  no_state t r names q reads end_b on id =
      allows_idle r.b_delete (is_incident endpoint end_b (canonical t id)) (is_named t id names)
        (ground (arith, q, reads end_b id on))

  plan_indexed-passes :
      (rs : Assoc Str EdgeRegistration) (names : List EdgeName)
      → Distinct rs
      → Every rs (λ t r. Buckets t (type_state g t))
      → Passes names
          (plan_indexed g endpoint rs names)
          (λ after. Every rs (λ t r. Indexed t r after))
  unfolding plan_indexed Assoc.lookup
  plan_indexed-passes [] names once reads = (λ x h. h, λ t r found. absurd (ground (arith, found)))
  plan_indexed-passes ((t, r) ∷ rest) names once reads =
      let later = Every-tail t r rest (λ u _. Buckets u (type_state g u)) once.0 reads in
      let now = Every-head t r rest (λ u _. Buckets u (type_state g u)) reads in
      elim (Option-cases (Assoc.lookup t g.state.edge_types)) [
        | inl q ↦
            rw (q, plan_indexed)
              (cons-passes Indexed Indexed-kept t r rest names (cascading names)
                (plan_indexed g endpoint rest) (λ x h. h, no_state t r names q now)
                (λ mid. plan_indexed-passes rest mid once.1 later))
        | inr (st, q) ↦
            rw (q, plan_indexed)
              (cons-passes Indexed Indexed-kept t r rest names (plan_both g endpoint t r st names)
                (plan_indexed g endpoint rest)
                (plan_both-passes t r st names (subst (Buckets t) (state_found t st q) now))
                (λ mid. plan_indexed-passes rest mid once.1 later))
      ]

  -- the canonical edges are those of the store, if there is one
  abbrev pub StoredAs : Str → EdgeRegistration → Option (Assoc Str AnyItem) → Type 0
  StoredAs t r none = (id : Str) → canonical t id ≡ none
  StoredAs t r (some items) = IsStore items × ((id : Str) → canonical t id ≡ edges_of r items id)

  -- the ends of one edge type that are not projected
  abbrev Unindexed : Post
  Unindexed t r names =
      (position : EndPosition)
      → projects_endpoint g t position ≡ false
      → AllowsAll endpoint t r (canonical t) position names

  Unindexed-kept :
      (t : Str) (r : EdgeRegistration) (before after : List EdgeName)
      → Grows before after
      → Unindexed t r before
      → Unindexed t r after
  Unindexed-kept t r before after grows h position off =
      AllowsAll-Grows endpoint t r (canonical t) position before after grows (h position off)

  no_scan :
      (t : Str) (r : EdgeRegistration) (names : List EdgeName)
      → (needs_scan g t r end_a || needs_scan g t r end_b) ≡ false
      → Unindexed t r names
  no_scan t r names idle end_a off id =
      allows_idle r.a_delete (is_incident endpoint end_a (canonical t id)) (is_named t id names)
        (ground (arith, idle, off))
  no_scan t r names idle end_b off id =
      allows_idle r.b_delete (is_incident endpoint end_b (canonical t id)) (is_named t id names)
        (ground (arith, idle, off))

  no_store :
      (t : Str) (r : EdgeRegistration) (names : List EdgeName)
      → ((id : Str) → canonical t id ≡ none)
      → Unindexed t r names
  no_store t r names gone position off id =
      allows_idle (delete_policy r position) (is_incident endpoint position (canonical t id))
        (is_named t id names) (ground (arith, gone id))

  store_scanned :
      (t : Str) (r : EdgeRegistration) (items : Assoc Str AnyItem) (names : List EdgeName)
      → ((id : Str) → canonical t id ≡ edges_of r items id)
      → (plan : Planned) → Passes names plan (Scanned g endpoint t r (edges_of r items))
      → Passes names plan (Unindexed t r)
  unfolding Scanned
  store_scanned t r items names same (refused error) h = tt
  store_scanned t r items names same (cascading after) h =
      (h.0, λ position off id. rw (same id) (h.1 position off id))

  plan_scans-passes :
      (rs : Assoc Str EdgeRegistration) (names : List EdgeName)
      → Distinct rs
      → Every rs (λ t r. StoredAs t r (Assoc.lookup t g.registry))
      → Passes names
          (plan_scans g endpoint rs names)
          (λ after. Every rs (λ t r. Unindexed t r after))
  unfolding plan_scans Assoc.lookup
  plan_scans-passes [] names once stored = (λ x h. h, λ t r found. absurd (ground (arith, found)))
  plan_scans-passes ((t, r) ∷ rest) names once stored =
      let later =
        Every-tail t r rest (λ u s. StoredAs u s (Assoc.lookup u g.registry)) once.0 stored in
      let now = Every-head t r rest (λ u s. StoredAs u s (Assoc.lookup u g.registry)) stored in
      elim (Bool-cases (needs_scan g t r end_a || needs_scan g t r end_b)) [
        | inr idle ↦
            rw (idle, plan_scans)
              (cons-passes Unindexed Unindexed-kept t r rest names (cascading names)
                (plan_scans g endpoint rest) (λ x h. h, no_scan t r names idle)
                (λ mid. plan_scans-passes rest mid once.1 later))
        | inl busy ↦ elim (Option-cases (Assoc.lookup t g.registry)) [
          | inl q ↦
              rw (busy, q, plan_scans)
                (cons-passes Unindexed Unindexed-kept t r rest names (cascading names)
                  (plan_scans g endpoint rest)
                  (λ x h. h, no_store t r names (subst (StoredAs t r) q now))
                  (λ mid. plan_scans-passes rest mid once.1 later))
          | inr (items, q) ↦
              let kept = subst (StoredAs t r) q now in
              rw (busy, q, plan_scans)
                (cons-passes Unindexed Unindexed-kept t r rest names
                  (plan_scan g endpoint t r items names) (plan_scans g endpoint rest)
                  (store_scanned t r items names kept.1 (plan_scan g endpoint t r items names)
                    (plan_scan-passes g endpoint t r items names kept.0))
                  (λ mid. plan_scans-passes rest mid once.1 later))
        ]
      ]

  Buckets-faithful :
      (t : Str) (r : EdgeRegistration)
      → r.edge_type ≡ t
      → Represents
          (projects_endpoint g r.edge_type end_a)
          (projects_endpoint g r.edge_type end_b)
          r
          (type_state g t)
          (canonical t)
      → Buckets t (type_state g t)
  Buckets-faithful t r own v end_a id on =
      reads (canonical t id) (v.tracks_a_entities.members endpoint id)
    where
      reads :
          (o : Option IndexedEdge)
          → in_bucket id (Assoc.lookup endpoint (type_state g t).a_entities)
            ≡ (projects_endpoint g r.edge_type end_a && keyed a_entity_of endpoint o)
          → in_bucket id (Assoc.lookup endpoint (type_state g t).a_entities)
            ≡ is_incident endpoint end_a o
      reads none h = ground (arith, h)
      reads (some e) h = h ∙ rw (own, on) refl
  Buckets-faithful t r own v end_b id on =
      reads (canonical t id) (v.tracks_b_entities.members endpoint id)
    where
      reads :
          (o : Option IndexedEdge)
          → in_bucket id (Assoc.lookup endpoint (type_state g t).b_entities)
            ≡ (projects_endpoint g r.edge_type end_b && keyed b_entity_of endpoint o)
          → in_bucket id (Assoc.lookup endpoint (type_state g t).b_entities)
            ≡ is_incident endpoint end_b o
      reads none h = ground (arith, h)
      reads (some e) h = h ∙ rw (own, on) refl

  -- every end of every edge
  abbrev pub Allowed : Post
  Allowed t r names = (position : EndPosition) → AllowsAll endpoint t r (canonical t) position names

  pub delete_names-passes :
      IsFaithful g canonical
      → Distinct g.registrations
      → Every g.registrations (λ t r. StoredAs t r (Assoc.lookup t g.registry))
      → IfPlanned
          (delete_names g endpoint)
          (λ names. Every g.registrations (λ t r. Allowed t r names))
  unfolding delete_names registration
  delete_names-passes faithful once stored = go (plan_indexed g endpoint g.registrations []) (
      plan_indexed-passes g.registrations [] once
        (λ t r found. Buckets-faithful t r (faithful t r found).0 (faithful t r found).1))
    where
      both :
          (mid : List EdgeName)
          → Every g.registrations (λ t r. Indexed t r mid)
          → (plan : Planned)
          → Passes mid plan (λ after. Every g.registrations (λ t r. Unindexed t r after))
          → IfPlanned plan (λ names. Every g.registrations (λ t r. Allowed t r names))
      both mid i (refused error) h = tt
      both mid i (cascading last) h = λ t r found position.
          elim (Bool-cases (projects_endpoint g t position)) [
            | inl on ↦ Indexed-kept t r mid last h.0 (i t r found) position on
            | inr off ↦ h.1 t r found position off
          ]

      go :
          (plan : Planned)
          → Passes [] plan (λ after. Every g.registrations (λ t r. Indexed t r after))
          → IfPlanned
              (then_plan plan (plan_scans g endpoint g.registrations))
              (λ names. Every g.registrations (λ t r. Allowed t r names))
      go (refused error) h = tt
      go (cascading mid) h =
          both mid h.1 (plan_scans g endpoint g.registrations mid)
            (plan_scans-passes g.registrations mid once stored)
