-- ===== src/Graph/Between/Exact.antt =====
-- The edges that the projections report between two endpoints are exactly the canonical ones.
use myko.Base.{◌≡◌, refl, ◌∙◌, Bool, true, false, not, ◌&&◌, ◌||◌, Option, none, some, List, []}
use myko.Base.{if◌then◌else◌, arith, leb, is_none_or, Bool-cases, Option-cases, inl, inr}
use myko.Base.Key.{◌==◌, option_key}
use myko.Base.Text.{Str, str_key}
use myko.Base.Assoc
use myko.Base.OrdSet
use myko.Base.OrdSet.{IsAscending}
use myko.Graph.EdgeIds
use myko.Graph.EdgeIds.{EdgeIds, one, many}
use myko.Graph.EdgeIds.Refines.{IsValid, extend_cloned-IsAscending, contains-extend_cloned}
use myko.Graph.Incidence.Tracks.{in_bucket, ValidBucket, has, Edges}
use myko.Graph.Types.{IndexValue, EndpointValue, IndexedEdge, endpoint_key, end_a, end_b}
use myko.Graph.Index.{
  EdgeRegistration, EdgeTypeState, GraphIndex, is_undirected, endpoints_match, projects_endpoint,
}
use myko.Graph.Index.Represents.{Represents}
use myko.Graph.Between.{
  in_scope, accepted_ids, intersect, extend_from, candidates, indexed_ids_between,
}

-- Whether an edge, if there is one, joins the endpoints in the scope.
abbrev pub joins :
    EdgeRegistration → EndpointValue → EndpointValue → Option IndexValue → Option IndexedEdge → Bool
joins r x y scope none = false
joins r x y scope (some e) = endpoints_match r e.endpoints x y && in_scope scope e.scope

contains-accepted_ids :
    (p : Str) (f : Str → Bool) (e : EdgeIds)
    → OrdSet.contains p (accepted_ids f e) ≡ (f p && EdgeIds.contains p e)
unfolding accepted_ids EdgeIds.contains OrdSet.contains
contains-accepted_ids p f (one id) = ground (arith, str_key.eq_of_cmp id p)
contains-accepted_ids p f (many ids) = OrdSet.contains-filter p f ids

accepted_ids-IsAscending :
    (f : Str → Bool) (e : EdgeIds) → IsValid e → IsAscending (accepted_ids f e)
unfolding accepted_ids
accepted_ids-IsAscending f (one id) v = elim (Bool-cases (f id)) [
  | inl h ↦ rw h (tt, tt)
  | inr h ↦ rw h tt
]
accepted_ids-IsAscending f (many ids) v = OrdSet.filter-IsAscending f ids v.0

abbrev scope_holds : EdgeTypeState → Option IndexValue → Str → Bool
scope_holds st scope id =
    is_none_or scope
      (λ s. elim (Assoc.lookup id st.edges) [ none ↦ false | some edge ↦ edge.scope == some s ])

contains-intersect :
    (p : Str) (st : EdgeTypeState) (scope : Option IndexValue) (o₁ o₂ : Option EdgeIds)
    → OrdSet.contains p (intersect st scope o₁ o₂)
      ≡ (in_bucket p o₁ && in_bucket p o₂ && scope_holds st scope p)
unfolding intersect OrdSet.contains
contains-intersect p st scope none o₂ = refl
contains-intersect p st scope (some a_ids) none = ground arith
contains-intersect p st scope (some a_ids) (some b_ids) =
    elim (Bool-cases (leb (EdgeIds.len a_ids) (EdgeIds.len b_ids))) [
      | inl h ↦ rw h (
          ground (
            arith,
            contains-accepted_ids p (λ id. EdgeIds.contains id b_ids && scope_holds st scope id)
                a_ids,
          ))
      | inr h ↦ rw h (
          ground (
            arith,
            contains-accepted_ids p (λ id. EdgeIds.contains id a_ids && scope_holds st scope id)
                b_ids,
          ))
    ]

intersect-IsAscending :
    (st : EdgeTypeState) (scope : Option IndexValue) (o₁ o₂ : Option EdgeIds)
    → ValidBucket o₁
    → ValidBucket o₂
    → IsAscending (intersect st scope o₁ o₂)
unfolding intersect
intersect-IsAscending st scope none o₂ v w = tt
intersect-IsAscending st scope (some a_ids) none v w = tt
intersect-IsAscending st scope (some a_ids) (some b_ids) v w =
    elim (Bool-cases (leb (EdgeIds.len a_ids) (EdgeIds.len b_ids))) [
      | inl h ↦ rw h (accepted_ids-IsAscending _ a_ids v)
      | inr h ↦ rw h (accepted_ids-IsAscending _ b_ids w)
    ]

contains-extend_from :
    (p : Str) (o : Option EdgeIds) (target : List Str)
    → OrdSet.contains p (extend_from o target) ≡ (in_bucket p o || OrdSet.contains p target)
unfolding extend_from
contains-extend_from p none target = refl
contains-extend_from p (some e) target = ground (arith, contains-extend_cloned p e target)

extend_from-IsAscending :
    (o : Option EdgeIds) (target : List Str)
    → IsAscending target
    → IsAscending (extend_from o target)
unfolding extend_from
extend_from-IsAscending none target s = s
extend_from-IsAscending (some e) target s = extend_cloned-IsAscending e target s

-- one optional step of `candidates`
contains-step :
    (p : Str) (b : Bool) (o : Option EdgeIds) (c : List Str)
    → OrdSet.contains p (if b then extend_from o c else c)
      ≡ ((b && in_bucket p o) || OrdSet.contains p c)
contains-step p true o c = contains-extend_from p o c
contains-step p false o c = refl

step-IsAscending :
    (b : Bool) (o : Option EdgeIds) (c : List Str)
    → IsAscending c
    → IsAscending (if b then extend_from o c else c)
step-IsAscending true o c s = extend_from-IsAscending o c s
step-IsAscending false o c s = s

contains-candidates :
    (p : Str) (a b u : Bool) (st : EdgeTypeState) (x y : EndpointValue)
    → OrdSet.contains p (candidates a b u st x y) ≡ (
        ((b && u) && has x p st.at_b)
        || ((b && has y p st.at_b) || (((a && u) && has y p st.at_a) || (a && has x p st.at_a))))
unfolding candidates OrdSet.contains
contains-candidates p a b u st x y =
    let c₁ = if a then extend_from (Assoc.lookup x st.at_a) [] else [] in
    let c₂ = if a && u then extend_from (Assoc.lookup y st.at_a) c₁ else c₁ in
    let c₃ = if b then extend_from (Assoc.lookup y st.at_b) c₂ else c₂ in
    ground (
      arith,
      contains-step p a (Assoc.lookup x st.at_a) [],
      contains-step p (a && u) (Assoc.lookup y st.at_a) c₁,
      contains-step p b (Assoc.lookup y st.at_b) c₂,
      contains-step p (b && u) (Assoc.lookup x st.at_b) c₃,
    )

candidates-IsAscending :
    (a b u : Bool) (st : EdgeTypeState) (x y : EndpointValue)
    → IsAscending (candidates a b u st x y)
unfolding candidates
candidates-IsAscending a b u st x y =
    step-IsAscending (b && u) _ _
      (step-IsAscending b _ _ (step-IsAscending (a && u) _ _ (step-IsAscending a _ [] tt)))

module _ (g : GraphIndex) (r : EdgeRegistration) (st : EdgeTypeState) (edges : Edges) where
  with_a : Bool
  with_a = projects_endpoint g r.edge_type end_a

  with_b : Bool
  with_b = projects_endpoint g r.edge_type end_b

  test : EndpointValue → EndpointValue → Option IndexValue → Str → Bool
  test x y scope id = elim (Assoc.lookup id st.edges) [
    | none ↦ false
    | some edge ↦ endpoints_match r edge.endpoints x y && in_scope scope edge.scope
  ]

  test_lem :
      (x y : EndpointValue) (scope : Option IndexValue) (p : Str)
      → (with_a || with_b) ≡ true
      → Represents with_a with_b r st edges
      → test x y scope p ≡ joins r x y scope (edges p)
  unfolding test
  test_lem x y scope p any v = ground (arith, v.retained p)

  covered :
      (x y : EndpointValue) (scope : Option IndexValue) (p : Str)
      → (with_a || with_b) ≡ true
      → Represents with_a with_b r st edges
      → joins r x y scope (edges p) ≡ true
      → OrdSet.contains p (candidates with_a with_b (is_undirected r.shape) st x y) ≡ true
  unfolding endpoints_match
  covered x y scope p any v h = ground (
    arith,
    contains-candidates p with_a with_b (is_undirected r.shape) st x y,
    v.tracks_a.members x p,
    v.tracks_a.members y p,
    v.tracks_b.members x p,
    v.tracks_b.members y p,
  )

  direct :
      (x y : EndpointValue) (scope : Option IndexValue) (p : Str)
      → (with_a && with_b && not (is_undirected r.shape)) ≡ true
      → Represents with_a with_b r st edges
      → (has x p st.at_a && has y p st.at_b && scope_holds st scope p) ≡ joins r x y scope (edges p)
  unfolding endpoints_match
  direct x y scope p h v = elim (Option-cases scope) [
    | inl e ↦ rw e (ground (arith, v.tracks_a.members x p, v.tracks_b.members y p, v.retained p))
    | inr (s, e) ↦
        rw e (ground (arith, v.tracks_a.members x p, v.tracks_b.members y p, v.retained p))
  ]

  -- Where an end of the edge type is projected and the projections are those of `edges`, the ids
  -- reported between two endpoints are ascending, and an id is among them exactly when its edge
  -- joins the endpoints, in either direction if edges are undirected, and lies in the scope asked
  -- for.
  pub indexed_ids_between-exact :
      (x y : EndpointValue) (scope : Option IndexValue) (p : Str)
      → (projects_endpoint g r.edge_type end_a || projects_endpoint g r.edge_type end_b) ≡ true
      → Represents
          (projects_endpoint g r.edge_type end_a)
          (projects_endpoint g r.edge_type end_b)
          r
          st
          edges
      → (OrdSet.contains p (indexed_ids_between g r st x y scope) ≡ joins r x y scope (edges p))
        × IsAscending (indexed_ids_between g r st x y scope)
  unfolding indexed_ids_between with_a with_b test
  indexed_ids_between-exact x y scope p any v =
      elim (Bool-cases (with_a && with_b && not (is_undirected r.shape))) [
        | inl h ↦ rw h (
          contains-intersect p st scope _ _ ∙ direct x y scope p h v,
          intersect-IsAscending st scope _ _ (v.tracks_a.valid x) (v.tracks_b.valid y),
        )
        | inr h ↦
            let c = candidates with_a with_b (is_undirected r.shape) st x y in
            rw h (
              OrdSet.contains-filter p (test x y scope) c
                  ∙ ground (arith, test_lem x y scope p any v, covered x y scope p any v),
              OrdSet.filter-IsAscending (test x y scope) c
                  (candidates-IsAscending with_a with_b (is_undirected r.shape) st x y),
            )
      ]
