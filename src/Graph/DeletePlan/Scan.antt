-- ===== src/Graph/DeletePlan/Scan.antt =====
-- What a scan of a store gives for the ends that are not projected.
use myko.Base.{◌≡◌, refl, sym, ◌∙◌, true, false, Option, some}
use myko.Base.{List, [], ◌∷◌, arith, Bool-cases, Option-cases, inl, inr}
use myko.Base.Key.{◌==◌, eq_of_==, pair_key}
use myko.Base.Text.{Str, str_key}
use myko.Base.Assoc
use myko.Base.Assoc.{Assoc}
use myko.Graph.Types.{AnyItem, EntityRef, IndexedEdge, EndPosition, end_a, end_b, entity_key}
use myko.Graph.Types.{EndpointDeletePolicy}
use myko.Graph.Incidence.Tracks.{Edges}
use myko.Graph.Index.{EdgeRegistration, GraphIndex, projects_endpoint, indexed}
use myko.Graph.Index.Represents.{edge_of}
use myko.Graph.DeletePlan.{EdgeName, Planned, cascading, refused, delete_policy}
use myko.Graph.DeletePlan.{plan_end, plan_ends, plan_scan}
use myko.Graph.DeletePlan.Ends.{is_named, allows, is_incident, Grows, Passes, AllowsAll}
use myko.Graph.DeletePlan.Ends.{EndAllowed, then-passes, allows-Grows, allows_nothing}
use myko.Graph.DeletePlan.Ends.{plan_end-passes}

-- a store that files each item once, under its id
abbrev pub IsStore : Assoc Str AnyItem → Type 0
IsStore [] = Unit
IsStore ((j, item) ∷ rest) = (item.id ≡ j) × IsStore rest

-- the canonical edges of a store
abbrev pub edges_of : EdgeRegistration → Assoc Str AnyItem → Edges
edges_of r items id = edge_of r (Assoc.lookup id items)

-- both ends of one edge type, after a scan
unfoldable pub Scanned :
    GraphIndex → EntityRef → Str → EdgeRegistration → Edges → List EdgeName → Type 0
Scanned g endpoint t r edges names =
    (position : EndPosition)
    → projects_endpoint g t position ≡ false
    → AllowsAll endpoint t r edges position names

pub AllowsAll-Grows :
    (endpoint : EntityRef) (t : Str) (r : EdgeRegistration) (edges : Edges) (position : EndPosition)
    (before after : List EdgeName)
    → Grows before after
    → AllowsAll endpoint t r edges position before
    → AllowsAll endpoint t r edges position after
AllowsAll-Grows endpoint t r edges position before after g h id =
    allows-Grows (delete_policy r position) (is_incident endpoint position (edges id)) t id before
      after g (h id)

indexed-id :
    (r : EdgeRegistration) (item : AnyItem) (e : IndexedEdge)
    → indexed r item ≡ some e
    → e.id ≡ item.id
unfolding indexed
indexed-id r item e h = ground arith

BothEnds : GraphIndex → EntityRef → Str → EdgeRegistration → IndexedEdge → List EdgeName → Type 0
BothEnds g endpoint t r e names =
    (position : EndPosition) → EndAllowed g endpoint t r e position names

plan_ends-passes :
    (g : GraphIndex) (endpoint : EntityRef) (t : Str) (r : EdgeRegistration) (e : IndexedEdge)
    (names : List EdgeName)
    → Passes names (plan_ends g endpoint t r e names) (BothEnds g endpoint t r e)
unfolding BothEnds plan_ends
plan_ends-passes g endpoint t r e names =
    then-passes names (plan_end g endpoint t r e end_a names) (plan_end g endpoint t r e end_b)
      (EndAllowed g endpoint t r e end_a) (BothEnds g endpoint t r e)
      (plan_end-passes g endpoint t r e end_a names)
      (λ mid a.
        go mid a (plan_end g endpoint t r e end_b mid) (plan_end-passes g endpoint t r e end_b mid))
  where
    go :
        (mid : List EdgeName)
        → EndAllowed g endpoint t r e end_a mid
        → (plan : Planned) → Passes mid plan (EndAllowed g endpoint t r e end_b)
        → Passes mid plan (BothEnds g endpoint t r e)
    go mid a (refused error) h = tt
    go mid a (cascading last) h = (
      h.0,
      elim [
        | end_a ↦ λ e₀.
            allows-Grows r.a_delete (is_incident endpoint end_a (some e)) t e.id mid last h.0 (a e₀)
        | end_b ↦ h.1
      ],
    )

moved :
    (policy : EndpointDeletePolicy) (endpoint : EntityRef) (position : EndPosition) (t : Str)
    (names : List EdgeName) {o o' : Option IndexedEdge} {id id' : Str}
    → o ≡ o'
    → id ≡ id'
    → allows policy (is_incident endpoint position o) (is_named t id names) ≡ true
    → allows policy (is_incident endpoint position o') (is_named t id' names) ≡ true
moved policy endpoint position t names p q h = cc (p, q, h)

pub plan_scan-passes :
    (g : GraphIndex) (endpoint : EntityRef) (t : Str) (r : EdgeRegistration)
    (items : Assoc Str AnyItem) (names : List EdgeName)
    → IsStore items
    → Passes names
        (plan_scan g endpoint t r items names)
        (Scanned g endpoint t r (edges_of r items))
unfolding plan_scan Scanned Assoc.lookup BothEnds
plan_scan-passes g endpoint t r [] names s =
    (λ x h. h, λ position e id. allows_nothing (delete_policy r position) (is_named t id names))
plan_scan-passes g endpoint t r ((j, item) ∷ items) names s = elim (Option-cases (indexed r item)) [
  | inl q ↦ rw (q, plan_scan) tt
  | inr (e, q) ↦
      rw (q, plan_scan)
        (then-passes names (plan_ends g endpoint t r e names) (plan_scan g endpoint t r items)
          (BothEnds g endpoint t r e) (Scanned g endpoint t r (edges_of r ((j, item) ∷ items)))
          (plan_ends-passes g endpoint t r e names)
          (λ mid both.
            go e q mid both (plan_scan g endpoint t r items mid)
              (plan_scan-passes g endpoint t r items mid s.1)))
]
  where
    j-is : (e : IndexedEdge) → indexed r item ≡ some e → (id : Str) → (j == id) ≡ true → e.id ≡ id
    j-is e q id same = indexed-id r item e q ∙ s.0 ∙ eq_of_== j id same

    here : (id : Str) → (j == id) ≡ true → edges_of r ((j, item) ∷ items) id ≡ indexed r item
    here id same = rw (same, Assoc.lookup) refl

    go :
        (e : IndexedEdge)
        → indexed r item ≡ some e
        → (mid : List EdgeName) → BothEnds g endpoint t r e mid
        → (plan : Planned) → Passes mid plan (Scanned g endpoint t r (edges_of r items))
        → Passes mid plan (Scanned g endpoint t r (edges_of r ((j, item) ∷ items)))
    go e q mid both (refused error) h = tt
    go e q mid both (cascading last) h = (
      h.0,
      λ position off id. elim (Bool-cases (j == id)) [
        | inl same ↦
            moved (delete_policy r position) endpoint position t last (sym (here id same ∙ q))
              (j-is e q id same)
              (allows-Grows (delete_policy r position) (is_incident endpoint position (some e)) t
                e.id mid last h.0 (both position off))
        | inr other ↦ rw (other, Assoc.lookup) (h.1 position off id)
      ],
    )
