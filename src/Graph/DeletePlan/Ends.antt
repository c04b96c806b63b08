-- ===== src/Graph/DeletePlan/Ends.antt =====
-- What one end of an edge, or of a whole edge type, asks of a plan that is not refused.
use myko.Base.{◌≡◌, refl, sym, ◌∙◌, ap, Bool, true, false, not, ◌||◌, Option, none, some}
use myko.Base.{List, [], ◌∷◌, map, if◌then◌else◌, arith, Bool-cases, Option-cases, inl, inr}
use mathlib.Core.Path.{subst}
use myko.Base.Key.{Key, ◌==◌, pair_key}
use myko.Base.Text.{Str, str_key}
use myko.Base.Assoc
use myko.Base.Assoc.{Assoc}
use myko.Base.OrdSet
use myko.Base.OrdSet.{contains-insert, contains-extend}
use myko.Graph.EdgeIds
use myko.Graph.EdgeIds.{EdgeIds, one, many, ids}
use myko.Graph.EdgeIds.Refines.{contains-ids}
use myko.Graph.Types.{EntityRef, IndexedEdge, EndPosition, entity_key}
use myko.Graph.Types.{EndpointDeletePolicy, cascade_edge, restrict_endpoint_delete, retain_dangling}
use myko.Graph.Incidence.Tracks.{Edges, in_bucket}
use myko.Graph.Index.{EdgeRegistration, EdgeTypeState, GraphIndex, projects_endpoint}
use myko.Graph.DeletePlan.{
  EdgeName, edge_name, Planned, cascading, refused, then_plan, delete_policy,
}
use myko.Graph.DeletePlan.{entities_at, plan_bucket, plan_projected, is_retained}
use myko.Graph.DeletePlan.{value_at, incident_at, plan_end}

abbrev name_eq : Key EdgeName
name_eq = pair_key

abbrev pub is_named : Str → Str → List EdgeName → Bool
is_named edge_type id names = OrdSet.contains (edge_type, id) names

-- What an end of an edge, incident or not, asks of a plan: an incident one must not be restricted,
-- and it must be named if it cascades.
abbrev pub allows : EndpointDeletePolicy → Bool → Bool → Bool
allows restrict_endpoint_delete incident named = not incident
allows cascade_edge incident named = not incident || named
allows retain_dangling incident named = true

abbrev pub is_incident : EntityRef → EndPosition → Option IndexedEdge → Bool
is_incident endpoint position none = false
is_incident endpoint position (some e) = (value_at e position).entity == endpoint

abbrev pub Grows : List EdgeName → List EdgeName → Type 0
Grows before after =
    (x : EdgeName) → OrdSet.contains x before ≡ true → OrdSet.contains x after ≡ true

-- what holds of the names if there is a plan
abbrev pub IfPlanned : Planned → (List EdgeName → Type 0) → Type 0
IfPlanned (cascading names) holds = holds names
IfPlanned (refused _) holds = Unit

abbrev pub Passes : List EdgeName → Planned → (List EdgeName → Type 0) → Type 0
Passes before plan holds = IfPlanned plan (λ after. Grows before after × holds after)

pub then-passes :
    (before : List EdgeName) (plan : Planned) (next : List EdgeName → Planned)
    (first second : List EdgeName → Type 0)
    → Passes before plan first
    → ((names : List EdgeName) → first names → Passes names (next names) second)
    → Passes before (then_plan plan next) second
then-passes before (refused e) next first second p q = tt
then-passes before (cascading names) next first second p q = go (next names) (q names p.1)
  where
    go : (plan : Planned) → Passes names plan second → Passes before plan second
    go (refused e) r = tt
    go (cascading last) r = (λ x h. r.0 x (p.0 x h), r.1)

-- All edges of a type are allowed at one end.
abbrev pub AllowsAll :
    EntityRef → Str → EdgeRegistration → Edges → EndPosition → List EdgeName → Type 0
AllowsAll endpoint t r edges position names =
    (id : Str)
    → allows (delete_policy r position) (is_incident endpoint position (edges id))
        (is_named t id names)
      ≡ true

pub allows-Grows :
    (policy : EndpointDeletePolicy) (incident : Bool) (t id : Str) (before after : List EdgeName)
    → Grows before after
    → allows policy incident (is_named t id before) ≡ true
    → allows policy incident (is_named t id after) ≡ true
allows-Grows restrict_endpoint_delete incident t id before after g h = h
allows-Grows cascade_edge incident t id before after g h = ground (arith, h, g (t, id))
allows-Grows retain_dangling incident t id before after g h = refl

pub allows_nothing :
    (policy : EndpointDeletePolicy) (named : Bool) → allows policy false named ≡ true
allows_nothing restrict_endpoint_delete named = refl
allows_nothing cascade_edge named = refl
allows_nothing retain_dangling named = refl

contains-names :
    (t id : Str) (xs : List Str)
    → OrdSet.contains (edge_name t id) (map (edge_name t) xs) ≡ OrdSet.contains id xs
unfolding OrdSet.contains pair_key
contains-names t id [] = refl
contains-names t id (x ∷ xs) = ground (arith, str_key.cmp_refl t, contains-names t id xs)

abbrev pub Bucketed : Str → EndpointDeletePolicy → EdgeIds → List EdgeName → Type 0
Bucketed t policy bucket names =
    (id : Str) → allows policy (EdgeIds.contains id bucket) (is_named t id names) ≡ true

plan_bucket-passes :
    (t : Str) (position : EndPosition) (policy : EndpointDeletePolicy) (bucket : EdgeIds)
    (names : List EdgeName)
    → Passes names (plan_bucket t position policy bucket names) (Bucketed t policy bucket)
unfolding plan_bucket EdgeIds.contains EdgeIds.first OrdSet.contains
plan_bucket-passes t position restrict_endpoint_delete (one x) names = tt
plan_bucket-passes t position restrict_endpoint_delete (many []) names = (λ x h. h, λ id. refl)
plan_bucket-passes t position restrict_endpoint_delete (many (x ∷ xs)) names = tt
plan_bucket-passes t position cascade_edge bucket names =
    let new = map (edge_name t) (ids bucket) in
    (
      λ x h. ground (arith, h, contains-extend x names new),
      λ id. ground (
        arith,
        contains-extend (edge_name t id) names new,
        contains-names t id (ids bucket),
        contains-ids id bucket,
      ),
    )
plan_bucket-passes t position retain_dangling bucket names = (λ x h. h, λ id. refl)

pub plan_projected-passes :
    (g : GraphIndex) (endpoint : EntityRef) (t : Str) (r : EdgeRegistration) (st : EdgeTypeState)
    (edges : Edges) (position : EndPosition) (names : List EdgeName)
    → ((id : Str)
        → projects_endpoint g t position ≡ true
        → in_bucket id (Assoc.lookup endpoint (entities_at st position))
          ≡ is_incident endpoint position (edges id))
    → Passes names (plan_projected g endpoint t r st position names) (λ after.
      projects_endpoint g t position ≡ true → AllowsAll endpoint t r edges position after)
unfolding plan_projected
plan_projected-passes g endpoint t r st edges position names reads =
    elim (Bool-cases (projects_endpoint g t position)) [
      | inr e ↦ rw (e, plan_projected) (λ x h. h, λ h. absurd (ground (arith, e, h)))
      | inl e ↦ elim (Option-cases (Assoc.lookup endpoint (entities_at st position))) [
        | inl q ↦
            rw (e, q, plan_projected)
              (
                λ x h. h,
                λ _ id. ground (
                  arith,
                  q,
                  reads id e,
                  allows_nothing (delete_policy r position) (is_named t id names),
                ),
              )
        | inr (bucket, q) ↦
            rw (e, q, plan_projected)
              (go (true ≡ true) e bucket q
                (plan_bucket t position (delete_policy r position) bucket names)
                (plan_bucket-passes t position (delete_policy r position) bucket names))
      ]
    ]
  where
    go :
        (P : Type 0)
        → projects_endpoint g t position ≡ true
        → (bucket : EdgeIds) → Assoc.lookup endpoint (entities_at st position) ≡ some bucket
        → (plan : Planned) → Passes names plan (Bucketed t (delete_policy r position) bucket)
        → Passes names plan (λ after. P → AllowsAll endpoint t r edges position after)
    go P e bucket q (refused error) h = tt
    go P e bucket q (cascading after) h = (
      h.0,
      λ _ id.
          subst (λ b. allows (delete_policy r position) b (is_named t id after) ≡ true)
            (ap (in_bucket id) (sym q) ∙ reads id e) (h.1 id),
    )

-- an end whose policy asks nothing, or at which nothing is incident
pub allows_idle :
    (policy : EndpointDeletePolicy) (incident named : Bool)
    → (is_retained policy || not incident) ≡ true
    → allows policy incident named ≡ true
allows_idle restrict_endpoint_delete incident named h = h
allows_idle cascade_edge incident named h = ground (arith, h)
allows_idle retain_dangling incident named h = refl

abbrev pub EndAllowed :
    GraphIndex
    → EntityRef
    → Str
    → EdgeRegistration
    → IndexedEdge
    → EndPosition
    → List EdgeName
    → Type 0
EndAllowed g endpoint t r e position names =
    projects_endpoint g t position ≡ false
    → allows (delete_policy r position) (is_incident endpoint position (some e))
        (is_named t e.id names)
      ≡ true

pub plan_end-passes :
    (g : GraphIndex) (endpoint : EntityRef) (t : Str) (r : EdgeRegistration) (e : IndexedEdge)
    (position : EndPosition) (names : List EdgeName)
    → Passes names (plan_end g endpoint t r e position names) (EndAllowed g endpoint t r e position)
unfolding plan_end
plan_end-passes g endpoint t r e position names =
    go (projects_endpoint g t position) (delete_policy r position)
      (is_incident endpoint position (some e))
  where
    go :
        (projected : Bool) (policy : EndpointDeletePolicy) (incident : Bool)
        → IfPlanned
            (if projected || is_retained policy || not incident
              then cascading names
              else elim policy [
                | restrict_endpoint_delete ↦ refused (incident_at t e.id position)
                | cascade_edge ↦ cascading (OrdSet.insert (edge_name t e.id) names)
                | retain_dangling ↦ cascading names
              ])
            (λ after.
              ((x : EdgeName) → OrdSet.contains x names ≡ true → OrdSet.contains x after ≡ true)
              × (projected ≡ false → allows policy incident (is_named t e.id after) ≡ true))
    go true policy incident = (λ x h. h, λ h. absurd (ground (arith, h)))
    go false retain_dangling incident = (λ x h. h, λ h. refl)
    go false restrict_endpoint_delete true = tt
    go false restrict_endpoint_delete false = (λ x h. h, λ h. refl)
    go false cascade_edge false = (λ x h. h, λ h. refl)
    go false cascade_edge true = (
      λ x h. ground (arith, h, contains-insert x (edge_name t e.id) names),
      λ h. ground (
        arith,
        contains-insert (edge_name t e.id) (edge_name t e.id) names,
        name_eq.cmp_refl (edge_name t e.id),
      ),
    )
