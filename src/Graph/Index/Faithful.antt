-- ===== src/Graph/Index/Faithful.antt =====
-- The whole index follows the canonical edge stores.
use mathlib.Core.Path.{subst}
use myko.Base.{◌≡◌, refl, sym, ◌∙◌, Bool, true, Option, none, some, inl, inr}
use myko.Base.{arith, if◌then◌else◌, Bool-cases, ap, saturating_add, []}
use mathlib.Core.Option.{some-injective}
use myko.Base.Key.{Key, ◌==◌, eq_of_==}
use myko.Base.Text.{Str, str_key}
use myko.Base.Assoc
use myko.Base.Assoc.{lookup-insert}
use myko.Graph.Types.{
  entity_key, endpoint_key, edge_pair_key, AnyItem, IndexedEdge, EndPosition, end_a, end_b,
}
use myko.Graph.Incidence.Tracks.{Edges, update, Tracks}
use myko.Graph.Index.{EdgeRegistration, EdgeTypeState, GraphIndex, projects_endpoint, registration}
use myko.Graph.Index.{initial_state, type_state, apply_type, apply, or_old}
use myko.Graph.Index.Represents.{
  a_of, b_of, a_entity_of, b_entity_of, pair_of, Represents, edge_of, IsItem, apply_type-Represents,
}

-- The canonical edges of each edge type.
abbrev pub Canonical : Type 0
Canonical = Str → Edges

-- Each registered edge type is known by its own name, and its projections are those of its edges.
abbrev pub IsFaithful : GraphIndex → Canonical → Type 0
IsFaithful g canonical =
    (t : Str) (r : EdgeRegistration)
    → registration g t ≡ some r
    → (r.edge_type ≡ t)
      × Represents (projects_endpoint g r.edge_type end_a) (projects_endpoint g r.edge_type end_b) r
          (type_state g t) (canonical t)

abbrev pub mutate : Canonical → Str → Str → Option IndexedEdge → Canonical
mutate canonical t id e u = if t == u then update (canonical t) id e else canonical u

module _ (g : GraphIndex) (old new : Option AnyItem) (item : AnyItem) (r : EdgeRegistration)
    (which : or_old old new ≡ some item) (known : registration g item.entity_type ≡ some r)
    (own_name : r.edge_type ≡ item.entity_type)
    (done : (apply_type g r (type_state g r.edge_type) old new).1 ≡ true) where
  after : EdgeTypeState
  after = (apply_type g r (type_state g r.edge_type) old new).0

  type_state-apply :
      (u : Str)
      → type_state (apply g old new).0 u ≡ (if r.edge_type == u then after else type_state g u)
  unfolding apply type_state after
  type_state-apply u =
      rw (which, apply, known, done)
        (ground (arith, lookup-insert r.edge_type u after g.state.edge_types))

  registration-apply : (u : Str) → registration (apply g old new).0 u ≡ registration g u
  unfolding apply registration
  registration-apply u = rw (which, apply, known, done) refl

  projects-apply :
      (u : Str) (p : EndPosition)
      → projects_endpoint (apply g old new).0 u p ≡ projects_endpoint g u p
  unfolding apply projects_endpoint
  projects-apply u p = rw (which, apply, known, done) refl

  apply_ok : (apply g old new).1 ≡ some (saturating_add g.state.generation 1)
  unfolding apply
  apply_ok = rw (which, apply, known, done) refl

abbrev At : GraphIndex → EdgeRegistration → EdgeTypeState → Edges → Type 0
At g r st edges =
    Represents (projects_endpoint g r.edge_type end_a) (projects_endpoint g r.edge_type end_b) r st
      edges

-- On a faithful index, a canonical mutation of an edge of a registered type, whose old and new items
-- can be extracted and whose old edge is the canonical one, returns the next generation, and leaves
-- the whole index faithful to the canonical edges after the mutation: every projection of that type
-- follows, and no other type changes.
pub apply-IsFaithful :
    (g : GraphIndex) (canonical : Canonical) (old new : Option AnyItem) (item : AnyItem)
    (r : EdgeRegistration)
    → or_old old new ≡ some item
    → registration g item.entity_type ≡ some r
    → IsItem r item.id old
    → IsItem r item.id new
    → canonical item.entity_type item.id ≡ edge_of r old
    → IsFaithful g canonical
    → ((apply g old new).1 ≡ some (saturating_add g.state.generation 1))
      × IsFaithful (apply g old new).0 (mutate canonical item.entity_type item.id (edge_of r new))
unfolding after
apply-IsFaithful g canonical old new item r which known ok_old ok_new q v =
    (apply_ok g old new item r which known own_name step.0, faithful)
  where
    own_name : r.edge_type ≡ item.entity_type
    own_name = (v item.entity_type r known).0

    before : At g r (type_state g r.edge_type) (canonical item.entity_type)
    before = rw (ap (type_state g) own_name) ((v item.entity_type r known).1)

    step :
        ((apply_type g r (type_state g r.edge_type) old new).1 ≡ true)
        × At g r
            (apply_type g r (type_state g r.edge_type) old new).0
            (update (canonical item.entity_type) item.id (edge_of r new))
    step = apply_type-Represents g r _ _ item.id old new ok_old ok_new q before

    same :
        (u : Str) (s : EdgeRegistration)
        → (item.entity_type == u) ≡ true
        → registration g u ≡ some s
        → r ≡ s
    same u s here found =
        some-injective r s
          (sym known ∙ ap (registration g) (eq_of_== item.entity_type u here) ∙ found)

    replaced :
        (s : EdgeRegistration)
        → r ≡ s
        → At g s
            (after g old new item r which known own_name step.0)
            (update (canonical item.entity_type) item.id (edge_of r new))
    replaced s e =
        subst
          (λ z.
            At g z (after g old new item r which known own_name step.0)
              (update (canonical item.entity_type) item.id (edge_of r new)))
          e step.1

    faithful :
        IsFaithful (apply g old new).0 (mutate canonical item.entity_type item.id (edge_of r new))
    faithful u s found =
        let found' : registration g u ≡ some s =
          sym (registration-apply g old new item r which known own_name step.0 u) ∙ found in
        (
          (v u s found').0,
          rw
              (
                projects-apply g old new item r which known own_name step.0 s.edge_type end_a,
                projects-apply g old new item r which known own_name step.0 s.edge_type end_b,
                type_state-apply g old new item r which known own_name step.0 u,
              )
              (elim (Bool-cases (item.entity_type == u)) [
                | inl here ↦
                    rw (ap (λ t. t == u) own_name ∙ here, here) (replaced s (same u s here found'))
                | inr away ↦ rw (ap (λ t. t == u) own_name ∙ away, away) ((v u s found').1)
              ]),
        )

-- An index with no projections yet, as it is built before its first mutation.
Tracks-empty :
    {K : Type 0} ⦃k : Key K⦄ (key_of : IndexedEdge → K) (b : Bool) → Tracks key_of b [] (λ _. none)
unfolding Assoc.lookup
Tracks-empty key_of b = record { members = λ v p. ground arith; valid = λ v. tt }

pub initial-IsFaithful :
    (g : GraphIndex)
    → g.state ≡ initial_state
    → ((t : Str) (r : EdgeRegistration) → registration g t ≡ some r → r.edge_type ≡ t)
    → IsFaithful g (λ _ _. none)
unfolding type_state Assoc.lookup
initial-IsFaithful g fresh named t r found = (
  named t r found,
  rw fresh (record {
    tracks_a = Tracks-empty a_of _;
    tracks_b = Tracks-empty b_of _;
    tracks_a_entities = Tracks-empty a_entity_of _;
    tracks_b_entities = Tracks-empty b_entity_of _;
    tracks_pairs = Tracks-empty (pair_of r) _;
    retained = λ id. ground arith;
  }),
)
