-- ===== src/Graph/Preflight/Unique.antt =====
-- What an accepted mutation satisfies, and that it keeps the pairs of the edges unique.
use myko.Base.{◌≡◌, ◌⊎◌, refl, sym, ap, ◌∙◌, true, false, ◌&&◌, Option, none, some}
use myko.Base.{List, [], arith, Bool-cases, Option-cases, inl, inr}
use mathlib.Core.Path.{subst}
use myko.Base.Key.{◌==◌}
use myko.Base.Text.{Str, str_key}
use myko.Base.Assoc
use myko.Base.OrdSet
use myko.Graph.EdgeIds.{EdgeIds, conflicting_id_ignoring}
use myko.Graph.EdgeIds.Refines.{conflicting_id_none}
use myko.Graph.Incidence.Tracks.{Edges, update, in_bucket}
use myko.Graph.Types.{AnyItem, EdgeEndpoints, EdgePairKey, IndexedEdge, edge_pair_key, end_a, end_b}
use myko.Graph.Types.{endpoint_key, EdgeApplyMode, EndPosition, EndpointRequirement, EndpointValue}
use myko.Graph.Index.{
  EdgeRegistration, GraphIndex, registration, projects_endpoint, indexed, is_unique, projects_pairs,
  type_state,
}
use myko.Graph.Index.Represents.{Represents, pair_of}
use myko.Graph.Index.Faithful.{Canonical, IsFaithful}
use myko.Graph.Preflight.{
  PreflightError, requirement_accepts, exists, check_endpoint, check_loop, check_validator,
  occupant, check_pair, validate_edge, rejects_loops, ◌then_check◌, preflight_ignoring, preflight,
  is_authoritative, effective_apply_mode,
}

-- No two edges have the same pair key.
abbrev pub IsUnique : EdgeRegistration → Edges → Type 0
IsUnique r edges =
    (i j : Str) (e f : IndexedEdge)
    → edges i ≡ some e
    → edges j ≡ some f
    → pair_of r e ≡ pair_of r f
    → i ≡ j

-- Nobody but the candidate itself, or an ignored edge, holds the pair.
abbrev pub IsFree : EdgeRegistration → Edges → EdgePairKey → Str → List Str → Type 0
IsFree r edges key candidate ignored =
    (j : Str) (f : IndexedEdge)
    → edges j ≡ some f
    → pair_of r f ≡ key
    → (j ≡ candidate) ⊎ (OrdSet.contains j ignored ≡ true)

bucket_free :
    (o : Option EdgeIds) (candidate : Str) (ignored : List Str) (j : Str)
    → ◌≡◌ {A = Option Str}
        (elim o [ none ↦ none | some ids ↦ conflicting_id_ignoring candidate ignored ids ])
        none
    → in_bucket j o ≡ true
    → (j ≡ candidate) ⊎ (OrdSet.contains j ignored ≡ true)
bucket_free none candidate ignored j h m = cc
bucket_free (some ids) candidate ignored j h m = conflicting_id_none candidate ignored ids j h m

pub occupant_state :
    (g : GraphIndex) (r : EdgeRegistration) (key : EdgePairKey) (candidate : Str)
    (ignored : List Str)
    → occupant g r key candidate ignored
      ≡ elim (Assoc.lookup key (type_state g r.edge_type).pairs) [
        | none ↦ none
        | some ids ↦ conflicting_id_ignoring candidate ignored ids
      ]
unfolding occupant type_state Assoc.lookup
occupant_state g r key candidate ignored = ground arith

pub occupant-IsFree :
    (g : GraphIndex) (r : EdgeRegistration) (edges : Edges) (key : EdgePairKey) (candidate : Str)
    (ignored : List Str)
    → is_unique r.pair_policy ≡ true
    → Represents
        (projects_endpoint g r.edge_type end_a)
        (projects_endpoint g r.edge_type end_b)
        r
        (type_state g r.edge_type)
        edges
    → occupant g r key candidate ignored ≡ none
    → IsFree r edges key candidate ignored
unfolding projects_pairs
occupant-IsFree g r edges key candidate ignored u v h j f q same =
    bucket_free (Assoc.lookup key (type_state g r.edge_type).pairs) candidate ignored j
      (sym (occupant_state g r key candidate ignored) ∙ h)
      (ground (arith, v.tracks_pairs.members key j, edge_pair_key.cmp_refl key))

-- The outcome of the checks, where none of them fails.
pub record IsAccepted (g : GraphIndex) (r : EdgeRegistration) (candidate : AnyItem)
    (ignored : List Str) (endpoints : EdgeEndpoints) : Type 0 where
  pub extracted : r.extract candidate ≡ some endpoints
  pub accepts_a : requirement_accepts g r.requirement_a endpoints.a.entity.entity_type ≡ true
  pub accepts_b : requirement_accepts g r.requirement_b endpoints.b.entity.entity_type ≡ true
  pub exists_a : exists g endpoints.a.entity ≡ true
  pub exists_b : exists g endpoints.b.entity ≡ true
  pub no_loop : (rejects_loops r.self_loops && (endpoints.a == endpoints.b)) ≡ false
  pub no_occupant : check_pair g r candidate endpoints ignored ≡ none

pub then_check-none :
    (x y : Option PreflightError) → (x then_check y) ≡ none → (x ≡ none) × (y ≡ none)
then_check-none none y h = (refl, h)
then_check-none (some e) y h = cc

pub check_endpoint-none :
    (g : GraphIndex) (r : EdgeRegistration) (p : EndPosition) (q : EndpointRequirement)
    (x : EndpointValue)
    → check_endpoint g r p q x ≡ none
    → (requirement_accepts g q x.entity.entity_type ≡ true) × (exists g x.entity ≡ true)
unfolding check_endpoint
check_endpoint-none g r p q x h = elim (Bool-cases (requirement_accepts g q x.entity.entity_type)) [
  | inl a ↦ elim (Bool-cases (exists g x.entity)) [ inl b ↦ (a, b) | inr b ↦ cc ]
  | inr a ↦ cc
]

pub check_loop-none :
    (r : EdgeRegistration) (ends : EdgeEndpoints)
    → check_loop r ends ≡ none
    → (rejects_loops r.self_loops && (ends.a == ends.b)) ≡ false
unfolding check_loop
check_loop-none r ends h = elim (Bool-cases (rejects_loops r.self_loops && (ends.a == ends.b))) [
  | inl e ↦ cc
  | inr e ↦ e
]

all_checks-none :
    (g : GraphIndex) (r : EdgeRegistration) (candidate : AnyItem) (ignored : List Str)
    (ends : EdgeEndpoints)
    → r.extract candidate ≡ some ends
    → (check_endpoint g r end_a r.requirement_a ends.a
        then_check check_endpoint g r end_b r.requirement_b ends.b
        then_check check_loop r ends
        then_check check_validator g r candidate
        then_check check_pair g r candidate ends ignored)
      ≡ none
    → IsAccepted g r candidate ignored ends
all_checks-none g r candidate ignored ends q h =
    let (ok_a, rest₁) = then_check-none _ _ h in
    let (ok_b, rest₂) = then_check-none _ _ rest₁ in
    let (ok_loop, rest₃) = then_check-none _ _ rest₂ in
    let (ok_validator, ok_pair) = then_check-none _ _ rest₃ in
    let a = check_endpoint-none g r end_a r.requirement_a ends.a ok_a in
    let b = check_endpoint-none g r end_b r.requirement_b ends.b ok_b in
    record {
      extracted = q;
      accepts_a = a.0;
      accepts_b = b.0;
      exists_a = a.1;
      exists_b = b.1;
      no_loop = check_loop-none r ends ok_loop;
      no_occupant = ok_pair;
    }

validate_edge-none :
    (g : GraphIndex) (r : EdgeRegistration) (candidate : AnyItem) (ignored : List Str)
    → validate_edge g r candidate ignored ≡ none
    → (ends : EdgeEndpoints) × IsAccepted g r candidate ignored ends
unfolding validate_edge
validate_edge-none g r candidate ignored h = elim (Option-cases (r.extract candidate)) [
  | inl e ↦ absurd (failed e h)
  | inr (ends, e) ↦
      (ends, all_checks-none g r candidate ignored ends e (rw (e, validate_edge) at h))
]
  where
    failed : r.extract candidate ≡ none → validate_edge g r candidate ignored ≡ none → ⊥
    failed e h = let k = rw (e, validate_edge) at h in cc

pub preflight_validates :
    (g : GraphIndex) (r : EdgeRegistration) (old : Option AnyItem) (new : AnyItem)
    (mode : EdgeApplyMode) (ignored : List Str)
    → registration g new.entity_type ≡ some r
    → is_authoritative (effective_apply_mode g r.edge_type mode) ≡ true
    → (preflight_ignoring g old (some new) mode ignored).1 ≡ none
    → validate_edge g r new ignored ≡ none
unfolding preflight_ignoring
preflight_validates g r old new mode ignored known strict h =
    elim (Option-cases (validate_edge g r new ignored)) [
      | inl e ↦ e
      | inr (error, e) ↦ let k = rw (known, preflight_ignoring, e, strict) at h in absurd (cc k)
    ]

-- An edge of a registered type that the authoritative check lets through has existing ends of the
-- required types, is no loop where loops are rejected, and, where pairs are unique, finds no edge
-- under its pair key but itself and those that are ignored.
pub preflight_accepts :
    (g : GraphIndex) (r : EdgeRegistration) (old : Option AnyItem) (new : AnyItem)
    (mode : EdgeApplyMode) (ignored : List Str)
    → registration g new.entity_type ≡ some r
    → is_authoritative (effective_apply_mode g r.edge_type mode) ≡ true
    → (preflight_ignoring g old (some new) mode ignored).1 ≡ none
    → (ends : EdgeEndpoints) × IsAccepted g r new ignored ends
preflight_accepts g r old new mode ignored known strict h =
    validate_edge-none g r new ignored (preflight_validates g r old new mode ignored known strict h)

check_pair-none :
    (g : GraphIndex) (r : EdgeRegistration) (new : AnyItem) (e : IndexedEdge) (ignored : List Str)
    → is_unique r.pair_policy ≡ true
    → r.extract_scope new ≡ some e.scope
    → check_pair g r new e.endpoints ignored ≡ none
    → occupant g r (pair_of r e) new.id ignored ≡ none
unfolding check_pair
check_pair-none g r new e ignored u q h =
    elim (Option-cases (occupant g r (pair_of r e) new.id ignored)) [
      | inl x ↦ x
      | inr (id, x) ↦ let k = rw (u, q, check_pair, x) at h in absurd (cc k)
    ]

indexed_parts :
    (r : EdgeRegistration) (new : AnyItem) (e : IndexedEdge)
    → indexed r new ≡ some e
    → (r.extract new ≡ some e.endpoints) × (r.extract_scope new ≡ some e.scope)
unfolding indexed
indexed_parts r new e h = ground arith

free_update :
    (r : EdgeRegistration) (edges : Edges) (id : Str) (e : IndexedEdge)
    → IsFree r edges (pair_of r e) id []
    → IsUnique r edges
    → IsUnique r (update edges id (some e))
unfolding OrdSet.contains
free_update r edges id e free u i j x y hx hy same =
    ground (arith, str_key.eq_of_cmp id i, str_key.eq_of_cmp id j, free i x, free j y, u i j x y)

-- Where pairs are unique and the index is faithful, a new or changed edge that the authoritative
-- check lets through keeps pairs unique: written into edges with unique pairs, it leaves no two edges
-- with the same pair key.
pub preflight-IsUnique :
    (g : GraphIndex) (r : EdgeRegistration) (canonical : Canonical) (old : Option AnyItem)
    (new : AnyItem) (e : IndexedEdge) (mode : EdgeApplyMode)
    → registration g new.entity_type ≡ some r
    → is_unique r.pair_policy ≡ true
    → is_authoritative (effective_apply_mode g r.edge_type mode) ≡ true
    → indexed r new ≡ some e
    → IsFaithful g canonical
    → IsUnique r (canonical new.entity_type)
    → (preflight g old (some new) mode).1 ≡ none
    → IsUnique r (update (canonical new.entity_type) new.id (some e))
unfolding preflight
preflight-IsUnique g r canonical old new e mode known unique strict shape v u ok =
    let (ends, accepted) = preflight_accepts g r old new mode [] known strict ok in
    let (extracted, scoped) = indexed_parts r new e shape in
    let same_ends : ends ≡ e.endpoints = cc (accepted.extracted, extracted) in
    let no_pair : check_pair g r new e.endpoints [] ≡ none =
      subst (λ z. check_pair g r new z [] ≡ none) same_ends accepted.no_occupant in
    let (own_name, before) = v new.entity_type r known in
    let free =
      occupant-IsFree g r (canonical new.entity_type) (pair_of r e) new.id [] unique
        (rw (ap (type_state g) own_name) before)
        (check_pair-none g r new e [] unique scoped no_pair) in
    free_update r (canonical new.entity_type) new.id e free u
