-- ===== src/Graph/Preflight/Admissible.antt =====
-- What the authoritative check lets through, told without the checks.
use mathlib.Core.List.{Mem, mem-cons_self, mem-cons_of_mem, eq-or-mem_of_mem-cons, not-mem-nil}
use mathlib.Core.Logic.{∥∥₁_elim}
use mathlib.Core.Path.{subst}
use myko.Base.{◌≡◌, ◌≢◌, ◌⊎◌, ◌↔◌, refl, sym, ap, ◌∙◌, Bool, true, false, ◌&&◌, Option, none, some}
use myko.Base.{List, [], ◌∷◌, arith, Bool-cases, Option-cases, inl, inr}
use myko.Base.Key.{◌==◌, eq_of_==}
use myko.Base.Text.{Str, str_key}
use myko.Base.Assoc
use myko.Base.Assoc.{Assoc}
use myko.Base.OrdSet
use myko.Graph.EdgeIds.{EdgeIds, conflicting_id_ignoring}
use myko.Graph.EdgeIds.Refines.{conflicting_id_some}
use myko.Graph.Incidence.Tracks.{Edges, in_bucket, keyed}
use myko.Graph.Types.{
  AnyItem, EntityRef, IndexValue, EdgeEndpoints, EdgePairKey, IndexedEdge, EndpointValue,
  edge_pair_key, endpoint_key, end_a, end_b, EdgeApplyMode, EndPosition, EndpointRequirement,
  concrete, one_of, category, any_registered_item, reject, allow, SelfLoopPolicy,
}
use myko.Graph.Index.{
  EdgeRegistration, GraphIndex, registration, projects_endpoint, is_unique, projects_pairs,
  type_state, pair_key,
}
use myko.Graph.Index.Represents.{Represents, pair_of}
use myko.Graph.Index.Faithful.{Canonical, IsFaithful}
use myko.Graph.Preflight.{
  requirement_accepts, exists, check_endpoint, check_loop, check_validator, occupant, check_pair,
  validate_edge, rejects_loops, preflight_ignoring, is_authoritative, effective_apply_mode,
}
use myko.Graph.Preflight.Unique.{
  IsFree, occupant_state, occupant-IsFree, then_check-none, check_endpoint-none, check_loop-none,
  preflight_validates,
}

-- A type that an endpoint requirement allows.
abbrev pub Meets : GraphIndex → EndpointRequirement → Str → Type 0
Meets g (concrete expected) t = expected ≡ t
Meets g (one_of expected) t = Mem t expected
Meets g (category c) t =
    (members : List Str) × (Assoc.lookup c g.categories ≡ some members) × Mem t members
Meets g any_registered_item t = Mem t g.item_types

-- An entity that is in the store of its type.
abbrev pub IsStored : GraphIndex → EntityRef → Type 0
IsStored g entity =
    (store : Assoc Str AnyItem) × (Assoc.lookup entity.entity_type g.registry ≡ some store)
    × (item : AnyItem) × (Assoc.lookup entity.id store ≡ some item)

-- An edge that may be written into the edges of its type.
pub record IsAdmissible (g : GraphIndex) (r : EdgeRegistration) (edges : Edges)
    (candidate : AnyItem) (ignored : List Str) : Type 0 where
  pub ends : EdgeEndpoints
  pub extracted : r.extract candidate ≡ some ends
  pub meets_a : Meets g r.requirement_a ends.a.entity.entity_type
  pub meets_b : Meets g r.requirement_b ends.b.entity.entity_type
  pub stored_a : IsStored g ends.a.entity
  pub stored_b : IsStored g ends.b.entity
  pub no_loop : r.self_loops ≡ reject → ends.a ≢ ends.b
  pub validated :
      (validate : (EntityRef → Bool) → AnyItem → Option Str)
      → r.validate ≡ some validate
      → validate (exists g) candidate ≡ none
  pub free :
      is_unique r.pair_policy ≡ true
      → (scope : Option IndexValue) × (r.extract_scope candidate ≡ some scope)
        × IsFree r edges (pair_key r ends scope) candidate.id ignored

Mem-contains : (x : Str) (xs : List Str) → OrdSet.contains x xs ≡ true → Mem x xs
unfolding OrdSet.contains
Mem-contains x [] h = absurd (ground (arith, h))
Mem-contains x (y ∷ ys) h = elim (Bool-cases (y == x)) [
  | inl same ↦ subst (λ z. Mem z (y ∷ ys)) (eq_of_== y x same) mem-cons_self
  | inr other ↦ mem-cons_of_mem y (Mem-contains x ys (ground (arith, h, other)))
]

contains-Mem : (x : Str) (xs : List Str) → Mem x xs → OrdSet.contains x xs ≡ true
unfolding OrdSet.contains
contains-Mem x [] h = absurd (not-mem-nil h)
contains-Mem x (y ∷ ys) h = ∥∥₁_elim (eq-or-mem_of_mem-cons h) (hlevel) (go (contains-Mem x ys))
  where
    go :
        (Mem x ys → OrdSet.contains x ys ≡ true)
        → (x ≡ y) ⊎ Mem x ys
        → OrdSet.contains x (y ∷ ys) ≡ true
    go again (inl e) = ground (arith, ap (λ z. y == z) e, str_key.cmp_refl y)
    go again (inr m) = ground (arith, again m)

requirement_accepts-Meets :
    (g : GraphIndex) (q : EndpointRequirement) (t : Str)
    → (requirement_accepts g q t ≡ true) ↔ Meets g q t
unfolding requirement_accepts
requirement_accepts-Meets g (concrete expected) t = (
  λ h. eq_of_== expected t h,
  λ e. ground (arith, ap (λ z. expected == z) (sym e), str_key.cmp_refl expected),
)
requirement_accepts-Meets g (one_of expected) t = (Mem-contains t expected, contains-Mem t expected)
requirement_accepts-Meets g (category c) t = elim (Option-cases (Assoc.lookup c g.categories)) [
  | inl e ↦ (λ h. absurd (ground (arith, e, h)), λ (members, found, m). absurd (cc (e, found)))
  | inr (members, e) ↦ (
    λ h. (members, e, Mem-contains t members (ground (arith, e, h))),
    λ (others, found, m). ground (arith, found, contains-Mem t others m),
  )
]
requirement_accepts-Meets g any_registered_item t =
    (Mem-contains t g.item_types, contains-Mem t g.item_types)

exists-IsStored :
    (g : GraphIndex) (entity : EntityRef) → (exists g entity ≡ true) ↔ IsStored g entity
unfolding exists
exists-IsStored g entity = (to, λ (store, found, item, q). ground (arith, found, q))
  where
    to : exists g entity ≡ true → IsStored g entity
    to h = elim (Option-cases (Assoc.lookup entity.entity_type g.registry)) [
      | inl e ↦ absurd (ground (arith, e, h))
      | inr (store, e) ↦ elim (Option-cases (Assoc.lookup entity.id store)) [
        | inl q ↦ absurd (ground (arith, e, q, h))
        | inr (item, q) ↦ (store, e, item, q)
      ]
    ]

bucket_held :
    (o : Option EdgeIds) (candidate : Str) (ignored : List Str) (x : Str)
    → ◌≡◌ {A = Option Str}
        (elim o [ none ↦ none | some ids ↦ conflicting_id_ignoring candidate ignored ids ])
        (some x)
    → (in_bucket x o ≡ true) × ((x == candidate) ≡ false) × (OrdSet.contains x ignored ≡ false)
bucket_held none candidate ignored x h = absurd (cc h)
bucket_held (some ids) candidate ignored x h =
    let (apart, held) = conflicting_id_some candidate ignored ids x h in (held, apart.0, apart.1)

Free-occupant :
    (g : GraphIndex) (r : EdgeRegistration) (edges : Edges) (key : EdgePairKey) (candidate : Str)
    (ignored : List Str)
    → is_unique r.pair_policy ≡ true
    → Represents
        (projects_endpoint g r.edge_type end_a)
        (projects_endpoint g r.edge_type end_b)
        r
        (type_state g r.edge_type)
        edges
    → IsFree r edges key candidate ignored
    → occupant g r key candidate ignored ≡ none
unfolding projects_pairs
Free-occupant g r edges key candidate ignored u v free =
    elim (Option-cases (occupant g r key candidate ignored)) [
      | inl e ↦ e
      | inr (x, e) ↦
          let (held, apart, kept) =
            bucket_held (Assoc.lookup key (type_state g r.edge_type).pairs) candidate ignored x
              (sym (occupant_state g r key candidate ignored) ∙ e) in
          absurd (clash x apart kept (edges x) refl (sym held ∙ v.tracks_pairs.members key x))
    ]
  where
    clash :
        (x : Str)
        → (x == candidate) ≡ false
        → OrdSet.contains x ignored ≡ false
        → (o : Option IndexedEdge) → edges x ≡ o
        → true ≡ (projects_pairs r && keyed (pair_of r) key o)
        → ⊥
    clash x apart kept none q h = ground (arith, h)
    clash x apart kept (some f) q h =
        go (free x f q (eq_of_== (pair_of r f) key (ground (arith, h))))
      where
        go : (x ≡ candidate) ⊎ (OrdSet.contains x ignored ≡ true) → ⊥
        go (inl e) = ground (arith, apart, ap (λ z. x == z) e, str_key.cmp_refl x)
        go (inr c) = cc (c, kept)

module _ (g : GraphIndex) (r : EdgeRegistration) (edges : Edges) (candidate : AnyItem)
    (ignored : List Str)
    (v : Represents
      (projects_endpoint g r.edge_type end_a)
      (projects_endpoint g r.edge_type end_b)
      r
      (type_state g r.edge_type)
      edges) where
  Free : EdgeEndpoints → Type 0
  Free ends =
      is_unique r.pair_policy ≡ true
      → (scope : Option IndexValue) × (r.extract_scope candidate ≡ some scope)
        × IsFree r edges (pair_key r ends scope) candidate.id ignored

  check_pair-Free :
      (ends : EdgeEndpoints) → (check_pair g r candidate ends ignored ≡ none) ↔ Free ends
  unfolding check_pair Free
  check_pair-Free ends = (to, from)
    where
      to : check_pair g r candidate ends ignored ≡ none → Free ends
      to h u = elim (Option-cases (r.extract_scope candidate)) [
        | inl e ↦ absurd (cc (rw (u, e, check_pair) at h))
        | inr (scope, e) ↦
            elim (Option-cases (occupant g r (pair_key r ends scope) candidate.id ignored)) [
              | inl o ↦ (
                scope,
                e,
                occupant-IsFree g r edges (pair_key r ends scope) candidate.id ignored u v o,
              )
              | inr (x, o) ↦ absurd (cc (rw (u, e, o, check_pair) at h))
            ]
      ]

      from : Free ends → check_pair g r candidate ends ignored ≡ none
      from free = elim (Bool-cases (is_unique r.pair_policy)) [
        | inr parallel ↦ rw (parallel, check_pair) refl
        | inl u ↦
            let (scope, e, held) = free u in
            let o = Free-occupant g r edges (pair_key r ends scope) candidate.id ignored u v held in
            rw (u, e, o, check_pair) refl
      ]

  Validated : Type 0
  Validated =
      (validate : (EntityRef → Bool) → AnyItem → Option Str)
      → r.validate ≡ some validate
      → validate (exists g) candidate ≡ none

  check_validator-Validated : (check_validator g r candidate ≡ none) ↔ Validated
  unfolding check_validator Validated
  check_validator-Validated = (to, from)
    where
      to : check_validator g r candidate ≡ none → Validated
      to h validate e = elim (Option-cases (validate (exists g) candidate)) [
        | inl o ↦ o
        | inr (message, o) ↦ absurd (cc (rw (e, o, check_validator) at h))
      ]

      from : Validated → check_validator g r candidate ≡ none
      from valid = elim (Option-cases r.validate) [
        | inl e ↦ rw (e, check_validator) refl
        | inr (validate, e) ↦ let o = valid validate e in rw (e, o, check_validator) refl
      ]

  NoLoop : EdgeEndpoints → Type 0
  NoLoop ends = r.self_loops ≡ reject → ends.a ≢ ends.b

  check_loop-NoLoop : (ends : EdgeEndpoints) → (check_loop r ends ≡ none) ↔ NoLoop ends
  unfolding check_loop NoLoop
  check_loop-NoLoop ends = (
    λ h rejects same.
        let apart = check_loop-none r ends h in
        ground (
          arith,
          apart,
          ap rejects_loops rejects,
          ap (λ z. z == ends.b) same,
          endpoint_key.cmp_refl ends.b,
        ),
    λ free. elim (Bool-cases (rejects_loops r.self_loops && (ends.a == ends.b))) [
      | inr e ↦ rw (e, check_loop) refl
      | inl e ↦ absurd (
          free (policy r.self_loops (ground (arith, e)))
            (eq_of_== ends.a ends.b (ground (arith, e))))
    ],
  )
    where
      policy : (p : SelfLoopPolicy) → rejects_loops p ≡ true → p ≡ reject
      policy reject h = refl
      policy allow h = absurd (ground (arith, h))

  check_endpoint-Meets :
      (p : EndPosition) (q : EndpointRequirement) (x : EndpointValue)
      → Meets g q x.entity.entity_type
      → IsStored g x.entity
      → check_endpoint g r p q x ≡ none
  unfolding check_endpoint
  check_endpoint-Meets p q x meets stored =
      rw
        (
          (requirement_accepts-Meets g q x.entity.entity_type).1 meets,
          (exists-IsStored g x.entity).1 stored,
          check_endpoint,
        )
        refl

  validate_edge-IsAdmissible :
      (validate_edge g r candidate ignored ≡ none) ↔ IsAdmissible g r edges candidate ignored
  unfolding validate_edge Free Validated NoLoop
  validate_edge-IsAdmissible = (to, from)
    where
      to : validate_edge g r candidate ignored ≡ none → IsAdmissible g r edges candidate ignored
      to h = elim (Option-cases (r.extract candidate)) [
        | inl e ↦ absurd (cc (rw (e, validate_edge) at h))
        | inr (ends, e) ↦
            let (ok_a, rest₁) = then_check-none _ _ (rw (e, validate_edge) at h) in
            let (ok_b, rest₂) = then_check-none _ _ rest₁ in
            let (ok_loop, rest₃) = then_check-none _ _ rest₂ in
            let (ok_validator, ok_pair) = then_check-none _ _ rest₃ in
            let a = check_endpoint-none g r end_a r.requirement_a ends.a ok_a in
            let b = check_endpoint-none g r end_b r.requirement_b ends.b ok_b in
            record {
              ends = ends;
              extracted = e;
              meets_a =
                  (requirement_accepts-Meets g r.requirement_a ends.a.entity.entity_type).0 a.0;
              meets_b =
                  (requirement_accepts-Meets g r.requirement_b ends.b.entity.entity_type).0 b.0;
              stored_a = (exists-IsStored g ends.a.entity).0 a.1;
              stored_b = (exists-IsStored g ends.b.entity).0 b.1;
              no_loop = (check_loop-NoLoop ends).0 ok_loop;
              validated = check_validator-Validated.0 ok_validator;
              free = (check_pair-Free ends).0 ok_pair;
            }
      ]

      from : IsAdmissible g r edges candidate ignored → validate_edge g r candidate ignored ≡ none
      from ok =
          rw
            (
              ok.extracted,
              validate_edge,
              check_endpoint-Meets end_a r.requirement_a ok.ends.a ok.meets_a ok.stored_a,
              check_endpoint-Meets end_b r.requirement_b ok.ends.b ok.meets_b ok.stored_b,
              (check_loop-NoLoop ok.ends).1 ok.no_loop,
              check_validator-Validated.1 ok.validated,
              (check_pair-Free ok.ends).1 ok.free,
            )
            refl

-- On a faithful index, the authoritative check of a new or changed edge of a registered type passes
-- exactly if the edge is admissible: its ends can be extracted; each end is of a type that its
-- requirement allows and is in the store of that type; the ends differ where loops are rejected; the
-- validator, if there is one, has no objection; and where pairs are unique, its scope can be
-- extracted and no canonical edge has its pair key but the edge itself and those that are ignored.
pub preflight_ignoring-IsAdmissible :
    (g : GraphIndex) (r : EdgeRegistration) (canonical : Canonical) (old : Option AnyItem)
    (new : AnyItem) (mode : EdgeApplyMode) (ignored : List Str)
    → registration g new.entity_type ≡ some r
    → is_authoritative (effective_apply_mode g r.edge_type mode) ≡ true
    → IsFaithful g canonical
    → ((preflight_ignoring g old (some new) mode ignored).1 ≡ none)
      ↔ IsAdmissible g r (canonical new.entity_type) new ignored
unfolding preflight_ignoring
preflight_ignoring-IsAdmissible g r canonical old new mode ignored known strict faithful =
    let (own_name, before) = faithful new.entity_type r known in
    let same =
      validate_edge-IsAdmissible g r (canonical new.entity_type) new ignored
        (rw (ap (type_state g) own_name) before) in
    (
      λ h. same.0 (preflight_validates g r old new mode ignored known strict h),
      λ ok. rw (known, same.1 ok, preflight_ignoring) refl,
    )
