-- ===== src/Graph/Preflight.antt =====
-- The validation of edge mutations in libs/myko/core/src/core/graph.rs, before they are reduced.
-- A method that takes `&self` and counts its refusals returns the index with the new counters, and
-- the error, if there is one.
pub mod Unique
pub mod Pairs
pub mod Admissible
use myko.Base.{ℕ, Bool, true, false, not, ◌&&◌, ◌||◌, Option, none, some, List, [], ◌∷◌, ◌++◌}
use myko.Base.{if◌then◌else◌, is_some, eqb, saturating_add}
use myko.Base.Key.{◌==◌, pair_key as key_pair_key}
use myko.Base.Text.{contains_text, Str, str, str_key}
use myko.Base.Assoc
use myko.Base.Assoc.{Assoc}
use myko.Base.OrdSet
use myko.Graph.EdgeIds.{conflicting_id_ignoring}
use myko.Graph.Types.{
  AnyItem, EntityRef, EndpointValue, EdgeEndpoints, EndPosition, end_a, end_b, SelfLoopPolicy,
  reject, allow, EdgeApplyMode, authoritative, replay, import, federated, observe,
  EndpointRequirement, concrete, one_of, category, any_registered_item, EdgePairKey, endpoint_key,
  edge_pair_key,
}
use myko.Graph.Index.{EdgeRegistration, GraphState, GraphIndex, registration, is_unique, pair_key}
use myko.Graph.Index.{or_old}

pub data PreflightError : Type 0 where
  no_item : PreflightError
  endpoint_rejected : Str → EndPosition → Str → PreflightError
  endpoint_missing : Str → EndPosition → EntityRef → PreflightError
  self_loop : Str → PreflightError
  pair_occupied : Str → Str → PreflightError
  batch_duplicate : Str → Str → Str → PreflightError
  generated : Str → PreflightError  -- an error of a generated extractor or validator

abbrev position_text : EndPosition → Str
position_text end_a = str "A"
position_text end_b = str "B"

-- `error.to_string()`
render : PreflightError → Str
render no_item = str "graph mutation has no canonical item"
render (endpoint_rejected t p u) =
    t ++ (str " endpoint " ++ (position_text p ++ (str " rejects entity type " ++ u)))
render (endpoint_missing t p e) =
    t
    ++ (str " endpoint "
        ++ (position_text p ++ (str " does not exist: " ++ (e.entity_type ++ (str ":" ++ e.id)))))
render (self_loop t) = t ++ str " rejects self-loops"
render (pair_occupied t id) = t ++ (str " pair is already occupied by edge " ++ id)
render (batch_duplicate t i j) =
    t ++ (str " batch contains duplicate pair reservations " ++ (i ++ (str " and " ++ j)))
render (generated message) = message

unfoldable pub requirement_accepts : GraphIndex → EndpointRequirement → Str → Bool
requirement_accepts g (concrete expected) t = expected == t
requirement_accepts g (one_of expected) t = OrdSet.contains t expected
requirement_accepts g (category c) t = elim (Assoc.lookup c g.categories) [
  | none ↦ false
  | some members ↦ OrdSet.contains t members
]
requirement_accepts g any_registered_item t = OrdSet.contains t g.item_types

unfoldable pub exists : GraphIndex → EntityRef → Bool
exists g entity = elim (Assoc.lookup entity.entity_type g.registry) [
  | none ↦ false
  | some store ↦ is_some (Assoc.lookup entity.id store)
]

abbrev pub is_authoritative : EdgeApplyMode → Bool
is_authoritative authoritative = true
is_authoritative _ = false

unfoldable pub effective_apply_mode : GraphIndex → Str → EdgeApplyMode → EdgeApplyMode
effective_apply_mode g edge_type requested =
    if is_authoritative requested
    then elim (Assoc.lookup edge_type g.apply_modes) [ none ↦ requested | some mode ↦ mode ]
    else requested

-- The checks run in order, and the first error ends them.
infixr 30 ◌then_check◌
abbrev pub ◌then_check◌ : Option PreflightError → Option PreflightError → Option PreflightError
none then_check next = next
some error then_check next = some error

abbrev fail_if : Bool → PreflightError → Option PreflightError
fail_if true error = some error
fail_if false error = none

unfoldable pub check_endpoint :
    GraphIndex
    → EdgeRegistration
    → EndPosition
    → EndpointRequirement
    → EndpointValue
    → Option PreflightError
unfolding requirement_accepts exists
check_endpoint g r position requirement endpoint =
    fail_if (not (requirement_accepts g requirement endpoint.entity.entity_type))
      (endpoint_rejected r.edge_type position endpoint.entity.entity_type)
    then_check fail_if (not (exists g endpoint.entity))
        (endpoint_missing r.edge_type position endpoint.entity)

abbrev pub rejects_loops : SelfLoopPolicy → Bool
rejects_loops reject = true
rejects_loops allow = false

unfoldable pub check_loop : EdgeRegistration → EdgeEndpoints → Option PreflightError
check_loop r endpoints =
    fail_if (rejects_loops r.self_loops && (endpoints.a == endpoints.b)) (self_loop r.edge_type)

unfoldable pub check_validator : GraphIndex → EdgeRegistration → AnyItem → Option PreflightError
unfolding exists
check_validator g r candidate = elim r.validate [
  | none ↦ none
  | some validate ↦ elim (validate (exists g) candidate) [
    | none ↦ none
    | some message ↦ some (generated message)
  ]
]

unfoldable pub occupant : GraphIndex → EdgeRegistration → EdgePairKey → Str → List Str → Option Str
occupant g r key candidate ignored = elim (Assoc.lookup r.edge_type g.state.edge_types) [
  | none ↦ none
  | some st ↦ elim (Assoc.lookup key st.pairs) [
    | none ↦ none
    | some ids ↦ conflicting_id_ignoring candidate ignored ids
  ]
]

unfoldable pub check_pair :
    GraphIndex → EdgeRegistration → AnyItem → EdgeEndpoints → List Str → Option PreflightError
unfolding occupant pair_key
check_pair g r candidate endpoints ignored =
    if is_unique r.pair_policy
    then elim (r.extract_scope candidate) [
      | none ↦ some (generated (r.extract_error candidate))
      | some scope ↦ elim (occupant g r (pair_key r endpoints scope) candidate.id ignored) [
        | none ↦ none
        | some existing ↦ some (pair_occupied r.edge_type existing)
      ]
    ]
    else none

-- the closure `validate` of `preflight_ignoring`
unfoldable pub validate_edge :
    GraphIndex → EdgeRegistration → AnyItem → List Str → Option PreflightError
unfolding check_endpoint check_loop check_validator check_pair
validate_edge g r candidate ignored = elim (r.extract candidate) [
  | none ↦ some (generated (r.extract_error candidate))
  | some endpoints ↦
      check_endpoint g r end_a r.requirement_a endpoints.a
      then_check check_endpoint g r end_b r.requirement_b endpoints.b
      then_check check_loop r endpoints
      then_check check_validator g r candidate
      then_check check_pair g r candidate endpoints ignored
]

unfoldable pub count_refusal : GraphIndex → Bool → GraphIndex
count_refusal g occupied = record g {
  state = record g.state {
    invalid_mutations = saturating_add g.state.invalid_mutations 1;
    uniqueness_rejections =
        if occupied
        then saturating_add g.state.uniqueness_rejections 1
        else g.state.uniqueness_rejections;
  };
}

unfoldable pub preflight_ignoring :
    GraphIndex
    → Option AnyItem
    → Option AnyItem
    → EdgeApplyMode
    → List Str
    → GraphIndex × Option PreflightError
unfolding registration effective_apply_mode validate_edge count_refusal render contains_text
preflight_ignoring g old none mode ignored = elim old [
  | none ↦ (g, some no_item)
  | some _ ↦ (g, none)
]
preflight_ignoring g old (some new) mode ignored = elim (registration g new.entity_type) [
  | none ↦ (g, none)
  | some r ↦ elim (validate_edge g r new ignored) [
    | none ↦ (g, none)
    | some error ↦
        let counted = count_refusal g (contains_text (str "already occupied") (render error)) in
        (
          counted,
          if is_authoritative (effective_apply_mode g r.edge_type mode) then some error else none,
        )
  ]
]

unfoldable pub preflight :
    GraphIndex
    → Option AnyItem
    → Option AnyItem
    → EdgeApplyMode
    → GraphIndex × Option PreflightError
unfolding preflight_ignoring
preflight g old new mode = preflight_ignoring g old new mode []

-- the id that holds a reservation, if it is another one
abbrev clash : Option Str → Str → Option Str
clash none id = none
clash (some existing) id = if existing == id then none else some existing

-- `preflight_batch`, from the reservations made so far
unfoldable pub reserve :
    GraphIndex
    → EdgeApplyMode
    → Assoc (Str × EdgePairKey) Str
    → List AnyItem
    → GraphIndex × Option PreflightError
unfolding registration effective_apply_mode pair_key count_refusal
reserve g mode reservations [] = (g, none)
reserve g mode reservations (item ∷ items) = elim (registration g item.entity_type) [
  | none ↦ reserve g mode reservations items
  | some r ↦ elim (is_unique r.pair_policy) [
    | false ↦ reserve g mode reservations items
    | true ↦ elim (r.extract item) [
      | none ↦ (g, some (generated (r.extract_error item)))
      | some endpoints ↦ elim (r.extract_scope item) [
        | none ↦ (g, some (generated (r.extract_error item)))
        | some scope ↦
            let key : Str × EdgePairKey = (r.edge_type, pair_key r endpoints scope) in
            let reservations' = Assoc.insert key item.id reservations in
            elim (clash (Assoc.lookup key reservations) item.id) [
              | none ↦ reserve g mode reservations' items
              | some existing ↦ elim (is_authoritative (effective_apply_mode g r.edge_type mode)) [
                | true ↦ (count_refusal g true, some (batch_duplicate r.edge_type existing item.id))
                | false ↦ reserve (count_refusal g true) mode reservations' items
              ]
            ]
      ]
    ]
  ]
]

unfoldable pub preflight_batch :
    GraphIndex → List AnyItem → EdgeApplyMode → GraphIndex × Option PreflightError
unfolding reserve
preflight_batch g items mode = reserve g mode [] items

-- the ids of the deleted items of one type
unfoldable pub ignored_for : Str → List AnyItem → List Str
ignored_for t [] = []
ignored_for t (item ∷ items) =
    let rest = ignored_for t items in
    if item.entity_type == t then OrdSet.insert item.id rest else rest

unfoldable pub preflight_each :
    GraphIndex → List AnyItem → List AnyItem → EdgeApplyMode → GraphIndex × Option PreflightError
unfolding preflight_ignoring ignored_for
preflight_each g [] deletes mode = (g, none)
preflight_each g (item ∷ items) deletes mode =
    let (g', error) =
      preflight_ignoring g none (some item) mode (ignored_for item.entity_type deletes) in
    elim error [ some e ↦ (g', some e) | none ↦ preflight_each g' items deletes mode ]

unfoldable pub preflight_replace_batch :
    GraphIndex → List AnyItem → List AnyItem → EdgeApplyMode → GraphIndex × Option PreflightError
unfolding preflight_batch preflight_each
preflight_replace_batch g upserts deletes mode =
    let (g', error) = preflight_batch g upserts mode in
    elim error [ some e ↦ (g', some e) | none ↦ preflight_each g' upserts deletes mode ]
