-- ===== src/Graph/Types.antt =====
-- The data types of libs/myko/core/src/core/graph.rs. `dyn AnyItem` is a record of what the graph
-- reads of an item: its type, its id, and the content that only the generated extractors look into.
use myko.Base.{ℕ, refl, Option, List}
use myko.Base.Key.{Key, cmp_via, cmp_via-IsTotal, pair_key, option_key}
use myko.Base.Text.{Str, str_key}

pub record AnyItem : Type 0 where
  pub entity_type : Str
  pub id : Str
  pub content : List ℕ

pub record EntityRef : Type 0 where
  pub entity_type : Str
  pub id : Str

-- Canonical bytes
abbrev pub IndexValue : Type 0
IndexValue = List ℕ

pub record EndpointValue : Type 0 where
  pub entity : EntityRef
  pub qualifier : Option IndexValue

pub record EdgeEndpoints : Type 0 where
  pub a : EndpointValue
  pub b : EndpointValue

pub data EdgeShapeKind : Type 0 where
  directed undirected : EdgeShapeKind

pub data EndPosition : Type 0 where
  end_a end_b : EndPosition

pub data PairPolicy : Type 0 where
  parallel unique : PairPolicy

pub data PairProjectionPolicy : Type 0 where
  intersect_adjacency eager_pairs : PairProjectionPolicy

pub data AdjacencyPolicy : Type 0 where
  demand_driven eager : AdjacencyPolicy

pub data SelfLoopPolicy : Type 0 where
  allow reject : SelfLoopPolicy

pub data EndpointDeletePolicy : Type 0 where
  cascade_edge restrict_endpoint_delete retain_dangling : EndpointDeletePolicy

pub data EdgeApplyMode : Type 0 where
  authoritative replay import federated observe : EdgeApplyMode

pub data EndpointRequirement : Type 0 where
  concrete : Str → EndpointRequirement
  one_of : List Str → EndpointRequirement
  category : Str → EndpointRequirement
  any_registered_item : EndpointRequirement

pub record EdgePairKey : Type 0 where
  pub scope : Option IndexValue
  pub a : EndpointValue
  pub b : EndpointValue

pub record IndexedEdge : Type 0 where
  pub id : Str
  pub endpoints : EdgeEndpoints
  pub scope : Option IndexValue

-- The derived orders compare field by field.
abbrev entity_fields : EntityRef → Str × Str
entity_fields e = (e.entity_type, e.id)

abbrev of_entity_fields : Str × Str → EntityRef
of_entity_fields (t, i) = record { entity_type = t; id = i }

instance unfoldable pub entity_key : Key EntityRef
unfolding pair_key str_key
entity_key = record {
  cmp = cmp_via entity_fields of_entity_fields (λ x. refl);
  total = cmp_via-IsTotal entity_fields of_entity_fields (λ x. refl);
}

abbrev endpoint_fields : EndpointValue → EntityRef × Option IndexValue
endpoint_fields e = (e.entity, e.qualifier)

abbrev of_endpoint_fields : EntityRef × Option IndexValue → EndpointValue
of_endpoint_fields (e, q) = record { entity = e; qualifier = q }

instance unfoldable pub endpoint_key : Key EndpointValue
unfolding pair_key entity_key option_key str_key
endpoint_key = record {
  cmp = cmp_via endpoint_fields of_endpoint_fields (λ x. refl);
  total = cmp_via-IsTotal endpoint_fields of_endpoint_fields (λ x. refl);
}

abbrev pair_fields : EdgePairKey → Option IndexValue × (EndpointValue × EndpointValue)
pair_fields p = (p.scope, (p.a, p.b))

abbrev of_pair_fields : Option IndexValue × (EndpointValue × EndpointValue) → EdgePairKey
of_pair_fields (s, (a, b)) = record { scope = s; a = a; b = b }

instance unfoldable pub edge_pair_key : Key EdgePairKey
unfolding pair_key endpoint_key option_key str_key
edge_pair_key = record {
  cmp = cmp_via pair_fields of_pair_fields (λ x. refl);
  total = cmp_via-IsTotal pair_fields of_pair_fields (λ x. refl);
}
