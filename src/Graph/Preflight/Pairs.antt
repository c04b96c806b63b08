-- ===== src/Graph/Preflight/Pairs.antt =====
-- Pair keys: equal exactly when two edges join the same endpoints in the same scope.
use myko.Base.{◌≡◌, ◌↔◌, true, Option, arith}
use myko.Base.Key.{option_key}
use myko.Graph.Types.{IndexValue, EndpointValue, endpoint_key, EdgeEndpoints}
use myko.Graph.Index.{
  EdgeRegistration, is_undirected, pair_key, pair_key_from_values, endpoints_match,
}

-- The key of an undirected pair does not depend on the order of its ends.
pub pair_key_comm :
    (r : EdgeRegistration) (x y : EndpointValue) (scope : Option IndexValue)
    → is_undirected r.shape ≡ true
    → pair_key_from_values r x y scope ≡ pair_key_from_values r y x scope
unfolding pair_key_from_values
pair_key_comm r x y scope u = ground (arith, endpoint_key.cmp_flip x y, endpoint_key.eq_of_cmp x y)

-- Two pairs of endpoints have the same key in one scope exactly when the one matches the other:
-- end by end, or, if edges are undirected, with the ends exchanged.
pub pair_key-match :
    (r : EdgeRegistration) (e : EdgeEndpoints) (x y : EndpointValue) (scope : Option IndexValue)
    → (pair_key r e scope ≡ pair_key_from_values r x y scope) ↔ (endpoints_match r e x y ≡ true)
unfolding pair_key pair_key_from_values endpoints_match
pair_key-match r e x y scope = (
  λ h. ground (arith, endpoint_key.cmp_refl x, endpoint_key.cmp_refl y),
  λ h. ground (
    arith,
    endpoint_key.eq_of_cmp e.a x,
    endpoint_key.eq_of_cmp e.b y,
    endpoint_key.eq_of_cmp e.a y,
    endpoint_key.eq_of_cmp e.b x,
    endpoint_key.eq_of_cmp x y,
    endpoint_key.cmp_flip x y,
  ),
)
