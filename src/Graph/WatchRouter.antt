-- ===== src/Graph/WatchRouter.antt =====
-- libs/myko/core/src/core/graph.rs: `GraphWatchRouter`, which routes the changes of edges to the
-- subscriptions that watch them. A callback is of any type, and `dispatch` returns the callbacks
-- that it calls. A guard is the id and the routes of its subscription.
pub mod Listeners
pub mod Routing
mod Tests
use myko.Base.{
  ℕ, zero, suc, ◌+◌, ◌-◌, ◌≡◌, refl, Bool, true, false, not, Option, none, some, List, [], ◌∷◌,
}
use myko.Base.{if◌then◌else◌, eqb, leb, length, u64_max}
use myko.Base.Key.{Key, cmp_via, cmp_via-IsTotal, pair_key, option_key, nat_key}
use myko.Base.Text.{Str, str_key}
use myko.Base.Assoc
use myko.Base.Assoc.{Assoc}
use myko.Base.OrdSet
use myko.Graph.Types.{EndPosition, end_a, end_b, EndpointValue, endpoint_key}

pub data GraphWatchRoute : Type 0 where
  endpoint : Str → EndPosition → EndpointValue → GraphWatchRoute
  pair : Str → EndpointValue → EndpointValue → GraphWatchRoute
  incident : Str → EndpointValue → GraphWatchRoute

-- Equality of routes, as derived, by way of an encoding: the variant with its position, and what it
-- carries.
abbrev RouteFields : Type 0
RouteFields = ℕ × (Str × (EndpointValue × Option EndpointValue))

abbrev route_fields : GraphWatchRoute → RouteFields
route_fields (endpoint t end_a x) = (0, (t, (x, none)))
route_fields (endpoint t end_b x) = (1, (t, (x, none)))
route_fields (incident t x) = (2, (t, (x, none)))
route_fields (pair t x y) = (3, (t, (x, some y)))

abbrev of_route_fields : RouteFields → GraphWatchRoute
of_route_fields (n, (t, (x, some y))) = pair t x y
of_route_fields (zero, (t, (x, none))) = endpoint t end_a x
of_route_fields (suc zero, (t, (x, none))) = endpoint t end_b x
of_route_fields (suc (suc n), (t, (x, none))) = incident t x

pub of_route_fields_undo : (r : GraphWatchRoute) → of_route_fields (route_fields r) ≡ r
of_route_fields_undo (endpoint t end_a x) = refl
of_route_fields_undo (endpoint t end_b x) = refl
of_route_fields_undo (incident t x) = refl
of_route_fields_undo (pair t x y) = refl

instance unfoldable pub route_key : Key GraphWatchRoute
unfolding pair_key endpoint_key option_key str_key nat_key
route_key = record {
  cmp = cmp_via route_fields of_route_fields of_route_fields_undo;
  total = cmp_via-IsTotal route_fields of_route_fields of_route_fields_undo;
}

-- `fetch_add(1)` and `fetch_sub(1)` on an `AtomicU64`
unfoldable pub wrapping_increment : ℕ → ℕ
wrapping_increment n = if eqb n u64_max then 0 else n + 1

unfoldable pub wrapping_decrement : ℕ → ℕ
wrapping_decrement n = if eqb n 0 then u64_max else n - 1

pub record GraphWatchRouter (C : Type 0) : Type 0 where
  pub next_id : ℕ
  pub routes : Assoc GraphWatchRoute (Assoc ℕ C)
  pub active_subscriptions : ℕ
  pub dispatched_callbacks : ℕ

module _ {C : Type 0} where
  -- `entry(route).or_default()`, or `get`
  unfoldable pub listeners : GraphWatchRoute → Assoc GraphWatchRoute (Assoc ℕ C) → Assoc ℕ C
  unfolding Assoc.lookup
  listeners route m = elim (Assoc.lookup route m) [ none ↦ [] | some ls ↦ ls ]

  unfoldable pub add_routes :
      List GraphWatchRoute
      → ℕ
      → C
      → Assoc GraphWatchRoute (Assoc ℕ C)
      → Assoc GraphWatchRoute (Assoc ℕ C)
  unfolding listeners Assoc.insert
  add_routes [] id callback m = m
  add_routes (route ∷ rest) id callback m =
      add_routes rest id callback
        (Assoc.insert route (Assoc.insert id callback (listeners route m)) m)

  unfoldable pub subscribe_many :
      List GraphWatchRoute
      → C
      → GraphWatchRouter C
      → GraphWatchRouter C × Option (ℕ × List GraphWatchRoute)
  unfolding add_routes OrdSet.extend wrapping_increment
  subscribe_many routes callback w = elim (OrdSet.extend [] routes) [
    | [] ↦ (w, none)
    | route ∷ rest ↦ (
      record w {
        next_id = wrapping_increment w.next_id;
        routes = add_routes (route ∷ rest) w.next_id callback w.routes;
        active_subscriptions = wrapping_increment w.active_subscriptions;
      },
      some (w.next_id, route ∷ rest),
    )
  ]

  unfoldable pub subscribe :
      GraphWatchRoute
      → C
      → GraphWatchRouter C
      → GraphWatchRouter C × Option (ℕ × List GraphWatchRoute)
  unfolding subscribe_many
  subscribe route callback w = subscribe_many (route ∷ []) callback w

  -- A route without listeners is removed.
  unfoldable pub put_back :
      GraphWatchRoute
      → Assoc ℕ C
      → Assoc GraphWatchRoute (Assoc ℕ C)
      → Assoc GraphWatchRoute (Assoc ℕ C)
  unfolding Assoc.insert Assoc.remove
  put_back route [] m = Assoc.remove route m
  put_back route (l ∷ ls) m = Assoc.insert route (l ∷ ls) m

  unfoldable pub remove_listener :
      GraphWatchRoute → ℕ → Assoc GraphWatchRoute (Assoc ℕ C) → Assoc GraphWatchRoute (Assoc ℕ C)
  unfolding Assoc.lookup Assoc.remove put_back
  remove_listener route id m = elim (Assoc.lookup route m) [
    | none ↦ m
    | some ls ↦ put_back route (Assoc.remove id ls) m
  ]

  unfoldable pub remove_routes :
      List GraphWatchRoute
      → ℕ
      → Assoc GraphWatchRoute (Assoc ℕ C)
      → Assoc GraphWatchRoute (Assoc ℕ C)
  unfolding remove_listener
  remove_routes [] id m = m
  remove_routes (route ∷ rest) id m = remove_routes rest id (remove_listener route id m)

  -- what dropping a guard does
  unfoldable pub release : ℕ × List GraphWatchRoute → GraphWatchRouter C → GraphWatchRouter C
  unfolding remove_routes wrapping_decrement
  release (id, routes) w = record w {
    routes = remove_routes routes id w.routes;
    active_subscriptions = wrapping_decrement w.active_subscriptions;
  }

  unfoldable pub has_subscribers : GraphWatchRouter C → Bool
  has_subscribers w = not (eqb w.active_subscriptions 0)

  -- `HashMap::extend`, whose order is free: here from the last entry on
  unfoldable pub extend : Assoc ℕ C → Assoc ℕ C → Assoc ℕ C
  unfolding Assoc.insert
  extend callbacks [] = callbacks
  extend callbacks ((id, callback) ∷ rest) = Assoc.insert id callback (extend callbacks rest)

  unfoldable pub collect :
      List GraphWatchRoute → Assoc GraphWatchRoute (Assoc ℕ C) → Assoc ℕ C → Assoc ℕ C
  unfolding listeners extend
  collect [] m callbacks = callbacks
  collect (route ∷ rest) m callbacks = collect rest m (extend callbacks (listeners route m))

  -- The callbacks that are called, each under the id of its subscription. The counter wraps.
  unfoldable pub dispatch :
      List GraphWatchRoute → GraphWatchRouter C → GraphWatchRouter C × Assoc ℕ C
  unfolding collect
  dispatch routes w =
      let callbacks = collect routes w.routes [] in
      let count = w.dispatched_callbacks + length callbacks in
      (
        record w {
          dispatched_callbacks = if leb count u64_max then count else count - u64_max - 1;
        },
        callbacks,
      )
