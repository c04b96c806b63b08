-- ===== src/Graph/WatchRouter/Tests.antt =====
-- A router with one subscription for two routes, the callback a number.
use myko.Base.{ℕ, ◌≡◌, refl, none, some, List, [], ◌∷◌, arith}
use myko.Base.Text.{Str, str}
use myko.Base.Assoc
use myko.Base.Assoc.{Assoc}
use myko.Base.Key.{nat_key}
use myko.Base.OrdSet
use myko.Graph.Types.{end_a, EndpointValue}
use myko.Graph.WatchRouter.{
  GraphWatchRoute, GraphWatchRouter, endpoint, incident, subscribe_many, release, dispatch,
  route_key,
}
use myko.Graph.WatchRouter.Routing.{
  Live, IsRouting, called, with_live, empty-IsRouting, subscribe_many-IsRouting, release-IsRouting,
  dispatch-routed,
}

abbrev place : Str → EndpointValue
place id = record { entity = record { entity_type = str "N"; id = id }; qualifier = none }

abbrev empty : GraphWatchRouter ℕ
empty = record { next_id = 0; routes = []; active_subscriptions = 0; dispatched_callbacks = 0 }

abbrev idle : Live ℕ
idle = λ _. none

abbrev from_x : GraphWatchRoute
from_x = endpoint (str "L") end_a (place (str "x"))

abbrev at_y : GraphWatchRoute
at_y = incident (str "L") (place (str "y"))

abbrev watched : List GraphWatchRoute
watched = OrdSet.extend [] (from_x ∷ at_y ∷ [])

abbrev watching : GraphWatchRouter ℕ
watching = (subscribe_many (from_x ∷ at_y ∷ []) 42 empty).0

abbrev one_live : Live ℕ
one_live = with_live idle 0 (some (watched, 42))

subscribe_many-IsRouting_example :
    ((subscribe_many (from_x ∷ at_y ∷ []) 42 empty).1 ≡ some (0, watched))
    × IsRouting watching one_live
subscribe_many-IsRouting_example =
    subscribe_many-IsRouting empty idle from_x (at_y ∷ []) 42 empty-IsRouting (omega arith)

dispatch-routed_example :
    Assoc.lookup 0 (dispatch (at_y ∷ []) watching).1 ≡ called (one_live 0) (at_y ∷ [])
dispatch-routed_example =
    dispatch-routed watching one_live (at_y ∷ []) 0
      (subscribe_many-IsRouting empty idle from_x (at_y ∷ []) 42 empty-IsRouting (omega arith)).1

live_here : one_live 0 ≡ some (watched, 42)
unfolding nat_key
live_here = refl

release-IsRouting_example : IsRouting (release (0, watched) watching) (with_live one_live 0 none)
release-IsRouting_example =
    release-IsRouting watching one_live 0 watched 42
      (subscribe_many-IsRouting empty idle from_x (at_y ∷ []) 42 empty-IsRouting (omega arith)).1
      live_here
