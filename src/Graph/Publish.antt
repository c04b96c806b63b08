-- ===== src/Graph/Publish.antt =====
-- libs/myko/core/src/core/graph.rs: the routes of a canonical change, and its publication to the
-- subscriptions that watch one of them (`publish_watch_change`). Batches are not modelled.
use myko.Base.{ℕ, ◌≡◌, refl, ap, ◌∙◌, true, ◌&&◌, Option, none, some, List, [], ◌∷◌, ◌++◌}
use myko.Base.{arith, if◌then◌else◌}
use myko.Base.Key.{ltk, nat_key}
use myko.Base.Assoc
use myko.Base.Assoc.{Assoc}
use myko.Graph.Types.{AnyItem, EndpointValue, EdgeEndpoints, end_a, end_b, endpoint_key}
use myko.Graph.Index.{EdgeRegistration, GraphIndex, registration, is_undirected}
use myko.Graph.WatchRouter.{
  GraphWatchRoute, GraphWatchRouter, endpoint, incident, pair, has_subscribers, dispatch,
}
use myko.Graph.WatchRouter.Routing.{Live, IsRouting, called, dispatch-routed}

unfoldable pub pair_watch_route : EdgeRegistration → EndpointValue → EndpointValue → GraphWatchRoute
pair_watch_route r x y =
    if is_undirected r.shape && ltk y x then pair r.edge_type y x else pair r.edge_type x y

-- `add_watch_routes_for_item`, with the visited routes as a list; `none` where the extractor fails
unfoldable pub routes_for_item : EdgeRegistration → AnyItem → Option (List GraphWatchRoute)
unfolding pair_watch_route
routes_for_item r item = elim (r.extract item) [
  | none ↦ none
  | some ends ↦ some (
      endpoint r.edge_type end_a ends.a
      ∷ incident r.edge_type ends.a
      ∷ endpoint r.edge_type end_b ends.b
      ∷ incident r.edge_type ends.b
      ∷ pair_watch_route r ends.a ends.b
      ∷ [])
]

-- The diffs that one change makes, of the type `hyphae::MapDiff`.
pub data GraphWatchDiff : Type 0 where
  insert : AnyItem → GraphWatchDiff
  remove : AnyItem → GraphWatchDiff
  update : AnyItem → AnyItem → GraphWatchDiff

-- an arm of `add_watch_routes_for_diff`
unfoldable pub routes_for_registered : GraphIndex → AnyItem → Option (List GraphWatchRoute)
unfolding registration routes_for_item
routes_for_registered g item = elim (registration g item.entity_type) [
  | none ↦ some []
  | some r ↦ routes_for_item r item
]

unfoldable pub routes_for_diff : GraphIndex → GraphWatchDiff → Option (List GraphWatchRoute)
unfolding routes_for_registered
routes_for_diff g (insert value) = routes_for_registered g value
routes_for_diff g (remove old_value) = routes_for_registered g old_value
routes_for_diff g (update old_value new_value) = elim (routes_for_registered g old_value) [
  | none ↦ none
  | some old_routes ↦ elim (routes_for_registered g new_value) [
    | none ↦ none
    | some new_routes ↦ some (old_routes ++ new_routes)
  ]
]

unfoldable pub watch_diff_from_change :
    GraphIndex → Option AnyItem → Option AnyItem → Option GraphWatchDiff
unfolding registration
watch_diff_from_change g none none = none
watch_diff_from_change g none (some value) = elim (registration g value.entity_type) [
  | none ↦ none
  | some _ ↦ some (insert value)
]
watch_diff_from_change g (some old_value) none = elim (registration g old_value.entity_type) [
  | none ↦ none
  | some _ ↦ some (remove old_value)
]
watch_diff_from_change g (some old_value) (some new_value) =
    elim (registration g new_value.entity_type) [
      | none ↦ none
      | some _ ↦ some (update old_value new_value)
    ]

module _ {C : Type 0} where
  -- The callbacks that are called; `none` is the error of an extractor.
  unfoldable pub publish_watch_diff :
      GraphIndex → GraphWatchDiff → GraphWatchRouter C → GraphWatchRouter C × Option (Assoc ℕ C)
  unfolding routes_for_diff dispatch
  publish_watch_diff g diff w = elim (routes_for_diff g diff) [
    | none ↦ (w, none)
    | some routes ↦ let (w', callbacks) = dispatch routes w in (w', some callbacks)
  ]

  unfoldable pub publish_watch_change :
      GraphIndex
      → Option AnyItem
      → Option AnyItem
      → GraphWatchRouter C
      → GraphWatchRouter C × Option (Assoc ℕ C)
  unfolding watch_diff_from_change publish_watch_diff has_subscribers
  publish_watch_change g old new w =
      if has_subscribers w
      then elim (watch_diff_from_change g old new) [
        | none ↦ (w, some [])
        | some diff ↦ publish_watch_diff g diff w
      ]
      else (w, some [])

-- The watched routes of an undirected pair do not depend on the order of its ends.
pair_watch_route_comm :
    (r : EdgeRegistration) (x y : EndpointValue)
    → is_undirected r.shape ≡ true
    → pair_watch_route r x y ≡ pair_watch_route r y x
unfolding pair_watch_route
pair_watch_route_comm r x y u =
    ground (arith, endpoint_key.cmp_flip x y, endpoint_key.eq_of_cmp x y)

-- the routes of the edge that an item stands for
pub routes_of : EdgeRegistration → EdgeEndpoints → List GraphWatchRoute
routes_of r ends =
    endpoint r.edge_type end_a ends.a
    ∷ incident r.edge_type ends.a
    ∷ endpoint r.edge_type end_b ends.b
    ∷ incident r.edge_type ends.b
    ∷ pair_watch_route r ends.a ends.b
    ∷ []

routes_for_registered-known :
    (g : GraphIndex) (item : AnyItem) (r : EdgeRegistration) (ends : EdgeEndpoints)
    → registration g item.entity_type ≡ some r
    → r.extract item ≡ some ends
    → routes_for_registered g item ≡ some (routes_of r ends)
unfolding routes_for_registered routes_for_item routes_of
routes_for_registered-known g item r ends known e =
    rw (known, routes_for_registered, e, routes_for_item) refl

routes_for_update :
    (g : GraphIndex) (old new : AnyItem) (old_routes new_routes : List GraphWatchRoute)
    → routes_for_registered g old ≡ some old_routes
    → routes_for_registered g new ≡ some new_routes
    → routes_for_diff g (update old new) ≡ some (old_routes ++ new_routes)
unfolding routes_for_diff
routes_for_update g old new old_routes new_routes e f = rw (e, f, routes_for_diff) refl

update_diff :
    (g : GraphIndex) (old new : AnyItem) (r : EdgeRegistration)
    → registration g new.entity_type ≡ some r
    → watch_diff_from_change g (some old) (some new) ≡ some (update old new)
unfolding watch_diff_from_change
update_diff g old new r e = rw (e, watch_diff_from_change) refl

published :
    {C : Type 0} (g : GraphIndex) (w : GraphWatchRouter C) (diff : GraphWatchDiff)
    (routes : List GraphWatchRoute)
    → routes_for_diff g diff ≡ some routes
    → (publish_watch_diff g diff w).1 ≡ some (dispatch routes w).1
unfolding publish_watch_diff
published g w diff routes e = rw (e, publish_watch_diff) refl

change_published :
    {C : Type 0} (g : GraphIndex) (w : GraphWatchRouter C) (old new : Option AnyItem)
    (diff : GraphWatchDiff)
    → has_subscribers w ≡ true
    → watch_diff_from_change g old new ≡ some diff
    → publish_watch_change g old new w ≡ publish_watch_diff g diff w
unfolding publish_watch_change
change_published g w old new diff h e = rw (h, e, publish_watch_change) refl

-- Where anything is watched, the update of an edge of a registered type, whose ends can be extracted
-- before and after, calls the callback of every live subscription that watches one of the routes of
-- the old ends or of the new ends, and no other callback.
pub publish_update-called :
    {C : Type 0} (g : GraphIndex) (w : GraphWatchRouter C) (live : Live C) (old new : AnyItem)
    (r : EdgeRegistration) (old_ends new_ends : EdgeEndpoints) (id : ℕ)
    → IsRouting w live
    → has_subscribers w ≡ true
    → registration g old.entity_type ≡ some r
    → registration g new.entity_type ≡ some r
    → r.extract old ≡ some old_ends
    → r.extract new ≡ some new_ends
    → (callbacks : Assoc ℕ C) × (((publish_watch_change g (some old) (some new) w).1
          ≡ some callbacks)
        × (Assoc.lookup id callbacks
            ≡ called (live id) (routes_of r old_ends ++ routes_of r new_ends)))
publish_update-called g w live old new r old_ends new_ends id v some_watch known_old known_new e f =
    (
      (dispatch (routes_of r old_ends ++ routes_of r new_ends) w).1,
      (
        ap (λ p. p.1)
              (change_published g w (some old) (some new) (update old new) some_watch
                (update_diff g old new r known_new))
            ∙ published g w (update old new) (routes_of r old_ends ++ routes_of r new_ends) (
                routes_for_update g old new (routes_of r old_ends) (routes_of r new_ends)
                  (routes_for_registered-known g old r old_ends known_old e)
                  (routes_for_registered-known g new r new_ends known_new f)),
        dispatch-routed w live (routes_of r old_ends ++ routes_of r new_ends) id v,
      ),
    )
