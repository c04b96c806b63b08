-- ===== src/Graph/Tests.antt =====
-- A graph with one type of undirected edge whose pairs are unique, and instances of the theorems.
use myko.Base.{◌↔◌, ℕ, ◌≡◌, refl, true, Option, none, some, List, [], ◌∷◌}
use myko.Base.{arith, take, reverse, saturating_add}
use myko.Base.Key.{option_key}
use myko.Base.Text.{Str, str, str_key}
use myko.Base.Assoc
use myko.Base.OrdSet
use myko.Base.OrdSet.{IsAscending}
use myko.Wire.Window.{QueryWindow, after, before}
use myko.Graph.EdgeIds.{EdgeIds, many, ids, cursor_window}
use myko.Graph.EdgeIds.Refines.{IsValid}
use myko.Graph.EdgeIds.Windows.{cursor_pages}
use myko.Graph.Types.{
  AnyItem, EndpointValue, EdgeEndpoints, undirected, unique, intersect_adjacency, eager, reject,
  authoritative, concrete, IndexedEdge, endpoint_key, entity_key, edge_pair_key,
}
use myko.Graph.Incidence.Tracks.{update}
use myko.Graph.Index.{
  EdgeRegistration, GraphIndex, registration, projects_endpoint, indexed, apply, type_state,
}
use myko.Graph.Index.{initial_state}
use myko.Graph.Index.Represents.{edge_of}
use myko.Graph.Index.Faithful.{Canonical, IsFaithful, mutate, apply-IsFaithful, initial-IsFaithful}
use myko.Graph.Between.{indexed_ids_between}
use myko.Graph.Between.Exact.{joins, indexed_ids_between-exact}
use myko.Graph.Preflight.{preflight, preflight_ignoring, effective_apply_mode}
use myko.Graph.Preflight.Admissible.{IsAdmissible, preflight_ignoring-IsAdmissible}
use myko.Graph.Preflight.Unique.{IsUnique, preflight-IsUnique}
use myko.Base.{◌++◌}
use myko.Base.Key.{nat_key}
use myko.Base.Assoc.{Assoc}
use myko.Graph.Types.{end_b, cascade_edge, restrict_endpoint_delete}
use myko.Graph.WatchRouter.{
  GraphWatchRoute, GraphWatchRouter, route_key, endpoint, subscribe_many, has_subscribers,
  wrapping_increment,
}
use myko.Graph.WatchRouter.Routing.{
  Live, called, with_live, empty-IsRouting, subscribe_many-IsRouting,
}
use myko.Graph.Publish.{publish_watch_change, routes_of, publish_update-called}

abbrev b_and_c : EdgeIds
b_and_c = many (str "b" ∷ str "c" ∷ [])

b_and_c-IsValid : IsValid b_and_c
unfolding str_key
b_and_c-IsValid = (((refl, tt), (tt, tt)), omega arith)

node : ℕ → EndpointValue
node n = record { entity = record { entity_type = str "Node"; id = n ∷ [] }; qualifier = none }

ends_of : List ℕ → Option EdgeEndpoints
unfolding node
ends_of (x ∷ y ∷ rest) = some (record { a = node x; b = node y })
ends_of _ = none

abbrev link : EdgeRegistration
link = record {
  edge_type = str "Link";
  shape = undirected;
  pair_policy = unique;
  pair_projection = intersect_adjacency;
  requirement_a = concrete (str "Node");
  requirement_b = concrete (str "Node");
  scope_type = none;
  self_loops = reject;
  a_delete = cascade_edge;
  b_delete = restrict_endpoint_delete;
  extract = λ item. ends_of item.content;
  extract_scope = λ item. some none;
  extract_error = λ item. [];
  validate = none;
}

abbrev stored_node : ℕ → Str × AnyItem
stored_node n = (n ∷ [], record { entity_type = str "Node"; id = n ∷ []; content = [] })

abbrev graph : GraphIndex
graph = record {
  registrations = (str "Link", link) ∷ [];
  apply_modes = [];
  endpoint_adjacency = (str "Link", (eager, eager)) ∷ [];
  categories = [];
  registry = (str "Node", stored_node 1 ∷ stored_node 2 ∷ stored_node 3 ∷ []) ∷ [];
  item_types = str "Node" ∷ [];
  state = initial_state;
}

abbrev edge : Str → ℕ → ℕ → AnyItem
edge id x y = record { entity_type = str "Link"; id = id; content = x ∷ y ∷ [] }

abbrev nothing : Canonical
nothing t id = none

registered : (t : Str) (r : EdgeRegistration) → registration graph t ≡ some r → r.edge_type ≡ t
unfolding registration Assoc.lookup
registered t r h = ground (arith, str_key.eq_of_cmp (str "Link") t)

graph-IsFaithful : IsFaithful graph nothing
graph-IsFaithful = initial-IsFaithful graph refl registered

known : registration graph (str "Link") ≡ some link
unfolding registration Assoc.lookup str_key
known = refl

apply-IsFaithful_example :
    ((apply graph none (some (edge (str "e") 1 2))).1 ≡ some (saturating_add 0 1))
    × IsFaithful
        (apply graph none (some (edge (str "e") 1 2))).0
        (mutate nothing (str "Link") (str "e") (edge_of link (some (edge (str "e") 1 2))))
unfolding indexed ends_of
apply-IsFaithful_example =
    apply-IsFaithful graph nothing none (some (edge (str "e") 1 2)) (edge (str "e") 1 2) link refl
      known tt (refl, refl) refl graph-IsFaithful

abbrev linked : GraphIndex
linked = (apply graph none (some (edge (str "e") 1 2))).0

abbrev one_link : Canonical
one_link = mutate nothing (str "Link") (str "e") (edge_of link (some (edge (str "e") 1 2)))

indexed_ids_between_example :
    (OrdSet.contains
        (str "e")
        (indexed_ids_between linked link (type_state linked (str "Link")) (node 2) (node 1) none)
      ≡ joins link (node 2) (node 1) none (one_link (str "Link") (str "e")))
    × IsAscending
        (indexed_ids_between linked link (type_state linked (str "Link")) (node 2) (node 1) none)
unfolding apply projects_endpoint str_key Assoc.lookup ends_of
indexed_ids_between_example =
    indexed_ids_between-exact linked link (type_state linked (str "Link")) (one_link (str "Link"))
      (node 2) (node 1) none (str "e") refl ((apply-IsFaithful_example.1 (str "Link") link refl).1)

accepted : (preflight_ignoring graph none (some (edge (str "e") 1 2)) authoritative []).1 ≡ none
unfolding preflight_ignoring effective_apply_mode str_key entity_key endpoint_key ends_of
    registration Assoc.lookup
accepted = refl

preflight_ignoring-IsAdmissible_example :
    ((preflight_ignoring graph none (some (edge (str "e") 1 2)) authoritative []).1 ≡ none)
    ↔ IsAdmissible graph link (nothing (str "Link")) (edge (str "e") 1 2) []
unfolding effective_apply_mode str_key registration Assoc.lookup
preflight_ignoring-IsAdmissible_example =
    preflight_ignoring-IsAdmissible graph link nothing none (edge (str "e") 1 2) authoritative []
      refl refl graph-IsFaithful

no_links : IsUnique link (nothing (str "Link"))
no_links i j e f h k same = cc

abbrev new_edge : IndexedEdge
new_edge = record { id = str "e"; endpoints = record { a = node 1; b = node 2 }; scope = none }

preflight-IsUnique_example : IsUnique link (update (nothing (str "Link")) (str "e") (some new_edge))
unfolding preflight effective_apply_mode str_key entity_key endpoint_key ends_of registration
    indexed Assoc.lookup
preflight-IsUnique_example =
    preflight-IsUnique graph link nothing none (edge (str "e") 1 2) new_edge authoritative refl refl
      refl refl graph-IsFaithful no_links refl

abbrev slice : QueryWindow
slice = record { offset = 1; limit = 5 }

cursor_pages_example :
    (cursor_window (after (str "b") 5) b_and_c ≡ take 5 (str "c" ∷ []))
    × (cursor_window (before (str "b") 5) b_and_c ≡ reverse (take 5 (reverse [])))
unfolding ids
cursor_pages_example = cursor_pages b_and_c (str "b") [] (str "c" ∷ []) 5 b_and_c-IsValid refl

abbrev watch_router : GraphWatchRouter ℕ
watch_router = record {
  next_id = 0;
  routes = [];
  active_subscriptions = 0;
  dispatched_callbacks = 0;
}

abbrev from_node : GraphWatchRoute
from_node = endpoint (str "Link") end_b (node 3)

abbrev watching : GraphWatchRouter ℕ
watching = (subscribe_many (from_node ∷ []) 42 watch_router).0

abbrev watchers : Live ℕ
watchers = with_live (λ _. none) 0 (some (OrdSet.extend [] (from_node ∷ []), 42))

watching_some : has_subscribers watching ≡ true
unfolding has_subscribers subscribe_many OrdSet.extend OrdSet.insert wrapping_increment
watching_some = refl

first_ends : ends_of (1 ∷ 2 ∷ []) ≡ some (record { a = node 1; b = node 2 })
unfolding ends_of
first_ends = refl

second_ends : ends_of (1 ∷ 3 ∷ []) ≡ some (record { a = node 1; b = node 3 })
unfolding ends_of
second_ends = refl

publish_update-called_example :
    (callbacks : Assoc ℕ ℕ) × (((publish_watch_change graph
          (some (edge (str "e") 1 2))
          (some (edge (str "e") 1 3))
          watching).1
        ≡ some callbacks)
      × (Assoc.lookup 0 callbacks
          ≡ called (watchers 0) (
              routes_of link (record { a = node 1; b = node 2 })
              ++ routes_of link (record { a = node 1; b = node 3 }))))
publish_update-called_example =
    publish_update-called graph watching watchers (edge (str "e") 1 2) (edge (str "e") 1 3) link
      (record { a = node 1; b = node 2 }) (record { a = node 1; b = node 3 }) 0
      (subscribe_many-IsRouting watch_router (λ _. none) from_node [] 42 empty-IsRouting
        (omega arith)).1
      watching_some known known first_ends second_ends
