-- ===== src/Graph/WatchRouter/Routing.antt =====
-- A change reaches the live subscriptions that watch one of its routes, and no others.
use myko.Base.{ℕ, ◌≤◌, ◌<◌, ◌≡◌, refl, sym, ap, ◌∙◌, Option, none, some}
use myko.Base.{List, [], ◌∷◌, arith, if◌then◌else◌, u64_max, any, Bool-cases, inl, inr}
use myko.Base.Key.{◌==◌, nat_key, eq_of_==, ==_refl}
use myko.Base.Assoc
use myko.Base.Assoc.{Assoc, lookup-insert, lookup-remove}
use myko.Base.OrdSet
use myko.Graph.WatchRouter.{
  GraphWatchRoute, GraphWatchRouter, route_key, listeners, add_routes, subscribe_many,
  remove_routes, release, extend, collect, dispatch, wrapping_increment,
}
use myko.Graph.WatchRouter.Listeners.{
  listeners-add_routes, listeners-remove_routes, or_else, lookup-extend,
}

-- the live subscriptions: the routes and the callback of each id
abbrev pub Live : Type 0 → Type 0
Live C = ℕ → Option (List GraphWatchRoute × C)

nonempty :
    (route : GraphWatchRoute) (rest : List GraphWatchRoute)
    → OrdSet.extend [] (route ∷ rest) ≡ []
    → ⊥
unfolding OrdSet.contains
nonempty route rest e = absurd (
    ground (
      arith,
      OrdSet.contains-extend route [] (route ∷ rest),
      ap (OrdSet.contains route) e,
      ==_refl route,
    ))

module _ {C : Type 0} where
  -- the callback of a subscription, if it watches the route
  unfoldable pub heard : Option (List GraphWatchRoute × C) → GraphWatchRoute → Option C
  unfolding OrdSet.contains
  heard none route = none
  heard (some (routes, c)) route = if OrdSet.contains route routes then some c else none

  -- the callback of a subscription, if it watches one of the routes
  unfoldable pub called : Option (List GraphWatchRoute × C) → List GraphWatchRoute → Option C
  unfolding OrdSet.contains any
  called none routes = none
  called (some (watched, c)) routes =
      if any (λ r. OrdSet.contains r watched) routes then some c else none

  pub record IsRouting (w : GraphWatchRouter C) (live : Live C) : Type 0 where
    pub routed :
        (route : GraphWatchRoute) (id : ℕ)
        → Assoc.lookup id (listeners route w.routes) ≡ heard (live id) route
    pub fresh : (id : ℕ) → w.next_id ≤ id → live id ≡ none

  called-step :
      (s : Option (List GraphWatchRoute × C)) (r : GraphWatchRoute) (rs : List GraphWatchRoute)
      (before : Option C)
      → or_else (called s rs) (or_else (heard s r) before) ≡ or_else (called s (r ∷ rs)) before
  unfolding called heard any
  called-step none r rs before = refl
  called-step (some (watched, c)) r rs before = ground arith

  called-nil : (s : Option (List GraphWatchRoute × C)) → called s [] ≡ none
  unfolding called any
  called-nil none = refl
  called-nil (some w) = refl

  lookup-collect :
      (q : ℕ) (s : Option (List GraphWatchRoute × C)) (rs : List GraphWatchRoute)
      (m : Assoc GraphWatchRoute (Assoc ℕ C)) (callbacks : Assoc ℕ C)
      → ((r : GraphWatchRoute) → Assoc.lookup q (listeners r m) ≡ heard s r)
      → Assoc.lookup q (collect rs m callbacks) ≡ or_else (called s rs) (Assoc.lookup q callbacks)
  unfolding collect
  lookup-collect q s [] m callbacks h =
      ap (λ o. or_else o (Assoc.lookup q callbacks)) (sym (called-nil s))
  lookup-collect q s (r ∷ rs) m callbacks h =
      lookup-collect q s rs m (extend callbacks (listeners r m)) h
      ∙ ap (or_else (called s rs)) (
          lookup-extend q callbacks (listeners r m)
          ∙ ap (λ o. or_else o (Assoc.lookup q callbacks)) (h r))
      ∙ called-step s r rs (Assoc.lookup q callbacks)

  -- In a router that serves the live subscriptions, a dispatched change calls the callback of each
  -- of them if and only if it watches one of the routes, and calls no other callback.
  pub dispatch-routed :
      (w : GraphWatchRouter C) (live : Live C) (routes : List GraphWatchRoute) (id : ℕ)
      → IsRouting w live
      → Assoc.lookup id (dispatch routes w).1 ≡ called (live id) routes
  unfolding dispatch Assoc.lookup
  dispatch-routed w live routes id v =
      lookup-collect id (live id) routes w.routes [] (λ r. v.routed r id)
      ∙ drop_none (called (live id) routes)
    where
      drop_none : (o : Option C) → or_else o (Assoc.lookup id []) ≡ o
      drop_none none = refl
      drop_none (some c) = refl

  -- the live subscriptions with one more, or one less
  abbrev pub with_live : Live C → ℕ → Option (List GraphWatchRoute × C) → Live C
  with_live live id s q = if id == q then s else live q

  heard-none :
      (s : Option (List GraphWatchRoute × C)) (p : GraphWatchRoute) → s ≡ none → heard s p ≡ none
  unfolding heard
  heard-none s p e = rw e refl

  heard-some :
      (s : Option (List GraphWatchRoute × C)) (routes : List GraphWatchRoute) (c : C)
      (p : GraphWatchRoute)
      → s ≡ some (routes, c)
      → heard s p ≡ (if OrdSet.contains p routes then some c else none)
  unfolding heard
  heard-some s routes c p e = rw e refl

  heard-with_live :
      (live : Live C) (id q : ℕ) (s : Option (List GraphWatchRoute × C)) (p : GraphWatchRoute)
      → heard (with_live live id s q) p ≡ (if id == q then heard s p else heard (live q) p)
  heard-with_live live id q s p = elim (Bool-cases (id == q)) [
    | inl e ↦ rw e refl
    | inr e ↦ rw e refl
  ]

  added-IsRouting :
      (w : GraphWatchRouter C) (live : Live C) (routes : List GraphWatchRoute) (callback : C)
      (n : ℕ)
      → IsRouting w live
      → w.next_id < u64_max
      → IsRouting
          (record w {
            next_id = wrapping_increment w.next_id;
            routes = add_routes routes w.next_id callback w.routes;
            active_subscriptions = n;
          })
          (with_live live w.next_id (some (routes, callback)))
  unfolding wrapping_increment nat_key
  added-IsRouting w live routes callback n v room = record {
    routed = routed_after;
    fresh = fresh_after;
  }
    where
      routed_after :
          (p : GraphWatchRoute) (q : ℕ)
          → Assoc.lookup q (listeners p (add_routes routes w.next_id callback w.routes))
            ≡ heard (with_live live w.next_id (some (routes, callback)) q) p
      routed_after p q = ground (
        arith,
        listeners-add_routes p q w.next_id callback routes w.routes,
        heard-with_live live w.next_id q (some (routes, callback)) p,
        heard-some (some (routes, callback)) routes callback p refl,
        heard-none (live q) p,
        v.fresh q,
        v.routed p q,
      )

      fresh_after :
          (q : ℕ)
          → wrapping_increment w.next_id ≤ q
          → with_live live w.next_id (some (routes, callback)) q ≡ none
      fresh_after q h = ground (arith, v.fresh q)

  -- Subscribing to at least one route registers a new subscription under the id of its guard, for
  -- exactly the routes given, as long as ids are left.
  pub subscribe_many-IsRouting :
      (w : GraphWatchRouter C) (live : Live C) (route : GraphWatchRoute)
      (rest : List GraphWatchRoute) (callback : C)
      → IsRouting w live
      → w.next_id < u64_max
      → let routes = OrdSet.extend [] (route ∷ rest) in
        let (w', guard) = subscribe_many (route ∷ rest) callback w in
        (guard ≡ some (w.next_id, routes))
        × IsRouting w' (with_live live w.next_id (some (routes, callback)))
  unfolding subscribe_many
  subscribe_many-IsRouting w live route rest callback v room =
      go (OrdSet.extend [] (route ∷ rest)) refl
    where
      go :
          (rs : List GraphWatchRoute)
          → OrdSet.extend [] (route ∷ rest) ≡ rs
          → ((subscribe_many (route ∷ rest) callback w).1
              ≡ some (w.next_id, OrdSet.extend [] (route ∷ rest)))
            × IsRouting
                (subscribe_many (route ∷ rest) callback w).0
                (with_live live w.next_id (some (OrdSet.extend [] (route ∷ rest), callback)))
      go [] e = absurd (nonempty route rest e)
      go (r ∷ rs) e =
          rw (e, subscribe_many)
            (
              refl,
              added-IsRouting w live (r ∷ rs) callback (wrapping_increment w.active_subscriptions) v
                  room,
            )

  -- Dropping the guard of a live subscription takes exactly that subscription out.
  pub release-IsRouting :
      (w : GraphWatchRouter C) (live : Live C) (id : ℕ) (routes : List GraphWatchRoute)
      (callback : C)
      → IsRouting w live
      → live id ≡ some (routes, callback)
      → IsRouting (release (id, routes) w) (with_live live id none)
  unfolding release nat_key
  release-IsRouting w live id routes callback v here = record {
    routed = routed_after;
    fresh = fresh_after;
  }
    where
      routed_after :
          (p : GraphWatchRoute) (q : ℕ)
          → Assoc.lookup q (listeners p (remove_routes routes id w.routes))
            ≡ heard (with_live live id none q) p
      routed_after p q = ground (
        arith,
        listeners-remove_routes p q id routes w.routes,
        heard-with_live live id q none p,
        heard-none none p refl,
        heard-some (live id) routes callback p here,
        eq_of_== id q,
        v.routed p id,
        v.routed p q,
      )

      fresh_after : (q : ℕ) → w.next_id ≤ q → with_live live id none q ≡ none
      fresh_after q h = ground (arith, v.fresh q h)

  -- A router without routes serves no subscription.
  pub empty-IsRouting :
      IsRouting
        (record { next_id = 0; routes = []; active_subscriptions = 0; dispatched_callbacks = 0 })
        (λ _. none)
  unfolding listeners Assoc.lookup heard
  empty-IsRouting = record { routed = λ route id. refl; fresh = λ id h. refl }
