-- ===== src/Graph/WatchRouter/Listeners.antt =====
-- What the listeners of a route are after a subscription and after the drop of a guard.
use myko.Base.{ℕ, ◌≡◌, refl, ◌&&◌, Option, none, some}
use myko.Base.{List, [], ◌∷◌, arith, if◌then◌else◌, Option-cases, inl, inr}
use myko.Base.Key.{◌==◌, nat_key, eq_of_==}
use myko.Base.Assoc
use myko.Base.Assoc.{Assoc, lookup-insert, lookup-remove}
use myko.Base.OrdSet
use myko.Graph.WatchRouter.{
  GraphWatchRoute, route_key, listeners, add_routes, remove_listener, remove_routes, put_back,
  extend,
}

module _ {C : Type 0} where
  listeners-insert :
      (p q : GraphWatchRoute) (ls : Assoc ℕ C) (m : Assoc GraphWatchRoute (Assoc ℕ C))
      → listeners p (Assoc.insert q ls m) ≡ (if q == p then ls else listeners p m)
  unfolding listeners
  listeners-insert p q ls m = ground (arith, lookup-insert q p ls m)

  pub listeners-add_routes :
      (p : GraphWatchRoute) (q id : ℕ) (c : C) (rs : List GraphWatchRoute)
      (m : Assoc GraphWatchRoute (Assoc ℕ C))
      → Assoc.lookup q (listeners p (add_routes rs id c m))
        ≡ (if OrdSet.contains p rs && (id == q) then some c else Assoc.lookup q (listeners p m))
  unfolding add_routes OrdSet.contains
  listeners-add_routes p q id c [] m = refl
  listeners-add_routes p q id c (r ∷ rs) m = ground (
    arith,
    listeners-add_routes p q id c rs (Assoc.insert r (Assoc.insert id c (listeners r m)) m),
    listeners-insert p r (Assoc.insert id c (listeners r m)) m,
    lookup-insert id q c (listeners r m),
    eq_of_== r p,
  )

  listeners-none :
      (r : GraphWatchRoute) (q : ℕ) (m : Assoc GraphWatchRoute (Assoc ℕ C))
      → Assoc.lookup r m ≡ none
      → Assoc.lookup q (listeners r m) ≡ none
  unfolding listeners Assoc.lookup
  listeners-none r q m e = rw (e, listeners) refl

  listeners-some :
      (r : GraphWatchRoute) (ls : Assoc ℕ C) (m : Assoc GraphWatchRoute (Assoc ℕ C))
      → Assoc.lookup r m ≡ some ls
      → listeners r m ≡ ls
  unfolding listeners
  listeners-some r ls m e = rw (e, listeners) refl

  removed_some :
      (r : GraphWatchRoute) (id : ℕ) (ls : Assoc ℕ C) (m : Assoc GraphWatchRoute (Assoc ℕ C))
      → Assoc.lookup r m ≡ some ls
      → remove_listener r id m ≡ put_back r (Assoc.remove id ls) m
  unfolding remove_listener
  removed_some r id ls m e = rw (e, remove_listener) refl

  removed_none :
      (r : GraphWatchRoute) (id : ℕ) (m : Assoc GraphWatchRoute (Assoc ℕ C))
      → Assoc.lookup r m ≡ none
      → remove_listener r id m ≡ m
  unfolding remove_listener
  removed_none r id m e = rw (e, remove_listener) refl

  listeners-put_back :
      (p r : GraphWatchRoute) (ls : Assoc ℕ C) (m : Assoc GraphWatchRoute (Assoc ℕ C))
      → listeners p (put_back r ls m) ≡ (if r == p then ls else listeners p m)
  unfolding put_back listeners
  listeners-put_back p r [] m = ground (arith, lookup-remove r p m)
  listeners-put_back p r (l ∷ ls) m = ground (arith, lookup-insert r p (l ∷ ls) m)

  listeners-remove_listener :
      (p : GraphWatchRoute) (q id : ℕ) (r : GraphWatchRoute) (m : Assoc GraphWatchRoute (Assoc ℕ C))
      → Assoc.lookup q (listeners p (remove_listener r id m))
        ≡ (if (r == p) && (id == q) then none else Assoc.lookup q (listeners p m))
  listeners-remove_listener p q id r m = elim (Option-cases (Assoc.lookup r m)) [
    | inl e ↦ rw (removed_none r id m e) (absent e)
    | inr (ls, e) ↦ rw (removed_some r id ls m e) (present ls e)
  ]
    where
      absent :
          Assoc.lookup r m ≡ none
          → Assoc.lookup q (listeners p m)
            ≡ (if (r == p) && (id == q) then none else Assoc.lookup q (listeners p m))
      absent e = ground (arith, eq_of_== r p, listeners-none r q m e)

      present :
          (ls : Assoc ℕ C)
          → Assoc.lookup r m ≡ some ls
          → Assoc.lookup q (listeners p (put_back r (Assoc.remove id ls) m))
            ≡ (if (r == p) && (id == q) then none else Assoc.lookup q (listeners p m))
      present ls e = ground (
        arith,
        listeners-put_back p r (Assoc.remove id ls) m,
        lookup-remove id q ls,
        eq_of_== r p,
        listeners-some r ls m e,
      )

  pub listeners-remove_routes :
      (p : GraphWatchRoute) (q id : ℕ) (rs : List GraphWatchRoute)
      (m : Assoc GraphWatchRoute (Assoc ℕ C))
      → Assoc.lookup q (listeners p (remove_routes rs id m))
        ≡ (if OrdSet.contains p rs && (id == q) then none else Assoc.lookup q (listeners p m))
  unfolding remove_routes OrdSet.contains
  listeners-remove_routes p q id [] m = refl
  listeners-remove_routes p q id (r ∷ rs) m = ground (
    arith,
    listeners-remove_routes p q id rs (remove_listener r id m),
    listeners-remove_listener p q id r m,
  )

  abbrev pub or_else : Option C → Option C → Option C
  or_else none b = b
  or_else (some a) b = some a

  pub lookup-extend :
      (q : ℕ) (callbacks ls : Assoc ℕ C)
      → Assoc.lookup q (extend callbacks ls)
        ≡ or_else (Assoc.lookup q ls) (Assoc.lookup q callbacks)
  unfolding extend Assoc.lookup
  lookup-extend q callbacks [] = refl
  lookup-extend q callbacks ((id, c) ∷ ls) =
      ground (arith, lookup-insert id q c (extend callbacks ls), lookup-extend q callbacks ls)
