-- ===== src/Server/Relationships/Cycle/Walks.antt =====
-- A cycle that the search returns is a closed walk along the edges of the graph.
use myko.Base.{ℕ, zero, suc, ◌≡◌, refl, sym, ◌∙◌, ap, some, true}
use myko.Base.{List, [], ◌∷◌, ◌++◌, arith, Bool-cases, inl, inr}
use myko.Base.{◌||◌}
use mathlib.Core.Path.{subst}
use myko.Base.Key.{◌==◌, nat_key, eq_of_==}
use myko.Base.Text.{Str, str_key}
use myko.Base.Assoc
use myko.Base.Assoc.{lookup-insert}
use myko.Base.OrdSet
use myko.Server.Relationships.Cycle.{Graph, States, Visit, found, clear, out_of_fuel, visit}
use myko.Server.Relationships.Cycle.{visit_each, leave_node, dependents, visit_roots, pop}
use myko.Server.Relationships.Cycle.{and_then, in_state, from_entry}
use myko.Server.Relationships.Cycle.Finished.{Edge, in_state_lem}

-- each node of the list has an edge to the next one
abbrev pub IsWalk : Graph → List Str → Type 0
IsWalk graph [] = Unit
IsWalk graph (x ∷ []) = Unit
IsWalk graph (x ∷ y ∷ ys) = Edge graph x y × IsWalk graph (y ∷ ys)

-- A walk of at least one edge that ends where it starts
pub record IsCycle (graph : Graph) (walk : List Str) : Type 0 where
  pub start : Str
  pub between : List Str
  pub is_closed : walk ≡ start ∷ (between ++ (start ∷ []))
  pub is_walk : IsWalk graph walk

pop-append : (x : Str) (xs : List Str) → pop (xs ++ (x ∷ [])) ≡ xs
unfolding pop
pop-append x [] = refl
pop-append x (y ∷ []) = refl
pop-append x (y ∷ z ∷ zs) = ap (◌∷◌ y) (pop-append x (z ∷ zs))

-- What the stack looks like to a cycle that closes at one of its entries
record Closes (graph : Graph) (node : Str) (cycle : List Str) : Type 0 where
  rest : List Str
  starts : cycle ≡ node ∷ rest
  walks : IsWalk graph (cycle ++ (node ∷ []))

IsWalk-tail : (graph : Graph) (x : Str) (xs : List Str) → IsWalk graph (x ∷ xs) → IsWalk graph xs
IsWalk-tail graph x [] w = tt
IsWalk-tail graph x (y ∷ ys) w = w.1

from_entry-Closes :
    (graph : Graph) (node : Str) (whole stack : List Str)
    → OrdSet.contains node stack ≡ true
    → IsWalk graph (stack ++ (node ∷ []))
    → Closes graph node (from_entry node whole stack)
unfolding from_entry OrdSet.contains
from_entry-Closes graph node whole [] h w = absurd (ground arith)
from_entry-Closes graph node whole (entry ∷ stack) h w = elim (Bool-cases (entry == node)) [
  | inl e ↦
      rw (e, from_entry)
        (record { rest = stack; starts = ap (λ x. x ∷ stack) (eq_of_== entry node e); walks = w })
  | inr e ↦
      rw (e, from_entry)
        (from_entry-Closes graph node whole stack (ground arith)
          (IsWalk-tail graph entry (stack ++ (node ∷ [])) w))
]

Closes-IsCycle :
    (graph : Graph) (node : Str) (cycle : List Str)
    → Closes graph node cycle
    → IsCycle graph (cycle ++ (node ∷ []))
Closes-IsCycle graph node cycle c = record {
  start = node;
  between = c.rest;
  is_closed = ap (λ xs. xs ++ (node ∷ [])) c.starts;
  is_walk = c.walks;
}

module _ (graph : Graph) where
  -- a node in the first state is on the stack
  abbrev pub OnStack : States → List Str → Type 0
  OnStack states stack = (x : Str) → Assoc.lookup x states ≡ some 1 → OrdSet.contains x stack ≡ true

  abbrev pub Sound : List Str → Visit → Type 0
  Sound stack (found cycle) = IsCycle graph cycle
  Sound stack (clear states after) = (after ≡ stack) × OnStack states stack
  Sound stack out_of_fuel = Unit

  abbrev Follows : List Str → Str → Type 0
  Follows stack node = IsWalk graph (stack ++ (node ∷ []))

  abbrev SoundVisit : (Str → States → List Str → Visit) → Type 0
  SoundVisit v =
      (node : Str) (states : States) (stack : List Str)
      → OnStack states stack
      → Follows stack node
      → Sound stack (v node states stack)

  chain-Sound :
      (stack : List Str) (r : Visit) (next : States → List Str → Visit)
      → Sound stack r
      → ((states : States) → OnStack states stack → Sound stack (next states stack))
      → Sound stack (and_then r next)
  chain-Sound stack (found c) next h g = h
  chain-Sound stack out_of_fuel next h g = tt
  chain-Sound stack (clear states after) next h g =
      subst (λ s. Sound stack (next states s)) (sym h.0) (g states h.1)

  abbrev AllFollow : List Str → List Str → Type 0
  AllFollow stack [] = Unit
  AllFollow stack (node ∷ nodes) = Follows stack node × AllFollow stack nodes

  visit_each-Sound :
      (v : Str → States → List Str → Visit)
      → SoundVisit v
      → (nodes : List Str) (states : States) (stack : List Str) → OnStack states stack
      → AllFollow stack nodes
      → Sound stack (visit_each v nodes states stack)
  unfolding visit_each
  visit_each-Sound v ok [] states stack h w = (refl, h)
  visit_each-Sound v ok (node ∷ nodes) states stack h w =
      chain-Sound stack (v node states stack) (visit_each v nodes) (ok node states stack h w.0)
        (λ st on. visit_each-Sound v ok nodes st stack on w.1)

  contains-append_last :
      (x y : Str) (xs : List Str)
      → OrdSet.contains x (xs ++ (y ∷ [])) ≡ (OrdSet.contains x xs || (y == x))
  unfolding OrdSet.contains
  contains-append_last x y [] = ground arith
  contains-append_last x y (z ∷ zs) = ground (arith, contains-append_last x y zs)

  IsWalk-append :
      (node y : Str) (stack : List Str)
      → Follows stack node
      → Edge graph node y
      → IsWalk graph ((stack ++ (node ∷ [])) ++ (y ∷ []))
  IsWalk-append node y [] w e = (e, tt)
  IsWalk-append node y (a ∷ []) w e = (w.0, (e, tt))
  IsWalk-append node y (a ∷ b ∷ stack) w e = (w.0, IsWalk-append node y (b ∷ stack) w.1 e)

  -- the dependents that are still to come
  dependents_follow :
      (node : Str) (stack : List Str) (next : List Str)
      → Follows stack node
      → ((y : Str) → OrdSet.contains y next ≡ true → Edge graph node y)
      → AllFollow (stack ++ (node ∷ [])) next
  unfolding OrdSet.contains
  dependents_follow node stack [] w e = tt
  dependents_follow node stack (y ∷ next) w e = (
    IsWalk-append node y stack w (e y (ground (arith, str_key.cmp_refl y))),
    dependents_follow node stack next w (λ z h. e z (ground (arith, h))),
  )

  leave-Sound :
      (node : Str) (stack : List Str) (r : Visit)
      → Sound (stack ++ (node ∷ [])) r
      → Sound stack (leave_node node r)
  leave-Sound node stack (found c) h = h
  leave-Sound node stack out_of_fuel h = tt
  leave-Sound node stack (clear states after) h = (
    ap pop h.0 ∙ pop-append node stack,
    λ x q.
        ground (arith, q, h.1 x, lookup-insert node x 2 states, contains-append_last x node stack),
  )

  entered_OnStack :
      (node : Str) (states : States) (stack : List Str)
      → OnStack states stack
      → OnStack (Assoc.insert node 1 states) (stack ++ (node ∷ []))
  entered_OnStack node states stack h x q =
      ground (arith, q, h x, lookup-insert node x 1 states, contains-append_last x node stack)

  visit-Sound : (fuel : ℕ) → SoundVisit (visit fuel graph)
  unfolding visit
  visit-Sound zero node states stack h w = tt
  visit-Sound (suc fuel) node states stack h w = elim (Bool-cases (in_state 1 node states)) [
    | inl e ↦
        rw (e, visit)
          (Closes-IsCycle graph node (from_entry node stack stack)
            (from_entry-Closes graph node stack stack (h node (in_state_lem 1 node states e)) w))
    | inr e ↦ elim (Bool-cases (in_state 2 node states)) [
      | inl q ↦ rw (e, q, visit) (refl, h)
      | inr q ↦
          rw (e, q, visit)
            (leave-Sound node stack
              (visit_each (visit fuel graph) (dependents node graph) (Assoc.insert node 1 states)
                (stack ++ (node ∷ [])))
              (visit_each-Sound (visit fuel graph) (visit-Sound fuel) (dependents node graph)
                (Assoc.insert node 1 states) (stack ++ (node ∷ []))
                (entered_OnStack node states stack h)
                (dependents_follow node stack (dependents node graph) w (λ y e. e))))
    ]
  ]

  pub visit_roots-Sound :
      (fuel : ℕ) (nodes : List Str) (states : States)
      → OnStack states []
      → Sound [] (visit_roots fuel graph nodes states)
  unfolding visit_roots
  visit_roots-Sound fuel [] states h = (refl, h)
  visit_roots-Sound fuel (node ∷ nodes) states h =
      chain-Sound [] (visit fuel graph node states []) (λ st _. visit_roots fuel graph nodes st)
        (visit-Sound fuel node states [] h tt) (λ st on. visit_roots-Sound fuel nodes st on)
