-- ===== src/Server/Relationships/Cycle/Depth.antt =====
-- The search never runs out of fuel: each level of `visit` enters a node that no level above it has
-- entered, and only a node of the graph has dependents.
use myko.Base.{ℕ, zero, suc, ◌<◌, ◌≤◌, ◌≡◌, refl, some, Bool, true, false}
use myko.Base.{
  List, [], ◌∷◌, ◌++◌, if◌then◌else◌, arith, Bool-cases, Option-cases, inl, inr, length,
}
use myko.Base.{◌||◌, ◌⊎◌, ◌≢◌}
use mathlib.Core.Path.{subst}
use myko.Base.Key.{◌==◌, nat_key}
use myko.Base.Text.{Str, str_key}
use myko.Base.Assoc
use myko.Base.Assoc.{lookup-insert}
use myko.Server.Relationships.Cycle.{Graph, States, Visit, found, clear, out_of_fuel, visit}
use myko.Server.Relationships.Cycle.{visit_each, leave_node, dependents, visit_roots, keys}
use myko.Server.Relationships.Cycle.{and_then, in_state, graph_cycle, enough_fuel}

abbrev seen : Str → States → Bool
seen node states = in_state 1 node states || in_state 2 node states

-- the entries of the graph whose node no visit has entered
unseen : Graph → States → ℕ
unseen [] states = 0
unseen ((node, _) ∷ graph) states =
    let rest = unseen graph states in if seen node states then rest else suc rest

Grows : States → States → Type 0
Grows before after = (x : Str) → seen x before ≡ true → seen x after ≡ true

unseen-Grows :
    (graph : Graph) (before after : States)
    → Grows before after
    → unseen graph after ≤ unseen graph before
unfolding unseen Grows
unseen-Grows [] before after g = omega arith
unseen-Grows ((node, _) ∷ graph) before after g =
    ground (arith, unseen-Grows graph before after g, g node)

unseen-length : (graph : Graph) (states : States) → unseen graph states ≤ length graph
unfolding unseen
unseen-length [] states = omega arith
unseen-length ((node, _) ∷ graph) states = ground (arith, unseen-length graph states)

seen-insert :
    (x node : Str) (n : ℕ) (states : States)
    → (n ≡ 1) ⊎ (n ≡ 2)
    → seen x (Assoc.insert node n states) ≡ ((node == x) || seen x states)
unfolding in_state
seen-insert x node n states h = elim h [
  | inl e ↦ rw e (ground (arith, lookup-insert node x 1 states, nat_key.cmp_refl 1))
  | inr e ↦ rw e (ground (arith, lookup-insert node x 2 states, nat_key.cmp_refl 2))
]

insert-Grows :
    (node : Str) (n : ℕ) (states : States)
    → (n ≡ 1) ⊎ (n ≡ 2)
    → Grows states (Assoc.insert node n states)
unfolding Grows
insert-Grows node n states h x g = ground (arith, seen-insert x node n states h)

-- A node of the graph that is entered is unseen no longer.
unseen-insert :
    (node : Str) (graph : Graph) (states : States)
    → seen node states ≡ false
    → Assoc.contains_key node graph ≡ true
    → unseen graph (Assoc.insert node 1 states) < unseen graph states
unfolding unseen Assoc.contains_key Assoc.lookup
unseen-insert node [] states h g = absurd (ground arith)
unseen-insert node ((j, _) ∷ graph) states h g = ground (
  arith,
  unseen-insert node graph states h,
  unseen-Grows graph states (Assoc.insert node 1 states) (insert-Grows node 1 states (inl refl)),
  seen-insert j node 1 states (inl refl),
  str_key.eq_of_cmp j node,
  str_key.eq_of_cmp node j,
  str_key.cmp_refl node,
)

has_key :
    (node : Str) (next : List Str) (graph : Graph)
    → Assoc.lookup node graph ≡ some next
    → Assoc.contains_key node graph ≡ true
unfolding Assoc.contains_key
has_key node next graph e = ground (arith, e)

module _ (graph : Graph) where
  -- a call that neither runs out of fuel nor forgets a state
  EndsWell : States → Visit → Type 0
  EndsWell before (found _) = Unit
  EndsWell before (clear after _) = Grows before after
  EndsWell before out_of_fuel = ⊥

  EndsWithin : ℕ → (Str → States → List Str → Visit) → Type 0
  EndsWithin fuel v =
      (node : Str) (states : States) (stack : List Str)
      → unseen graph states < fuel
      → EndsWell states (v node states stack)

  chain-ends :
      (fuel : ℕ) (states : States) (r : Visit) (next : States → List Str → Visit)
      → unseen graph states < fuel
      → EndsWell states r
      → ((st : States) (sk : List Str) → unseen graph st < fuel → EndsWell st (next st sk))
      → EndsWell states (and_then r next)
  unfolding EndsWell Grows
  chain-ends fuel states (found c) next room h g = tt
  chain-ends fuel states out_of_fuel next room h g = h
  chain-ends fuel states (clear st sk) next room h g =
      go (next st sk) (g st sk (omega (arith, unseen-Grows graph states st h, room)))
    where
      go : (r : Visit) → EndsWell st r → EndsWell states r
      go (found c) f = tt
      go out_of_fuel f = f
      go (clear last sk') f = λ x e. f x (h x e)

  visit_each-ends :
      (fuel : ℕ) (v : Str → States → List Str → Visit)
      → EndsWithin fuel v
      → (nodes : List Str) (states : States) (stack : List Str) → unseen graph states < fuel
      → EndsWell states (visit_each v nodes states stack)
  unfolding visit_each EndsWell Grows EndsWithin
  visit_each-ends fuel v ok [] states stack room = λ x e. e
  visit_each-ends fuel v ok (node ∷ nodes) states stack room =
      chain-ends fuel states (v node states stack) (visit_each v nodes) room
        (ok node states stack room) (visit_each-ends fuel v ok nodes)

  leave-ends :
      (node : Str) (states : States) (r : Visit)
      → EndsWell (Assoc.insert node 1 states) r
      → EndsWell states (leave_node node r)
  unfolding EndsWell Grows
  leave-ends node states (found c) h = tt
  leave-ends node states out_of_fuel h = h
  leave-ends node states (clear st sk) h =
      λ x e. insert-Grows node 2 st (inr refl) x (h x (insert-Grows node 1 states (inl refl) x e))

  enter-ends :
      (fuel : ℕ) (node : Str) (states : States) (stack : List Str)
      → EndsWithin fuel (visit fuel graph)
      → seen node states ≡ false
      → unseen graph states < suc fuel
      → EndsWell
          (Assoc.insert node 1 states)
          (visit_each (visit fuel graph) (dependents node graph) (Assoc.insert node 1 states) stack)
  unfolding EndsWell Grows visit_each
  enter-ends fuel node states stack ok h room = elim (Option-cases (Assoc.lookup node graph)) [
    | inl e ↦ rw (e, visit_each) (λ x q. q)
    | inr (next, e) ↦
        visit_each-ends fuel (visit fuel graph) ok (dependents node graph)
          (Assoc.insert node 1 states) stack
          (omega (arith, unseen-insert node graph states h (has_key node next graph e), room))
  ]

  visit-ends : (fuel : ℕ) → EndsWithin fuel (visit fuel graph)
  unfolding visit EndsWell EndsWithin Grows
  visit-ends zero node states stack room = absurd (omega (arith, room))
  visit-ends (suc fuel) node states stack room = elim (Bool-cases (in_state 1 node states)) [
    | inl e ↦ rw (e, visit) tt
    | inr e ↦ elim (Bool-cases (in_state 2 node states)) [
      | inl q ↦ rw (e, q, visit) (λ x r. r)
      | inr q ↦
          rw (e, q, visit)
            (leave-ends node states
              (visit_each (visit fuel graph) (dependents node graph) (Assoc.insert node 1 states)
                (stack ++ (node ∷ [])))
              (enter-ends fuel node states (stack ++ (node ∷ [])) (visit-ends fuel) (ground arith)
                room))
    ]
  ]

  visit_roots-ends :
      (nodes : List Str) (states : States)
      → EndsWell states (visit_roots (enough_fuel graph) graph nodes states)
  unfolding visit_roots EndsWell Grows EndsWithin
  visit_roots-ends [] states = λ x e. e
  visit_roots-ends (node ∷ nodes) states =
      chain-ends (enough_fuel graph) states (visit (enough_fuel graph) graph node states [])
        (λ st _. visit_roots (enough_fuel graph) graph nodes st)
        (omega (arith, unseen-length graph states))
        (visit-ends (enough_fuel graph) node states [] (omega (arith, unseen-length graph states)))
        (λ st sk room. visit_roots-ends nodes st)

-- The search for a cycle always ends with an answer.
pub graph_cycle-ends : (graph : Graph) → graph_cycle graph ≢ out_of_fuel
unfolding graph_cycle EndsWell
graph_cycle-ends graph h = subst (EndsWell graph []) h (visit_roots-ends graph (keys graph) [])
