-- ===== src/Server/Relationships/Cycle/Finished.antt =====
-- A search that ends without a cycle has finished every node that it reached, and no walk along the
-- edges from a finished node goes on for ever.
use myko.Base.{ℕ, zero, suc, ◌≡◌, some, true, false}
use myko.Base.{List, [], ◌∷◌, ◌++◌, arith, Bool-cases, Option-cases, inl, inr}
use mathlib.Core.Path.{subst}
use myko.Base.Key.{◌==◌, nat_key, eq_of_==}
use myko.Base.Text.{Str, str_key}
use myko.Base.Assoc
use myko.Base.Assoc.{lookup-insert}
use myko.Base.OrdSet
use myko.Server.Relationships.Cycle.{Graph, States, Visit, found, clear, out_of_fuel, visit}
use myko.Server.Relationships.Cycle.{visit_each, leave_node, dependents, visit_roots}
use myko.Server.Relationships.Cycle.{and_then, in_state}

abbrev pub Edge : Graph → Str → Str → Type 0
Edge graph x y = OrdSet.contains y (dependents x graph) ≡ true

-- Every walk that starts at the node ends.
pub data Safe (graph : Graph) : Str → Type 0 where
  safe : {x : Str} → ((y : Str) → Edge graph x y → Safe graph y) → Safe graph x

abbrev pub Done : States → Str → Type 0
Done states x = Assoc.lookup x states ≡ some 2

pub in_state_lem :
    (n : ℕ) (node : Str) (states : States)
    → in_state n node states ≡ true
    → Assoc.lookup node states ≡ some n
unfolding in_state
in_state_lem n node states h = elim (Option-cases (Assoc.lookup node states)) [
  | inl e ↦ absurd (ground arith)
  | inr (s, e) ↦ ground (arith, e, h, nat_key.eq_of_cmp s n)
]

module _ (graph : Graph) where
  abbrev pub AllSafe : States → Type 0
  AllSafe states = (x : Str) → Done states x → Safe graph x

  -- What a call that returns without a cycle has done
  pub record Finishes (nodes : List Str) (before after : States) : Type 0 where
    pub all_safe : AllSafe after
    pub stays : (x : Str) → Done before x → Done after x
    pub done : (x : Str) → OrdSet.contains x nodes ≡ true → Done after x

  abbrev pub FinishesIfClear : List Str → States → Visit → Type 0
  FinishesIfClear nodes before (found _) = Unit
  FinishesIfClear nodes before (clear after _) = Finishes nodes before after
  FinishesIfClear nodes before out_of_fuel = Unit

  abbrev Finisher : (Str → States → List Str → Visit) → Type 0
  Finisher v =
      (node : Str) (states : States) (stack : List Str)
      → AllSafe states
      → FinishesIfClear (node ∷ []) states (v node states stack)

  chain-finishes :
      (node : Str) (nodes : List Str) (states : States) (r : Visit)
      (next : States → List Str → Visit)
      → FinishesIfClear (node ∷ []) states r
      → ((st : States) (sk : List Str) → AllSafe st → FinishesIfClear nodes st (next st sk))
      → FinishesIfClear (node ∷ nodes) states (and_then r next)
  unfolding OrdSet.contains
  chain-finishes node nodes states (found c) next h g = tt
  chain-finishes node nodes states out_of_fuel next h g = tt
  chain-finishes node nodes states (clear st sk) next h g = go (next st sk) (g st sk h.all_safe)
    where
      go : (r : Visit) → FinishesIfClear nodes st r → FinishesIfClear (node ∷ nodes) states r
      go (found c) f = tt
      go out_of_fuel f = tt
      go (clear last sk') f = record {
        all_safe = f.all_safe;
        stays = λ x d. f.stays x (h.stays x d);
        done = λ x e. elim (Bool-cases (node == x)) [
          | inl q ↦ f.stays x (h.done x (ground arith))
          | inr q ↦ f.done x (ground arith)
        ];
      }

  visit_each-finishes :
      (v : Str → States → List Str → Visit)
      → Finisher v
      → (nodes : List Str) (states : States) (stack : List Str) → AllSafe states
      → FinishesIfClear nodes states (visit_each v nodes states stack)
  unfolding visit_each OrdSet.contains
  visit_each-finishes v ok [] states stack h = record {
    all_safe = h;
    stays = λ x d. d;
    done = λ x e. absurd (ground arith);
  }
  visit_each-finishes v ok (node ∷ nodes) states stack h =
      chain-finishes node nodes states (v node states stack) (visit_each v nodes)
        (ok node states stack h) (visit_each-finishes v ok nodes)

  leave-finishes :
      (node : Str) (states : States) (r : Visit)
      → in_state 2 node states ≡ false
      → FinishesIfClear (dependents node graph) (Assoc.insert node 1 states) r
      → FinishesIfClear (node ∷ []) states (leave_node node r)
  unfolding OrdSet.contains in_state
  leave-finishes node states (found c) h f = tt
  leave-finishes node states out_of_fuel h f = tt
  leave-finishes node states (clear st sk) h f =
      let node_safe : Safe graph node = safe (λ y e. f.all_safe y (f.done y e)) in
      record {
        all_safe = λ x d. elim (Bool-cases (node == x)) [
          | inl q ↦ subst (Safe graph) (eq_of_== node x q) node_safe
          | inr q ↦ f.all_safe x (ground (arith, d, lookup-insert node x 2 st))
        ];
        stays = λ x d. ground (
          arith,
          d,
          h,
          lookup-insert node x 2 st,
          lookup-insert node x 1 states,
          f.stays x,
          str_key.eq_of_cmp node x,
        );
        done = λ x e. ground (arith, e, lookup-insert node x 2 st);
      }

  already :
      (node : Str) (states : States)
      → AllSafe states
      → in_state 2 node states ≡ true
      → Finishes (node ∷ []) states states
  unfolding in_state OrdSet.contains
  already node states h q = record {
    all_safe = h;
    stays = λ x d. d;
    done = λ x e. ground (arith, e, in_state_lem 2 node states q, str_key.eq_of_cmp node x);
  }

  entered :
      (node : Str) (states : States)
      → AllSafe states
      → in_state 2 node states ≡ false
      → AllSafe (Assoc.insert node 1 states)
  unfolding in_state
  entered node states h q x d =
      h x (ground (arith, d, q, lookup-insert node x 1 states, str_key.eq_of_cmp node x))

  visit-finishes : (fuel : ℕ) → Finisher (visit fuel graph)
  unfolding visit
  visit-finishes zero node states stack h = tt
  visit-finishes (suc fuel) node states stack h = elim (Bool-cases (in_state 1 node states)) [
    | inl e ↦ rw (e, visit) tt
    | inr e ↦ elim (Bool-cases (in_state 2 node states)) [
      | inl q ↦ rw (e, q, visit) (already node states h q)
      | inr q ↦
          rw (e, q, visit)
            (leave-finishes node states
              (visit_each (visit fuel graph) (dependents node graph) (Assoc.insert node 1 states)
                (stack ++ (node ∷ [])))
              q
              (visit_each-finishes (visit fuel graph) (visit-finishes fuel) (dependents node graph)
                (Assoc.insert node 1 states) (stack ++ (node ∷ [])) (entered node states h q)))
    ]
  ]

  pub visit_roots-finishes :
      (fuel : ℕ) (nodes : List Str) (states : States)
      → AllSafe states
      → FinishesIfClear nodes states (visit_roots fuel graph nodes states)
  unfolding visit_roots OrdSet.contains
  visit_roots-finishes fuel [] states h = record {
    all_safe = h;
    stays = λ x d. d;
    done = λ x e. absurd (ground arith);
  }
  visit_roots-finishes fuel (node ∷ nodes) states h =
      chain-finishes node nodes states (visit fuel graph node states [])
        (λ st _. visit_roots fuel graph nodes st) (visit-finishes fuel node states [] h)
        (λ st _ safe_after. visit_roots-finishes fuel nodes st safe_after)
