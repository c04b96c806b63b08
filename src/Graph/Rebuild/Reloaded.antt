-- ===== src/Graph/Rebuild/Reloaded.antt =====
-- The rebuilt index follows the stores.
use mathlib.Core.Path.{subst}
use myko.Base.{◌≡◌, refl, sym, ◌∙◌, ap, fun_ext, true, Option, none, some, inl, inr}
use myko.Base.{[], ◌∷◌, arith, if◌then◌else◌, Bool-cases, Option-cases}
use myko.Base.Key.{◌==◌, eq_of_==}
use myko.Base.Text.{Str, str_key}
use myko.Base.Assoc
use myko.Base.Assoc.{Assoc}
use myko.Graph.Types.{AnyItem, IndexedEdge}
use myko.Graph.Index.{EdgeRegistration, GraphIndex, registration}
use myko.Graph.Index.{initial_state}
use myko.Graph.Index.Faithful.{Canonical, IsFaithful, initial-IsFaithful}
use myko.Graph.DeletePlan.Scan.{edges_of}
use myko.Graph.DeletePlan.Complete.{Distinct, Every, Every-tail, Every-head}
use myko.Graph.Rebuild.{apply_items, apply_stores, rebuild}
use myko.Graph.Rebuild.Items.{IsEdgeStore, or_else, with_store, apply_items-IsFaithful}

abbrev with_found : Canonical → Str → EdgeRegistration → Option (Assoc Str AnyItem) → Canonical
with_found canonical t r none = canonical
with_found canonical t r (some items) = with_store canonical t r items

-- the canonical edges once the stores of some edge types are added
abbrev with_stores :
    Assoc Str (Assoc Str AnyItem) → Canonical → Assoc Str EdgeRegistration → Canonical
with_stores registry canonical [] = canonical
with_stores registry canonical ((t, r) ∷ rest) =
    with_stores registry (with_found canonical t r (Assoc.lookup t registry)) rest

-- the edges of the store of each registered edge type
abbrev pub edges_at : EdgeRegistration → Option (Assoc Str AnyItem) → Str → Option IndexedEdge
edges_at r none id = none
edges_at r (some items) id = edges_of r items id

abbrev pub stored_at :
    Assoc Str (Assoc Str AnyItem) → Str → Option EdgeRegistration → Str → Option IndexedEdge
stored_at registry t none id = none
stored_at registry t (some r) id = edges_at r (Assoc.lookup t registry) id

abbrev pub stored : GraphIndex → Canonical
stored g t id = stored_at g.registry t (registration g t) id

abbrev pub IsLoadable : Str → EdgeRegistration → Option (Assoc Str AnyItem) → Type 0
IsLoadable t r none = Unit
IsLoadable t r (some items) = IsEdgeStore t r items

with_found-other :
    (canonical : Canonical) (t : Str) (r : EdgeRegistration) (o : Option (Assoc Str AnyItem))
    (u id : Str)
    → with_found canonical t r o u id
      ≡ (if t == u then or_else (edges_at r o id) (canonical u id) else canonical u id)
with_found-other canonical t r none u id = ground arith
with_found-other canonical t r (some items) u id = refl

with_stores-lookup :
    (registry : Assoc Str (Assoc Str AnyItem)) (canonical : Canonical)
    (rs : Assoc Str EdgeRegistration) (u id : Str)
    → Distinct rs
    → with_stores registry canonical rs u id
      ≡ or_else (stored_at registry u (Assoc.lookup u rs) id) (canonical u id)
unfolding Assoc.lookup
with_stores-lookup registry canonical [] u id once = refl
with_stores-lookup registry canonical ((t, r) ∷ rest) u id once =
    with_stores-lookup registry (with_found canonical t r (Assoc.lookup t registry)) rest u id
      once.1
    ∙ elim (Bool-cases (t == u)) [
      | inl same ↦
          let gone : Assoc.lookup u rest ≡ none =
            ap (λ n. Assoc.lookup n rest) (sym (eq_of_== t u same)) ∙ once.0 in
          rw
            (
              gone,
              with_found-other canonical t r (Assoc.lookup t registry) u id,
              same,
              Assoc.lookup,
            )
            (ap (λ n. or_else (edges_at r (Assoc.lookup n registry) id) (canonical u id))
              (eq_of_== t u same))
      | inr other ↦
          rw (with_found-other canonical t r (Assoc.lookup t registry) u id, other, Assoc.lookup)
            refl
    ]

apply_stores-IsFaithful :
    (registry : Assoc Str (Assoc Str AnyItem)) (g : GraphIndex) (canonical : Canonical)
    (rs : Assoc Str EdgeRegistration)
    → Distinct rs
    → Every rs (λ t r. registration g t ≡ some r)
    → Every rs (λ t r. IsLoadable t r (Assoc.lookup t registry))
    → Every rs (λ t r. (id : Str) → canonical t id ≡ none)
    → IsFaithful g canonical
    → ((apply_stores registry g rs).1 ≡ true)
      × IsFaithful (apply_stores registry g rs).0 (with_stores registry canonical rs)
unfolding apply_stores
apply_stores-IsFaithful registry g canonical [] once known ok fresh v = (refl, v)
apply_stores-IsFaithful registry g canonical ((t, r) ∷ rest) once known ok fresh v =
    elim (Option-cases (Assoc.lookup t registry)) [
      | inl q ↦
          rw (q, apply_stores)
            (apply_stores-IsFaithful registry g canonical rest once.1 known' ok' fresh' v)
      | inr (items, q) ↦
          go items q
            (apply_items-IsFaithful g canonical t r items
              (Every-head t r rest (λ u s. registration g u ≡ some s) known)
              (subst (IsLoadable t r) q
                (Every-head t r rest (λ u s. IsLoadable u s (Assoc.lookup u registry)) ok))
              (λ id _. Every-head t r rest (λ u _. (id : Str) → canonical u id ≡ none) fresh id) v)
            (λ g' c k f w. apply_stores-IsFaithful registry g' c rest once.1 k ok' f w)
    ]
  where
    known' : Every rest (λ u s. registration g u ≡ some s)
    known' = Every-tail t r rest (λ u s. registration g u ≡ some s) once.0 known

    ok' : Every rest (λ u s. IsLoadable u s (Assoc.lookup u registry))
    ok' = Every-tail t r rest (λ u s. IsLoadable u s (Assoc.lookup u registry)) once.0 ok

    fresh' : Every rest (λ u _. (id : Str) → canonical u id ≡ none)
    fresh' = Every-tail t r rest (λ u _. (id : Str) → canonical u id ≡ none) once.0 fresh

    go :
        (items : Assoc Str AnyItem)
        → Assoc.lookup t registry ≡ some items
        → ((apply_items g items).1 ≡ true)
          × ((u : Str) → registration (apply_items g items).0 u ≡ registration g u)
          × IsFaithful (apply_items g items).0 (with_store canonical t r items)
        → ((g' : GraphIndex) (c : Canonical)
            → Every rest (λ u s. registration g' u ≡ some s)
            → Every rest (λ u _. (id : Str) → c u id ≡ none)
            → IsFaithful g' c
            → ((apply_stores registry g' rest).1 ≡ true)
              × IsFaithful (apply_stores registry g' rest).0 (with_stores registry c rest))
        → ((apply_stores registry g ((t, r) ∷ rest)).1 ≡ true)
          × IsFaithful
              (apply_stores registry g ((t, r) ∷ rest)).0
              (with_stores registry canonical ((t, r) ∷ rest))
    go items q (done, same, all) again =
        rw (q, apply_stores, done)
          (again (apply_items g items).0 (with_store canonical t r items)
            (λ u s found. same u ∙ known' u s found)
            (λ u s found id. elim (Bool-cases (t == u)) [
              | inl here ↦
                  absurd (clash u s found (ap (λ n. Assoc.lookup n rest) (eq_of_== t u here)))
              | inr other ↦ rw other (fresh' u s found id)
            ])
            all)
      where
        clash :
            (u : Str) (s : EdgeRegistration)
            → Assoc.lookup u rest ≡ some s
            → Assoc.lookup t rest ≡ Assoc.lookup u rest
            → ⊥
        clash u s found p = cc (found, p, once.0)

-- From any state of the index, a rebuild succeeds and leaves the index faithful to the stores, where
-- each edge type is registered once under its own name, and the store of each edge type, if it is
-- there, holds each id once, with an item of that id and type on which the extractors succeed. No
-- edge that the index held before is left.
pub rebuild-IsFaithful :
    (g : GraphIndex)
    → Distinct g.registrations
    → Every g.registrations (λ t r. r.edge_type ≡ t)
    → Every g.registrations (λ t r. IsLoadable t r (Assoc.lookup t g.registry))
    → ((rebuild g).1 ≡ some (rebuild g).0.state.generation) × IsFaithful (rebuild g).0 (stored g)
unfolding rebuild registration
rebuild-IsFaithful g once named ok =
    let (done, all) =
      apply_stores-IsFaithful g.registry (record g { state = initial_state }) (λ _ _. none)
        g.registrations once (λ t r found. found) ok (λ t r found id. refl)
        (initial-IsFaithful (record g { state = initial_state }) refl named) in
    (
      rw done refl,
      subst (IsFaithful (rebuild g).0)
          (fun_ext λ u. fun_ext λ id.
            with_stores-lookup g.registry (λ _ _. none) g.registrations u id once
            ∙ alone (stored g u id))
          all,
    )
  where
    alone : (e : Option IndexedEdge) → or_else e none ≡ e
    alone none = refl
    alone (some e) = refl
