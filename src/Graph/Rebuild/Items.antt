-- ===== src/Graph/Rebuild/Items.antt =====
-- What the items of one store do to the index.
use mathlib.Core.Path.{subst}
use myko.Base.{◌≡◌, refl, sym, ◌∙◌, ap, fun_ext, true, Option, none, some, inl, inr}
use myko.Base.{[], ◌∷◌, arith, if◌then◌else◌, Bool-cases, Option-cases, is_some, saturating_add}
use myko.Base.Key.{◌==◌, eq_of_==}
use myko.Base.Text.{Str, str_key}
use myko.Base.Assoc
use myko.Base.Assoc.{Assoc}
use myko.Graph.Types.{AnyItem, IndexedEdge}
use myko.Graph.Index.{
  EdgeRegistration, GraphIndex, registration, indexed, apply, apply_type, type_state,
}
use myko.Graph.Index.Represents.{edge_of}
use myko.Graph.Index.Faithful.{Canonical, IsFaithful, mutate, apply-IsFaithful}
use myko.Graph.DeletePlan.Scan.{edges_of}
use myko.Graph.Rebuild.{apply_items}

-- A store of edges of one type: each id once, each item under its own id and type, and the
-- extractors succeed on it.
abbrev pub IsEdgeStore : Str → EdgeRegistration → Assoc Str AnyItem → Type 0
IsEdgeStore t r [] = Unit
IsEdgeStore t r ((j, item) ∷ rest) =
    (item.id ≡ j)
    × (item.entity_type ≡ t)
    × (is_some (indexed r item) ≡ true)
    × (Assoc.lookup j rest ≡ none)
    × IsEdgeStore t r rest

abbrev pub or_else : Option IndexedEdge → Option IndexedEdge → Option IndexedEdge
or_else none e = e
or_else (some e) _ = some e

-- the canonical edges once a store of one type is added
abbrev pub with_store : Canonical → Str → EdgeRegistration → Assoc Str AnyItem → Canonical
with_store canonical t r items u id =
    if t == u then or_else (edges_of r items id) (canonical u id) else canonical u id

registration-apply :
    (g : GraphIndex) (item : AnyItem) (u : Str)
    → registration (apply g none (some item)).0 u ≡ registration g u
unfolding apply registration
registration-apply g item u = elim (Option-cases (registration g item.entity_type)) [
  | inl q ↦ rw (q, apply) refl
  | inr (r, q) ↦ elim (Bool-cases (apply_type g r (type_state g r.edge_type) none (some item)).1) [
    | inl ok ↦ rw (q, ok, apply) refl
    | inr bad ↦ rw (q, bad, apply) refl
  ]
]

with_store-cons :
    (canonical : Canonical) (t : Str) (r : EdgeRegistration) (j : Str) (item : AnyItem)
    (rest : Assoc Str AnyItem)
    → Assoc.lookup j rest ≡ none
    → is_some (indexed r item) ≡ true
    → with_store (mutate canonical t j (edge_of r (some item))) t r rest
      ≡ with_store canonical t r ((j, item) ∷ rest)
unfolding Assoc.lookup indexed
with_store-cons canonical t r j item rest once ok = fun_ext λ u. fun_ext λ id.
    elim (Bool-cases (t == u)) [
      | inr other ↦ rw other refl
      | inl same ↦ rw same (elim (Bool-cases (j == id)) [
        | inl here ↦
            rw (here, Assoc.lookup)
              (found (canonical u id) (indexed r item)
                (sym (ap (λ i. Assoc.lookup i rest) (eq_of_== j id here)) ∙ once) ok)
        | inr there ↦
            rw (there, Assoc.lookup)
              (ap (λ v. or_else (edges_of r rest id) (canonical v id)) (eq_of_== t u same))
      ])
    ]
  where
    found :
        {o : Option AnyItem} (e x : Option IndexedEdge)
        → o ≡ none
        → is_some x ≡ true
        → or_else (edge_of r o) x ≡ or_else x e
    found {o} e none p h = absurd (ground (arith, h))
    found {o} e (some x) p h = rw p refl

with_store-nil :
    (canonical : Canonical) (t : Str) (r : EdgeRegistration)
    → canonical ≡ with_store canonical t r []
unfolding Assoc.lookup
with_store-nil canonical t r = fun_ext λ u. fun_ext λ id. ground arith

-- no edge has the id of an item of the store
abbrev pub Fresh : Canonical → Str → Assoc Str AnyItem → Type 0
Fresh canonical t items =
    (id : Str) → is_some (Assoc.lookup id items) ≡ true → canonical t id ≡ none

Fresh-tail :
    (canonical : Canonical) (t : Str) (e : Option IndexedEdge) (j : Str) (item : AnyItem)
    (rest : Assoc Str AnyItem)
    → Assoc.lookup j rest ≡ none
    → Fresh canonical t ((j, item) ∷ rest)
    → Fresh (mutate canonical t j e) t rest
unfolding Assoc.lookup
Fresh-tail canonical t e j item rest once fresh id here = elim (Bool-cases (j == id)) [
  | inl same ↦ absurd (clash (ap (λ i. Assoc.lookup i rest) (eq_of_== j id same)))
  | inr other ↦ ground (arith, other, str_key.cmp_refl t, fresh id (rw (other, Assoc.lookup) here))
]
  where
    clash : Assoc.lookup j rest ≡ Assoc.lookup id rest → ⊥
    clash p = ground (arith, p, once, here)

Fresh-head :
    (canonical : Canonical) (t j : Str) (item : AnyItem) (rest : Assoc Str AnyItem)
    → Fresh canonical t ((j, item) ∷ rest)
    → canonical t j ≡ none
unfolding Assoc.lookup
Fresh-head canonical t j item rest fresh = fresh j (ground (arith, str_key.cmp_refl j))

apply_item-IsFaithful :
    (g : GraphIndex) (canonical : Canonical) (t : Str) (r : EdgeRegistration) (j : Str)
    (item : AnyItem)
    → registration g t ≡ some r
    → item.id ≡ j
    → item.entity_type ≡ t
    → is_some (indexed r item) ≡ true
    → canonical t j ≡ none
    → IsFaithful g canonical
    → ((apply g none (some item)).1 ≡ some (saturating_add g.state.generation 1))
      × IsFaithful (apply g none (some item)).0 (mutate canonical t j (edge_of r (some item)))
apply_item-IsFaithful g canonical t r j item known own type good gone v =
    subst
      (λ u.
        ((apply g none (some item)).1 ≡ some (saturating_add g.state.generation 1))
        × IsFaithful (apply g none (some item)).0 (mutate canonical u j (edge_of r (some item))))
      type
      (subst
        (λ i.
          ((apply g none (some item)).1 ≡ some (saturating_add g.state.generation 1))
          × IsFaithful (apply g none (some item)).0
              (mutate canonical item.entity_type i (edge_of r (some item))))
        own
        (apply-IsFaithful g canonical none (some item) item r refl
          (ap (registration g) type ∙ known) tt (refl, good)
          (ap (λ u. canonical u item.id) type ∙ ap (canonical t) own ∙ gone) v))

-- What the items of one store do, from an index that is faithful to edges among which none has the
-- id of an item of the store.
pub apply_items-IsFaithful :
    (g : GraphIndex) (canonical : Canonical) (t : Str) (r : EdgeRegistration)
    (items : Assoc Str AnyItem)
    → registration g t ≡ some r
    → IsEdgeStore t r items
    → Fresh canonical t items
    → IsFaithful g canonical
    → ((apply_items g items).1 ≡ true)
      × ((u : Str) → registration (apply_items g items).0 u ≡ registration g u)
      × IsFaithful (apply_items g items).0 (with_store canonical t r items)
unfolding apply_items
apply_items-IsFaithful g canonical t r [] known ok fresh v =
    (refl, λ u. refl, subst (IsFaithful g) (with_store-nil canonical t r) v)
apply_items-IsFaithful g canonical t r ((j, item) ∷ rest) known (own, type, good, once, ok) fresh
      v =
    let (done, followed) =
      apply_item-IsFaithful g canonical t r j item known own type good
        (Fresh-head canonical t j item rest fresh) v in
    let (last, same, all) =
      apply_items-IsFaithful (apply g none (some item)).0
        (mutate canonical t j (edge_of r (some item))) t r rest
        (registration-apply g item t ∙ known) ok
        (Fresh-tail canonical t (edge_of r (some item)) j item rest once fresh) followed in
    rw (done, apply_items)
      (
        last,
        λ u. same u ∙ registration-apply g item u,
        subst (IsFaithful (apply_items (apply g none (some item)).0 rest).0)
            (with_store-cons canonical t r j item rest once good) all,
      )
