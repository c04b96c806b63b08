-- ===== src/Graph/Rebuild.antt =====
-- `GraphIndex::rebuild` of libs/myko/core/src/core/graph.rs: the index is cleared, and every item of
-- every edge store is applied to it.
pub mod Items
pub mod Reloaded
pub mod Planned
use myko.Base.{ℕ, Bool, true, false, Option, none, some, List, [], ◌∷◌, if◌then◌else◌}
use myko.Base.Text.{Str, str_key}
use myko.Base.Assoc
use myko.Base.Assoc.{Assoc}
use myko.Graph.Types.{AnyItem}
use myko.Graph.Index.{EdgeRegistration, GraphIndex, initial_state, apply}

-- the items of a store; the flag is false when one of them fails
unfoldable pub apply_items : GraphIndex → Assoc Str AnyItem → GraphIndex × Bool
unfolding apply
apply_items g [] = (g, true)
apply_items g ((_, item) ∷ items) =
    let next = apply g none (some item) in
    let rest = apply_items next.0 items in elim next.1 [ none ↦ (next.0, false) | some _ ↦ rest ]

-- the stores of the edge types, from the registry
unfoldable pub apply_stores :
    Assoc Str (Assoc Str AnyItem) → GraphIndex → Assoc Str EdgeRegistration → GraphIndex × Bool
unfolding apply_items Assoc.lookup
apply_stores registry g [] = (g, true)
apply_stores registry g ((edge_type, _) ∷ registrations) = elim (Assoc.lookup edge_type registry) [
  | none ↦ apply_stores registry g registrations
  | some items ↦
      let next = apply_items g items in
      let rest = apply_stores registry next.0 registrations in
      if next.1 then rest else (next.0, false)
]

unfoldable pub rebuild : GraphIndex → GraphIndex × Option ℕ
unfolding apply_stores
rebuild g =
    let done = apply_stores g.registry (record g { state = initial_state }) g.registrations in
    (done.0, if done.1 then some done.0.state.generation else none)
