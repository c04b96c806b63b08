-- ===== src/Telemetry/WebsocketMetrics/Bindings.antt =====
-- The operations that are bound to a connection's transactions.
use myko.Base.{◌≡◌, refl, ◌∙◌, ap, Option, none, some, true}
use myko.Base.{◌&&◌, [], if◌then◌else◌, arith, Bool-cases, Option-cases}
use myko.Base.{inl, inr, is_some}
use myko.Base.Key.{◌==◌}
use myko.Base.Text.{Str, str_key}
use myko.Base.Assoc
use myko.Base.Assoc.{Assoc, lookup-remove}
use myko.Base.OrdMap
use myko.Base.OrdMap.{KeysAbove, KeysAscend, lookup-KeysAbove}
use myko.Telemetry.WebsocketMetrics.{Client, Registry}
use myko.Telemetry.WebsocketMetrics.{bind_operation, add_binding, operation}
use myko.Telemetry.WebsocketMetrics.{take_operation, drop_binding, bindings_of, binding_in}
use myko.Telemetry.WebsocketMetrics.Counted.{lookup-update_client, map_client}

abbrev lookup_binding : Str → Str → Option Client → Option Str
lookup_binding family tx client = binding_in tx (bindings_of family client)

lookup_empty : (t : Str) → Assoc.lookup {V = Str} t [] ≡ none
unfolding Assoc.lookup
lookup_empty t = refl

binding-add :
    (f t family tx op : Str) (client : Client)
    → lookup_binding f t (some (add_binding family tx op client))
      ≡ (if family == f && tx == t then some op else lookup_binding f t (some client))
binding-add f t family tx op client = elim (Option-cases (Assoc.lookup family client.bindings)) [
  | inl e ↦ rw e (
      ground (
        arith,
        e,
        OrdMap.lookup-insert family f (OrdMap.insert tx op []) client.bindings,
        OrdMap.lookup-insert tx t op [],
        lookup_empty t,
        str_key.eq_of_cmp family f,
      ))
  | inr (known, e) ↦ rw e (
      ground (
        arith,
        e,
        OrdMap.lookup-insert family f (OrdMap.insert tx op known) client.bindings,
        OrdMap.lookup-insert tx t op known,
        str_key.eq_of_cmp family f,
      ))
]

binding-drop :
    (f t family tx : Str) (client : Client)
    → lookup_binding f t (some (drop_binding family tx client))
      ≡ (if family == f && tx == t then none else lookup_binding f t (some client))
binding-drop f t family tx client = elim (Option-cases (Assoc.lookup family client.bindings)) [
  | inl e ↦ rw (e, drop_binding) (ground (arith, e, str_key.eq_of_cmp family f))
  | inr (known, e) ↦
      rw (e, drop_binding)
        (ground (
          arith,
          e,
          OrdMap.lookup-insert family f (Assoc.remove tx known) client.bindings,
          lookup-remove tx t known,
          str_key.eq_of_cmp family f,
        ))
]

operation-bind :
    (c f t client_id family tx op : Str) (clients : Registry)
    → is_some (Assoc.lookup client_id clients) ≡ true
    → operation c f t (bind_operation client_id family tx op clients)
      ≡ (if client_id == c && family == f && tx == t then some op else operation c f t clients)
unfolding operation bind_operation
operation-bind c f t client_id family tx op clients h =
    ap (lookup_binding f t) (lookup-update_client c client_id (add_binding family tx op) clients)
    ∙ elim (Bool-cases (client_id == c)) [
      | inl q ↦
          rw q (go (Assoc.lookup c clients) (ground (arith, h, str_key.eq_of_cmp client_id c)))
      | inr q ↦ rw q refl
    ]
  where
    go :
        (o : Option Client)
        → is_some o ≡ true
        → lookup_binding f t (map_client (add_binding family tx op) o)
          ≡ (if family == f && tx == t then some op else lookup_binding f t o)
    go none e = absurd (ground (arith, e))
    go (some client) e = binding-add f t family tx op client

operation-take :
    (c f t client_id family tx : Str) (clients : Registry)
    → operation c f t (take_operation client_id family tx clients).1
      ≡ (if client_id == c && family == f && tx == t then none else operation c f t clients)
unfolding operation take_operation
operation-take c f t client_id family tx clients =
    ap (lookup_binding f t) (lookup-update_client c client_id (drop_binding family tx) clients)
    ∙ elim (Bool-cases (client_id == c)) [
      | inl q ↦ rw q (go (Assoc.lookup c clients))
      | inr q ↦ rw q refl
    ]
  where
    go :
        (o : Option Client)
        → lookup_binding f t (map_client (drop_binding family tx) o)
          ≡ (if family == f && tx == t then none else lookup_binding f t o)
    go none = ground arith
    go (some client) = binding-drop f t family tx client

-- An operation that is bound to a transaction of a registered client is what taking it back gives;
-- the transaction is free again after that, and every other one is as it was before both calls.
pub take_operation-bind :
    (client_id family tx op : Str) (clients : Registry)
    → is_some (Assoc.lookup client_id clients) ≡ true
    → (take_operation client_id family tx (bind_operation client_id family tx op clients)).0
        ≡ some op
      × ((c f t : Str)
          → operation c f t
              (take_operation client_id family tx (bind_operation client_id family tx op clients)).1
            ≡ (if client_id == c && family == f && tx == t then none else operation c f t clients))
unfolding take_operation
take_operation-bind client_id family tx op clients h = (
  operation-bind client_id family tx client_id family tx op clients h
      ∙ ground (arith, str_key.cmp_refl client_id, str_key.cmp_refl family, str_key.cmp_refl tx),
  λ c f t.
      operation-take c f t client_id family tx (bind_operation client_id family tx op clients)
      ∙ ground (arith, operation-bind c f t client_id family tx op clients h),
)
