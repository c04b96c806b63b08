-- ===== src/Telemetry/WebsocketMetrics/Acknowledged.antt =====
-- Which connections an acknowledged export makes the registry forget.
use myko.Base.{ℕ, ◌<◌, ◌≡◌, refl, ◌∙◌, ap, Option, none, some, Bool, true, false}
use myko.Base.{◌&&◌, ◌||◌, List, [], ◌∷◌, if◌then◌else◌, arith, Bool-cases}
use myko.Base.{inl, inr, any, eqb, saturating_add, u64_max}
use myko.Base.Key.{◌==◌}
use myko.Base.Text.{Str, str_key}
use myko.Base.Assoc
use myko.Base.Assoc.{Assoc, lookup-remove}
use myko.Base.OrdMap.{KeysAscend, lookup-KeysAbove}
use myko.Telemetry.WebsocketMetrics.{Labels, Client, Registry, ClientSnapshot, is_exported}
use myko.Telemetry.WebsocketMetrics.{snapshot, acknowledge, record_message, count_for}
use myko.Telemetry.WebsocketMetrics.Counted.{lookup-update_client}

-- The export of a closed client, as the client still is
abbrev pub exports : Str → Option Client → ClientSnapshot → Bool
exports id current exported = exported.id == id && exported.closed && is_exported exported current

-- one look at a client after the exports of a list
abbrev after_exports : Str → List ClientSnapshot → Option Client → Option Client
after_exports id exported current = if any (exports id current) exported then none else current

after_exports-none :
    (id : Str) (exported : List ClientSnapshot) → after_exports id exported none ≡ none
after_exports-none id exported = ground arith

lookup-forget :
    (id : Str) (e : ClientSnapshot) (clients : Registry)
    → Assoc.lookup id (
        if e.closed && is_exported e (Assoc.lookup e.id clients)
        then Assoc.remove e.id clients
        else clients)
      ≡ (if exports id (Assoc.lookup id clients) e then none else Assoc.lookup id clients)
lookup-forget id e clients = elim (Bool-cases (e.id == id)) [
  | inl q ↦ ground (arith, q, lookup-remove e.id id clients, str_key.eq_of_cmp e.id id)
  | inr q ↦ ground (arith, q, lookup-remove e.id id clients)
]

-- After an export is acknowledged, a client is gone if the export has it as closed and it has not
-- changed since; every other client is as it was.
pub lookup-acknowledge :
    (id : Str) (exported : List ClientSnapshot) (clients : Registry)
    → Assoc.lookup id (acknowledge exported clients) ≡ (
        if any (exports id (Assoc.lookup id clients)) exported
        then none
        else Assoc.lookup id clients)
unfolding acknowledge any
lookup-acknowledge id [] clients = refl
lookup-acknowledge id (e ∷ rest) clients =
    let forget = e.closed && is_exported e (Assoc.lookup e.id clients) in
    lookup-acknowledge id rest (if forget then Assoc.remove e.id clients else clients)
    ∙ ap (after_exports id rest) (lookup-forget id e clients)
    ∙ go (exports id (Assoc.lookup id clients) e) (Assoc.lookup id clients)
  where
    go :
        (b : Bool) (o : Option Client)
        → after_exports id rest (if b then none else o)
          ≡ (if b || any (exports id o) rest then none else o)
    go true o = after_exports-none id rest
    go false o = refl

abbrev is_same : Option Client → Option Client → Bool
is_same none current = false
is_same (some client) none = false
is_same (some client) (some current) =
    client.closed
    && current.closed
    && eqb current.started client.started
    && eqb current.revision client.revision

any-snapshot :
    (id : Str) (current : Option Client) (clients : Registry)
    → KeysAscend clients
    → any (exports id current) (snapshot clients) ≡ is_same (Assoc.lookup id clients) current
unfolding any snapshot Assoc.lookup
any-snapshot id current [] s = refl
any-snapshot id current ((j, client) ∷ clients) s = elim (Bool-cases (j == id)) [
  | inl q ↦ ground (
    arith,
    q,
    any-snapshot id current clients s.1,
    lookup-KeysAbove j clients s.0,
    str_key.eq_of_cmp j id,
  )
  | inr q ↦ ground (arith, q, any-snapshot id current clients s.1)
]

count_for_revision :
    (labels : Labels) (o : Option Str) (bytes : Option ℕ) (client : Client)
    → client.revision < u64_max
    → eqb (count_for labels o bytes client).revision client.revision ≡ false
unfolding count_for saturating_add
count_for_revision labels o bytes client h = ground arith

lookup-recorded :
    (id : Str) (labels : Labels) (o : Option Str) (bytes : Option ℕ) (client : Client)
    (clients : Registry)
    → Assoc.lookup id clients ≡ some client
    → Assoc.lookup id (record_message id labels o bytes clients)
      ≡ some (count_for labels o bytes client)
unfolding record_message
lookup-recorded id labels o bytes client clients h =
    ground
      (arith, h, lookup-update_client id id (count_for labels o bytes) clients, str_key.cmp_refl id)

not_same :
    (labels : Labels) (o : Option Str) (bytes : Option ℕ) (client : Client)
    → client.revision < u64_max
    → is_same (some client) (some (count_for labels o bytes client)) ≡ false
not_same labels o bytes client h = ground (arith, count_for_revision labels o bytes client h)

-- A message that is recorded between an export and its acknowledgement is not lost: its client stays
-- registered, with the message counted. The clients stand in the order of their ids, and the
-- client's revision is below the largest `u64`.
pub acknowledge_keeps_recorded :
    (id : Str) (labels : Labels) (o : Option Str) (bytes : Option ℕ) (client : Client)
    (clients : Registry)
    → KeysAscend clients
    → Assoc.lookup id clients ≡ some client
    → client.revision < u64_max
    → Assoc.lookup id (acknowledge (snapshot clients) (record_message id labels o bytes clients))
      ≡ some (count_for labels o bytes client)
acknowledge_keeps_recorded id labels o bytes client clients ascend h room =
    let cur = some (count_for labels o bytes client) in
    lookup-acknowledge id (snapshot clients) (record_message id labels o bytes clients)
    ∙ ap (after_exports id (snapshot clients)) (lookup-recorded id labels o bytes client clients h)
    ∙ ap (λ b. if b then none else cur)
        (any-snapshot id cur clients ascend
          ∙ ap (λ was. is_same was cur) h
          ∙ not_same labels o bytes client room)
