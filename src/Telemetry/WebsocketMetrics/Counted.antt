-- ===== src/Telemetry/WebsocketMetrics/Counted.antt =====
-- What the counters of a connection say of the messages that were recorded for it.
use myko.Base.{ℕ, suc, ◌≤◌, ◌≡◌, refl, sym, ◌∙◌, ap, Option, none, some, Bool, true, false}
use myko.Base.{◌&&◌, List, [], ◌∷◌, if◌then◌else◌, arith, Option-cases, inl, inr}
use myko.Base.{saturating_add, u64_max, is_some}
use mathlib.Core.Path.{subst}
use myko.Base.Key
use myko.Base.Key.{Key, ◌==◌, pair_key, option_key}
use myko.Base.Text.{Str, str_key}
use myko.Base.Assoc
use myko.Base.OrdMap
use myko.Telemetry.WebsocketMetrics.{Counts, no_counts, OperationCounts, Labels, Client, Registry}
use myko.Telemetry.WebsocketMetrics.{or_counts, or_operations, count_message, count_operation}
use myko.Telemetry.WebsocketMetrics.{update_client, count_for, record_message}

-- A call of `record`
pub record Message : Type 0 where
  pub client_id : Str
  pub labels : Labels
  pub operation : Option Str
  pub bytes : Option ℕ

unfoldable pub record_all : List Message → Registry → Registry
unfolding record_message
record_all [] clients = clients
record_all (m ∷ messages) clients =
    record_all messages (record_message m.client_id m.labels m.operation m.bytes clients)

abbrev pub counts_of : Option Str → OperationCounts → Option Counts
counts_of none counts = counts.untagged
counts_of (some operation) counts = Assoc.lookup operation counts.tagged

abbrev pub count_in : Option Str → OperationCounts → ℕ
count_in operation counts = (or_counts (counts_of operation counts)).messages

-- the messages counted for a client, by label and operation
abbrev pub messages_for : Labels → Option Str → Option Client → ℕ
messages_for labels operation none = 0
messages_for labels operation (some client) =
    count_in operation (or_operations (Assoc.lookup labels client.counters))

abbrev pub is_for : Str → Labels → Option Str → Message → Bool
is_for id labels operation m = m.client_id == id && m.labels == labels && m.operation == operation

unfoldable pub matching : Str → Labels → Option Str → List Message → ℕ
matching id labels operation [] = 0
matching id labels operation (m ∷ messages) =
    let rest = matching id labels operation messages in
    if is_for id labels operation m then suc rest else rest

abbrev pub map_client : (Client → Client) → Option Client → Option Client
map_client change none = none
map_client change (some client) = some (change client)

pub lookup-update_client :
    (p id : Str) (change : Client → Client) (clients : Registry)
    → Assoc.lookup p (update_client id change clients)
      ≡ (if id == p then map_client change (Assoc.lookup p clients) else Assoc.lookup p clients)
lookup-update_client p id change clients = elim (Option-cases (Assoc.lookup id clients)) [
  | inl e ↦ rw (e, update_client) (ground (arith, e, str_key.eq_of_cmp id p))
  | inr (c, e) ↦
      rw (e, update_client)
        (ground (arith, e, OrdMap.lookup-insert id p (change c) clients, str_key.eq_of_cmp id p))
]

messages-count_message :
    (bytes : Option ℕ) (counts : Counts)
    → (count_message bytes counts).messages ≡ saturating_add counts.messages 1
unfolding count_message
messages-count_message none counts = refl
messages-count_message (some bytes) counts = refl

abbrev one_more : Bool → ℕ → ℕ
one_more hit n = if hit then saturating_add n 1 else n

count_in-count_operation :
    (p q : Option Str) (bytes : Option ℕ) (counts : OperationCounts)
    → count_in p (count_operation q bytes counts) ≡ one_more (q == p) (count_in p counts)
unfolding count_operation option_key Key.cmp_option
count_in-count_operation none none bytes counts =
    messages-count_message bytes (or_counts counts.untagged)
count_in-count_operation (some p) none bytes counts = refl
count_in-count_operation none (some q) bytes counts = refl
count_in-count_operation (some p) (some q) bytes counts =
    elim (Option-cases (Assoc.lookup q counts.tagged)) [
      | inl e ↦
          rw (e, count_operation)
            (ground (
              arith,
              e,
              OrdMap.lookup-insert q p (count_message bytes no_counts) counts.tagged,
              messages-count_message bytes no_counts,
              str_key.eq_of_cmp q p,
            ))
      | inr (known, e) ↦
          rw (e, count_operation)
            (ground (
              arith,
              e,
              OrdMap.lookup-insert q p (count_message bytes known) counts.tagged,
              messages-count_message bytes known,
              str_key.eq_of_cmp q p,
            ))
    ]

abbrev labels_eq : Key Labels
labels_eq = pair_key

messages_for-count_for :
    (labels l : Labels) (operation o : Option Str) (bytes : Option ℕ) (client : Client)
    → messages_for labels operation (some (count_for l o bytes client))
      ≡ one_more (l == labels && o == operation) (messages_for labels operation (some client))
unfolding count_for
messages_for-count_for labels l operation o bytes client = ground (
  arith,
  OrdMap.lookup-insert l labels
      (count_operation o bytes (or_operations (Assoc.lookup l client.counters))) client.counters,
  count_in-count_operation operation o bytes (or_operations (Assoc.lookup l client.counters)),
  labels_eq.eq_of_cmp l labels,
)

abbrev pub tracked : Str → Labels → Option Str → Registry → ℕ
tracked id labels operation clients = messages_for labels operation (Assoc.lookup id clients)

lookup-record_message :
    (id : Str) (m : Message) (clients : Registry)
    → Assoc.lookup id (record_message m.client_id m.labels m.operation m.bytes clients) ≡ (
        if m.client_id == id
        then map_client (count_for m.labels m.operation m.bytes) (Assoc.lookup id clients)
        else Assoc.lookup id clients)
unfolding record_message
lookup-record_message id m clients =
    lookup-update_client id m.client_id (count_for m.labels m.operation m.bytes) clients

tracked-record_message :
    (id : Str) (labels : Labels) (operation : Option Str) (m : Message) (clients : Registry)
    → is_some (Assoc.lookup id clients) ≡ true
    → tracked id labels operation (record_message m.client_id m.labels m.operation m.bytes clients)
      ≡ one_more (is_for id labels operation m) (tracked id labels operation clients)
tracked-record_message id labels operation m clients h =
    ap (messages_for labels operation) (lookup-record_message id m clients)
    ∙ go (m.client_id == id) (Assoc.lookup id clients) h
  where
    go :
        (b : Bool) (o : Option Client)
        → is_some o ≡ true
        → messages_for labels operation
            (if b then map_client (count_for m.labels m.operation m.bytes) o else o)
          ≡ one_more
              (b && m.labels == labels && m.operation == operation)
              (messages_for labels operation o)
    go b none h = absurd (ground (arith, h))
    go false (some client) h = refl
    go true (some client) h =
        messages_for-count_for labels m.labels operation m.operation m.bytes client

lookup-record_open :
    (id : Str) (m : Message) (clients : Registry)
    → is_some (Assoc.lookup id clients) ≡ true
    → is_some (Assoc.lookup id (record_message m.client_id m.labels m.operation m.bytes clients))
      ≡ true
lookup-record_open id m clients h =
    ap is_some (lookup-record_message id m clients)
    ∙ go (m.client_id == id) (Assoc.lookup id clients) h
  where
    go :
        (b : Bool) (o : Option Client)
        → is_some o ≡ true
        → is_some (if b then map_client (count_for m.labels m.operation m.bytes) o else o) ≡ true
    go b none h = absurd (ground (arith, h))
    go false (some client) h = refl
    go true (some client) h = refl

saturating_add_zero : (n : ℕ) → n ≤ u64_max → saturating_add n 0 ≡ n
unfolding saturating_add
saturating_add_zero n h = ground arith

one_more_then :
    (b : Bool) (n k : ℕ)
    → n ≤ u64_max
    → saturating_add (one_more b n) k ≡ saturating_add n (if b then suc k else k)
unfolding saturating_add
one_more_then b n k h = ground arith

one_more_fits : (b : Bool) (n : ℕ) → n ≤ u64_max → one_more b n ≤ u64_max
unfolding saturating_add
one_more_fits b n h = ground arith

-- A client's count of a label and an operation is what it was, and the number of the messages since
-- then that have that client, label and operation, as far as `u64` goes. The client is registered,
-- and its count fits `u64`.
pub tracked-record_all :
    (id : Str) (labels : Labels) (operation : Option Str) (messages : List Message)
    (clients : Registry)
    → is_some (Assoc.lookup id clients) ≡ true
    → tracked id labels operation clients ≤ u64_max
    → tracked id labels operation (record_all messages clients)
      ≡ saturating_add (tracked id labels operation clients) (matching id labels operation messages)
unfolding record_all matching
tracked-record_all id labels operation [] clients h fits =
    sym (saturating_add_zero (tracked id labels operation clients) fits)
tracked-record_all id labels operation (m ∷ messages) clients h fits =
    let next = record_message m.client_id m.labels m.operation m.bytes clients in
    let n = tracked id labels operation clients in
    let hit = is_for id labels operation m in
    let step = tracked-record_message id labels operation m clients h in
    tracked-record_all id labels operation messages next (lookup-record_open id m clients h)
      (subst (λ k. k ≤ u64_max) (sym step) (one_more_fits hit n fits))
    ∙ ap (λ k. saturating_add k (matching id labels operation messages)) step
    ∙ one_more_then hit n (matching id labels operation messages) fits
