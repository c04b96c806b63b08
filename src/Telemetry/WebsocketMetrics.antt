-- ===== src/Telemetry/WebsocketMetrics.antt =====
-- The registry of message counts of libs/myko/telemetry/src/websocket_metrics.rs: what is counted for
-- each connection until its last export is acknowledged.
pub mod Counted
pub mod Acknowledged
pub mod Bindings
pub mod Tests
use myko.Base.{ℕ, Option, none, some, Bool, true, false, not, ◌&&◌, List, [], ◌∷◌, ◌++◌, map}
use myko.Base.{if◌then◌else◌, eqb, filter, length, saturating_add, ◌-◌}
use myko.Base.Key.{pair_key}
use myko.Base.Text.{Str, str_key}
use myko.Base.Assoc
use myko.Base.Assoc.{Assoc}
use myko.Base.OrdMap

pub record Counts : Type 0 where
  pub messages : ℕ
  pub bytes : Option ℕ

abbrev pub no_counts : Counts
no_counts = record { messages = 0; bytes = none }

pub record OperationCounts : Type 0 where
  pub untagged : Option Counts
  pub tagged : Assoc Str Counts

abbrev pub no_operations : OperationCounts
no_operations = record { untagged = none; tagged = [] }

-- the direction and the kind of a message
abbrev pub Labels : Type 0
Labels = Str × Str

pub record Client : Type 0 where
  pub started : ℕ
  pub closed : Bool
  pub revision : ℕ
  pub counters : Assoc Labels OperationCounts
  pub bindings : Assoc Str (Assoc Str Str)

abbrev pub Registry : Type 0
Registry = Assoc Str Client

abbrev pub or_counts : Option Counts → Counts
or_counts none = no_counts
or_counts (some counts) = counts

-- `Counts::record`
unfoldable pub count_message : Option ℕ → Counts → Counts
unfolding saturating_add
count_message none counts = record counts { messages = saturating_add counts.messages 1 }
count_message (some bytes) counts = record counts {
  messages = saturating_add counts.messages 1;
  bytes = elim counts.bytes [
    | none ↦ some (saturating_add 0 bytes)
    | some total ↦ some (saturating_add total bytes)
  ];
}

-- `OperationCounts::record`
unfoldable pub count_operation : Option Str → Option ℕ → OperationCounts → OperationCounts
unfolding count_message OrdMap.insert Assoc.lookup
count_operation none bytes counts = record counts {
  untagged = some (count_message bytes (or_counts counts.untagged));
}
count_operation (some operation) bytes counts = record counts {
  tagged = elim (Assoc.lookup operation counts.tagged) [
    | some known ↦ OrdMap.insert operation (count_message bytes known) counts.tagged
    | none ↦ OrdMap.insert operation (count_message bytes no_counts) counts.tagged
  ];
}

-- `clients.get_mut(id)`
abbrev pub update_client : Str → (Client → Client) → Registry → Registry
update_client id change clients = elim (Assoc.lookup id clients) [
  | none ↦ clients
  | some client ↦ OrdMap.insert id (change client) clients
]

-- `open` at the time `now`
unfoldable pub open_client : Str → ℕ → Registry → Registry
unfolding OrdMap.insert Assoc.lookup
open_client id now clients = elim (Assoc.lookup id clients) [
  | some _ ↦ clients
  | none ↦
      OrdMap.insert id
        (record { started = now; closed = false; revision = 0; counters = []; bindings = [] })
        clients
]

abbrev pub is_idle : Client → Bool
is_idle client = elim client.counters [ [] ↦ true | _ ∷ _ ↦ false ]

unfoldable pub close : Str → Registry → Registry
unfolding OrdMap.insert Assoc.lookup Assoc.remove
close id clients = elim (Assoc.lookup id clients) [
  | none ↦ clients
  | some client ↦
      if is_idle client
      then Assoc.remove id clients
      else OrdMap.insert id (record client { closed = true; bindings = [] }) clients
]

abbrev pub or_operations : Option OperationCounts → OperationCounts
or_operations none = no_operations
or_operations (some counts) = counts

-- what a message changes of its client
unfoldable pub count_for : Labels → Option Str → Option ℕ → Client → Client
unfolding saturating_add count_operation OrdMap.insert Assoc.lookup
count_for labels operation bytes client = record client {
  revision = saturating_add client.revision 1;
  counters =
      OrdMap.insert labels
        (count_operation operation bytes (or_operations (Assoc.lookup labels client.counters)))
        client.counters;
}

-- `Registry::record`
unfoldable pub record_message : Str → Labels → Option Str → Option ℕ → Registry → Registry
unfolding count_for OrdMap.insert Assoc.lookup
record_message id labels operation bytes clients =
    update_client id (count_for labels operation bytes) clients

unfoldable pub retained : Registry → ℕ × ℕ
unfolding filter
retained clients =
    let closed = length (filter (λ entry. entry.1.closed) clients) in
    (length clients - closed, closed)

pub record ClientSnapshot : Type 0 where
  pub id : Str
  pub started : ℕ
  pub closed : Bool
  pub revision : ℕ
  pub counters : List ((Str × Str × Option Str) × Counts)

-- the counters of one direction and kind, the untagged one first
abbrev pub flat_counts : Labels → OperationCounts → List ((Str × Str × Option Str) × Counts)
flat_counts (direction, kind) counts =
    (elim counts.untagged [ none ↦ [] | some untagged ↦ ((direction, kind, none), untagged) ∷ [] ])
    ++ map (λ entry. ((direction, kind, some entry.0), entry.1)) counts.tagged

unfoldable pub all_counts : Assoc Labels OperationCounts → List ((Str × Str × Option Str) × Counts)
all_counts [] = []
all_counts ((labels, counts) ∷ counters) = flat_counts labels counts ++ all_counts counters

unfoldable pub snapshot : Registry → List ClientSnapshot
unfolding all_counts
snapshot [] = []
snapshot ((id, client) ∷ clients) =
    record {
      id = id;
      started = client.started;
      closed = client.closed;
      revision = client.revision;
      counters = all_counts client.counters;
    }
    ∷ snapshot clients

-- the client is the one that was exported, and nothing has been counted since
abbrev pub is_exported : ClientSnapshot → Option Client → Bool
is_exported exported none = false
is_exported exported (some current) =
    current.closed && eqb current.started exported.started && eqb current.revision exported.revision

unfoldable pub acknowledge : List ClientSnapshot → Registry → Registry
unfolding Assoc.lookup Assoc.remove
acknowledge [] clients = clients
acknowledge (exported ∷ rest) clients =
    let forget = exported.closed && is_exported exported (Assoc.lookup exported.id clients) in
    acknowledge rest (if forget then Assoc.remove exported.id clients else clients)

abbrev pub or_bindings : Option (Assoc Str Str) → Assoc Str Str
or_bindings none = []
or_bindings (some bindings) = bindings

abbrev pub add_binding : Str → Str → Str → Client → Client
add_binding family tx operation client = record client {
  bindings =
      OrdMap.insert family
        (OrdMap.insert tx operation (or_bindings (Assoc.lookup family client.bindings)))
        client.bindings;
}

-- `bind_operation` for an installed registry
unfoldable pub bind_operation : Str → Str → Str → Str → Registry → Registry
unfolding OrdMap.insert Assoc.lookup
bind_operation client_id family tx operation clients =
    update_client client_id (add_binding family tx operation) clients

abbrev pub bindings_of : Str → Option Client → Option (Assoc Str Str)
bindings_of family none = none
bindings_of family (some client) = Assoc.lookup family client.bindings

abbrev pub binding_in : Str → Option (Assoc Str Str) → Option Str
binding_in tx none = none
binding_in tx (some bindings) = Assoc.lookup tx bindings

unfoldable pub operation : Str → Str → Str → Registry → Option Str
unfolding Assoc.lookup
operation client_id family tx clients =
    binding_in tx (bindings_of family (Assoc.lookup client_id clients))

abbrev pub drop_binding : Str → Str → Client → Client
drop_binding family tx client = elim (Assoc.lookup family client.bindings) [
  | none ↦ client
  | some bindings ↦ record client {
    bindings = OrdMap.insert family (Assoc.remove tx bindings) client.bindings;
  }
]

unfoldable pub take_operation : Str → Str → Str → Registry → Option Str × Registry
unfolding operation OrdMap.insert Assoc.lookup Assoc.remove
take_operation client_id family tx clients = (
  operation client_id family tx clients,
  update_client client_id (drop_binding family tx) clients,
)
