-- ===== src/Server/ViewDelivery.antt =====
-- libs/myko/server/src/view_sampling.rs: the delivery of view responses at a sampled rate, and the
-- response of libs/myko/core/src/server/client_session.rs. An instant is a number of clock ticks; a
-- rate stands for its interval, and `Instant::checked_add` is a parameter, since the range of an
-- instant is the platform's. The order of a `HashMap` is that of the list.
pub mod Merge
pub mod Stream
pub mod Numbers
pub mod Deadlines
mod Tests
use myko.Base.{ℕ, zero, suc, Bool, true, false, not, ◌&&◌, Option, none, some, List, [], ◌∷◌, ◌++◌}
use myko.Base.{if◌then◌else◌, eqb, leb, ltb, is_some, saturating_add}
use myko.Base.Key.{Key}
use myko.Base.Text.{Str, str_key}
use myko.Base.Assoc
use myko.Base.Assoc.{Assoc}
use myko.Base.OrdMap
use myko.Wire.Window.{QueryWindow}
use myko.Graph.Types.{AnyItem}

pub record PendingQueryResponse : Type 0 where
  pub tx : Str
  pub sequence : ℕ  -- u64
  pub upsert_items : List AnyItem
  pub deletes : List Str
  pub total_count : ℕ
  pub window : Option QueryWindow
  pub window_order_ids : Option (List Str)

pub record PendingDelta : Type 0 where
  pub latest : PendingQueryResponse
  pub changes : Assoc Str (Option AnyItem)  -- `BTreeMap`

pub record Subscription : Type 0 where
  pub rate : Option ℕ
  pub next_sequence : ℕ  -- u64
  pub last_emit : ℕ
  pub pending : Option PendingDelta

-- The two loops of `merge`.
unfoldable pub insert_deletes : List Str → Assoc Str (Option AnyItem) → Assoc Str (Option AnyItem)
insert_deletes [] m = m
insert_deletes (id ∷ ids) m = insert_deletes ids (OrdMap.insert id none m)

unfoldable pub insert_upserts :
    List AnyItem → Assoc Str (Option AnyItem) → Assoc Str (Option AnyItem)
insert_upserts [] m = m
insert_upserts (item ∷ items) m = insert_upserts items (OrdMap.insert item.id (some item) m)

abbrev pub or_taken : Option (List Str) → Option (List Str) → Option (List Str)
or_taken none queued = queued
or_taken (some order) queued = some order

unfoldable pub merge : PendingDelta → PendingQueryResponse → PendingDelta
unfolding insert_deletes insert_upserts
merge p response = record {
  changes = insert_upserts response.upsert_items (insert_deletes response.deletes p.changes);
  latest = record response {
    upsert_items = [];
    deletes = [];
    window_order_ids = or_taken response.window_order_ids p.latest.window_order_ids;
  };
}

-- `PendingDelta::new`
unfoldable pub pending_of : PendingQueryResponse → PendingDelta
unfolding merge
pending_of response = merge (record { latest = response; changes = [] }) response

unfoldable pub push_changes :
    Assoc Str (Option AnyItem) → PendingQueryResponse → PendingQueryResponse
push_changes [] r = r
push_changes ((id, some item) ∷ m) r =
    push_changes m (record r { upsert_items = r.upsert_items ++ item ∷ [] })
push_changes ((id, none) ∷ m) r = push_changes m (record r { deletes = r.deletes ++ id ∷ [] })

unfoldable pub finish : PendingDelta → ℕ → PendingQueryResponse
unfolding push_changes
finish p sequence = push_changes p.changes (record p.latest { sequence = sequence })

pub data ViewDeliveryControl : Type 0 where
  subscribe : Str → Option ℕ → ViewDeliveryControl
  set_rate : Str → Option ℕ → ViewDeliveryControl
  cancel : Str → ViewDeliveryControl

abbrev pub ViewDelivery : Type 0
ViewDelivery = Assoc Str Subscription

unfoldable pub control : ViewDelivery → ViewDeliveryControl → ℕ → ViewDelivery
unfolding Assoc.insert Assoc.lookup Assoc.remove
control d (subscribe tx rate) now =
    Assoc.insert tx (record { rate = rate; next_sequence = 0; last_emit = now; pending = none }) d
control d (set_rate tx rate) now = elim (Assoc.lookup tx d) [
  | some s ↦ Assoc.insert tx (record s { rate = rate }) d
  | none ↦ d
]
control d (cancel tx) now = Assoc.remove tx d

-- `push` on the subscription that it finds
unfoldable pub push_to :
    Subscription → PendingQueryResponse → ℕ → Subscription × Option PendingQueryResponse
unfolding merge pending_of
push_to s response now =
    if eqb response.sequence 0
    then (record s { pending = none; next_sequence = 1; last_emit = now }, some response)
    else if not (is_some s.rate) && not (is_some s.pending)
    then (
      record s { next_sequence = saturating_add s.next_sequence 1; last_emit = now },
      some (record response { sequence = s.next_sequence }),
    )
    else elim s.pending [
      | some pending ↦ (record s { pending = some (merge pending response) }, none)
      | none ↦ (record s { pending = some (pending_of response) }, none)
    ]

unfoldable pub push :
    ViewDelivery → PendingQueryResponse → ℕ → ViewDelivery × Option PendingQueryResponse
unfolding push_to Assoc.lookup Assoc.insert
push d response now = elim (Assoc.lookup response.tx d) [
  | none ↦ (d, none)
  | some s ↦ let (s', out) = push_to s response now in (Assoc.insert response.tx s' d, out)
]

-- `rate.map_or(Duration::ZERO, ViewSampleRate::interval)`
abbrev pub interval_of : Option ℕ → ℕ
interval_of none = 0
interval_of (some interval) = interval

-- what `take_due` does to the subscription that it finds
unfoldable pub take_from : Subscription → ℕ → Subscription × Option PendingQueryResponse
unfolding finish
take_from s now = elim s.pending [
  | none ↦ (s, none)
  | some pending ↦ (
    record s { pending = none; next_sequence = saturating_add s.next_sequence 1; last_emit = now },
    some (finish pending s.next_sequence),
  )
]

unfoldable pub min_deadline : Option ℕ → Option ℕ → Option ℕ
min_deadline none b = b
min_deadline (some a) none = some a
min_deadline (some a) (some b) = if ltb b a then some b else some a

module _ (checked_add : ℕ → ℕ → Option ℕ) where
  unfoldable pub deadline : Subscription → Option ℕ
  deadline s = if is_some s.pending then checked_add s.last_emit (interval_of s.rate) else none

  unfoldable pub next_deadline : ViewDelivery → Option ℕ
  unfolding deadline min_deadline
  next_deadline [] = none
  next_deadline ((tx, s) ∷ d) = min_deadline (deadline s) (next_deadline d)

  unfoldable pub is_due : Subscription → ℕ → Bool
  unfolding deadline
  is_due s now = elim (deadline s) [ none ↦ false | some due ↦ leb due now ]

  unfoldable pub take_due : ViewDelivery → ℕ → ViewDelivery × Option PendingQueryResponse
  unfolding is_due take_from
  take_due [] now = ([], none)
  take_due ((tx, s) ∷ d) now =
      let (s', out) = take_from s now in
      let (d', later) = take_due d now in
      if is_due s now then ((tx, s') ∷ d, out) else ((tx, s) ∷ d', later)
