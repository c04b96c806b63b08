-- ===== src/Server/ViewDelivery/Tests.antt =====
-- A sampled subscription: a snapshot, two updates of one row within an interval, and the timer.
use myko.Base.{ℕ, ◌≡◌, ◌+◌, refl, Option, none, some, List, [], ◌∷◌, arith, is_some}
use myko.Base.Text.{Str, str}
use myko.Graph.Types.{AnyItem}
use myko.Client.MapSequence
use myko.Client.MapSequence.{handed_on}
use myko.Server.ViewDelivery.{
  ViewDelivery, take_due, next_deadline, deadline, min_deadline, PendingQueryResponse, Subscription,
  push_to, finish, merge, pending_of,
}
use myko.Server.ViewDelivery.Merge.{settle_at, settle-merge, pending_of-IsDelta}
use myko.Server.ViewDelivery.Stream.{
  Step, pushed, due, run, owed_at, receive_all, pushed_of, IsStarted, run-owed,
}
use myko.Server.ViewDelivery.Deadlines.{reached, take_due-deadline}
use myko.Server.ViewDelivery.Numbers.{events_of, snapshot_accepted}

abbrev row : ℕ → AnyItem
row value = record { entity_type = str "Row"; id = str "r"; content = value ∷ [] }

abbrev response : ℕ → List AnyItem → List Str → PendingQueryResponse
response sequence rows deletes = record {
  tx = str "view";
  sequence = sequence;
  upsert_items = rows;
  deletes = deletes;
  total_count = 1;
  window = none;
  window_order_ids = none;
}

abbrev subscription : Subscription
subscription = record { rate = some 10; next_sequence = 1; last_emit = 0; pending = none }

abbrev updates : List Step
updates =
    pushed (response 1 (row 2 ∷ []) []) 3 ∷ pushed (response 2 [] (str "r" ∷ [])) 5 ∷ due 12 ∷ []

subscription-IsStarted : IsStarted subscription
subscription-IsStarted = record { numbered = omega arith; delta = tt }

run-owed_example :
    owed_at
      (str "r")
      (run subscription updates).0
      (receive_all (str "r") (run subscription updates).1 none)
    ≡ receive_all (str "r") (pushed_of updates) (owed_at (str "r") subscription none)
run-owed_example = run-owed (str "r") subscription updates none subscription-IsStarted

snapshot_accepted_example :
    handed_on MapSequence.new
      (events_of (run subscription (pushed (response 0 (row 1 ∷ []) []) 1 ∷ updates)).1)
    ≡ events_of (run subscription (pushed (response 0 (row 1 ∷ []) []) 1 ∷ updates)).1
snapshot_accepted_example =
    snapshot_accepted subscription (response 0 (row 1 ∷ []) []) 1 updates refl (omega arith)

settle-merge_example :
    settle_at
      (str "r")
      (finish (merge (pending_of (response 1 (row 2 ∷ []) [])) (response 2 [] (str "r" ∷ []))) 4)
      none
    ≡ settle_at
        (str "r")
        (response 2 [] (str "r" ∷ []))
        (settle_at (str "r") (finish (pending_of (response 1 (row 2 ∷ []) [])) 3) none)
settle-merge_example =
    settle-merge (str "r") (pending_of (response 1 (row 2 ∷ []) [])) (response 2 [] (str "r" ∷ []))
      4 3 none (pending_of-IsDelta (response 1 (row 2 ∷ []) []))

abbrev clock : ℕ → ℕ → Option ℕ
clock at_instant wait = some (at_instant + wait)

abbrev waiting : ViewDelivery
waiting = (str "view", (push_to subscription (response 1 (row 2 ∷ []) []) 3).0) ∷ []

take_due-deadline_example :
    is_some (take_due clock waiting 10).1 ≡ reached (next_deadline clock waiting) 10
take_due-deadline_example = take_due-deadline clock waiting 10

-- The deadline of that subscription is ten ticks after the last emission.
deadline_of_waiting : next_deadline clock waiting ≡ some 10
unfolding next_deadline deadline min_deadline push_to
deadline_of_waiting = refl
