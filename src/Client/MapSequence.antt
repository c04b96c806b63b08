-- ===== src/Client/MapSequence.antt =====
-- libs/myko/core/src/client/map_response.rs: the sequence check of a map subscription. The mutex
-- only serialises the calls, so a method takes the state and returns the new one.
pub mod Order
use myko.Base.{ℕ, ◌+◌, Bool, true, false, Option, none, some, List, [], ◌∷◌, eqb, leb}
use myko.Base.{if◌then◌else◌, u64_max}

pub record SequenceState : Type 0 where
  pub awaiting_snapshot : Bool
  pub next : ℕ  -- u64

abbrev pub new : SequenceState
new = record { awaiting_snapshot = true; next = 0 }

unfoldable pub reset_epoch : SequenceState → SequenceState
reset_epoch s = record s { awaiting_snapshot = true }

-- `u64::checked_add`
abbrev pub checked_add : ℕ → ℕ → Option ℕ
checked_add a b = if leb (a + b) u64_max then some (a + b) else none

unfoldable pub accept : SequenceState → ℕ → SequenceState × Bool
accept s sequence =
    if eqb sequence 0
    then (record s { awaiting_snapshot = false; next = 1 }, true)
    else if s.awaiting_snapshot
    then (s, false)
    else if eqb sequence s.next
    then elim (checked_add s.next 1) [
      | some next ↦ (record s { next = next }, true)
      | none ↦ (s, false)
    ]
    else (s, false)

-- What a subscription meets: responses, and new connection epochs.
pub data Event : Type 0 where
  deliver : ℕ → Event
  epoch : Event

-- The responses that are handed on, with the epochs between them.
unfoldable pub handed_on : SequenceState → List Event → List Event
unfolding accept reset_epoch
handed_on s [] = []
handed_on s (epoch ∷ es) = epoch ∷ handed_on (reset_epoch s) es
handed_on s (deliver n ∷ es) =
    let (s', ok) = accept s n in let rest = handed_on s' es in if ok then deliver n ∷ rest else rest
