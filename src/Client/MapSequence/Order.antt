-- ===== src/Client/MapSequence/Order.antt =====
-- What the sequence check lets through: snapshots, and gapless runs that follow a snapshot.
mod Tests
use myko.Base.{ℕ, zero, suc, ◌+◌, ◌≤◌, ◌<◌, ◌≡◌, refl, ◌⊎◌, inl, inr, Bool, true, false, Option}
use myko.Base.{none, some, List, [], ◌∷◌, ◌++◌, arith, u64_max, Bool-cases}
use myko.Client.MapSequence.{
  SequenceState, new, reset_epoch, accept, Event, deliver, epoch, handed_on,
}

-- Each response is a snapshot or the successor of the one before it, and the first one of an epoch
-- is a snapshot. `expected` is the successor, `none` where only a snapshot will do.
abbrev pub IsGapless : Option ℕ → List Event → Type 0
IsGapless expected [] = Unit
IsGapless expected (epoch ∷ es) = IsGapless none es
IsGapless expected (deliver n ∷ es) = ((n ≡ 0) ⊎ (expected ≡ some n)) × IsGapless (some (n + 1)) es

abbrev expected_of : SequenceState → Option ℕ
expected_of s = elim s.awaiting_snapshot [ true ↦ none | false ↦ some s.next ]

accept-IsGapless :
    (s : SequenceState) (n : ℕ)
    → (accept s n).1 ≡ true
    → ((n ≡ 0) ⊎ (expected_of s ≡ some n)) × (expected_of (accept s n).0 ≡ some (n + 1))
unfolding accept
accept-IsGapless s n h = ground arith

-- A response that is turned down leaves the state as it was.
pub accept_refused : (s : SequenceState) (n : ℕ) → (accept s n).1 ≡ false → (accept s n).0 ≡ s
unfolding accept
accept_refused s n h = ground arith

handed_on_from : (s : SequenceState) (es : List Event) → IsGapless (expected_of s) (handed_on s es)
unfolding handed_on reset_epoch
handed_on_from s [] = tt
handed_on_from s (epoch ∷ es) = handed_on_from (reset_epoch s) es
handed_on_from s (deliver n ∷ es) =
    ground (arith, accept-IsGapless s n, accept_refused s n, handed_on_from (accept s n).0 es)

-- Whatever arrives, and whenever the connection is replaced, the responses that are handed on are
-- gapless: after each epoch comes a snapshot first, and every other response has the number that
-- follows the one before it.
pub handed_on-IsGapless : (es : List Event) → IsGapless none (handed_on new es)
handed_on-IsGapless es = handed_on_from new es

-- The responses number `from`, `from + 1`, …, `count` of them.
abbrev pub numbered : ℕ → ℕ → List Event
numbered from zero = []
numbered from (suc count) = deliver from ∷ numbered (from + 1) count

accept_next :
    (s : SequenceState)
    → s.awaiting_snapshot ≡ false
    → 0 < s.next
    → s.next < u64_max
    → accept s s.next ≡ (record s { next = s.next + 1 }, true)
unfolding accept
accept_next s a p h = ground arith

handed_on-numbered :
    (count : ℕ) (s : SequenceState)
    → s.awaiting_snapshot ≡ false
    → 0 < s.next
    → s.next + count ≤ u64_max
    → handed_on s (numbered s.next count) ≡ numbered s.next count
unfolding handed_on
handed_on-numbered zero s a p h = refl
handed_on-numbered (suc count) s a p h =
    let s' = record s { next = s.next + 1 } in
    ground (arith, accept_next s a p, handed_on-numbered count s' a)

-- From any state a snapshot and the responses that follow it in order are all handed on, as long as
-- their numbers stay below the largest `u64`.
pub handed_on_in_order :
    (s : SequenceState) (count : ℕ)
    → count < u64_max
    → handed_on s (numbered 0 (suc count)) ≡ numbered 0 (suc count)
unfolding handed_on accept
handed_on_in_order s count h =
    let s' = record s { awaiting_snapshot = false; next = 1 } in
    ground (arith, handed_on-numbered count s' refl)
