-- ===== src/Server/ViewDelivery/Numbers.antt =====
-- The numbers of the emitted responses, and the client that checks them.
use myko.Base.{ℕ, ◌≡◌, ◌≤◌, ◌<◌, ◌+◌, ◌⊎◌, suc, refl, ap, ◌∙◌, true, false, Option, none, some}
use myko.Base.{
  List, [], ◌∷◌, arith, eqb, length, Bool-cases, inl, inr, u64_max, saturating_add,
  saturating_add_fits,
}
use mathlib.Core.Path.{subst}
use myko.Client.MapSequence
use myko.Client.MapSequence.{SequenceState, Event, deliver, accept, handed_on}
use myko.Server.ViewDelivery.{PendingQueryResponse, PendingDelta, Subscription, push_to, take_from}
use myko.Server.ViewDelivery.Merge.{finish-sequence}
use myko.Server.ViewDelivery.Stream.{Step, pushed, due, step, emit, run, sub}

-- what the client meets
unfoldable pub events_of : List PendingQueryResponse → List Event
events_of [] = []
events_of (r ∷ rs) = deliver r.sequence ∷ events_of rs

-- What a step may do to the numbering: nothing, a snapshot, or the next number.
Numbers : ℕ → Subscription × Option PendingQueryResponse → Type 0
Numbers n (s, none) = s.next_sequence ≡ n
Numbers n (s, some r) =
    ((r.sequence ≡ 0) × (s.next_sequence ≡ 1))
    ⊎ ((r.sequence ≡ n) × (s.next_sequence ≡ saturating_add n 1))

zero_of : (n : ℕ) → eqb n 0 ≡ true → n ≡ 0
zero_of n h = ground arith

push-Numbers :
    (r : PendingQueryResponse) (now n last : ℕ) (rate : Option ℕ) (pending : Option PendingDelta)
    → Numbers n (push_to (sub rate n last pending) r now)
unfolding push_to Numbers
push-Numbers r now n last (some i) (some p) = elim (Bool-cases (eqb r.sequence 0)) [
  | inl z ↦ rw z (inl (zero_of r.sequence z, refl))
  | inr z ↦ rw z refl
]
push-Numbers r now n last none (some p) = elim (Bool-cases (eqb r.sequence 0)) [
  | inl z ↦ rw z (inl (zero_of r.sequence z, refl))
  | inr z ↦ rw z refl
]
push-Numbers r now n last (some i) none = elim (Bool-cases (eqb r.sequence 0)) [
  | inl z ↦ rw z (inl (zero_of r.sequence z, refl))
  | inr z ↦ rw z refl
]
push-Numbers r now n last none none = elim (Bool-cases (eqb r.sequence 0)) [
  | inl z ↦ rw z (inl (zero_of r.sequence z, refl))
  | inr z ↦ rw z (inr (refl, refl))
]

take-Numbers :
    (now n last : ℕ) (rate : Option ℕ) (pending : Option PendingDelta)
    → Numbers n (take_from (sub rate n last pending) now)
unfolding take_from Numbers
take-Numbers now n last rate none = refl
take-Numbers now n last rate (some p) = inr (finish-sequence p n, refl)

step-Numbers : (s : Subscription) (x : Step) → Numbers s.next_sequence (step s x)
unfolding step
step-Numbers s (pushed r now) = push-Numbers r now s.next_sequence s.last_emit s.rate s.pending
step-Numbers s (due now) = take-Numbers now s.next_sequence s.last_emit s.rate s.pending

-- a client that has seen the snapshot and waits for a number
abbrev waiting_for : ℕ → SequenceState
waiting_for n = record { awaiting_snapshot = false; next = n }

accept_number :
    (n : ℕ) → 0 < n → n < u64_max → accept (waiting_for n) n ≡ (waiting_for (n + 1), true)
unfolding accept
accept_number n p h = ground arith

next_bounds :
    (n : ℕ) (s : Subscription) (out : Option PendingQueryResponse)
    → Numbers n (s, out)
    → 0 < n
    → n < u64_max
    → (0 < s.next_sequence) × (s.next_sequence ≤ suc n)
unfolding Numbers
next_bounds n s none q p h = ground (arith, q)
next_bounds n s (some r) (inl (_, q)) p h = ground (arith, q)
next_bounds n s (some r) (inr (_, q)) p h = ground (arith, q, saturating_add_fits n 1)

one_accepted :
    (s : Subscription) (rest : List PendingQueryResponse) (n : ℕ)
    (out : Option PendingQueryResponse)
    → Numbers n (s, out)
    → 0 < n
    → n < u64_max
    → handed_on (waiting_for s.next_sequence) (events_of rest) ≡ events_of rest
    → handed_on (waiting_for n) (events_of (emit out rest)) ≡ events_of (emit out rest)
unfolding Numbers events_of handed_on
one_accepted s rest n none q p h ih =
    subst (λ m. handed_on (waiting_for m) (events_of rest) ≡ events_of rest) q ih
one_accepted s rest n (some r) (inl (z, q)) p h ih = rw z (
    ap (λ es. deliver 0 ∷ es)
      (subst (λ m. handed_on (waiting_for m) (events_of rest) ≡ events_of rest) q ih))
one_accepted s rest n (some r) (inr (z, q)) p h ih =
    rw (z, accept_number n p h)
      (ap (λ es. deliver n ∷ es)
        (subst (λ m. handed_on (waiting_for m) (events_of rest) ≡ events_of rest)
          (q ∙ saturating_add_fits n 1 (omega (arith, h))) ih))

run_accepted :
    (s : Subscription) (xs : List Step)
    → 0 < s.next_sequence
    → s.next_sequence + length xs < u64_max
    → handed_on (waiting_for s.next_sequence) (events_of (run s xs).1) ≡ events_of (run s xs).1
unfolding run events_of handed_on
run_accepted s [] p h = refl
run_accepted s (x ∷ xs) p h =
    let below : s.next_sequence < u64_max = omega (arith, h) in
    let (positive, bound) =
      next_bounds s.next_sequence (step s x).0 (step s x).1 (step-Numbers s x) p below in
    one_accepted (step s x).0 (run (step s x).0 xs).1 s.next_sequence (step s x).1
      (step-Numbers s x) p below (run_accepted (step s x).0 xs positive (omega (arith, bound, h)))

-- From the snapshot on, a client's sequence check hands on every response that the subscription
-- emits, whatever is pushed and whenever the timer fires, as long as the numbers fit `u64`.
pub snapshot_accepted :
    (s : Subscription) (r : PendingQueryResponse) (now : ℕ) (xs : List Step)
    → r.sequence ≡ 0
    → length xs + 1 < u64_max
    → handed_on MapSequence.new (events_of (run s (pushed r now ∷ xs)).1)
      ≡ events_of (run s (pushed r now ∷ xs)).1
unfolding run step push_to events_of handed_on
snapshot_accepted s r now xs z h = rw z (
    ap (λ es. deliver 0 ∷ es)
      (run_accepted (record s { pending = none; next_sequence = 1; last_emit = now }) xs
        (omega arith) (omega (arith, h))))
