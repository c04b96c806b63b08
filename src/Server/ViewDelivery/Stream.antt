-- ===== src/Server/ViewDelivery/Stream.antt =====
-- The stream of responses of one subscription: pushed by the source, emitted at once or sampled, and
-- checked by the client that receives them.
use myko.Base.{ℕ, ◌≡◌, ◌<◌, refl, sym, ap, ◌∙◌, true, false, Option, none, some}
use myko.Base.{List, [], ◌∷◌, arith, if◌then◌else◌, eqb, Bool-cases, inl, inr, saturating_add}
use myko.Base.Text.{Str, str_key}
use myko.Base.Assoc
use myko.Graph.Types.{AnyItem}
use myko.Server.ViewDelivery.{
  PendingQueryResponse, PendingDelta, Subscription, push_to, take_from, pending_of,
}
use myko.Server.ViewDelivery.Merge.{
  settle_at, overlay, IsDelta, merge-IsDelta, pending_of-IsDelta, settle-finish, merge-changes,
  finish-sequence,
}

-- A response comes from the source, or the timer fires, at an instant.
pub data Step : Type 0 where
  pushed : PendingQueryResponse → ℕ → Step
  due : ℕ → Step

unfoldable pub step : Subscription → Step → Subscription × Option PendingQueryResponse
unfolding push_to take_from
step s (pushed r now) = push_to s r now
step s (due now) = take_from s now

abbrev pub emit :
    Option PendingQueryResponse → List PendingQueryResponse → List PendingQueryResponse
emit none rest = rest
emit (some r) rest = r ∷ rest

unfoldable pub run : Subscription → List Step → Subscription × List PendingQueryResponse
unfolding step
run s [] = (s, [])
run s (x ∷ xs) = let (s', out) = step s x in let (end, rest) = run s' xs in (end, emit out rest)

-- What a receiver holds under `id` after a response: a snapshot replaces the view.
unfoldable pub receive_at : Str → PendingQueryResponse → Option AnyItem → Option AnyItem
unfolding settle_at
receive_at id r held = settle_at id r (if eqb r.sequence 0 then none else held)

unfoldable pub receive_all : Str → List PendingQueryResponse → Option AnyItem → Option AnyItem
unfolding receive_at
receive_all id [] held = held
receive_all id (r ∷ rs) held = receive_all id rs (receive_at id r held)

-- the responses that the source pushed
unfoldable pub pushed_of : List Step → List PendingQueryResponse
pushed_of [] = []
pushed_of (pushed r _ ∷ xs) = r ∷ pushed_of xs
pushed_of (due _ ∷ xs) = pushed_of xs

-- what a view lacks under `id`, as long as a delta is pending
unfoldable pub owed_at : Str → Subscription → Option AnyItem → Option AnyItem
unfolding Assoc.lookup
owed_at id s held = elim s.pending [
  | none ↦ held
  | some p ↦ overlay (Assoc.lookup id p.changes) held
]

abbrev HoldsDelta : Option PendingDelta → Type 0
HoldsDelta none = Unit
HoldsDelta (some p) = IsDelta p

-- a subscription whose snapshot has been sent
pub record IsStarted (s : Subscription) : Type 0 where
  pub numbered : 0 < s.next_sequence
  pub delta : HoldsDelta s.pending

abbrev receive_opt : Str → Option PendingQueryResponse → Option AnyItem → Option AnyItem
receive_opt id none held = held
receive_opt id (some r) held = receive_at id r held

positive : (n : ℕ) → 0 < n → eqb n 0 ≡ false
positive n h = ground arith

-- what the step does, the subscription taken apart
abbrev pub sub : Option ℕ → ℕ → ℕ → Option PendingDelta → Subscription
sub rate n last pending = record {
  rate = rate;
  next_sequence = n;
  last_emit = last;
  pending = pending;
}

snapshot_at :
    (id : Str) (r : PendingQueryResponse) (held : Option AnyItem)
    → eqb r.sequence 0 ≡ true
    → receive_at id r held ≡ settle_at id r none
unfolding receive_at
snapshot_at id r held z = rw z refl

push_owed :
    (id : Str) (r : PendingQueryResponse) (now : ℕ) (held : Option AnyItem) (n last : ℕ)
    (rate : Option ℕ) (pending : Option PendingDelta)
    → 0 < n
    → owed_at id
        (push_to (sub rate n last pending) r now).0
        (receive_opt id (push_to (sub rate n last pending) r now).1 held)
      ≡ receive_at id r (owed_at id (sub rate n last pending) held)
unfolding push_to owed_at receive_at pending_of Assoc.lookup
push_owed id r now held n last (some i) (some p) h = elim (Bool-cases (eqb r.sequence 0)) [
  | inl z ↦ rw z (snapshot_at id r held z)
  | inr z ↦ rw (z, receive_at) (merge-changes id p r held)
]
push_owed id r now held n last none (some p) h = elim (Bool-cases (eqb r.sequence 0)) [
  | inl z ↦ rw z (snapshot_at id r held z)
  | inr z ↦ rw (z, receive_at) (merge-changes id p r held)
]
push_owed id r now held n last (some i) none h = elim (Bool-cases (eqb r.sequence 0)) [
  | inl z ↦ rw z (snapshot_at id r held z)
  | inr z ↦ rw (z, receive_at) (merge-changes id (record { latest = r; changes = [] }) r held)
]
push_owed id r now held n last none none h = elim (Bool-cases (eqb r.sequence 0)) [
  | inl z ↦ rw z (snapshot_at id r held z)
  | inr z ↦ rw (z, positive n h, receive_at) refl
]

take_owed :
    (id : Str) (now : ℕ) (held : Option AnyItem) (n last : ℕ) (rate : Option ℕ)
    (pending : Option PendingDelta)
    → 0 < n
    → HoldsDelta pending
    → owed_at id
        (take_from (sub rate n last pending) now).0
        (receive_opt id (take_from (sub rate n last pending) now).1 held)
      ≡ owed_at id (sub rate n last pending) held
unfolding take_from owed_at receive_at
take_owed id now held n last rate none h v = refl
take_owed id now held n last rate (some p) h v =
    rw (finish-sequence p n, positive n h) (settle-finish id p n held v)

-- A step leaves the subscription started and keeps what it owes.
step-owed :
    (id : Str) (s : Subscription) (x : Step) (held : Option AnyItem)
    → IsStarted s
    → owed_at id (step s x).0 (receive_opt id (step s x).1 held)
      ≡ receive_all id (pushed_of (x ∷ [])) (owed_at id s held)
unfolding step receive_all pushed_of
step-owed id s (pushed r now) held v =
    push_owed id r now held s.next_sequence s.last_emit s.rate s.pending v.numbered
step-owed id s (due now) held v =
    take_owed id now held s.next_sequence s.last_emit s.rate s.pending v.numbered v.delta

next_positive : (n : ℕ) → 0 < n → 0 < saturating_add n 1
unfolding saturating_add
next_positive n h = ground arith

push-IsStarted :
    (r : PendingQueryResponse) (now n last : ℕ) (rate : Option ℕ) (pending : Option PendingDelta)
    → 0 < n
    → HoldsDelta pending
    → IsStarted (push_to (sub rate n last pending) r now).0
unfolding push_to
push-IsStarted r now n last (some i) (some p) h v = elim (Bool-cases (eqb r.sequence 0)) [
  | inl z ↦ rw z (record { numbered = omega arith; delta = tt })
  | inr z ↦ rw z (record { numbered = h; delta = merge-IsDelta p r v.ascending v.keyed })
]
push-IsStarted r now n last none (some p) h v = elim (Bool-cases (eqb r.sequence 0)) [
  | inl z ↦ rw z (record { numbered = omega arith; delta = tt })
  | inr z ↦ rw z (record { numbered = h; delta = merge-IsDelta p r v.ascending v.keyed })
]
push-IsStarted r now n last (some i) none h v = elim (Bool-cases (eqb r.sequence 0)) [
  | inl z ↦ rw z (record { numbered = omega arith; delta = tt })
  | inr z ↦ rw z (record { numbered = h; delta = pending_of-IsDelta r })
]
push-IsStarted r now n last none none h v = elim (Bool-cases (eqb r.sequence 0)) [
  | inl z ↦ rw z (record { numbered = omega arith; delta = tt })
  | inr z ↦ rw z (record { numbered = next_positive n h; delta = tt })
]

take-IsStarted :
    (now n last : ℕ) (rate : Option ℕ) (pending : Option PendingDelta)
    → 0 < n
    → HoldsDelta pending
    → IsStarted (take_from (sub rate n last pending) now).0
unfolding take_from
take-IsStarted now n last rate none h v = record { numbered = h; delta = tt }
take-IsStarted now n last rate (some p) h v = record { numbered = next_positive n h; delta = tt }

step-IsStarted : (s : Subscription) (x : Step) → IsStarted s → IsStarted (step s x).0
unfolding step
step-IsStarted s (pushed r now) v =
    push-IsStarted r now s.next_sequence s.last_emit s.rate s.pending v.numbered v.delta
step-IsStarted s (due now) v =
    take-IsStarted now s.next_sequence s.last_emit s.rate s.pending v.numbered v.delta

receive_all-emit :
    (id : Str) (out : Option PendingQueryResponse) (rest : List PendingQueryResponse)
    (held : Option AnyItem)
    → receive_all id (emit out rest) held ≡ receive_all id rest (receive_opt id out held)
unfolding receive_all
receive_all-emit id none rest held = refl
receive_all-emit id (some r) rest held = refl

receive_all-pushed_of :
    (id : Str) (x : Step) (xs : List Step) (held : Option AnyItem)
    → receive_all id (pushed_of (x ∷ xs)) held
      ≡ receive_all id (pushed_of xs) (receive_all id (pushed_of (x ∷ [])) held)
unfolding receive_all pushed_of
receive_all-pushed_of id (pushed r now) xs held = refl
receive_all-pushed_of id (due now) xs held = refl

-- Sampling loses nothing: once a snapshot has been sent, whatever is pushed and whenever the timer
-- fires, what the receiver holds under an id after the emitted responses, together with the pending
-- delta, is what it would hold after all the responses that were pushed.
pub run-owed :
    (id : Str) (s : Subscription) (xs : List Step) (held : Option AnyItem)
    → IsStarted s
    → owed_at id (run s xs).0 (receive_all id (run s xs).1 held)
      ≡ receive_all id (pushed_of xs) (owed_at id s held)
unfolding run receive_all pushed_of
run-owed id s [] held v = refl
run-owed id s (x ∷ xs) held v =
    ap (owed_at id (run (step s x).0 xs).0)
      (receive_all-emit id (step s x).1 (run (step s x).0 xs).1 held)
    ∙ run-owed id (step s x).0 xs (receive_opt id (step s x).1 held) (step-IsStarted s x v)
    ∙ ap (receive_all id (pushed_of xs)) (step-owed id s x held v)
    ∙ sym (receive_all-pushed_of id x xs (owed_at id s held))
