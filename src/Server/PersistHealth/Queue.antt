-- ===== src/Server/PersistHealth/Queue.antt =====
-- The number of queued events, and all that the health says, after any sequence of calls.
use myko.Base.{ℕ, ◌+◌, ◌*◌, ◌≤◌, ◌≡◌, true, false, none, List, [], ◌∷◌, arith}
use myko.Base.{
  if◌then◌else◌, leb, Bool-cases, inl, inr, length, u64_max, wrapping_add, wrapping_sub,
}
use myko.Server.PersistHealth.{
  PersistHealth, default_health, record_enqueue, record_success, record_success_batch, record_error,
  record_dropped, record_error_no_dequeue,
}
use myko.Server.PersistHealth.Counters.{
  Call, enqueue, success, success_batch, error, dropped, error_no_dequeue, perform, perform_all,
  errors_of, since_success, last_or, writes_of, perform_all-default,
}

abbrev pub put_in : Call → ℕ
put_in enqueue = 1
put_in _ = 0

abbrev pub taken_out : Call → ℕ
taken_out success = 1
taken_out (success_batch count) = count
taken_out (error _) = 1
taken_out _ = 0

abbrev pub all_in : List Call → ℕ
all_in [] = 0
all_in (c ∷ cs) = put_in c + all_in cs

abbrev pub all_out : List Call → ℕ
all_out [] = 0
all_out (c ∷ cs) = taken_out c + all_out cs

-- from `n` queued to `m`, with so many put in and taken out, up to the wraps of the counter
abbrev Moves : ℕ → ℕ → ℕ → ℕ → Type 0
Moves n new out m =
    (borrowed : ℕ) × (carried : ℕ) × (m + out + carried * (u64_max + 1)
      ≡ n + new + borrowed * (u64_max + 1))
    × (m ≤ u64_max)

Moves-add : (n : ℕ) → n ≤ u64_max → Moves n 1 0 (wrapping_add n 1)
unfolding wrapping_add
Moves-add n h = elim (Bool-cases (leb (n + 1) u64_max)) [
  | inl e ↦ (0, 0, ground (arith, e), ground (arith, e))
  | inr e ↦ (0, 1, ground (arith, e, h), ground (arith, e, h))
]

Moves-sub : (n count : ℕ) → n ≤ u64_max → count ≤ u64_max → Moves n 0 count (wrapping_sub n count)
unfolding wrapping_sub
Moves-sub n count h k = elim (Bool-cases (leb count n)) [
  | inl e ↦ (0, 0, ground (arith, e), ground (arith, e, h))
  | inr e ↦ (1, 0, ground (arith, e, h, k), ground (arith, e, h, k))
]

perform-Moves :
    (h : PersistHealth) (c : Call)
    → h.queued ≤ u64_max
    → taken_out c ≤ u64_max
    → Moves h.queued (put_in c) (taken_out c) (perform h c).queued
unfolding perform record_enqueue record_success record_success_batch record_error record_dropped
    record_error_no_dequeue
perform-Moves h enqueue q k = Moves-add h.queued q
perform-Moves h success q k = Moves-sub h.queued 1 q k
perform-Moves h (success_batch count) q k = Moves-sub h.queued count q k
perform-Moves h (error _) q k = Moves-sub h.queued 1 q k
perform-Moves h (dropped _) q k = (0, 0, omega arith, q)
perform-Moves h (error_no_dequeue _) q k = (0, 0, omega arith, q)

perform_all-Moves :
    (h : PersistHealth) (cs : List Call)
    → h.queued ≤ u64_max
    → all_out cs ≤ u64_max
    → Moves h.queued (all_in cs) (all_out cs) (perform_all h cs).queued
unfolding perform_all
perform_all-Moves h [] q k = (0, 0, omega arith, q)
perform_all-Moves h (c ∷ cs) q k =
    let (b, a, e, fits) = perform-Moves h c q (omega (arith, k)) in
    let (b', a', e', fits') = perform_all-Moves (perform h c) cs fits (omega (arith, k)) in
    (b + b', a + a', omega (arith, e, e'), fits')

le_of_leb : {m n : ℕ} → leb m n ≡ true → m ≤ n
le_of_leb h = ground (arith, h)

lt_of_leb : (m n : ℕ) → leb m n ≡ false → n + 1 ≤ m
lt_of_leb m n h = ground (arith, h)

queued-default :
    (cs : List Call)
    → all_in cs ≤ u64_max
    → all_out cs ≤ u64_max
    → (perform_all default_health cs).queued + all_out cs
      ≡ (if leb (all_out cs) (all_in cs) then all_in cs else all_in cs + (u64_max + 1))
queued-default cs fits drained =
    let (b, a, e, room) = perform_all-Moves default_health cs (omega arith) drained in
    elim (Bool-cases (leb (all_out cs) (all_in cs))) [
      | inl below ↦ rw below (omega (arith, e, room, fits, drained, le_of_leb below))
      | inr above ↦
          rw above (omega (arith, e, room, fits, drained, lt_of_leb (all_out cs) (all_in cs) above))
    ]

-- From the start, whatever the calls, as long as each count fits `u64`: the number of all errors is
-- that of the calls that report one, the number of errors in a row is that of those after the last
-- successful write, the message shown is that of the last of these, if there is one, the number of
-- writes is the sum over the successful calls, and the number of queued events is what was put in
-- less what was taken out, where the counter wraps around if more was taken out than put in.
pub perform_all_totals :
    (cs : List Call)
    → length (errors_of cs) ≤ u64_max
    → writes_of cs ≤ u64_max
    → all_in cs ≤ u64_max
    → all_out cs ≤ u64_max
    → ((perform_all default_health cs).total_errors ≡ length (errors_of cs))
      × ((perform_all default_health cs).consecutive_errors ≡ length (errors_of (since_success cs)))
      × ((perform_all default_health cs).last_error ≡ last_or none (errors_of (since_success cs)))
      × ((perform_all default_health cs).total_persisted ≡ writes_of cs)
      × ((perform_all default_health cs).queued + all_out cs
          ≡ (if leb (all_out cs) (all_in cs) then all_in cs else all_in cs + (u64_max + 1)))
perform_all_totals cs errors writes ins outs =
    let (all, row, shown, written) = perform_all-default cs errors writes in
    (all, row, shown, written, queued-default cs ins outs)
