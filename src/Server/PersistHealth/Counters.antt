-- ===== src/Server/PersistHealth/Counters.antt =====
-- What the health counters say after any sequence of calls.
use myko.Base.{
  ℕ, ◌+◌, ◌≤◌, ◌≡◌, ◌∙◌, refl, Bool, true, false, ◌||◌, Option, none, some, List, [], ◌∷◌, arith,
}
use myko.Base.{if◌then◌else◌, ltb, length, u64_max, wrapping_add}
use myko.Base.Text.{Str, str_key}
use myko.Base.OrdSet
use myko.Server.PersistHealth.{PersisterRouter, resolve, startup_healthcheck}
use myko.Server.PersistHealth.{
  PersistHealth, default_health, record_enqueue, record_success, record_success_batch, record_error,
  record_dropped, record_error_no_dequeue,
}

pub data Call : Type 0 where
  enqueue success : Call
  success_batch : ℕ → Call
  error dropped error_no_dequeue : Str → Call

unfoldable pub perform : PersistHealth → Call → PersistHealth
unfolding record_enqueue record_success record_success_batch record_error record_dropped
    record_error_no_dequeue
perform h enqueue = record_enqueue h
perform h success = record_success h
perform h (success_batch count) = record_success_batch count h
perform h (error msg) = record_error msg h
perform h (dropped msg) = record_dropped msg h
perform h (error_no_dequeue msg) = record_error_no_dequeue msg h

unfoldable pub perform_all : PersistHealth → List Call → PersistHealth
unfolding perform
perform_all h [] = h
perform_all h (c ∷ cs) = perform_all (perform h c) cs

-- a successful write
abbrev pub is_success : Call → Bool
is_success success = true
is_success (success_batch _) = true
is_success _ = false

-- an error, with its message
abbrev pub error_of : Call → Option Str
error_of (error msg) = some msg
error_of (dropped msg) = some msg
error_of (error_no_dequeue msg) = some msg
error_of _ = none

abbrev pub has_success : List Call → Bool
has_success [] = false
has_success (c ∷ cs) = is_success c || has_success cs

-- the calls after the last successful write
abbrev pub since_success : List Call → List Call
since_success [] = []
since_success (c ∷ cs) =
    let rest = since_success cs in if is_success c || has_success cs then rest else c ∷ rest

-- the messages of the errors, in their order
abbrev pub errors_of : List Call → List Str
errors_of [] = []
errors_of (c ∷ cs) =
    let rest = errors_of cs in elim (error_of c) [ none ↦ rest | some msg ↦ msg ∷ rest ]

abbrev pub last_or : Option Str → List Str → Option Str
last_or default [] = default
last_or default (msg ∷ msgs) = last_or (some msg) msgs

-- the number of writes that succeeded
abbrev pub writes_of : List Call → ℕ
writes_of [] = 0
writes_of (success ∷ cs) = 1 + writes_of cs
writes_of (success_batch count ∷ cs) = count + writes_of cs
writes_of (_ ∷ cs) = writes_of cs

-- What the counters are after `cs`, from counters `h`.
record Reports (h : PersistHealth) (cs : List Call) (u : PersistHealth) : Type 0 where
  all_errors : u.total_errors ≡ h.total_errors + length (errors_of cs)
  in_a_row : u.consecutive_errors ≡ (
      if has_success cs
      then length (errors_of (since_success cs))
      else h.consecutive_errors + length (errors_of cs))
  shown : u.last_error ≡ (
      if has_success cs
      then last_or none (errors_of (since_success cs))
      else last_or h.last_error (errors_of cs))
  written : u.total_persisted ≡ h.total_persisted + writes_of cs

since_success-whole : (cs : List Call) → has_success cs ≡ false → since_success cs ≡ cs
since_success-whole [] h = refl
since_success-whole (c ∷ cs) h = ground (arith, h, since_success-whole cs)

wrapping_add_fits : (a b : ℕ) → a + b ≤ u64_max → wrapping_add a b ≡ a + b
unfolding wrapping_add
wrapping_add_fits a b h = ground arith

-- No message is left where no error follows the last success.
abbrev IsClear : PersistHealth → Type 0
IsClear h = h.consecutive_errors ≡ 0 → h.last_error ≡ none

abbrev HasRoom : PersistHealth → List Call → Type 0
HasRoom h cs =
    (h.consecutive_errors ≤ h.total_errors)
    × (h.total_errors + length (errors_of cs) ≤ u64_max)
    × (h.total_persisted + writes_of cs ≤ u64_max)

after_error :
    (h g u : PersistHealth) (c : Call) (cs : List Call) (msg : Str)
    → error_of c ≡ some msg
    → is_success c ≡ false
    → writes_of (c ∷ cs) ≡ writes_of cs
    → g.total_errors ≡ h.total_errors + 1
    → g.consecutive_errors ≡ h.consecutive_errors + 1
    → g.last_error ≡ some msg
    → g.total_persisted ≡ h.total_persisted
    → Reports g cs u
    → Reports h (c ∷ cs) u
after_error h g u c cs msg e n w t k l q r = record {
  all_errors = ground (arith, e, t, r.all_errors);
  in_a_row = ground (arith, e, n, k, r.in_a_row);
  shown = ground (arith, e, n, l, r.shown);
  written = ground (arith, w, q, r.written);
}

after_success :
    (h g u : PersistHealth) (c : Call) (cs : List Call)
    → error_of c ≡ none
    → is_success c ≡ true
    → writes_of (c ∷ cs) + h.total_persisted ≡ writes_of cs + g.total_persisted
    → g.total_errors ≡ h.total_errors
    → g.consecutive_errors ≡ 0
    → g.last_error ≡ none
    → Reports g cs u
    → Reports h (c ∷ cs) u
after_success h g u c cs e n w t k l r = record {
  all_errors = ground (arith, e, t, r.all_errors);
  in_a_row = ground (arith, e, n, k, r.in_a_row, since_success-whole cs);
  shown = ground (arith, e, n, l, r.shown, since_success-whole cs);
  written = omega (arith, w, r.written);
}

cleared :
    (h : PersistHealth)
    → IsClear h
    → ◌≡◌ {A = Option Str} (if ltb 0 h.consecutive_errors then none else h.last_error) none
cleared h clear = ground (arith, clear)

-- An error that fits the counters, with what the calls after it report.
error-Reports :
    (h g u : PersistHealth) (c : Call) (cs : List Call) (msg : Str)
    → error_of c ≡ some msg
    → is_success c ≡ false
    → writes_of (c ∷ cs) ≡ writes_of cs
    → g.total_errors ≡ wrapping_add h.total_errors 1
    → g.consecutive_errors ≡ wrapping_add h.consecutive_errors 1
    → g.last_error ≡ some msg
    → g.total_persisted ≡ h.total_persisted
    → HasRoom h (c ∷ cs)
    → (IsClear g → HasRoom g cs → Reports g cs u)
    → Reports h (c ∷ cs) u
error-Reports h g u c cs msg e n w t k l q (a, b, room) later =
    let one_more : length (errors_of (c ∷ cs)) ≡ 1 + length (errors_of cs) = ground (arith, e) in
    let t' : g.total_errors ≡ h.total_errors + 1 =
      t ∙ wrapping_add_fits h.total_errors 1 (omega (arith, b, one_more)) in
    let k' : g.consecutive_errors ≡ h.consecutive_errors + 1 =
      k ∙ wrapping_add_fits h.consecutive_errors 1 (omega (arith, a, b, one_more)) in
    after_error h g u c cs msg e n w t' k' l q (
      later (λ z. absurd (omega (arith, z, k')))
        (omega (arith, a, t', k'), omega (arith, b, one_more, t'), omega (arith, room, w, q)))

perform_all-Reports :
    (h : PersistHealth) (cs : List Call)
    → IsClear h
    → HasRoom h cs
    → Reports h cs (perform_all h cs)
unfolding perform_all perform record_enqueue record_success record_success_batch record_error
    record_dropped record_error_no_dequeue
perform_all-Reports h [] clear room = record {
  all_errors = omega arith;
  in_a_row = omega arith;
  shown = refl;
  written = omega arith;
}
perform_all-Reports h (enqueue ∷ cs) clear room =
    let r = perform_all-Reports (record_enqueue h) cs clear room in
    record {
      all_errors = r.all_errors;
      in_a_row = ground (arith, r.in_a_row);
      shown = ground (arith, r.shown);
      written = r.written;
    }
perform_all-Reports h (success ∷ cs) clear (a, b, w) =
    let p = wrapping_add_fits h.total_persisted 1 (omega (arith, w)) in
    after_success h (record_success h) (perform_all h (success ∷ cs)) success cs refl refl
      (omega (arith, p)) refl refl (cleared h clear)
      (perform_all-Reports (record_success h) cs (λ _. cleared h clear)
        (omega arith, b, omega (arith, p, w)))
perform_all-Reports h (success_batch count ∷ cs) clear (a, b, w) =
    let p = wrapping_add_fits h.total_persisted count (omega (arith, w)) in
    after_success h (record_success_batch count h) (perform_all h (success_batch count ∷ cs))
      (success_batch count) cs refl refl (omega (arith, p)) refl refl (cleared h clear)
      (perform_all-Reports (record_success_batch count h) cs (λ _. cleared h clear)
        (omega arith, b, omega (arith, p, w)))
perform_all-Reports h (error msg ∷ cs) clear room =
    error-Reports h (record_error msg h) (perform_all h (error msg ∷ cs)) (error msg) cs msg refl
      refl refl refl refl refl refl room (perform_all-Reports (record_error msg h) cs)
perform_all-Reports h (dropped msg ∷ cs) clear room =
    error-Reports h (record_dropped msg h) (perform_all h (dropped msg ∷ cs)) (dropped msg) cs msg
      refl refl refl refl refl refl refl room (perform_all-Reports (record_dropped msg h) cs)
perform_all-Reports h (error_no_dequeue msg ∷ cs) clear room =
    error-Reports h (record_error_no_dequeue msg h) (perform_all h (error_no_dequeue msg ∷ cs))
      (error_no_dequeue msg) cs msg refl refl refl refl refl refl refl room
      (perform_all-Reports (record_error_no_dequeue msg h) cs)

-- From the start, as long as the errors and the writes fit `u64`, whatever the calls: the number of
-- all errors is that of the calls that report one, the number of errors in a row is that of those
-- after the last successful write, the message shown is that of the last of these, if there is one,
-- and the number of writes is the sum over the successful calls.
pub perform_all-default :
    (cs : List Call)
    → length (errors_of cs) ≤ u64_max
    → writes_of cs ≤ u64_max
    → ((perform_all default_health cs).total_errors ≡ length (errors_of cs))
      × ((perform_all default_health cs).consecutive_errors ≡ length (errors_of (since_success cs)))
      × ((perform_all default_health cs).last_error ≡ last_or none (errors_of (since_success cs)))
      × ((perform_all default_health cs).total_persisted ≡ writes_of cs)
perform_all-default cs fits writes =
    let r =
      perform_all-Reports default_health cs (λ _. refl)
        (omega arith, omega (arith, fits), omega (arith, writes)) in
    (
      omega (arith, r.all_errors),
      ground (arith, r.in_a_row, since_success-whole cs),
      ground (arith, r.shown, since_success-whole cs),
      omega (arith, r.written),
    )

-- A startup check that reports no failure has found every persister healthy that an entity type of
-- the list resolves to.
pub startup_healthcheck-healthy :
    {P : Type 0} (healthcheck : P → Option Str) (types : List Str) (router : PersisterRouter P)
    (entity_type : Str) (persister : P)
    → startup_healthcheck healthcheck types router ≡ none
    → OrdSet.contains entity_type types ≡ true
    → resolve entity_type router ≡ some persister
    → healthcheck persister ≡ none
unfolding startup_healthcheck OrdSet.contains
startup_healthcheck-healthy healthcheck [] router t persister passed member found = cc
startup_healthcheck-healthy healthcheck (x ∷ xs) router t persister passed member found = ground (
  arith,
  str_key.eq_of_cmp x t,
  found,
  startup_healthcheck-healthy healthcheck xs router t persister,
)
