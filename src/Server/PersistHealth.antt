-- ===== src/Server/PersistHealth.antt =====
-- libs/myko/core/src/server/persister.rs: the health counters of a persister, and the choice of the
-- persister of an entity type. The rate of writes is measured in `f64` and is left out.
pub mod Counters
pub mod Queue
mod Tests
use myko.Base.{
  ℕ, ◌+◌, Bool, Option, none, some, List, [], ◌∷◌, if◌then◌else◌, ltb, wrapping_add, wrapping_sub,
}
use myko.Base.Text.{Str, str_key}
use myko.Base.Assoc
use myko.Base.Assoc.{Assoc}

pub record PersistHealth : Type 0 where
  pub queued : ℕ  -- u64
  pub total_persisted : ℕ  -- u64
  pub total_errors : ℕ  -- u64
  pub consecutive_errors : ℕ  -- u64
  pub last_error : Option Str

abbrev pub default_health : PersistHealth
default_health = record {
  queued = 0;
  total_persisted = 0;
  total_errors = 0;
  consecutive_errors = 0;
  last_error = none;
}

unfoldable pub record_enqueue : PersistHealth → PersistHealth
unfolding wrapping_add
record_enqueue h = record h { queued = wrapping_add h.queued 1 }

unfoldable pub record_success_batch : ℕ → PersistHealth → PersistHealth
unfolding wrapping_add wrapping_sub
record_success_batch count h = record h {
  queued = wrapping_sub h.queued count;
  total_persisted = wrapping_add h.total_persisted count;
  consecutive_errors = 0;
  last_error = if ltb 0 h.consecutive_errors then none else h.last_error;
}

unfoldable pub record_success : PersistHealth → PersistHealth
unfolding wrapping_add wrapping_sub
record_success h = record h {
  queued = wrapping_sub h.queued 1;
  total_persisted = wrapping_add h.total_persisted 1;
  consecutive_errors = 0;
  last_error = if ltb 0 h.consecutive_errors then none else h.last_error;
}

unfoldable pub record_error : Str → PersistHealth → PersistHealth
unfolding wrapping_add wrapping_sub
record_error msg h = record h {
  queued = wrapping_sub h.queued 1;
  total_errors = wrapping_add h.total_errors 1;
  consecutive_errors = wrapping_add h.consecutive_errors 1;
  last_error = some msg;
}

unfoldable pub record_dropped : Str → PersistHealth → PersistHealth
unfolding wrapping_add
record_dropped msg h = record h {
  total_errors = wrapping_add h.total_errors 1;
  consecutive_errors = wrapping_add h.consecutive_errors 1;
  last_error = some msg;
}

unfoldable pub record_error_no_dequeue : Str → PersistHealth → PersistHealth
unfolding wrapping_add
record_error_no_dequeue msg h = record h {
  total_errors = wrapping_add h.total_errors 1;
  consecutive_errors = wrapping_add h.consecutive_errors 1;
  last_error = some msg;
}

-- A persister is of any type.
pub record PersisterRouter (P : Type 0) : Type 0 where
  pub default : Option P
  pub overrides : Assoc Str P

module _ {P : Type 0} where
  unfoldable pub set_default : Option P → PersisterRouter P → PersisterRouter P
  set_default persister router = record router { default = persister }

  unfoldable pub set_override : Str → P → PersisterRouter P → PersisterRouter P
  unfolding Assoc.insert
  set_override entity_type persister router = record router {
    overrides = Assoc.insert entity_type persister router.overrides;
  }

  unfoldable pub resolve : Str → PersisterRouter P → Option P
  unfolding Assoc.lookup
  resolve entity_type router = elim (Assoc.lookup entity_type router.overrides) [
    | some persister ↦ some persister
    | none ↦ router.default
  ]

  -- `healthcheck` answers with the reason of its failure, if there is one; so does the whole check,
  -- with the entity type at which it failed.
  unfoldable pub startup_healthcheck :
      (P → Option Str) → List Str → PersisterRouter P → Option (Str × Str)
  unfolding resolve
  startup_healthcheck healthcheck [] router = none
  startup_healthcheck healthcheck (entity_type ∷ rest) router = elim (resolve entity_type router) [
    | none ↦ startup_healthcheck healthcheck rest router
    | some persister ↦ elim (healthcheck persister) [
      | some reason ↦ some (entity_type, reason)
      | none ↦ startup_healthcheck healthcheck rest router
    ]
  ]
