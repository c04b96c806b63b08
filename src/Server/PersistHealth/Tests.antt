-- ===== src/Server/PersistHealth/Tests.antt =====
-- Three events of which two fail, from the start.
use myko.Base.{◌+◌, ℕ, ◌≡◌, refl, Option, none, some, List, [], ◌∷◌, arith}
use myko.Base.{true, if◌then◌else◌, eqb}
use myko.Base.Text.{Str, str, str_key}
use myko.Base.Assoc
use myko.Base.OrdSet
use myko.Server.PersistHealth.{
  PersisterRouter, set_default, set_override, resolve, startup_healthcheck,
}
use myko.Server.PersistHealth.{default_health}
use myko.Server.PersistHealth.Queue.{perform_all_totals}
use myko.Server.PersistHealth.Counters.{Call, enqueue, error, success, perform_all}

abbrev calls : List Call
calls = enqueue ∷ enqueue ∷ enqueue ∷ error (str "e") ∷ success ∷ error (str "f") ∷ []

perform_all_totals_example :
    ((perform_all default_health calls).total_errors ≡ 2)
    × ((perform_all default_health calls).consecutive_errors ≡ 1)
    × ((perform_all default_health calls).last_error ≡ some (str "f"))
    × ((perform_all default_health calls).total_persisted ≡ 1)
    × ((perform_all default_health calls).queued + 3 ≡ 3)
perform_all_totals_example =
    perform_all_totals calls (omega arith) (omega arith) (omega arith) (omega arith)

-- A persister is a number; the number one is not healthy.
abbrev probe : ℕ → Option Str
probe n = if eqb n 1 then some (str "down") else none

abbrev router : PersisterRouter ℕ
router =
    set_override (str "Pulse") 2 (set_default (some 3) (record { default = none; overrides = [] }))

abbrev checked_types : List Str
checked_types = str "Scene" ∷ str "Pulse" ∷ []

all_passed : startup_healthcheck probe checked_types router ≡ none
unfolding startup_healthcheck resolve set_override set_default Assoc.insert Assoc.lookup str_key
all_passed = refl

listed : OrdSet.contains (str "Pulse") checked_types ≡ true
unfolding OrdSet.contains str_key
listed = refl

overridden : resolve (str "Pulse") router ≡ some 2
unfolding resolve set_override set_default Assoc.insert Assoc.lookup str_key
overridden = refl
