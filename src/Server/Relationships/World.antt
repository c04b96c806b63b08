-- ===== src/Server/Relationships/World.antt =====
-- What the relation handlers of libs/myko/core/src/server/relationship_manager.rs read and change:
-- the stores, the reverse index and the reservations of `ensure_for`. A publication goes through the
-- server context, which applies it and runs the handlers again on what it causes, so it may change
-- all three: it is a parameter of every handler.
use myko.Base.{Bool, not, List, ◌∷◌, filter}
use myko.Base.Key.{◌==◌, pair_key, list_key}
use myko.Base.Text.{Str, str_key}
use myko.Base.OrdSet
use myko.Graph.Types.{AnyItem}
use myko.Server.Relationships.{Stores}
use myko.Server.Relationships.ReverseIndex.{ReverseIndex}

-- `EnsureForReservation`
abbrev pub Reservation : Type 0
Reservation = Str × List Str

pub record World : Type 0 where
  pub stores : Stores
  pub index : ReverseIndex
  pub ensure_for_in_flight : List Reservation

pub data Result (E A : Type 0) : Type 0 where
  ok : A → Result E A
  err : E → Result E A

abbrev pub Run : Type 0 → Type 0 → Type 0
Run E A = World × Result E A

-- the `?` of a call
abbrev pub try : {E A B : Type 0} → Run E A → (A → World → Run E B) → Run E B
try (w, ok a) next = next a w
try (w, err e) next = (w, err e)

-- `publish_set_cascade`, and the batches of `MykoServerContext`
pub record Publisher (E : Type 0) : Type 0 where
  pub publish_set : AnyItem → World → Run E Unit
  pub del_dyn : AnyItem → World → Run E Unit
  pub batch_del_dyn : List AnyItem → World → Run E Unit
  pub batch_set_dyn : List AnyItem → World → Run E Unit

abbrev pub is_in_flight : Reservation → World → Bool
is_in_flight reservation w = OrdSet.contains reservation w.ensure_for_in_flight

-- `insert` of a reservation that is not in flight, and `remove`
abbrev pub reserve : Reservation → World → World
reserve reservation w = record w { ensure_for_in_flight = reservation ∷ w.ensure_for_in_flight }

abbrev pub release : Reservation → World → World
release reservation w = record w {
  ensure_for_in_flight = filter (λ other. not (other == reservation)) w.ensure_for_in_flight;
}
