-- ===== src/Server/Relationships/Ensure/Reservations.antt =====
-- What is left of a reservation when no item was created.
use myko.Base.{◌≡◌, ◌≢◌, refl, true, false, arith, Bool-cases, inl, inr}
use myko.Base.Key.{pair_key, list_key}
use myko.Base.Text.{str_key}
use myko.Server.Relationships.{EnsureForLookup}
use myko.Server.Relationships.World.{World, ok, err, Run, Publisher, Reservation}
use myko.Server.Relationships.World.{is_in_flight, reserve, release}
use myko.Server.Relationships.Ensure.{Combo, entity_exists, after_publish, ensure_combination}
use myko.Server.Relationships.Ensure.Covered.{is_in_flight-release, reservation_eq}

release_own : (r : Reservation) (w : World) → is_in_flight r (release r w) ≡ false
release_own r w = ground (arith, is_in_flight-release r r w, reservation_eq.cmp_refl r)

module _ {E : Type 0} (publisher : Publisher E) where
  published_free :
      (r : Reservation) (run : Run E Unit)
      → (after_publish publisher r run).1 ≢ ok true
      → is_in_flight r (after_publish publisher r run).0 ≡ false
  published_free r (w, ok _) h = absurd (h refl)
  published_free r (w, err e) h = release_own r w

  -- A combination that was not reserved is not reserved after a call that created no item for it:
  -- neither when its item was stored already, nor when the publication failed.
  pub ensure_combination-free :
      (lookup : EnsureForLookup) (combo : Combo) (w : World)
      → is_in_flight (lookup.local_type, combo) w ≡ false
      → (ensure_combination publisher lookup combo w).1 ≢ ok true
      → is_in_flight (lookup.local_type, combo) (ensure_combination publisher lookup combo w).0
        ≡ false
  unfolding ensure_combination
  ensure_combination-free lookup combo w free =
      let r : Reservation = (lookup.local_type, combo) in
      elim (Bool-cases (entity_exists lookup combo w)) [
        | inl q ↦ rw (free, q, ensure_combination) (λ h. release_own r (reserve r w))
        | inr q ↦
            rw (free, q, ensure_combination)
              (published_free r (publisher.publish_set (lookup.make_entity combo) (reserve r w)))
      ]
