-- ===== src/Server/ViewDelivery/Deadlines.antt =====
-- The timer: `take_due` emits a response exactly when the next deadline has come.
use myko.Base.{ℕ, ◌≡◌, refl, sym, ◌∙◌, Bool, true, false, Option, none, some, [], ◌∷◌, ◌||◌}
use myko.Base.{arith, is_some, leb, Option-cases, inl, inr}
use mathlib.Core.Bool.{true≢false}
use myko.Server.ViewDelivery.{
  Subscription, ViewDelivery, take_from, deadline, min_deadline, next_deadline, is_due, take_due,
}

-- The deadline exists and has come.
unfoldable pub reached : Option ℕ → ℕ → Bool
reached none now = false
reached (some t) now = leb t now

reached-min :
    (a b : Option ℕ) (now : ℕ) → reached (min_deadline a b) now ≡ (reached a now || reached b now)
unfolding min_deadline reached
reached-min none b now = refl
reached-min (some a) none now = ground arith
reached-min (some a) (some b) now = ground arith

module _ (checked_add : ℕ → ℕ → Option ℕ) where
  is_due-reached :
      (s : Subscription) (now : ℕ) → is_due checked_add s now ≡ reached (deadline checked_add s) now
  unfolding is_due reached
  is_due-reached s now = elim (Option-cases (deadline checked_add s)) [
    | inl e ↦ rw (e, is_due) refl
    | inr (t, e) ↦ rw (e, is_due) refl
  ]

  idle : (s : Subscription) (now : ℕ) → s.pending ≡ none → is_due checked_add s now ≡ false
  unfolding is_due deadline
  idle s now e = rw (e, is_due, deadline) refl

  emits :
      (s : Subscription) (now : ℕ)
      → is_due checked_add s now ≡ true
      → is_some (take_from s now).1 ≡ true
  unfolding is_due deadline take_from
  emits s now h = elim (Option-cases s.pending) [
    | inl e ↦ absurd (true≢false (sym h ∙ idle s now e))
    | inr (p, e) ↦ rw (e, take_from) refl
  ]

  -- `take_due` emits a response exactly when the next deadline exists and has come, so a timer that
  -- waits for the next deadline neither misses a response nor finds none.
  pub take_due-deadline :
      (d : ViewDelivery) (now : ℕ)
      → is_some (take_due checked_add d now).1 ≡ reached (next_deadline checked_add d) now
  unfolding take_due next_deadline reached
  take_due-deadline [] now = refl
  take_due-deadline ((tx, s) ∷ d) now =
      let later = take_due-deadline d now in
      rw (reached-min (deadline checked_add s) (next_deadline checked_add d) now)
        (ground (arith, later, emits s now, is_due-reached s now))
