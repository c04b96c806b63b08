-- ===== src/Client/MapSequence/Order/Tests.antt =====
-- The steps of the unit test in map_response.rs, and instances of the theorems.
use myko.Base.{◌≡◌, refl, none, List, [], ◌∷◌, arith}
use myko.Client.MapSequence.{new, Event, deliver, epoch, handed_on}
use myko.Client.MapSequence.Order.{IsGapless, numbered, handed_on-IsGapless, handed_on_in_order}

abbrev events : List Event
events =
    deliver 0
    ∷ deliver 1
    ∷ deliver 1
    ∷ deliver 0
    ∷ deliver 2
    ∷ deliver 1
    ∷ epoch
    ∷ deliver 2
    ∷ deliver 0
    ∷ deliver 2
    ∷ deliver 1
    ∷ []

handed_on-events :
    handed_on new events
    ≡ deliver 0 ∷ deliver 1 ∷ deliver 0 ∷ deliver 1 ∷ epoch ∷ deliver 0 ∷ deliver 1 ∷ []
unfolding handed_on
handed_on-events = refl

handed_on-IsGapless_example : IsGapless none (handed_on new events)
handed_on-IsGapless_example = handed_on-IsGapless events

handed_on_in_order_example : handed_on new (numbered 0 4) ≡ numbered 0 4
handed_on_in_order_example = handed_on_in_order new 3 (omega arith)
