-- ===== src/Wire/QueryChanges/Tests.antt =====
-- A batch that removes an item and puts it back, and removes another one; and a whole map.
use myko.Base.{◌≡◌, refl, [], ◌∷◌, arith}
use myko.Base.Key.{nat_key}
use myko.Base.Text.{Str, str, str_key}
use myko.Base.Assoc
use myko.Graph.Types.{AnyItem}
use myko.Client.QueryMap.{Items, take_response}
use myko.Wire.QueryChanges.{MapDiff, initial, insert, remove, batch, no_diffs, diff_then, from_diff}
use myko.Wire.QueryChanges.Reported.{apply_diff, IsKeyed, IsIncremental, lasts, puts, removes}
use myko.Wire.QueryChanges.Replayed.{take_response-from_diff}

abbrev item : Str → AnyItem
item id = record { entity_type = str "task"; id = id; content = [] }

abbrev known : Items
known = (str "a", item (str "a")) ∷ (str "b", item (str "b")) ∷ []

abbrev change : MapDiff
change = batch (
    diff_then (remove (str "a"))
      (diff_then (insert (str "a") (item (str "a"))) (diff_then (remove (str "b")) no_diffs)))

whole_map :
    Assoc.lookup
      (str "b")
      (take_response (from_diff (initial ((str "a", item (str "a")) ∷ [])) (str "t") 0) known)
    ≡ Assoc.lookup (str "b") (apply_diff (initial ((str "a", item (str "a")) ∷ [])) known)
unfolding IsKeyed lasts
whole_map =
    take_response-from_diff (initial ((str "a", item (str "a")) ∷ [])) (str "t") 0 known (str "b")
      (refl, tt) refl refl

take_response-from_diff_example :
    Assoc.lookup (str "a") (take_response (from_diff change (str "t") 1) known)
    ≡ Assoc.lookup (str "a") (apply_diff change known)
unfolding IsKeyed IsIncremental lasts puts removes str_key
take_response-from_diff_example =
    take_response-from_diff change (str "t") 1 known (str "a") (tt, (refl, (tt, tt)))
      (λ e. absurd (omega (arith, e)), (tt, (tt, (tt, tt)))) refl
