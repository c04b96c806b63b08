-- ===== src/Client/EntitySync/Tests.antt =====
-- Two items on each side, one of them in common.
use myko.Base.{ℕ, ◌≡◌, Bool, List, [], ◌∷◌, eqb}
use myko.Base.Text.{Str, str, str_key}
use myko.Base.Assoc
use myko.Client.EntitySync.{default_options, sync_once, index_items}
use myko.Client.EntitySync.Reconciled.{apply_events, settled, sync_once-settles}

abbrev Named : Type 0
Named = Str × ℕ

abbrev name_of : Named → Str
name_of item = item.0

abbrev same_number : Named → Named → Bool
same_number x y = eqb x.1 y.1

abbrev here : List Named
here = (str "a", 1) ∷ (str "b", 2) ∷ []

abbrev there : List Named
there = (str "b", 3) ∷ (str "c", 4) ∷ []

sync_once-settles_example :
    Assoc.lookup (str "b") (
      apply_events name_of
        (sync_once name_of same_number here there default_options)
        (index_items name_of there))
    ≡ settled name_of same_number default_options
        (Assoc.lookup (str "b") (index_items name_of here))
        (Assoc.lookup (str "b") (index_items name_of there))
sync_once-settles_example =
    sync_once-settles name_of same_number (str "b") here there default_options
