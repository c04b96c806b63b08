-- ===== src/Wire/QueryChanges/Reported.antt =====
-- What a diff of a keyed map reports.
use myko.Base.{◌≡◌, Bool, true, false, not, ◌&&◌, ◌||◌}
use myko.Base.{List, [], ◌∷◌}
use myko.Base.Key.{◌==◌}
use myko.Base.Text.{Str, str_key}
use myko.Base.Assoc
use myko.Base.Assoc.{Assoc, lookup-insert, lookup-remove}
use myko.Graph.Types.{AnyItem}
use myko.Client.QueryMap.{Items}
use myko.Wire.QueryChanges.{MapDiff, MapDiffs, initial, insert, update, remove, batch, no_diffs}
use myko.Wire.QueryChanges.{diff_then}

-- The map that a diff reports, made of the map before it: an initial report replaces the map.
unfoldable pub put_entries : List (Str × AnyItem) → Items → Items
unfolding Assoc.insert
put_entries [] m = m
put_entries ((key, item) ∷ entries) m = put_entries entries (Assoc.insert key item m)

unfoldable mutual
  unfolding put_entries Assoc.insert Assoc.remove

  pub apply_diff : MapDiff → Items → Items
  apply_diff (initial entries) m = put_entries entries []
  apply_diff (insert key value) m = Assoc.insert key value m
  apply_diff (update key new_value) m = Assoc.insert key new_value m
  apply_diff (remove key) m = Assoc.remove key m
  apply_diff (batch changes) m = apply_diffs changes m

  pub apply_diffs : MapDiffs → Items → Items
  apply_diffs no_diffs m = m
  apply_diffs (diff_then change changes) m = apply_diffs changes (apply_diff change m)

abbrev pub EntriesKeyed : List (Str × AnyItem) → Type 0
EntriesKeyed [] = Unit
EntriesKeyed ((key, item) ∷ entries) = (item.id ≡ key) × EntriesKeyed entries

-- Every item of a diff is reported under its id.
unfoldable mutual
  pub IsKeyed : MapDiff → Type 0
  IsKeyed (initial entries) = EntriesKeyed entries
  IsKeyed (insert key value) = value.id ≡ key
  IsKeyed (update key new_value) = new_value.id ≡ key
  IsKeyed (remove key) = Unit
  IsKeyed (batch changes) = AllKeyed changes

  pub AllKeyed : MapDiffs → Type 0
  AllKeyed no_diffs = Unit
  AllKeyed (diff_then change changes) = IsKeyed change × AllKeyed changes

-- A diff that reports changes, and no whole map.
unfoldable mutual
  pub IsIncremental : MapDiff → Type 0
  IsIncremental (initial entries) = ⊥
  IsIncremental (insert key value) = Unit
  IsIncremental (update key new_value) = Unit
  IsIncremental (remove key) = Unit
  IsIncremental (batch changes) = AllIncremental changes

  pub AllIncremental : MapDiffs → Type 0
  AllIncremental no_diffs = Unit
  AllIncremental (diff_then change changes) = IsIncremental change × AllIncremental changes

-- Whether a diff puts an item under an id, or removes the id.
unfoldable mutual
  pub puts : Str → MapDiff → Bool
  puts id (initial entries) = false
  puts id (insert key value) = key == id
  puts id (update key new_value) = key == id
  puts id (remove key) = false
  puts id (batch changes) = any_puts id changes

  pub any_puts : Str → MapDiffs → Bool
  any_puts id no_diffs = false
  any_puts id (diff_then change changes) = puts id change || any_puts id changes

unfoldable mutual
  pub removes : Str → MapDiff → Bool
  removes id (initial entries) = false
  removes id (insert key value) = false
  removes id (update key new_value) = false
  removes id (remove key) = key == id
  removes id (batch changes) = any_removes id changes

  pub any_removes : Str → MapDiffs → Bool
  any_removes id no_diffs = false
  any_removes id (diff_then change changes) = removes id change || any_removes id changes

-- No item that a batch puts under the id is removed again later in the batch.
unfoldable mutual
  unfolding puts removes

  pub lasts : Str → MapDiff → Bool
  lasts id (initial entries) = true
  lasts id (insert key value) = true
  lasts id (update key new_value) = true
  lasts id (remove key) = true
  lasts id (batch changes) = all_last id changes

  pub all_last : Str → MapDiffs → Bool
  all_last id no_diffs = true
  all_last id (diff_then change changes) =
      lasts id change && not (puts id change && any_removes id changes) && all_last id changes
