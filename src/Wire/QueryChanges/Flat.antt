-- ===== src/Wire/QueryChanges/Flat.antt =====
-- The changes that a response carries, and the lists of older clients.
use myko.Base.{◌≡◌, refl, sym, ◌∙◌, ap}
use myko.Base.{List, [], ◌∷◌, ◌++◌}
use myko.Base.Text.{Str, str_key}
use myko.Base.Assoc
use myko.Base.Assoc.{Assoc, lookup-insert, lookup-remove}
use myko.Graph.Types.{AnyItem}
use myko.Client.QueryMap.{Items}
use myko.Wire.QueryChanges.{MapDiff, MapDiffs, initial, insert, update, remove, batch, no_diffs}
use myko.Wire.QueryChanges.{diff_then, QueryChange, upsert, delete, window_order, wrapped}
use myko.Wire.QueryChanges.{ErasedWrappedItem, Collected, push_upsert, push_delete, push_entries}
use myko.Wire.QueryChanges.{collect_query_change, collect_query_changes}
use myko.Wire.QueryChanges.Reported.{
  apply_diff, apply_diffs, IsKeyed, AllKeyed, IsIncremental, AllIncremental,
}

-- the changes of a diff, in their order
abbrev pub upserts_for : List (Str × AnyItem) → List QueryChange
upserts_for [] = []
upserts_for ((_, item) ∷ entries) = upsert (wrapped item) ∷ upserts_for entries

unfoldable mutual
  pub flat : MapDiff → List QueryChange
  flat (initial entries) = upserts_for entries
  flat (insert _ value) = upsert (wrapped value) ∷ []
  flat (update _ new_value) = upsert (wrapped new_value) ∷ []
  flat (remove key) = delete key ∷ []
  flat (batch changes) = flats changes

  pub flats : MapDiffs → List QueryChange
  flats no_diffs = []
  flats (diff_then change changes) = flat change ++ flats changes

abbrev pub upserts_of : List QueryChange → List ErasedWrappedItem
upserts_of [] = []
upserts_of (upsert w ∷ changes) = w ∷ upserts_of changes
upserts_of (delete _ ∷ changes) = upserts_of changes
upserts_of (window_order _ _ _ ∷ changes) = upserts_of changes

abbrev pub deletes_of : List QueryChange → List Str
deletes_of [] = []
deletes_of (upsert _ ∷ changes) = deletes_of changes
deletes_of (delete id ∷ changes) = id ∷ deletes_of changes
deletes_of (window_order _ _ _ ∷ changes) = deletes_of changes

append_assoc : {A : Type 0} (xs ys zs : List A) → (xs ++ ys) ++ zs ≡ xs ++ (ys ++ zs)
append_assoc [] ys zs = refl
append_assoc (x ∷ xs) ys zs = ap (◌∷◌ x) (append_assoc xs ys zs)

append_nil : {A : Type 0} (xs : List A) → xs ++ [] ≡ xs
append_nil [] = refl
append_nil (x ∷ xs) = ap (◌∷◌ x) (append_nil xs)

upserts_of-append :
    (xs ys : List QueryChange) → upserts_of (xs ++ ys) ≡ upserts_of xs ++ upserts_of ys
upserts_of-append [] ys = refl
upserts_of-append (upsert w ∷ xs) ys = ap (◌∷◌ w) (upserts_of-append xs ys)
upserts_of-append (delete id ∷ xs) ys = upserts_of-append xs ys
upserts_of-append (window_order _ _ _ ∷ xs) ys = upserts_of-append xs ys

deletes_of-append :
    (xs ys : List QueryChange) → deletes_of (xs ++ ys) ≡ deletes_of xs ++ deletes_of ys
deletes_of-append [] ys = refl
deletes_of-append (upsert w ∷ xs) ys = deletes_of-append xs ys
deletes_of-append (delete id ∷ xs) ys = ap (◌∷◌ id) (deletes_of-append xs ys)
deletes_of-append (window_order _ _ _ ∷ xs) ys = deletes_of-append xs ys

-- what the calls push behind what was collected
pub record Pushed (c : Collected) (new : List QueryChange) (u : Collected) : Type 0 where
  pub all_changes : u.changes ≡ c.changes ++ new
  pub all_upserts : u.upserts ≡ c.upserts ++ upserts_of new
  pub all_deletes : u.deletes ≡ c.deletes ++ deletes_of new

pub Pushed-nothing : (c : Collected) → Pushed c [] c
Pushed-nothing c = record {
  all_changes = sym (append_nil c.changes);
  all_upserts = sym (append_nil c.upserts);
  all_deletes = sym (append_nil c.deletes);
}

pub Pushed-upsert :
    (item : AnyItem) (c : Collected) → Pushed c (upsert (wrapped item) ∷ []) (push_upsert item c)
Pushed-upsert item c = record {
  all_changes = refl;
  all_upserts = refl;
  all_deletes = sym (append_nil c.deletes);
}

pub Pushed-delete : (id : Str) (c : Collected) → Pushed c (delete id ∷ []) (push_delete id c)
Pushed-delete id c = record {
  all_changes = refl;
  all_upserts = sym (append_nil c.upserts);
  all_deletes = refl;
}

pub Pushed-append :
    (c d u : Collected) (xs ys : List QueryChange)
    → Pushed c xs d
    → Pushed d ys u
    → Pushed c (xs ++ ys) u
Pushed-append c d u xs ys p q = record {
  all_changes = q.all_changes ∙ ap (λ l. l ++ ys) p.all_changes ∙ append_assoc c.changes xs ys;
  all_upserts =
      q.all_upserts
      ∙ ap (λ l. l ++ upserts_of ys) p.all_upserts
      ∙ append_assoc c.upserts (upserts_of xs) (upserts_of ys)
      ∙ ap (λ l. c.upserts ++ l) (sym (upserts_of-append xs ys));
  all_deletes =
      q.all_deletes
      ∙ ap (λ l. l ++ deletes_of ys) p.all_deletes
      ∙ append_assoc c.deletes (deletes_of xs) (deletes_of ys)
      ∙ ap (λ l. c.deletes ++ l) (sym (deletes_of-append xs ys));
}

pub Pushed-push_entries :
    (entries : List (Str × AnyItem)) (c : Collected)
    → Pushed c (upserts_for entries) (push_entries entries c)
unfolding push_entries
Pushed-push_entries [] c = Pushed-nothing c
Pushed-push_entries ((_, item) ∷ entries) c =
    Pushed-append c (push_upsert item c) (push_entries entries (push_upsert item c))
      (upsert (wrapped item) ∷ []) (upserts_for entries) (Pushed-upsert item c)
      (Pushed-push_entries entries (push_upsert item c))

mutual
  unfolding collect_query_change flat

  pub Pushed-collect :
      (diff : MapDiff) (c : Collected) → Pushed c (flat diff) (collect_query_change diff c)
  Pushed-collect (initial entries) c = Pushed-push_entries entries c
  Pushed-collect (insert _ value) c = Pushed-upsert value c
  Pushed-collect (update _ new_value) c = Pushed-upsert new_value c
  Pushed-collect (remove key) c = Pushed-delete key c
  Pushed-collect (batch changes) c = Pushed-collect_all changes c

  Pushed-collect_all :
      (diffs : MapDiffs) (c : Collected) → Pushed c (flats diffs) (collect_query_changes diffs c)
  Pushed-collect_all no_diffs c = Pushed-nothing c
  Pushed-collect_all (diff_then change changes) c =
      Pushed-append c (collect_query_change change c)
        (collect_query_changes changes (collect_query_change change c)) (flat change)
        (flats changes) (Pushed-collect change c)
        (Pushed-collect_all changes (collect_query_change change c))

-- the changes applied one after another
abbrev pub replay_one : QueryChange → Items → Items
replay_one (upsert w) m = Assoc.insert w.item.id w.item m
replay_one (delete id) m = Assoc.remove id m
replay_one (window_order _ _ _) m = m

abbrev pub replay : List QueryChange → Items → Items
replay [] m = m
replay (change ∷ changes) m = replay changes (replay_one change m)

replay-append :
    (xs ys : List QueryChange) (m : Items) → replay (xs ++ ys) m ≡ replay ys (replay xs m)
replay-append [] ys m = refl
replay-append (x ∷ xs) ys m = replay-append xs ys (replay_one x m)

mutual
  unfolding apply_diff IsKeyed flat IsIncremental

  pub apply_diff-flat :
      (diff : MapDiff) (m : Items)
      → IsKeyed diff
      → IsIncremental diff
      → apply_diff diff m ≡ replay (flat diff) m
  apply_diff-flat (initial entries) m k i = absurd i
  apply_diff-flat (insert key value) m k i = ap (λ id. Assoc.insert id value m) (sym k)
  apply_diff-flat (update key new_value) m k i = ap (λ id. Assoc.insert id new_value m) (sym k)
  apply_diff-flat (remove key) m k i = refl
  apply_diff-flat (batch changes) m k i = apply_diffs-flats changes m k i

  apply_diffs-flats :
      (diffs : MapDiffs) (m : Items)
      → AllKeyed diffs
      → AllIncremental diffs
      → apply_diffs diffs m ≡ replay (flats diffs) m
  apply_diffs-flats no_diffs m k i = refl
  apply_diffs-flats (diff_then change changes) m k i =
      apply_diffs-flats changes (apply_diff change m) k.1 i.1
      ∙ ap (replay (flats changes)) (apply_diff-flat change m k.0 i.0)
      ∙ sym (replay-append (flat change) (flats changes) m)
