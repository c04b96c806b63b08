-- ===== src/Wire/QueryChanges/Replayed.antt =====
-- What a client that takes a response comes to, against the change that the response reports.
use myko.Base.{
  Bool-cases, inl, inr, ℕ, ◌≡◌, ◌≢◌, refl, sym, ◌∙◌, ap, Bool, true, false, not, ◌&&◌, ◌||◌,
}
use myko.Base.{List, [], ◌∷◌, ◌++◌, arith}
use myko.Base.Key.{◌==◌}
use myko.Base.Text.{Str, str_key}
use myko.Base.Assoc
use myko.Base.Assoc.{Assoc, lookup-insert, lookup-remove}
use myko.Graph.Types.{AnyItem}
use myko.Client.QueryMap.{
  Items, insert_many, remove_many, apply_incremental_map_update, take_response,
}
use myko.Wire.QueryChanges.{MapDiff, MapDiffs, initial, insert, update, remove, batch, no_diffs}
use myko.Wire.QueryChanges.{diff_then, QueryChange, upsert, delete, window_order}
use myko.Wire.QueryChanges.{ErasedWrappedItem}
use myko.Wire.QueryChanges.{from_diff}
use myko.Wire.QueryChanges.{nothing_collected, QueryResponse}
use myko.Wire.QueryChanges.Reported.{
  put_entries, apply_diff, EntriesKeyed, IsKeyed, AllKeyed, IsIncremental, AllIncremental, puts,
  any_puts, removes, any_removes, lasts, all_last,
}
use myko.Wire.QueryChanges.Flat.{
  upserts_for, flat, flats, upserts_of, deletes_of, Pushed-collect, replay, apply_diff-flat,
}

-- whether the changes upsert, or delete, an id
abbrev upserts_id : Str → List QueryChange → Bool
upserts_id id [] = false
upserts_id id (upsert w ∷ changes) = (w.item.id == id) || upserts_id id changes
upserts_id id (delete _ ∷ changes) = upserts_id id changes
upserts_id id (window_order _ _ _ ∷ changes) = upserts_id id changes

abbrev deletes_id : Str → List QueryChange → Bool
deletes_id id [] = false
deletes_id id (upsert _ ∷ changes) = deletes_id id changes
deletes_id id (delete key ∷ changes) = (key == id) || deletes_id id changes
deletes_id id (window_order _ _ _ ∷ changes) = deletes_id id changes

-- no deletion of the id follows an upsert of it
abbrev holds_id : Str → List QueryChange → Bool
holds_id id [] = true
holds_id id (upsert w ∷ changes) =
    not ((w.item.id == id) && deletes_id id changes) && holds_id id changes
holds_id id (delete _ ∷ changes) = holds_id id changes
holds_id id (window_order _ _ _ ∷ changes) = holds_id id changes

upserts_id-append :
    (id : Str) (xs ys : List QueryChange)
    → upserts_id id (xs ++ ys) ≡ (upserts_id id xs || upserts_id id ys)
upserts_id-append id [] ys = refl
upserts_id-append id (upsert w ∷ xs) ys = ground (arith, upserts_id-append id xs ys)
upserts_id-append id (delete _ ∷ xs) ys = upserts_id-append id xs ys
upserts_id-append id (window_order _ _ _ ∷ xs) ys = upserts_id-append id xs ys

deletes_id-append :
    (id : Str) (xs ys : List QueryChange)
    → deletes_id id (xs ++ ys) ≡ (deletes_id id xs || deletes_id id ys)
deletes_id-append id [] ys = refl
deletes_id-append id (upsert w ∷ xs) ys = deletes_id-append id xs ys
deletes_id-append id (delete _ ∷ xs) ys = ground (arith, deletes_id-append id xs ys)
deletes_id-append id (window_order _ _ _ ∷ xs) ys = deletes_id-append id xs ys

holds_id-append :
    (id : Str) (xs ys : List QueryChange)
    → holds_id id (xs ++ ys)
      ≡ (holds_id id xs && not (upserts_id id xs && deletes_id id ys) && holds_id id ys)
holds_id-append id [] ys = ground arith
holds_id-append id (upsert w ∷ xs) ys =
    ground (arith, holds_id-append id xs ys, deletes_id-append id xs ys)
holds_id-append id (delete _ ∷ xs) ys = holds_id-append id xs ys
holds_id-append id (window_order _ _ _ ∷ xs) ys = holds_id-append id xs ys

-- What the changes of a diff do to an id is what the diff says.
Says : Str → List QueryChange → Bool → Bool → Bool → Type 0
Says id changes put removed last =
    (upserts_id id changes ≡ put) × (deletes_id id changes ≡ removed) × (holds_id id changes ≡ last)

mutual
  unfolding flat puts removes lasts IsKeyed IsIncremental Says

  flat-Says :
      (id : Str) (diff : MapDiff)
      → IsKeyed diff
      → IsIncremental diff
      → Says id (flat diff) (puts id diff) (removes id diff) (lasts id diff)
  flat-Says id (initial entries) k i = absurd i
  flat-Says id (insert key value) k i = (ground (arith, ap (λ j. j == id) k), refl, ground arith)
  flat-Says id (update key new_value) k i =
      (ground (arith, ap (λ j. j == id) k), refl, ground arith)
  flat-Says id (remove key) k i = (refl, ground arith, refl)
  flat-Says id (batch changes) k i = flats-Says id changes k i

  flats-Says :
      (id : Str) (diffs : MapDiffs)
      → AllKeyed diffs
      → AllIncremental diffs
      → Says id (flats diffs) (any_puts id diffs) (any_removes id diffs) (all_last id diffs)
  flats-Says id no_diffs k i = (refl, refl, refl)
  flats-Says id (diff_then change changes) k i =
      let (p, d, l) = flat-Says id change k.0 i.0 in
      let (p', d', l') = flats-Says id changes k.1 i.1 in
      (
        upserts_id-append id (flat change) (flats changes) ∙ rw (p, p') refl,
        deletes_id-append id (flat change) (flats changes) ∙ rw (d, d') refl,
        holds_id-append id (flat change) (flats changes) ∙ rw (p, d', l, l') (ground arith),
      )

abbrev SameAt : Str → Items → Items → Type 0
SameAt id m n = Assoc.lookup id m ≡ Assoc.lookup id n

insert_many-SameAt :
    (id : Str) (upserts : List ErasedWrappedItem) (m n : Items)
    → SameAt id m n
    → SameAt id (insert_many upserts m) (insert_many upserts n)
unfolding insert_many
insert_many-SameAt id [] m n h = h
insert_many-SameAt id (w ∷ upserts) m n h =
    insert_many-SameAt id upserts (Assoc.insert w.item.id w.item m)
      (Assoc.insert w.item.id w.item n)
      (ground (arith, h, lookup-insert w.item.id id w.item m, lookup-insert w.item.id id w.item n))

remove_many-SameAt :
    (id : Str) (deletes : List Str) (m n : Items)
    → SameAt id m n
    → SameAt id (remove_many deletes m) (remove_many deletes n)
unfolding remove_many
remove_many-SameAt id [] m n h = h
remove_many-SameAt id (key ∷ deletes) m n h =
    remove_many-SameAt id deletes (Assoc.remove key m) (Assoc.remove key n)
      (ground (arith, h, lookup-remove key id m, lookup-remove key id n))

remove_many_other :
    (id : Str) (changes : List QueryChange) (m : Items)
    → deletes_id id changes ≡ false
    → SameAt id (remove_many (deletes_of changes) m) m
unfolding remove_many
remove_many_other id [] m h = refl
remove_many_other id (upsert w ∷ changes) m h = remove_many_other id changes m h
remove_many_other id (delete key ∷ changes) m h =
    remove_many_other id changes (Assoc.remove key m) (ground (arith, h))
    ∙ lookup-remove key id m
    ∙ ground (arith, h)
remove_many_other id (window_order _ _ _ ∷ changes) m h = remove_many_other id changes m h

-- an upsert before or after the deletions of a batch that does not delete its id
insert_past_deletes :
    (id : Str) (w : ErasedWrappedItem) (changes : List QueryChange) (m : Items)
    → (w.item.id == id && deletes_id id changes) ≡ false
    → SameAt id
        (Assoc.insert w.item.id w.item (remove_many (deletes_of changes) m))
        (remove_many (deletes_of changes) (Assoc.insert w.item.id w.item m))
insert_past_deletes id w changes m h = elim (Bool-cases (w.item.id == id)) [
  | inl same ↦
      lookup-insert w.item.id id w.item (remove_many (deletes_of changes) m)
      ∙ rw same (sym (lookup-insert w.item.id id w.item m ∙ rw same refl))
      ∙ sym
          (remove_many_other id changes (Assoc.insert w.item.id w.item m) (ground (arith, same, h)))
  | inr other ↦
      lookup-insert w.item.id id w.item (remove_many (deletes_of changes) m)
      ∙ rw other (
          remove_many-SameAt id (deletes_of changes) m (Assoc.insert w.item.id w.item m)
            (sym (lookup-insert w.item.id id w.item m ∙ rw other refl)))
]

-- Deletions first and upserts after them, as the client takes them, against the changes in order.
update_map-replay :
    (id : Str) (changes : List QueryChange) (m : Items)
    → holds_id id changes ≡ true
    → SameAt id
        (apply_incremental_map_update (deletes_of changes) (upserts_of changes) m)
        (replay changes m)
unfolding apply_incremental_map_update remove_many insert_many
update_map-replay id [] m h = refl
update_map-replay id (upsert w ∷ changes) m h =
    insert_many-SameAt id (upserts_of changes)
      (Assoc.insert w.item.id w.item (remove_many (deletes_of changes) m))
      (remove_many (deletes_of changes) (Assoc.insert w.item.id w.item m))
      (insert_past_deletes id w changes m (ground (arith, h)))
    ∙ update_map-replay id changes (Assoc.insert w.item.id w.item m) (ground (arith, h))
update_map-replay id (delete key ∷ changes) m h =
    update_map-replay id changes (Assoc.remove key m) h
update_map-replay id (window_order _ _ _ ∷ changes) m h = update_map-replay id changes m h

insert_many-entries :
    (entries : List (Str × AnyItem)) (m : Items)
    → EntriesKeyed entries
    → insert_many (upserts_of (upserts_for entries)) m ≡ put_entries entries m
unfolding insert_many put_entries
insert_many-entries [] m k = refl
insert_many-entries ((key, item) ∷ entries) m k =
    insert_many-entries entries (Assoc.insert item.id item m) k.1
    ∙ ap (λ id. put_entries entries (Assoc.insert id item m)) k.0

response_lists :
    (diff : MapDiff) (tx : Str) (sequence : ℕ)
    → ((from_diff diff tx sequence).upserts ≡ upserts_of (flat diff))
      × ((from_diff diff tx sequence).deletes ≡ deletes_of (flat diff))
unfolding from_diff
response_lists diff tx sequence =
    let p = Pushed-collect diff nothing_collected in (p.all_upserts, p.all_deletes)

-- A whole map is announced with the sequence number zero, and changes with another one.
abbrev pub IsAnnounced : MapDiff → ℕ → Type 0
IsAnnounced (initial entries) sequence = sequence ≡ 0
IsAnnounced diff sequence = (sequence ≢ 0) × IsIncremental diff

taken_as_change :
    (response : QueryResponse) (m : Items)
    → response.sequence ≢ 0
    → take_response response m ≡ apply_incremental_map_update response.deletes response.upserts m
unfolding take_response
taken_as_change response m h = ground (arith, h)

taken_whole :
    (response : QueryResponse) (m : Items)
    → response.sequence ≡ 0
    → take_response response m ≡ insert_many response.upserts []
unfolding take_response
taken_whole response m h = ground (arith, h)

numbered_as :
    (diff : MapDiff) (tx : Str) (sequence : ℕ) → (from_diff diff tx sequence).sequence ≡ sequence
unfolding from_diff
numbered_as diff tx sequence = refl

incremental :
    (diff : MapDiff) (tx : Str) (sequence : ℕ) (m : Items) (id : Str)
    → IsKeyed diff
    → sequence ≢ 0
    → IsIncremental diff
    → lasts id diff ≡ true
    → SameAt id (take_response (from_diff diff tx sequence) m) (apply_diff diff m)
unfolding Says
incremental diff tx sequence m id k numbered i l =
    let (us, ds) = response_lists diff tx sequence in
    let (put, removed, last) = flat-Says id diff k i in
    ap (Assoc.lookup id) (
      taken_as_change (from_diff diff tx sequence) m
        (λ e. numbered (sym (numbered_as diff tx sequence) ∙ e))
      ∙ ap (λ d. apply_incremental_map_update d (from_diff diff tx sequence).upserts m) ds
      ∙ ap (λ u. apply_incremental_map_update (deletes_of (flat diff)) u m) us)
    ∙ update_map-replay id (flat diff) m (last ∙ l)
    ∙ ap (Assoc.lookup id) (sym (apply_diff-flat diff m k i))

-- A client that takes the response of a diff comes, under every id, to what the diff makes of its
-- map. Every item of the diff is reported under its id, a whole map is announced with the sequence
-- number zero and changes with another one, and in a batch, no item that is put under this id is
-- removed again later in the batch: the client takes the deletions of a batch before its upserts.
pub take_response-from_diff :
    (diff : MapDiff) (tx : Str) (sequence : ℕ) (m : Items) (id : Str)
    → IsKeyed diff
    → IsAnnounced diff sequence
    → lasts id diff ≡ true
    → Assoc.lookup id (take_response (from_diff diff tx sequence) m)
      ≡ Assoc.lookup id (apply_diff diff m)
unfolding IsKeyed apply_diff flat
take_response-from_diff (initial entries) tx sequence m id k n l =
    let (us, _) = response_lists (initial entries) tx sequence in
    ap (Assoc.lookup id) (
      taken_whole (from_diff (initial entries) tx sequence) m
        (numbered_as (initial entries) tx sequence ∙ n)
      ∙ ap (λ u. insert_many u []) us
      ∙ insert_many-entries entries [] k)
take_response-from_diff (insert key value) tx sequence m id k (n, i) l =
    incremental (insert key value) tx sequence m id k n i l
take_response-from_diff (update key new_value) tx sequence m id k (n, i) l =
    incremental (update key new_value) tx sequence m id k n i l
take_response-from_diff (remove key) tx sequence m id k (n, i) l =
    incremental (remove key) tx sequence m id k n i l
take_response-from_diff (batch changes) tx sequence m id k (n, i) l =
    incremental (batch changes) tx sequence m id k n i l
