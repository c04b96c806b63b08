-- ===== src/Server/ViewDelivery/Merge.antt =====
-- What a response does to one id of the view it is delivered to, and that merging responses keeps it.
use myko.Base.{
  ◌≡◌, refl, sym, ap, ◌∙◌, Option, none, some, List, [], ◌∷◌, ◌++◌, arith, if◌then◌else◌,
}
use myko.Base.Key.{◌==◌}
use myko.Base.Text.{Str, str_key}
use myko.Base.Assoc
use myko.Base.Assoc.{Assoc}
use myko.Base.OrdMap
use myko.Base.OrdMap.{KeysAbove, KeysAscend}
use myko.Graph.Types.{AnyItem}
use myko.Server.ViewDelivery.{
  PendingQueryResponse, PendingDelta, insert_deletes, insert_upserts, merge, pending_of,
  push_changes, finish,
}
use mathlib.Core.List.{append-nil, append_assoc}
use myko.Base.{ℕ}

-- the item that a view holds under `id`, after deletes and after upserts
unfoldable pub delete_at : Str → List Str → Option AnyItem → Option AnyItem
delete_at id [] held = held
delete_at id (x ∷ xs) held = delete_at id xs (if x == id then none else held)

unfoldable pub upsert_at : Str → List AnyItem → Option AnyItem → Option AnyItem
upsert_at id [] held = held
upsert_at id (x ∷ xs) held = upsert_at id xs (if x.id == id then some x else held)

unfoldable pub settle_at : Str → PendingQueryResponse → Option AnyItem → Option AnyItem
settle_at id r held = upsert_at id r.upsert_items (delete_at id r.deletes held)

-- what the changes in a map do to the item held under their key
abbrev pub overlay : Option (Option AnyItem) → Option AnyItem → Option AnyItem
overlay none held = held
overlay (some change) held = change

overlay-insert_deletes :
    (id : Str) (ds : List Str) (m : Assoc Str (Option AnyItem)) (held : Option AnyItem)
    → overlay (Assoc.lookup id (insert_deletes ds m)) held
      ≡ delete_at id ds (overlay (Assoc.lookup id m) held)
unfolding insert_deletes delete_at
overlay-insert_deletes id [] m held = refl
overlay-insert_deletes id (d ∷ ds) m held = ground (
  arith,
  overlay-insert_deletes id ds (OrdMap.insert d none m) held,
  OrdMap.lookup-insert d id none m,
)

overlay-insert_upserts :
    (id : Str) (us : List AnyItem) (m : Assoc Str (Option AnyItem)) (held : Option AnyItem)
    → overlay (Assoc.lookup id (insert_upserts us m)) held
      ≡ upsert_at id us (overlay (Assoc.lookup id m) held)
unfolding insert_upserts upsert_at
overlay-insert_upserts id [] m held = refl
overlay-insert_upserts id (u ∷ us) m held = ground (
  arith,
  overlay-insert_upserts id us (OrdMap.insert u.id (some u) m) held,
  OrdMap.lookup-insert u.id id (some u) m,
)

-- A change to an item stands under the item's id.
abbrev Keyed : Assoc Str (Option AnyItem) → Type 0
Keyed [] = Unit
Keyed ((id, some item) ∷ m) = (item.id ≡ id) × Keyed m
Keyed ((id, none) ∷ m) = Keyed m

-- what holds of a delta between the calls
pub record IsDelta (p : PendingDelta) : Type 0 where
  pub drained_upserts : p.latest.upsert_items ≡ []
  pub drained_deletes : p.latest.deletes ≡ []
  pub ascending : KeysAscend p.changes
  pub keyed : Keyed p.changes

Keyed-insert_delete :
    (id : Str) (m : Assoc Str (Option AnyItem)) → Keyed m → Keyed (OrdMap.insert id none m)
unfolding OrdMap.insert
Keyed-insert_delete id [] h = tt
Keyed-insert_delete id ((j, none) ∷ m) h = ground (arith, Keyed-insert_delete id m h)
Keyed-insert_delete id ((j, some item) ∷ m) h = ground (arith, Keyed-insert_delete id m h.1)

Keyed-insert_upsert :
    (item : AnyItem) (m : Assoc Str (Option AnyItem))
    → Keyed m
    → Keyed (OrdMap.insert item.id (some item) m)
unfolding OrdMap.insert
Keyed-insert_upsert item [] h = (refl, tt)
Keyed-insert_upsert item ((j, none) ∷ m) h =
    ground (arith, Keyed-insert_upsert item m h, str_key.eq_of_cmp item.id j)
Keyed-insert_upsert item ((j, some other) ∷ m) h =
    ground (arith, Keyed-insert_upsert item m h.1, str_key.eq_of_cmp item.id j)

insert_deletes-keeps :
    (ds : List Str) (m : Assoc Str (Option AnyItem))
    → KeysAscend m
    → Keyed m
    → KeysAscend (insert_deletes ds m) × Keyed (insert_deletes ds m)
unfolding insert_deletes
insert_deletes-keeps [] m s h = (s, h)
insert_deletes-keeps (d ∷ ds) m s h =
    insert_deletes-keeps ds (OrdMap.insert d none m) (OrdMap.insert-KeysAscend d none m s)
      (Keyed-insert_delete d m h)

insert_upserts-keeps :
    (us : List AnyItem) (m : Assoc Str (Option AnyItem))
    → KeysAscend m
    → Keyed m
    → KeysAscend (insert_upserts us m) × Keyed (insert_upserts us m)
unfolding insert_upserts
insert_upserts-keeps [] m s h = (s, h)
insert_upserts-keeps (u ∷ us) m s h =
    insert_upserts-keeps us (OrdMap.insert u.id (some u) m)
      (OrdMap.insert-KeysAscend u.id (some u) m s) (Keyed-insert_upsert u m h)

pub merge-IsDelta :
    (p : PendingDelta) (r : PendingQueryResponse)
    → KeysAscend p.changes
    → Keyed p.changes
    → IsDelta (merge p r)
unfolding merge
merge-IsDelta p r s h =
    let (s', h') = insert_deletes-keeps r.deletes p.changes s h in
    let (s'', h'') =
      insert_upserts-keeps r.upsert_items (insert_deletes r.deletes p.changes) s' h' in
    record { drained_upserts = refl; drained_deletes = refl; ascending = s''; keyed = h'' }

pub pending_of-IsDelta : (r : PendingQueryResponse) → IsDelta (pending_of r)
unfolding pending_of
pending_of-IsDelta r = merge-IsDelta (record { latest = r; changes = [] }) r tt tt

-- the two lists that `finish` makes of the changes
abbrev upserts_of : Assoc Str (Option AnyItem) → List AnyItem
upserts_of [] = []
upserts_of ((id, some item) ∷ m) = item ∷ upserts_of m
upserts_of ((id, none) ∷ m) = upserts_of m

abbrev deletes_of : Assoc Str (Option AnyItem) → List Str
deletes_of [] = []
deletes_of ((id, some item) ∷ m) = deletes_of m
deletes_of ((id, none) ∷ m) = id ∷ deletes_of m

push_changes-lists :
    (m : Assoc Str (Option AnyItem)) (r : PendingQueryResponse)
    → ((push_changes m r).upsert_items ≡ r.upsert_items ++ upserts_of m)
      × ((push_changes m r).deletes ≡ r.deletes ++ deletes_of m)
unfolding push_changes
push_changes-lists [] r = (sym (append-nil r.upsert_items), sym (append-nil r.deletes))
push_changes-lists ((id, some item) ∷ m) r =
    let (u, d) = push_changes-lists m (record r { upsert_items = r.upsert_items ++ item ∷ [] }) in
    (u ∙ append_assoc r.upsert_items (item ∷ []) (upserts_of m), d)
push_changes-lists ((id, none) ∷ m) r =
    let (u, d) = push_changes-lists m (record r { deletes = r.deletes ++ id ∷ [] }) in
    (u, d ∙ append_assoc r.deletes (id ∷ []) (deletes_of m))

push_changes-sequence :
    (m : Assoc Str (Option AnyItem)) (r : PendingQueryResponse)
    → (push_changes m r).sequence ≡ r.sequence
unfolding push_changes
push_changes-sequence [] r = refl
push_changes-sequence ((id, some item) ∷ m) r =
    push_changes-sequence m (record r { upsert_items = r.upsert_items ++ item ∷ [] })
push_changes-sequence ((id, none) ∷ m) r =
    push_changes-sequence m (record r { deletes = r.deletes ++ id ∷ [] })

pub finish-sequence : (p : PendingDelta) (n : ℕ) → (finish p n).sequence ≡ n
unfolding finish
finish-sequence p n = push_changes-sequence p.changes (record p.latest { sequence = n })

untouched :
    (id : Str) (m : Assoc Str (Option AnyItem)) (held : Option AnyItem)
    → Keyed m
    → Assoc.lookup id m ≡ none
    → (upsert_at id (upserts_of m) held ≡ held) × (delete_at id (deletes_of m) held ≡ held)
unfolding upsert_at delete_at Assoc.lookup
untouched id [] held h e = (refl, refl)
untouched id ((j, none) ∷ m) held h e = ground (arith, untouched id m held h)
untouched id ((j, some item) ∷ m) held h e = ground (arith, untouched id m held h.1)

settle-lists :
    (id : Str) (m : Assoc Str (Option AnyItem)) (held : Option AnyItem)
    → KeysAscend m
    → Keyed m
    → upsert_at id (upserts_of m) (delete_at id (deletes_of m) held)
      ≡ overlay (Assoc.lookup id m) held
unfolding upsert_at delete_at Assoc.lookup
settle-lists id [] held s h = refl
settle-lists id ((j, none) ∷ m) held s h = ground (
  arith,
  str_key.eq_of_cmp j id,
  OrdMap.lookup-KeysAbove j m s.0,
  untouched id m none h,
  settle-lists id m held s.1 h,
  settle-lists id m none s.1 h,
)
settle-lists id ((j, some item) ∷ m) held s h = ground (
  arith,
  str_key.eq_of_cmp j id,
  OrdMap.lookup-KeysAbove j m s.0,
  untouched id m held h.1,
  untouched id m (some item) h.1,
  settle-lists id m held s.1 h.1,
)

-- The response made of a delta does to an id what the delta's change of that id says.
pub settle-finish :
    (id : Str) (p : PendingDelta) (n : ℕ) (held : Option AnyItem)
    → IsDelta p
    → settle_at id (finish p n) held ≡ overlay (Assoc.lookup id p.changes) held
unfolding settle_at finish
settle-finish id p n held v =
    let (u, d) = push_changes-lists p.changes (record p.latest { sequence = n }) in
    rw (u, d, v.drained_upserts, v.drained_deletes)
      (settle-lists id p.changes held v.ascending v.keyed)

pub merge-changes :
    (id : Str) (p : PendingDelta) (r : PendingQueryResponse) (held : Option AnyItem)
    → overlay (Assoc.lookup id (merge p r).changes) held
      ≡ settle_at id r (overlay (Assoc.lookup id p.changes) held)
unfolding merge settle_at
merge-changes id p r held =
    overlay-insert_upserts id r.upsert_items (insert_deletes r.deletes p.changes) held
    ∙ ap (upsert_at id r.upsert_items) (overlay-insert_deletes id r.deletes p.changes held)

-- A response merged into a well-formed delta does to every id what the delta and then the response
-- would do.
pub settle-merge :
    (id : Str) (p : PendingDelta) (r : PendingQueryResponse) (n m : ℕ) (held : Option AnyItem)
    → IsDelta p
    → settle_at id (finish (merge p r) n) held ≡ settle_at id r (settle_at id (finish p m) held)
settle-merge id p r n m held v =
    settle-finish id (merge p r) n held (merge-IsDelta p r v.ascending v.keyed)
    ∙ merge-changes id p r held
    ∙ sym (ap (settle_at id r) (settle-finish id p m held v))

-- A delta made of one response does to every id what the response does.
pub settle-pending_of :
    (id : Str) (r : PendingQueryResponse) (n : ℕ) (held : Option AnyItem)
    → settle_at id (finish (pending_of r) n) held ≡ settle_at id r held
unfolding pending_of Assoc.lookup
settle-pending_of id r n held =
    settle-finish id (pending_of r) n held (pending_of-IsDelta r)
    ∙ merge-changes id (record { latest = r; changes = [] }) r held
