-- ===== src/Client/EntitySync/Reconciled.antt =====
-- What the remote result is after it has taken the events of a reconciliation.
use myko.Base.{◌≡◌, refl, sym, ◌∙◌, ap, Bool, not, ◌&&◌, Option, none, some}
use myko.Base.{List, [], ◌∷◌, ◌++◌, if◌then◌else◌, arith, Bool-cases, inl, inr}
use myko.Base.Key.{◌==◌, eq_of_==}
use myko.Base.Text.{Str, str_key}
use myko.Base.Assoc
use myko.Base.Assoc.{Assoc, lookup-insert, lookup-remove}
use myko.Client.EntitySync.{MEvent, set_event, del_event, EntityStoreSyncOptions, should_set}
use myko.Client.EntitySync.{set_events, del_events, reconcile, index_from, index_items, sync_once}

module _ {T : Type 0} (id_of : T → Str) where
  -- A map files each item once, under its id.
  abbrev pub IsKeyed : Assoc Str T → Type 0
  IsKeyed [] = Unit
  IsKeyed ((j, item) ∷ rest) = (id_of item ≡ j) × (Assoc.lookup j rest ≡ none) × IsKeyed rest

  abbrev pub apply_event : MEvent T → Assoc Str T → Assoc Str T
  apply_event (set_event item) m = Assoc.insert (id_of item) item m
  apply_event (del_event item) m = Assoc.remove (id_of item) m

  -- what a receiver makes of the events
  unfoldable pub apply_events : List (MEvent T) → Assoc Str T → Assoc Str T
  unfolding Assoc.insert Assoc.remove
  apply_events [] m = m
  apply_events (event ∷ events) m = apply_events events (apply_event event m)

  apply_events-append :
      (xs ys : List (MEvent T)) (m : Assoc Str T)
      → apply_events (xs ++ ys) m ≡ apply_events ys (apply_events xs m)
  unfolding apply_events
  apply_events-append [] ys m = refl
  apply_events-append (x ∷ xs) ys m = apply_events-append xs ys (apply_event x m)

  insert-IsKeyed :
      (item : T) (m : Assoc Str T) → IsKeyed m → IsKeyed (Assoc.insert (id_of item) item m)
  unfolding Assoc.insert Assoc.lookup
  insert-IsKeyed item [] k = (refl, refl, tt)
  insert-IsKeyed item ((j, other) ∷ m) k = elim (Bool-cases (j == id_of item)) [
    | inl e ↦ rw e (sym (eq_of_== j (id_of item) e), k.1, k.2)
    | inr e ↦ rw e (
      k.0,
      ground (
        arith,
        e,
        k.1,
        lookup-insert (id_of item) j item m,
        str_key.eq_of_cmp (id_of item) j,
        str_key.cmp_refl j,
      ),
      insert-IsKeyed item m k.2,
    )
  ]

  index_from-IsKeyed :
      (items : List T) (m : Assoc Str T) → IsKeyed m → IsKeyed (index_from id_of items m)
  unfolding index_from
  index_from-IsKeyed [] m k = k
  index_from-IsKeyed (item ∷ items) m k =
      index_from-IsKeyed items (Assoc.insert (id_of item) item m) (insert-IsKeyed item m k)

  pub index_items-IsKeyed : (items : List T) → IsKeyed (index_items id_of items)
  unfolding index_items
  index_items-IsKeyed items = index_from-IsKeyed items [] tt

  module _ (items_equal : T → T → Bool) where
    -- what a map has of an id once it has taken the writes, where the remote result had something
    abbrev pub written : Option T → Option T → Option T → Option T
    written none remote current = current
    written (some item) remote current =
        if should_set items_equal item remote then some item else current

    lookup-set_events :
        (p : Str) (local remote m : Assoc Str T)
        → IsKeyed local
        → Assoc.lookup p (apply_events (set_events items_equal local remote) m)
          ≡ written (Assoc.lookup p local) (Assoc.lookup p remote) (Assoc.lookup p m)
    unfolding set_events apply_events Assoc.lookup
    lookup-set_events p [] remote m k = refl
    lookup-set_events p ((j, item) ∷ local) remote m k =
        elim (Bool-cases (should_set items_equal item (Assoc.lookup j remote))) [
          | inl e ↦
              rw (e, set_events)
                (ground (
                  arith,
                  e,
                  k.0,
                  k.1,
                  lookup-set_events p local remote (Assoc.insert (id_of item) item m) k.2,
                  lookup-insert (id_of item) p item m,
                  str_key.eq_of_cmp j p,
                ))
          | inr e ↦
              rw (e, set_events)
                (ground
                  (arith, e, k.1, lookup-set_events p local remote m k.2, str_key.eq_of_cmp j p))
        ]

    lookup-del_events :
        (p : Str) (remote local m : Assoc Str T)
        → IsKeyed remote
        → Assoc.lookup p (apply_events (del_events items_equal remote local) m) ≡ (
            if not (Assoc.contains_key p local) && Assoc.contains_key p remote
            then none
            else Assoc.lookup p m)
    unfolding del_events apply_events Assoc.lookup Assoc.contains_key
    lookup-del_events p [] local m k = ground arith
    lookup-del_events p ((j, item) ∷ remote) local m k =
        elim (Bool-cases (Assoc.contains_key j local)) [
          | inl e ↦
              rw (e, del_events)
                (ground (arith, e, lookup-del_events p remote local m k.2, str_key.eq_of_cmp j p))
          | inr e ↦
              rw (e, del_events)
                (ground (
                  arith,
                  e,
                  k.0,
                  lookup-del_events p remote local (Assoc.remove (id_of item) m) k.2,
                  lookup-remove (id_of item) p m,
                  str_key.eq_of_cmp j p,
                ))
        ]

    -- What the remote result should come to for one id: the local item, unless the remote one is
    -- equal to it, and nothing in place of a stale item if those are to be deleted.
    abbrev pub settled : EntityStoreSyncOptions → Option T → Option T → Option T
    settled options (some item) none = some item
    settled options (some item) (some remote) =
        if items_equal item remote then some remote else some item
    settled options none remote = if options.delete_stale_remote then none else remote

    reconcile-settles :
        (p : Str) (local remote : Assoc Str T) (options : EntityStoreSyncOptions)
        → IsKeyed local
        → IsKeyed remote
        → Assoc.lookup p (apply_events (reconcile items_equal local remote options) remote)
          ≡ settled options (Assoc.lookup p local) (Assoc.lookup p remote)
    unfolding reconcile apply_events Assoc.contains_key
    reconcile-settles p local remote options kl kr =
        let sets = set_events items_equal local remote in
        let dels =
          if options.delete_stale_remote then del_events items_equal remote local else [] in
        ap (Assoc.lookup p) (apply_events-append sets dels remote)
        ∙ elim (Bool-cases options.delete_stale_remote) [
          | inl e ↦ rw e (
              ground (
                arith,
                e,
                lookup-del_events p remote local (apply_events sets remote) kr,
                lookup-set_events p local remote remote kl,
              ))
          | inr e ↦
              rw (e, apply_events) (ground (arith, e, lookup-set_events p local remote remote kl))
        ]

    -- When the remote result has taken the events of a synchronisation, it has under every id the
    -- local item, or the remote one where the two were equal; an id that no local item has is gone
    -- if stale items are deleted, and untouched otherwise.
    pub sync_once-settles :
        (p : Str) (local_items remote_items : List T) (options : EntityStoreSyncOptions)
        → Assoc.lookup p (
            apply_events
              (sync_once id_of items_equal local_items remote_items options)
              (index_items id_of remote_items))
          ≡ settled options
              (Assoc.lookup p (index_items id_of local_items))
              (Assoc.lookup p (index_items id_of remote_items))
    unfolding sync_once
    sync_once-settles p local_items remote_items options =
        reconcile-settles p (index_items id_of local_items) (index_items id_of remote_items) options
          (index_items-IsKeyed local_items) (index_items-IsKeyed remote_items)
