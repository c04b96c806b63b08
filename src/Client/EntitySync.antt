-- ===== src/Client/EntitySync.antt =====
-- The reconciler of libs/myko/core/src/client/entity_sync.rs: the events that bring the remote result
-- of a query to the local items. An event carries its item; its time and transaction are new values
-- that nothing here reads.
pub mod Reconciled
pub mod Tests
use myko.Base.{Bool, true, false, not, Option, none, some, is_none_or, List, [], ◌∷◌, ◌++◌}
use myko.Base.{if◌then◌else◌}
use myko.Base.Text.{Str, str_key}
use myko.Base.Assoc
use myko.Base.Assoc.{Assoc}

pub record EntityStoreSyncOptions : Type 0 where
  pub delete_stale_remote : Bool

abbrev pub default_options : EntityStoreSyncOptions
default_options = record { delete_stale_remote = true }

-- `MEvent` by its `MEventType`
pub data MEvent (T : Type 0) : Type 0 where
  set_event del_event : T → MEvent T

module _ {T : Type 0} (id_of : T → Str) where
  -- `collect` into a map: the last item of an id stays
  unfoldable pub index_from : List T → Assoc Str T → Assoc Str T
  unfolding Assoc.insert
  index_from [] indexed = indexed
  index_from (item ∷ items) indexed = index_from items (Assoc.insert (id_of item) item indexed)

  unfoldable pub index_items : List T → Assoc Str T
  unfolding index_from
  index_items items = index_from items []

module _ {T : Type 0} (items_equal : T → T → Bool) where
  abbrev pub should_set : T → Option T → Bool
  should_set local_item remote =
      is_none_or remote (λ remote_item. not (items_equal local_item remote_item))

  -- the loop over the local items
  unfoldable pub set_events : Assoc Str T → Assoc Str T → List (MEvent T)
  unfolding Assoc.lookup
  set_events [] remote = []
  set_events ((id, local_item) ∷ local) remote =
      let rest = set_events local remote in
      if should_set local_item (Assoc.lookup id remote) then set_event local_item ∷ rest else rest

  -- the loop over the remote items
  unfoldable pub del_events : Assoc Str T → Assoc Str T → List (MEvent T)
  unfolding Assoc.contains_key
  del_events [] local = []
  del_events ((id, remote_item) ∷ remote) local =
      let rest = del_events remote local in
      if not (Assoc.contains_key id local) then del_event remote_item ∷ rest else rest

  unfoldable pub reconcile : Assoc Str T → Assoc Str T → EntityStoreSyncOptions → List (MEvent T)
  unfolding set_events del_events
  reconcile local remote options =
      set_events local remote
      ++ (if options.delete_stale_remote then del_events remote local else [])

-- `sync_once`, as the batch that it sends
unfoldable pub sync_once :
    {T : Type 0}
    → (T → Str)
    → (T → T → Bool)
    → List T
    → List T
    → EntityStoreSyncOptions
    → List (MEvent T)
unfolding index_items reconcile
sync_once id_of items_equal local_items remote_items options =
    reconcile items_equal (index_items id_of local_items) (index_items id_of remote_items) options
