-- ===== src/Wire/QueryChanges.antt =====
-- The response that a query's change becomes (libs/myko/core/src/wire/query.rs). `MapDiff` is the
-- reactive library's: what a keyed map reports of one change, or of several at once.
pub mod Reported
pub mod Flat
pub mod Replayed
pub mod Tests
use myko.Base.{ℕ, Option, none, some, List, [], ◌∷◌, ◌++◌}
use myko.Base.Text.{Str}
use myko.Graph.Types.{AnyItem}
use myko.Wire.Window.{QueryWindow}

mutual
  pub data MapDiff : Type 0 where
    initial : List (Str × AnyItem) → MapDiff
    insert update : Str → AnyItem → MapDiff
    remove : Str → MapDiff
    batch : MapDiffs → MapDiff

  pub data MapDiffs : Type 0 where
    no_diffs : MapDiffs
    diff_then : MapDiff → MapDiffs → MapDiffs

pub record ErasedWrappedItem : Type 0 where
  pub item : AnyItem
  pub item_type : Str

pub data QueryChange : Type 0 where
  upsert : ErasedWrappedItem → QueryChange
  delete : Str → QueryChange
  window_order : List Str → ℕ → Option QueryWindow → QueryChange

-- the three lists that the calls push to
pub record Collected : Type 0 where
  pub upserts : List ErasedWrappedItem
  pub deletes : List Str
  pub changes : List QueryChange

abbrev pub wrapped : AnyItem → ErasedWrappedItem
wrapped item = record { item = item; item_type = item.entity_type }

abbrev pub push_upsert : AnyItem → Collected → Collected
push_upsert item c = record {
  upserts = c.upserts ++ (wrapped item ∷ []);
  deletes = c.deletes;
  changes = c.changes ++ (upsert (wrapped item) ∷ []);
}

abbrev pub push_delete : Str → Collected → Collected
push_delete id c = record {
  upserts = c.upserts;
  deletes = c.deletes ++ (id ∷ []);
  changes = c.changes ++ (delete id ∷ []);
}

-- the loop over the entries of an initial report
unfoldable pub push_entries : List (Str × AnyItem) → Collected → Collected
push_entries [] c = c
push_entries ((_, item) ∷ entries) c = push_entries entries (push_upsert item c)

unfoldable mutual
  unfolding push_entries

  pub collect_query_change : MapDiff → Collected → Collected
  collect_query_change (initial entries) c = push_entries entries c
  collect_query_change (insert _ value) c = push_upsert value c
  collect_query_change (update _ new_value) c = push_upsert new_value c
  collect_query_change (remove key) c = push_delete key c
  collect_query_change (batch changes) c = collect_query_changes changes c

  pub collect_query_changes : MapDiffs → Collected → Collected
  collect_query_changes no_diffs c = c
  collect_query_changes (diff_then change changes) c =
      collect_query_changes changes (collect_query_change change c)

pub record QueryResponse : Type 0 where
  pub changes : List QueryChange
  pub deletes : List Str
  pub upserts : List ErasedWrappedItem
  pub sequence : ℕ
  pub tx : Str
  pub total_count : Option ℕ
  pub window : Option QueryWindow

abbrev pub nothing_collected : Collected
nothing_collected = record { upserts = []; deletes = []; changes = [] }

unfoldable pub from_diff : MapDiff → Str → ℕ → QueryResponse
unfolding collect_query_change
from_diff diff tx sequence =
    let c = collect_query_change diff nothing_collected in
    record {
      changes = c.changes;
      deletes = c.deletes;
      upserts = c.upserts;
      sequence = sequence;
      tx = tx;
      total_count = none;
      window = none;
    }
