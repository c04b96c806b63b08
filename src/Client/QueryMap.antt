-- ===== src/Client/QueryMap.antt =====
-- How a client's map of a query takes a response whose sequence number is accepted
-- (libs/myko/core/src/client/query_map.rs). The rows are decoded before, each under its id.
use myko.Base.{List, [], ◌∷◌, if◌then◌else◌, eqb}
use myko.Base.Text.{Str, str_key}
use myko.Base.Assoc
use myko.Base.Assoc.{Assoc}
use myko.Graph.Types.{AnyItem}
use myko.Wire.QueryChanges.{ErasedWrappedItem, QueryResponse}

abbrev pub Items : Type 0
Items = Assoc Str AnyItem

unfoldable pub insert_many : List ErasedWrappedItem → Items → Items
unfolding Assoc.insert
insert_many [] m = m
insert_many (w ∷ upserts) m = insert_many upserts (Assoc.insert w.item.id w.item m)

unfoldable pub remove_many : List Str → Items → Items
unfolding Assoc.remove
remove_many [] m = m
remove_many (id ∷ deletes) m = remove_many deletes (Assoc.remove id m)

unfoldable pub apply_incremental_map_update : List Str → List ErasedWrappedItem → Items → Items
unfolding remove_many insert_many
apply_incremental_map_update deletes upserts m = insert_many upserts (remove_many deletes m)

-- a response with sequence number zero replaces the map
unfoldable pub take_response : QueryResponse → Items → Items
unfolding apply_incremental_map_update insert_many
take_response response m =
    if eqb response.sequence 0
    then insert_many response.upserts []
    else apply_incremental_map_update response.deletes response.upserts m
