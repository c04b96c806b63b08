-- ===== src/Telemetry/WebsocketMetrics/Tests.antt =====
-- One connection, a few messages on it, and an export.
use myko.Base.{◌≡◌, refl, none, some, false, [], ◌∷◌, if◌then◌else◌, ◌&&◌}
use myko.Base.{saturating_add, arith}
use myko.Base.Key
use myko.Base.Key.{◌==◌, pair_key, option_key, nat_key}
use myko.Base.Text.{Str, str, str_key}
use myko.Base.Assoc
use myko.Telemetry.WebsocketMetrics.{Client, Registry, Labels, snapshot, acknowledge}
use myko.Telemetry.WebsocketMetrics.{record_message, count_for, bind_operation, take_operation}
use myko.Telemetry.WebsocketMetrics.{operation}
use myko.Telemetry.WebsocketMetrics.Counted.{Message, record_all, matching, tracked}
use myko.Telemetry.WebsocketMetrics.Counted.{tracked-record_all}
use myko.Telemetry.WebsocketMetrics.Acknowledged.{acknowledge_keeps_recorded}
use myko.Telemetry.WebsocketMetrics.Bindings.{take_operation-bind}

abbrev fresh : Client
fresh = record { started = 5; closed = false; revision = 0; counters = []; bindings = [] }

abbrev one_client : Registry
one_client = (str "c", fresh) ∷ []

abbrev query_in : Labels
query_in = (str "in", str "query")

abbrev message : Message
message = record {
  client_id = str "c";
  labels = query_in;
  operation = some (str "GetAll");
  bytes = some 10;
}

tracked-record_all_example :
    tracked
      (str "c")
      query_in
      (some (str "GetAll"))
      (record_all (message ∷ message ∷ []) one_client)
    ≡ saturating_add
        (tracked (str "c") query_in (some (str "GetAll")) one_client)
        (matching (str "c") query_in (some (str "GetAll")) (message ∷ message ∷ []))
unfolding str_key Key.list_key Key.cmp_list nat_key Assoc.lookup
tracked-record_all_example =
    tracked-record_all (str "c") query_in (some (str "GetAll")) (message ∷ message ∷ []) one_client
      refl (omega arith)

acknowledge_keeps_recorded_example :
    Assoc.lookup
      (str "c")
      (acknowledge (snapshot one_client) (record_message (str "c") query_in none none one_client))
    ≡ some (count_for query_in none none fresh)
unfolding str_key Key.list_key Key.cmp_list nat_key Assoc.lookup
acknowledge_keeps_recorded_example =
    acknowledge_keeps_recorded (str "c") query_in none none fresh one_client (tt, tt) refl
      (omega arith)

take_operation-bind_example :
    (take_operation
        (str "c")
        (str "query")
        (str "t")
        (bind_operation (str "c") (str "query") (str "t") (str "GetAll") one_client)).0
      ≡ some (str "GetAll")
    × ((c f t : Str)
        → operation c f t
            (take_operation
              (str "c")
              (str "query")
              (str "t")
              (bind_operation (str "c") (str "query") (str "t") (str "GetAll") one_client)).1
          ≡ (if str "c" == c && str "query" == f && str "t" == t
              then none
              else operation c f t one_client))
unfolding str_key Key.list_key Key.cmp_list nat_key Assoc.lookup
take_operation-bind_example =
    take_operation-bind (str "c") (str "query") (str "t") (str "GetAll") one_client refl
