-- ===== src/Lib.antt =====
-- A model of the core logic of myko: an entity store with a typed edge graph beside it, whose
-- clients subscribe to queries, views and reports over a socket.
--
-- Parts, and where they are modelled:
--   Base            what the sources use of Rust's standard library: ordered keys (`Key`), hash and
--                   tree maps (`Assoc`, read through `lookup`), `BTreeSet` (`OrdSet`, an ascending
--                   list), `str` as its bytes (`Text`), slices and saturating `u64` arithmetic
--   Wire.Window     libs/myko/core/src/wire/query.rs: offset windows and cursor windows
--   Client.MapSequence  libs/myko/core/src/client/map_response.rs: the sequence check of a map
--                   subscription, with the connection epochs between responses
--   Graph           libs/myko/core/src/core/graph.rs. `EdgeIds` is the bucket of edge ids of a
--                   projection. `Incidence` is a map of buckets (`insert_incidence` and the removal
--                   in `remove_indexed`). `Index` is `GraphIndex` with `apply`, which takes an old
--                   edge out of the adjacency, entity and pair projections of its type and puts the
--                   new one in. `Between` is `indexed_ids_between`, which reads two of the
--                   projections. `Preflight` holds the checks of an edge before it is applied
--                   (`preflight`, `preflight_batch`, `preflight_replace_batch`). `Traversal` is
--                   `run_bounded_traversal`. `WatchRouter` is `GraphWatchRouter`, which calls the
--                   subscriptions that watch one of the routes of a change, and `Publish` is
--                   `publish_watch_change`, which computes these routes. `DeletePlan` is
--                   `endpoint_delete_plan`, which reads the entity projections and the stores,
--                   and `Rebuild` is `rebuild`, which applies every stored edge to an empty index
--   Query.Filter    libs/myko/core/src/core/query/filter.rs: the filters of a field. `Numeric` takes
--                   any partial order with the laws of `PartialOrd`, so floats too, and
--                   `slice::sort_by` as a parameter that permutes its list, since nothing more is
--                   promised of it where the order is not total
--   Search.Interner libs/myko/core/src/search/typed/interner.rs: slots for ids
--   Server.ViewDelivery  libs/myko/server/src/view_sampling.rs: the sampled delivery of view
--                   responses. `push_to` and `take_from` are what `push` and `take_due` do to the
--                   subscription they find; `Stream` runs one subscription over pushes and timer
--                   events, and `Numbers` feeds what it emits to the client's sequence check
--   Server.PersistHealth  libs/myko/core/src/server/persister.rs: the health counters of a persister,
--                   with wrapping atomic arithmetic, and the choice of a persister by entity type
--   Server.Relationships  libs/myko/core/src/server/relationship_manager.rs: `Tables` is the
--                   registration of relations and `Cycle` the search that rejects a cyclic
--                   `ensure_for` schema; `ReverseIndex` finds the children of a parent,
--                   `Combinations` and `Ensure` create derived items, `Cascade` follows a deletion,
--                   and `Manager` is what `forward_set`, `forward_del`, their batches and
--                   `establish_relations` do. `World` is the state that they share
--   Telemetry.WebsocketMetrics  libs/myko/telemetry/src/websocket_metrics.rs: the message counts of
--                   connections, their export, and the operations bound to transactions
--   Client.EntitySync  libs/myko/core/src/client/entity_sync.rs: `sync_once` and `reconcile`
--   Client.QueryMap  libs/myko/core/src/client/query_map.rs: what an accepted response does to a map
--   Wire.QueryChanges  libs/myko/core/src/wire/query.rs: `QueryResponse::from_diff`, a public
--                   constructor of the responses that a client takes; the repository's own
--                   sessions build theirs without it
--
-- How the parts interact: the server validates an edge with `preflight`, reduces it, and then calls
-- `apply`; `preflight` reads the pair projection that `apply` maintains. Both are stated against the
-- canonical edges, a function from an edge type and an id to the edge, of which the projections keep
-- what they need (`Index.Represents`, `Index.Faithful`). Windows are cut from a bucket by `EdgeIds`.
--
-- Conventions: locks only serialise the methods, so a method takes the state and returns the new one.
-- `u64` counters saturate or wrap as in the source. Items are records of a type, an id and a content that only
-- the extractors read; the extractors, validators and the registry, which macros generate, are fields
-- of `EdgeRegistration` and `GraphIndex`. Hash maps are association lists, read
-- through `lookup`, and hash sets ascending lists. Where the source iterates over one, its order is
-- free, and the model takes the order of the list.
--
-- Fuel: `Traversal.loop` runs on `max_nodes + 2` rounds. Each round takes a node off the queue, and
-- only new nodes are put on it, of which there are at most `max_nodes`. `traversal_path` follows at
-- most as many predecessors as there are visited nodes.
--
-- `Relationships.Cycle.visit` runs on one level of fuel more than the graph has nodes: each nested
-- call enters a node that none of the calls around it has entered, and only the nodes of the graph
-- have dependents.
--
-- The relation handlers publish through the server context, which applies an event and then runs the
-- handlers again. The publications are a parameter of the handlers (`World.Publisher`), and a theorem
-- that needs something of them has it as a hypothesis.
--
-- Not modelled: the reactive cells and subscriptions, sockets and storage, the macros and the
-- generated code, the bindings for other languages, the publication of batches of graph changes, the
-- export format of the metrics, and the read methods of the graph index other than the pair lookup.
pub mod Base
pub mod Wire
pub mod Client
pub mod Server
pub mod Graph
pub mod Query
pub mod Search
pub mod Telemetry
