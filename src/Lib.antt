-- ===== src/Lib.antt =====
-- OpenSyncCRDT is a server that stores Automerge change sets in an ordered log per document, keeps
-- the documents in memory, and sends every committed change to the document's other subscribers.
--
-- Parts and files. A connection's frames (internal/server/connection.go) go to the engine
-- (internal/sync), which merges a change set into the cached document (internal/crdt), appends it to
-- the log (internal/storage), takes a snapshot now and then, and broadcasts through the hub
-- (internal/server/hub.go) to the send queues of the connections. A subscriber first gets a replay of
-- what it has not seen.
--
-- Prelude       lists, numbers, maps and results that the rest shares.
-- Storage       internal/storage. Db has the three tables and one function for each SQL statement, with
--               the constraints of the schema; Sql has the database session, where any statement may
--               meet an outside failure, and transactions; Sqlite, Postgres and Mysql have the methods
--               of the three backends; Metadata the JSON column; Contract the interface `Store` as a
--               record with its contract over two views, the log and the newest snapshot of a document;
--               Backends the three backends as stores; History sequences of calls;
--               Migrations the versioned migrations of PostgreSQL, Migrations.Mysql those of MySQL,
--               which have no transaction; Opening how a backend is opened: the size of its pool, its
--               data source name, the handle that is pinged, migrated and closed where that fails.
-- Crdt          internal/crdt. automerge-go is the parameter `Automerge`, and what its documentation
--               says is `IsAutomerge`. The resolver's HTTP call is a parameter.
-- Protocol      pkg/protocol: messages and the codec over a parameter for encoding/json.
-- Sync          internal/sync: Submit, applyChange, state, loadDoc, Snapshot, Export, Forget; Sync.Replay
--               the replay in batches. The engine's `effects` are its calls of the emitter and the
--               broadcaster, in order. Sync.Interleave has state() in the segments between which
--               other goroutines run, as a step relation on the engine and the loads in flight.
-- Metrics       the counters of internal/metrics, the order of strings, and Metrics.Render the text.
-- Server        internal/server/hub.go and the state of a connection; Server.Connection its handlers;
--               Server.Loops a round of its write loop and of its pings; Server.Upgrade the reservation
--               of a slot in internal/server/server.go, Server.Origins its origin patterns;
--               Server.Connection.Run the runs of a server, Server.Connection.Joining a subscription
--               among concurrent submits, as step relations.
-- Cluster       internal/cluster: the fan-out of a committed operation to other nodes; Cluster.Channels
--               the channels that a node listens on, Cluster.Registry the registry of nodes,
--               Cluster.Membership how a node joins, beats and leaves; Cluster.Delivery the way of a change
--               from the engine of one node to the connections of another.
-- Config        internal/config: Config.Env and Config.Overlay the environment over the configuration,
--               with Config.Overlay.Table its effect as a table; Config.Events the URLs of the events;
--               Config.Validate the checks; Config.Load the whole.
-- Api           internal/api: the handlers for documents; Api.Access the routes, the key and the origins.
-- Embedding     pkg/engine: an engine put together from a configuration, what it holds, and its end.
-- Command       cmd/opensynccrdt: the command from the configuration to its exit, and its logger.
-- Auth          internal/auth: the three modes and the cache of the webhook mode.
-- Webhook       internal/webhook: retries of a delivery; Webhook.Requests the bodies and signatures.
-- Tests         runs at concrete inputs.
--
-- How code corresponds. A method that changes state is a function to its result and the next state; a
-- Go error is `err`, and the text of a wrapped error is kept up to what it wraps. The lock of a document
-- and the locks of the hub make their methods atomic, so a method is one step; what goroutines
-- interleave are whole methods, but for the load of a document, which holds no lock while it reads the
-- store and is taken apart in Sync.Interleave, and a subscription's
-- replay and a submit's broadcast, which are taken apart in Server.Connection.Joining. A sequence number is a natural number: it counts the stored
-- operations of one document, so it stays below 2 ^ 63. The positions that clients send are integers.
-- Times are natural numbers from a clock that a session or a caller gives. The loops of a replay and of a
-- delivery recurse on the rounds that are left, which the code computes before the loop, so no other
-- fuel is used.
--
-- What is not modelled: the drivers, net/url, the WebSocket itself, the Redis client, the HTTP server and
-- its handshakes, and the delivery of signals, which are I/O and parameters where the code relies on
-- them; the recovery from a panic in a handler; the text of log lines. A deletion that runs between a
-- Submit's look at the cache and its lock is not a step of Sync.Interleave. The texts of the
-- configuration are lists of code points; strings.ToLower and strings.EqualFold are modelled as far as
-- ASCII results go, which is what the code compares with.
pub mod Prelude
pub mod Storage
pub mod Protocol
pub mod Crdt
pub mod Sync
pub mod Metrics
pub mod Server
pub mod Cluster
pub mod Api
pub mod Config
pub mod Embedding
pub mod Command
pub mod Auth
pub mod Webhook
pub mod Tests
