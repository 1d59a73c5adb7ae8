-- ===== src/Tests/Connecting.antt =====
-- Runs of the connections of a server, and of a node's channels.
use open_sync_crdt.Prelude.{String, Bool, true, false, none, some, [], ◌∷◌, ◌==◌, if◌then◌else◌}
use open_sync_crdt.Prelude.Int.{pos}
use open_sync_crdt.Storage.Backends.{sqlite}
use open_sync_crdt.Metrics.{new_registry}
use open_sync_crdt.Server.{Hub, new_conn, new_hub, try_register, subscribe}
use open_sync_crdt.Server.Connection.{World, open_conn, read_frame}
use open_sync_crdt.Cluster.Channels.{Bus}
use open_sync_crdt.Cluster.Registry.{NodeInfo, InfoJson, SetKey}
use open_sync_crdt.Tests.Samples.{json, automerge, options, engine}
use open_sync_crdt.Protocol.{JsonFrames, Inbound, ServerSync, new_server_sync}

abbrev frames : JsonFrames
frames = record { marshal = λ m. some (1 ∷ []); unmarshal = λ b. none }

-- A server that nobody is connected to.
abbrev world : World (sqlite json) automerge
world = record {
  engine = engine;
  hub = new_hub;
  conns = λ k. new_conn "";
  metrics = new_registry;
  emitted = [];
}

-- A client has connected.
abbrev open_world : World (sqlite json) automerge
open_world =
    open_conn (sqlite json) automerge options frames 1 "u"
      (record world { hub = (try_register (pos 2) world.hub).1 })

-- It sends a frame that is no JSON, and goes.
abbrev read_world : World (sqlite json) automerge
read_world = read_frame (sqlite json) automerge options frames 1 (9 ∷ []) open_world

-- Connection 1 sends a change of a document that connection 2 holds.
abbrev asked : Inbound
asked = record { type = "sync"; doc_id = "d"; session_id = "s"; last_seq = pos 0; payload = 9 ∷ [] }

abbrev shared : World (sqlite json) automerge
shared = record world { hub = subscribe "d" 2 (subscribe "d" 1 new_hub) }

abbrev change : ServerSync
change = new_server_sync "d" "s" 1 (9 ∷ [])

-- A Redis that holds the channels listened on as a test on their names.
abbrev bus : Bus
bus = record {
  State = String → Bool;
  subscribe = λ c s. (true, λ d. if c == d then true else s d);
  unsubscribe = λ c s. (true, λ d. if c == d then false else s d);
  receives = λ c s. s c;
}

abbrev hub : Hub
hub = subscribe "d" 1 new_hub

abbrev info : NodeInfo
info = record { id = "a"; addr = "h:1"; started_at = "t" }

abbrev info_json : InfoJson
info_json = record { marshal = λ i. some (1 ∷ []); unmarshal = λ b. some info }

abbrev entry : SetKey
entry = record { key = "opensynccrdt:nodes:a"; value = 1 ∷ []; ttl = 30 }
