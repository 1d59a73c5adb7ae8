-- ===== src/Tests/Spreading.antt =====
-- A change that is committed on one node of a cluster and delivered on two.
use open_sync_crdt.Prelude.{some, none, List, [], ◌∷◌}
use open_sync_crdt.Protocol.{JsonFrames}
use open_sync_crdt.Storage.Backends.{sqlite}
use open_sync_crdt.Sync.{submit}
use open_sync_crdt.Server.{Hub, Conns, new_hub, new_conn, subscribe}
use open_sync_crdt.Cluster.{WireMsg, WireJson, NodeCall}
use open_sync_crdt.Cluster.Delivery.{calls_of}
use open_sync_crdt.Tests.Samples.{json, automerge, options, engine}

abbrev frames : JsonFrames
frames = record { marshal = λ m. some (1 ∷ []); unmarshal = λ b. none }

abbrev wire_message : WireMsg
wire_message = record { origin = "a"; doc_id = "d"; from_session = "s"; seq = 1; payload = 9 ∷ [] }

abbrev wire_json : WireJson
wire_json = record { marshal = λ m. some (1 ∷ []); unmarshal = λ b. some wire_message }

abbrev conns : Conns
conns k = new_conn "u"

-- The first connection of each node has subscribed.
abbrev hub : Hub
hub = subscribe "d" 1 new_hub

abbrev made : List NodeCall
made =
    calls_of frames wire_json "a"
      (submit (sqlite json) automerge options "d" "s" "u" (9 ∷ []) engine).1.effects
