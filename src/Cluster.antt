-- ===== src/Cluster.antt =====
-- internal/cluster/node.go: the fan-out of a committed operation to the other nodes. Redis and
-- encoding/json are parameters; what a node does is the list of its calls.
pub mod Channels
pub mod Registry
pub mod Membership
pub mod Delivery
use open_sync_crdt.Prelude.{
  ℕ, String, Bytes, Option, none, some, List, [], ◌∷◌, ◌≡◌, ◌==◌, if◌then◌else◌, arith,
}
use open_sync_crdt.Protocol.{ServerSync, new_server_sync}

-- `wireMsg`
pub record WireMsg : Type 0 where
  pub origin : String
  pub doc_id : String
  pub from_session : String
  pub seq : ℕ
  pub payload : Bytes

-- json.Marshal and json.Unmarshal at wireMsg.
pub record WireJson : Type 0 where
  pub marshal : WireMsg → Option Bytes
  pub unmarshal : Bytes → Option WireMsg

-- A call of the node's own hub, with the document and the session that is left out, or a publish on
-- the channel of a document.
pub data NodeCall : Type 0 where
  local : String → String → ServerSync → NodeCall
  publish : String → Bytes → NodeCall

module _ (json : WireJson) (id : String) where
  unfoldable pub wire_msg : String → ServerSync → WireMsg
  wire_msg doc_id msg = record {
    origin = id;
    doc_id = doc_id;
    from_session = msg.from_session;
    seq = msg.seq;
    payload = msg.payload;
  }

  published : String → Option Bytes → List NodeCall
  published doc_id none = []
  published doc_id (some frame) = publish doc_id frame ∷ []

  -- `Node.Broadcast`: a message that does not encode is only logged.
  unfoldable pub node_broadcast : String → String → ServerSync → List NodeCall
  unfolding published wire_msg
  node_broadcast doc_id except msg =
      local doc_id except msg ∷ published doc_id (json.marshal (wire_msg doc_id msg))

  delivered : Option WireMsg → List NodeCall
  unfolding new_server_sync
  delivered none = []
  delivered (some m) =
      if m.origin == id
      then []
      else local m.doc_id m.from_session (new_server_sync m.doc_id m.from_session m.seq m.payload)
        ∷ []

  -- One round of `receiveLoop`: a message that does not decode is only logged.
  unfoldable pub receive : Bytes → List NodeCall
  unfolding delivered
  receive frame = delivered (json.unmarshal frame)

-- Where the operation encodes and is read back as it was written: the node of the author
-- gives a committed operation to its own hub and publishes it once; a node that receives the
-- publish gives its hub the same message, with the same session left out, and the author's node,
-- which receives it too, gives its hub nothing more.
pub node_broadcast-receive :
    (json : WireJson) (i j doc_id session : String) (seq : ℕ) (payload frame : Bytes)
    → json.marshal (wire_msg json i doc_id (new_server_sync doc_id session seq payload))
      ≡ some frame
    → json.unmarshal frame
      ≡ some (wire_msg json i doc_id (new_server_sync doc_id session seq payload))
    → let msg = new_server_sync doc_id session seq payload in
      (node_broadcast json i doc_id session msg
        ≡ local doc_id session msg ∷ publish doc_id frame ∷ [])
      × (receive json j frame ≡ (if i == j then [] else local doc_id session msg ∷ []))
unfolding node_broadcast receive wire_msg new_server_sync
node_broadcast-receive json i j doc_id session seq payload frame coded read =
    (ground (arith, coded), ground (arith, read))
