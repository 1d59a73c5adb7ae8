-- ===== src/Protocol.antt =====
-- pkg/protocol/messages.go and codec.go: the envelopes, their constructors and the choice of codec.
use open_sync_crdt.Prelude.{
  ℕ, String, Bytes, Bool, Option, none, some, List, [], ◌∷◌, ◌==◌, if◌then◌else◌, Result, ok, err,
}
use open_sync_crdt.Prelude.Int.{ℤ}

-- The discriminants: `Type` in the source.
abbrev pub type_sync : String
type_sync = "sync"

abbrev pub type_subscribe : String
type_subscribe = "subscribe"

abbrev pub type_ping : String
type_ping = "ping"

abbrev pub type_replay : String
type_replay = "replay"

abbrev pub type_ack : String
type_ack = "ack"

abbrev pub type_error : String
type_error = "error"

abbrev pub type_pong : String
type_pong = "pong"

abbrev pub code_bad_message : String
code_bad_message = "bad_message"

abbrev pub code_apply_failed : String
code_apply_failed = "apply_failed"

abbrev pub code_internal : String
code_internal = "internal"

-- The union of all client-to-server shapes; absent fields are empty or 0.
pub record Inbound : Type 0 where
  pub type : String
  pub doc_id : String
  pub session_id : String
  pub payload : Bytes
  pub last_seq : ℤ

pub record ServerSync : Type 0 where
  pub type : String
  pub doc_id : String
  pub from_session : String
  pub seq : ℕ
  pub payload : Bytes

pub record ReplayOp : Type 0 where
  pub seq : ℕ
  pub from_session : String
  pub payload : Bytes

pub record Replay : Type 0 where
  pub type : String
  pub doc_id : String
  pub ops : List ReplayOp
  pub batch_seq : ℕ
  pub total_batches : ℕ
  pub done : Bool

pub record Ack : Type 0 where
  pub type : String
  pub seq : ℕ

pub record ErrorMessage : Type 0 where
  pub type : String
  pub code : String
  pub message : String

pub record Pong : Type 0 where
  pub type : String

-- What the server sends: the argument of `Codec.Encode`.
pub data Outbound : Type 0 where
  server_sync : ServerSync → Outbound
  replay : Replay → Outbound
  ack : Ack → Outbound
  error : ErrorMessage → Outbound
  pong : Pong → Outbound

unfoldable pub new_server_sync : String → String → ℕ → Bytes → ServerSync
new_server_sync doc_id from_session seq payload = record {
  type = type_sync;
  doc_id = doc_id;
  from_session = from_session;
  seq = seq;
  payload = payload;
}

unfoldable pub new_replay : String → List ReplayOp → ℕ → ℕ → Bool → Replay
new_replay doc_id ops batch_seq total_batches done = record {
  type = type_replay;
  doc_id = doc_id;
  ops = ops;
  batch_seq = batch_seq;
  total_batches = total_batches;
  done = done;
}

unfoldable pub new_ack : ℕ → Ack
new_ack seq = record { type = type_ack; seq = seq }

unfoldable pub new_error : String → String → ErrorMessage
new_error code message = record { type = type_error; code = code; message = message }

unfoldable pub new_pong : Pong
new_pong = record { type = type_pong }

abbrev pub subprotocol_json : String
subprotocol_json = "opensync-json"

-- encoding/json at the envelopes: a parameter. `unmarshal` fills an `Inbound`.
pub record JsonFrames : Type 0 where
  pub unmarshal : Bytes → Option Inbound
  pub marshal : Outbound → Option Bytes

pub data DecodeError : Type 0 where
  malformed missing_type : DecodeError

require_type : Inbound → Result DecodeError Inbound
require_type m = if m.type == "" then err missing_type else ok m

unfoldable pub decode : JsonFrames → Bytes → Result DecodeError Inbound
unfolding require_type
decode json frame = elim (json.unmarshal frame) [ none ↦ err malformed | some m ↦ require_type m ]

unfoldable pub encode : JsonFrames → Outbound → Option Bytes
encode json msg = json.marshal msg

-- The subprotocol that the handshake echoes; the codec is the JSON one on every path.
unfoldable pub select_codec : List String → String
select_codec [] = ""
select_codec (p ∷ ps) =
    let rest = select_codec ps in if p == subprotocol_json then subprotocol_json else rest
