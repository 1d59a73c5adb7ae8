-- ===== src/Server/Connection.antt =====
-- internal/server/connection.go: the handlers of a connection's frames, and its end. A step runs
-- one handler to its return, as the read loop of one connection does.
pub mod Safe
pub mod Run
pub mod Joining
pub mod Delivery
use open_sync_crdt.Prelude.{
  ℕ, String, Bytes, Bool, none, some, List, [], ◌∷◌, ◌++◌, ◌==◌, if◌then◌else◌, length, Result, ok,
  err,
}
use open_sync_crdt.Prelude.Map.{Map, lookup, insert, keys}
use open_sync_crdt.Protocol.{
  Inbound, Outbound, Replay, replay, error, ack, pong, JsonFrames, DecodeError, malformed,
  missing_type, decode, new_error, new_ack, new_pong, type_sync, type_subscribe, type_ping,
  code_bad_message, code_apply_failed, code_internal,
}
use open_sync_crdt.Storage.Contract.{Store}
use open_sync_crdt.Crdt.{Automerge}
use open_sync_crdt.Sync.{
  Engine, Options, EngineError, empty_doc_id, empty_payload, store_error, crdt_error, Effect, emit,
  broadcast, Field, text, nullable, submit, replay_batch,
}
use open_sync_crdt.Sync.Replay as ReplayLoop
use open_sync_crdt.Sync.Replay.{ReplayError}
use open_sync_crdt.Metrics.{
  Registry, connection_opened, connection_closed, operation, operation_error, replay_ops,
}
use open_sync_crdt.Server
use open_sync_crdt.Server.{
  Conn, Conns, Hub, new_conn, update, enqueue, enqueue_err, close, subscribe, deregister,
}

-- A webhook event that the server emits.
pub record Event : Type 0 where
  pub name : String
  pub fields : List (String × Field)

-- The text of an error, up to what it wraps.
unfoldable pub engine_message : EngineError → String
engine_message empty_doc_id = "submit: empty doc_id"
engine_message empty_payload = "submit: empty payload"
engine_message (store_error what x) = what
engine_message (crdt_error x) = "apply change set"

unfoldable pub decode_message : DecodeError → String
decode_message malformed = "decode inbound"
decode_message missing_type = "decode inbound: missing type"

module _ (st : Store) (am : Automerge) where
  -- The whole server: engine, hub, connections, metrics, and the webhook events emitted so far.
  pub record World : Type 0 where
    pub engine : Engine st am
    pub hub : Hub
    pub conns : Conns
    pub metrics : Registry
    pub emitted : List Event

module _ (st : Store) (am : Automerge) (opts : Options) (json : JsonFrames) where
  unfoldable pub send : ℕ → Outbound → World st am → World st am
  unfolding enqueue
  send k msg w = record w { conns = update w.conns k (enqueue json msg (w.conns k)) }

  fire : String → List (String × Field) → World st am → World st am
  fire name fields w = record w {
    emitted = w.emitted ++ record { name = name; fields = fields } ∷ [];
  }

  -- The calls that the engine made: webhooks, and broadcasts through the hub.
  perform : List Effect → World st am → World st am
  unfolding fire
  perform [] w = w
  perform (emit name fields ∷ es) w = perform es (fire name fields w)
  perform (broadcast id session msg ∷ es) w =
      perform es (record w { conns = Server.broadcast json id session msg w.hub w.conns })

  -- One batch: metrics first, then the queue.
  deliver : Replay → Conn × Registry → Bool × (Conn × Registry)
  unfolding enqueue_err replay_ops
  deliver batch (c, m) =
      let (fine, c') = enqueue_err json (replay batch) c in
      (fine, (c', replay_ops (length batch.ops) m))

  replayed : ℕ → Result ReplayError Unit → World st am → World st am
  unfolding send new_error
  replayed k (ok u) w = w
  replayed k (err x) w = send k (error (new_error code_internal "replay failed")) w

  -- The remote address is left out.
  connected_event : String → String → Conn → List (String × Field)
  unfolding nullable
  connected_event doc_id session_id c =
      ("doc_id", text doc_id)
      ∷ ("session_id", text session_id)
      ∷ ("user_id", nullable c.user_id)
      ∷ []

  replay_to : ℕ → Inbound → World st am → World st am
  unfolding deliver replayed ReplayLoop.replay replay_batch
  replay_to k m w =
      let (r, s, (c, reg)) =
        ReplayLoop.replay st (replay_batch opts.replay_batch_size) deliver m.doc_id m.last_seq
          w.engine.store (w.conns k, w.metrics) in
      replayed k r (record w {
        engine = record w.engine { store = s };
        conns = update w.conns k c;
        metrics = reg;
      })

  -- `c.subs[docID] = sessionID`
  set_sub : ℕ → String → String → World st am → World st am
  set_sub k doc_id session_id w = record w {
    conns =
        update w.conns k (record (w.conns k) { subs = insert doc_id session_id (w.conns k).subs });
  }

  unfoldable pub handle_subscribe : ℕ → Inbound → World st am → World st am
  unfolding send fire connected_event replay_to set_sub subscribe new_error
  handle_subscribe k m w =
      if m.doc_id == ""
      then send k (error (new_error code_bad_message "subscribe requires doc_id")) w
      else (let w1 = set_sub k m.doc_id m.session_id w in
          let w2 : World st am = record w1 { hub = subscribe m.doc_id k w1.hub } in
          replay_to k m
            (fire "on_client_connected" (connected_event m.doc_id m.session_id (w2.conns k)) w2))

  -- The session is remembered only where the document has none.
  unfoldable pub remember_session : ℕ → Inbound → World st am → World st am
  unfolding set_sub
  remember_session k m w = elim (lookup m.doc_id (w.conns k).subs) [
    | some s ↦ w
    | none ↦ set_sub k m.doc_id m.session_id w
  ]

  sync_error_event : Inbound → EngineError → List (String × Field)
  unfolding engine_message
  sync_error_event m x =
      ("doc_id", text m.doc_id)
      ∷ ("session_id", text m.session_id)
      ∷ ("error_code", text code_apply_failed)
      ∷ ("error_message", text (engine_message x))
      ∷ []

  submitted : ℕ → Inbound → Result EngineError ℕ → World st am → World st am
  unfolding send fire sync_error_event new_error new_ack operation operation_error engine_message
  submitted k m (err x) w = fire "on_sync_error" (sync_error_event m x) (
      send k (error (new_error code_apply_failed (engine_message x)))
        (record w { metrics = operation_error w.metrics }))
  submitted k m (ok seq) w =
      send k (ack (new_ack seq)) (record w { metrics = operation m.doc_id w.metrics })

  -- Submit makes its calls of the webhooks and the hub before it returns.
  unfoldable pub run_submit : ℕ → Inbound → World st am → Result EngineError ℕ × World st am
  unfolding perform submit
  run_submit k m w =
      let e : Engine st am = record w.engine { effects = [] } in
      let (r, e') = submit st am opts m.doc_id m.session_id (w.conns k).user_id m.payload e in
      (r, perform e'.effects (record w { engine = e' }))

  unfoldable pub handle_sync : ℕ → Inbound → World st am → World st am
  unfolding send remember_session run_submit submitted new_error
  handle_sync k m w =
      if m.doc_id == ""
      then send k (error (new_error code_bad_message "sync requires doc_id")) w
      else (let (r, w') = run_submit k m (remember_session k m w) in submitted k m r w')

  unfoldable pub handle : ℕ → Inbound → World st am → World st am
  unfolding handle_subscribe handle_sync send new_pong new_error
  handle k m w =
      if m.type == type_subscribe
      then handle_subscribe k m w
      else if m.type == type_sync
      then handle_sync k m w
      else if m.type == type_ping
      then send k (pong new_pong) w
      else send k (error (new_error code_bad_message "unknown message type")) w

  unfoldable pub decoded : ℕ → Result DecodeError Inbound → World st am → World st am
  unfolding handle send new_error decode_message
  decoded k (err x) w = send k (error (new_error code_bad_message (decode_message x))) w
  decoded k (ok m) w = handle k m w

  -- One round of the read loop: a frame that does not decode is answered and skipped.
  unfoldable pub read_frame : ℕ → Bytes → World st am → World st am
  unfolding decoded decode
  read_frame k frame w = decoded k (decode json frame) w

  -- The duration is left out.
  disconnected_events : Conn → Map String → List Event
  unfolding nullable
  disconnected_events c [] = []
  disconnected_events c ((doc_id, session_id) ∷ subs) =
      record {
        name = "on_client_disconnected";
        fields =
            ("doc_id", text doc_id)
            ∷ ("session_id", text session_id)
            ∷ ("user_id", nullable c.user_id)
            ∷ [];
      }
      ∷ disconnected_events c subs

  -- `serve` up to its loops: the slot is already reserved.
  unfoldable pub open_conn : ℕ → String → World st am → World st am
  unfolding connection_opened
  open_conn k user_id w = record w {
    conns = update w.conns k (new_conn user_id);
    metrics = connection_opened w.metrics;
  }

  -- `serve` after its read loop has returned.
  unfoldable pub end_conn : ℕ → World st am → World st am
  unfolding close deregister disconnected_events connection_closed keys
  end_conn k w =
      let c = close "" (w.conns k) in
      record w {
        conns = update w.conns k c;
        hub = deregister k (keys c.subs) w.hub;
        emitted = w.emitted ++ disconnected_events c c.subs;
        metrics = connection_closed w.metrics;
      }
