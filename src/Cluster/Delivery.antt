-- ===== src/Cluster/Delivery.antt =====
-- A change from the node that commits it to the connections of another: the engine's broadcasts go
-- to Broadcast of internal/cluster/node.go, which gives them to the node's own hub and publishes
-- them, and receiveLoop of the other node gives them to that node's hub.
use open_sync_crdt.Prelude.{
  ℕ, String, Bytes, false, some, List, [], ◌∷◌, ◌++◌, ◌≡◌, ◌==◌, ok, if◌then◌else◌,
}
use open_sync_crdt.Protocol.{JsonFrames, new_server_sync}
use open_sync_crdt.Storage.Contract.{Store, Contract, Views}
use open_sync_crdt.Crdt.{Automerge}
use open_sync_crdt.Sync.{Engine, Options, Effect, emit, broadcast, submit}
use open_sync_crdt.Server
use open_sync_crdt.Server.{Hub, Conns, members, has_member, offer}
use open_sync_crdt.Cluster.{WireJson, NodeCall, local, publish, wire_msg, node_broadcast, receive}

module _ (json : JsonFrames) (wire : WireJson) where
  -- The calls of a node for the effects of its engine.
  unfoldable pub calls_of : String → List Effect → List NodeCall
  unfolding node_broadcast
  calls_of i [] = []
  calls_of i (emit name fields ∷ es) = calls_of i es
  calls_of i (broadcast id session msg ∷ es) = node_broadcast wire i id session msg ++ calls_of i es

  -- What the calls do to the node's own connections.
  unfoldable pub to_hub : List NodeCall → Hub → Conns → Conns
  to_hub [] h cs = cs
  to_hub (local id except msg ∷ calls) h cs =
      to_hub calls h (Server.broadcast json id except msg h cs)
  to_hub (publish id frame ∷ calls) h cs = to_hub calls h cs

  -- The frames that they publish, with their documents.
  unfoldable pub frames_of : List NodeCall → List (String × Bytes)
  frames_of [] = []
  frames_of (local id except msg ∷ calls) = frames_of calls
  frames_of (publish id frame ∷ calls) = (id, frame) ∷ frames_of calls

  -- The receive loop of a node for some frames, in order.
  unfoldable pub receive_all : String → List (String × Bytes) → Hub → Conns → Conns
  unfolding to_hub receive
  receive_all j [] h cs = cs
  receive_all j ((id, frame) ∷ frames) h cs =
      receive_all j frames h (to_hub (receive wire j frame) h cs)

  module _ (st : Store) (am : Automerge) (v : Views st.State) (law : Contract st v)
      (opts : Options) where
    module _ (i j id session user : String) (payload frame : Bytes) (n : ℕ) (e : Engine st am)
        (valid : v.IsValid e.store) (quiet : e.effects ≡ [])
        (accepted : (submit st am opts id session user payload e).0 ≡ ok n)
        (coded : wire.marshal (wire_msg wire i id (new_server_sync id session n payload))
          ≡ some frame)
        (read : wire.unmarshal frame
          ≡ some (wire_msg wire i id (new_server_sync id session n payload)))
        (other : (i == j) ≡ false) where
      abbrev calls : List NodeCall
      calls = calls_of i (submit st am opts id session user payload e).1.effects

      -- What is said of the calls.
      abbrev Delivers : Hub → Hub → Conns → Conns → ℕ → List NodeCall → Type 0
      Delivers h h' cs cs' k made =
          let offered = offer json id session (new_server_sync id session n payload) in
          let here = to_hub made h cs in
          (here k ≡ (if has_member k (members id h) then offered (cs k) else cs k))
          × (receive_all j (frames_of made) h' cs' k
              ≡ (if has_member k (members id h') then offered (cs' k) else cs' k))
          × (receive_all i (frames_of made) h here ≡ here)
