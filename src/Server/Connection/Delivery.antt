-- ===== src/Server/Connection/Delivery.antt =====
-- `handleSync` in internal/server/connection.go through the engine and the hub: who gets a
-- committed change, and who is answered.
use open_sync_crdt.Prelude.{List, [], ◌∷◌}
use open_sync_crdt.Protocol.{JsonFrames}
use open_sync_crdt.Storage.Contract.{Store, Contract}
use open_sync_crdt.Crdt.{Automerge}
use open_sync_crdt.Sync.{Options, Effect, emit, broadcast}
use open_sync_crdt.Server
use open_sync_crdt.Server.{Hub, Conns}

module _ (st : Store) (am : Automerge) (opts : Options) (json : JsonFrames) where
  -- The broadcasts among some effects, one after the other.
  sends : List Effect → Hub → Conns → Conns
  sends [] h cs = cs
  sends (emit name fields ∷ es) h cs = sends es h cs
  sends (broadcast id session msg ∷ es) h cs =
      sends es h (Server.broadcast json id session msg h cs)
