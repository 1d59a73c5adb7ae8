-- ===== src/Server/Connection/Run.antt =====
-- Every run of the server: connections come and go, their frames are read, their queues are
-- written, in any order (internal/server).
use open_sync_crdt.Prelude.{ℕ, ◌≡◌, refl, String, Bytes, Bool, true, false}
use open_sync_crdt.Prelude.Int.{ℤ}
use open_sync_crdt.Protocol.{Outbound, JsonFrames}
use open_sync_crdt.Storage.Contract.{Store}
use open_sync_crdt.Crdt.{Automerge}
use open_sync_crdt.Sync.{Options}
use open_sync_crdt.Server.{update, close, members, has_member, try_register, release}
use open_sync_crdt.Server.Upgrade.{IsWithin}
use open_sync_crdt.Server.Loops.{write_round, ping_round}
use open_sync_crdt.Server.Safe.{IsSafe, deregister-gone}
use open_sync_crdt.Server.Connection.{World, send, read_frame, end_conn, open_conn}

module _ (st : Store) (am : Automerge) (opts : Options) (json : JsonFrames) where
  -- In a safe server a connection that ends is in no document's set any more.
  pub end_conn-gone :
      (k : ℕ) (w : World st am) (d : String)
      → IsSafe w.hub w.conns
      → has_member k (members d (end_conn st am opts json k w).hub) ≡ false
  unfolding end_conn close
  end_conn-gone k w d safe = deregister-gone w.hub w.conns k d safe.listed

  send-active :
      (k : ℕ) (w : World st am) (msg : Outbound)
      → (send st am opts json k msg w).hub.active ≡ w.hub.active
  unfolding send
  send-active k w msg = refl

  module _ (max : ℤ) where
    -- A step of the server. A request for a connection that reserves a slot is refused later, or
    -- becomes the connection `k`, which is new: it is in no document's set.
    pub data Step : World st am → World st am → Type 0 where
      refused :
          (w : World st am)
          → (try_register max w.hub).0 ≡ true
          → Step w (record w { hub = release (try_register max w.hub).1 })
      connected :
          (w : World st am) (k : ℕ) (user : String)
          → (try_register max w.hub).0 ≡ true
          → ((d : String) → has_member k (members d w.hub) ≡ false)
          → Step w
              (open_conn st am opts json k user (record w { hub = (try_register max w.hub).1 }))
      read :
          (w : World st am) (k : ℕ) (frame : Bytes) → Step w (read_frame st am opts json k frame w)
      wrote :
          (w : World st am) (k : ℕ) (fails : Bool)
          → Step w (record w { conns = update w.conns k (write_round fails (w.conns k)) })
      pinged :
          (w : World st am) (k : ℕ) (interval : ℤ) (missed : Bool)
          → Step w (record w { conns = update w.conns k (ping_round interval missed (w.conns k)) })
      ended : (w : World st am) (k : ℕ) → Step w (end_conn st am opts json k w)

    pub data Reach (w : World st am) : World st am → Type 0 where
      here : Reach w w
      next : {u x : World st am} → Reach w u → Step u x → Reach w x

    -- The server is safe, and within the limit on connections.
    pub record IsRunning (w : World st am) : Type 0 where
      pub safe : IsSafe w.hub w.conns
      pub within : IsWithin max w.hub
