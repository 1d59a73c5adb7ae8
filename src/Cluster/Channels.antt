-- ===== src/Cluster/Channels.antt =====
-- OnDocActive and OnDocInactive of internal/cluster/node.go: the Redis channels that a node listens
-- on, as the hub's notices open and close documents. Redis is a parameter.
use Prim.Native.String.{◌++◌}
use open_sync_crdt.Prelude.{
  String, Bool, true, false, List, [], ◌∷◌, ◌==◌, ◌&&◌, ◌≡◌, if◌then◌else◌,
}
use open_sync_crdt.Server.{Notice, doc_active, doc_inactive}

-- `redisBus`: a call tells whether it returned no error.
pub record Bus : Type 1 where
  pub State : Type 0
  pub subscribe : String → State → Bool × State
  pub unsubscribe : String → State → Bool × State
  pub receives : String → State → Bool

-- What Redis documents of a call that returns no error.
pub record IsBus (bus : Bus) : Type 0 where
  pub subscribed :
      (channel other : String) (s : bus.State)
      → (bus.subscribe channel s).0 ≡ true
      → bus.receives other (bus.subscribe channel s).1
        ≡ (if channel == other then true else bus.receives other s)
  pub unsubscribed :
      (channel other : String) (s : bus.State)
      → (bus.unsubscribe channel s).0 ≡ true
      → bus.receives other (bus.unsubscribe channel s).1
        ≡ (if channel == other then false else bus.receives other s)

unfoldable pub doc_channel : String → String
doc_channel doc_id = "opensynccrdt:doc:" ++ doc_id

unfoldable pub node_key : String → String
node_key node_id = "opensynccrdt:nodes:" ++ node_id

module _ (bus : Bus) where
  -- `OnDocActive`: an error is only logged.
  unfoldable pub on_doc_active : String → bus.State → Bool × bus.State
  unfolding doc_channel
  on_doc_active doc_id = bus.subscribe (doc_channel doc_id)

  -- `OnDocInactive`
  unfoldable pub on_doc_inactive : String → bus.State → Bool × bus.State
  unfolding doc_channel
  on_doc_inactive doc_id = bus.unsubscribe (doc_channel doc_id)

  -- The notices in their order; whether every call went well.
  unfoldable pub follow : List Notice → bus.State → Bool × bus.State
  unfolding on_doc_active on_doc_inactive
  follow [] s = (true, s)
  follow (doc_active d ∷ ns) s =
      let (fine, t) = on_doc_active d s in let (rest, u) = follow ns t in (fine && rest, u)
  follow (doc_inactive d ∷ ns) s =
      let (fine, t) = on_doc_inactive d s in let (rest, u) = follow ns t in (fine && rest, u)
