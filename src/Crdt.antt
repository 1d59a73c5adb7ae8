-- ===== src/Crdt.antt =====
-- internal/crdt/automerge.go and resolver.go: the wrapper round an Automerge document, and the
-- call of a conflict resolver. automerge-go and net/http are parameters.
pub mod Fold
use open_sync_crdt.Prelude.{
  ℕ, ◌+◌, String, Bytes, Bool, true, false, Option, none, some, List, [], ◌∷◌, ◌≡◌, ◌≢◌, ◌||◌, ltb,
  leb, if◌then◌else◌, Result, ok, err,
}

-- automerge-go. `load_incremental` changes the document in place, and says whether it succeeded.
pub record Automerge : Type 1 where
  pub Doc : Type 0
  pub new : Doc
  pub load : Bytes → Option Doc
  pub load_incremental : Doc → Bytes → Doc × Bool
  pub save : Doc → Bytes
  pub heads : Doc → List String

-- What Automerge documents of it: a saved document is read back as it was, a saved document is
-- never empty, and a change set that is refused leaves the document as it was.
pub record IsAutomerge (am : Automerge) : Type 0 where
  pub load-save : (d : am.Doc) → am.load (am.save d) ≡ some d
  pub save_nonempty : (d : am.Doc) → am.save d ≢ []
  pub refused :
      (d : am.Doc) (change : Bytes)
      → (am.load_incremental d change).1 ≡ false
      → (am.load_incremental d change).0 ≡ d

pub data CrdtError : Type 0 where
  load_failed apply_failed : CrdtError
  replay_failed : ℕ → CrdtError

module _ (am : Automerge) where
  unfoldable pub load : Bytes → Result CrdtError am.Doc
  load state = elim (am.load state) [ none ↦ err load_failed | some d ↦ ok d ]

  pub applied : Bool → Result CrdtError Unit
  applied true = ok tt
  applied false = err apply_failed

  -- The document is changed in place also where an error is returned.
  unfoldable pub apply : am.Doc → Bytes → Result CrdtError Unit × am.Doc
  unfolding applied
  apply d payload = let (d', done) = am.load_incremental d payload in (applied done, d')

  -- The loop of Rehydrate from index i on.
  unfoldable pub replay_ops : ℕ → am.Doc → List Bytes → Result CrdtError am.Doc
  replay_ops i d [] = ok d
  replay_ops i d (op ∷ ops) =
      let (d', done) = am.load_incremental d op in
      let rest = replay_ops (i + 1) d' ops in if done then rest else err (replay_failed i)

  replay_onto : List Bytes → Result CrdtError am.Doc → Result CrdtError am.Doc
  unfolding replay_ops
  replay_onto ops (err e) = err e
  replay_onto ops (ok d) = replay_ops 0 d ops

  unfoldable pub rehydrate : Bytes → List Bytes → Result CrdtError am.Doc
  unfolding replay_onto load
  rehydrate [] ops = replay_onto ops (ok am.new)
  rehydrate (b ∷ snapshot) ops = replay_onto ops (load (b ∷ snapshot))

-- The JSON body of a request to the resolver; base64 and the time stamp are left out.
pub record ResolveRequest : Type 0 where
  pub doc_id : String
  pub change_a : Bytes
  pub change_b : Bytes
  pub current_state : Bytes

-- The reply: its status, and `resolved_state` if the body and its base64 decode.
pub record ResolveReply : Type 0 where
  pub status : ℕ
  pub resolved_state : Option Bytes

pub data ResolveError : Type 0 where
  call_failed bad_status undecodable empty_state : ResolveError

-- The error's text, without the details that it wraps.
unfoldable pub resolve_message : ResolveError → String
resolve_message call_failed = "call resolver"
resolve_message bad_status = "resolver returned status"
resolve_message undecodable = "decode resolver response"
resolve_message empty_state = "resolver returned empty resolved_state"

-- A configured resolver: its URL, and the client's POST, which has no reply on a transport error
-- or a timeout.
pub record Resolver : Type 0 where
  pub url : String
  pub post : String → ResolveRequest → Option ResolveReply

resolved : Option Bytes → Result ResolveError Bytes
resolved none = err undecodable
resolved (some []) = err empty_state
resolved (some (b ∷ state)) = ok (b ∷ state)

unfoldable pub check_reply : Option ResolveReply → Result ResolveError Bytes
unfolding resolved
check_reply none = err call_failed
check_reply (some reply) =
    if ltb reply.status 200 || leb 300 reply.status
    then err bad_status
    else resolved reply.resolved_state

unfoldable pub resolve : Resolver → String → Bytes → Bytes → Bytes → Result ResolveError Bytes
unfolding check_reply
resolve r doc_id a b current =
    check_reply (
      r.post r.url
        (record { doc_id = doc_id; change_a = a; change_b = b; current_state = current }))
