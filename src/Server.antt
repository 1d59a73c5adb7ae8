-- ===== src/Server.antt =====
-- internal/server/hub.go and the connection state of internal/server/connection.go: who is
-- subscribed to which document, and the bounded send queue of each connection.
pub mod Connection
pub mod Fanout
pub mod Safe
pub mod Loops
pub mod Rooms
pub mod Upgrade
pub mod Origins
use open_sync_crdt.Prelude.{
  ℕ, zero, suc, ◌+◌, ◌-◌, String, Bytes, Bool, true, false, ◌&&◌, Option, none, some, List, [], ◌∷◌,
  ◌++◌, ◌==◌, eqb, leb, ltb, if◌then◌else◌, length, any_of, select,
}
use open_sync_crdt.Prelude.Int.{ℤ, pos, negsuc}
use open_sync_crdt.Prelude.Map.{Map, lookup, insert, erase, keys}
use open_sync_crdt.Protocol.{Outbound, ServerSync, server_sync, JsonFrames, encode}

unfoldable pub send_queue_size : ℕ
send_queue_size = 256

-- `user_id` is the identity's; `closed` has the reason of the first close.
pub record Conn : Type 0 where
  pub user_id : String
  pub subs : Map String
  pub queue : List Bytes
  pub closed : Option String

-- `newConn`
abbrev pub new_conn : String → Conn
new_conn user_id = record { user_id = user_id; subs = []; queue = []; closed = none }

-- `closeOnce`: only the first close has an effect.
unfoldable pub close_with : String → Option String → Option String
close_with reason none = some reason
close_with reason (some r) = some r

unfoldable pub close : String → Conn → Conn
unfolding close_with
close reason c = record c { closed = close_with reason c.closed }

-- The value of `c.subs[docID]`, "" for an absent key.
unfoldable pub or_empty : Option String → String
or_empty none = ""
or_empty (some s) = s

unfoldable pub session_for : String → Conn → String
unfolding or_empty
session_for doc_id c = or_empty (lookup doc_id c.subs)

module _ (json : JsonFrames) where
  unfoldable pub push_open : Bytes → Conn → Bool × Conn
  unfolding close send_queue_size
  push_open frame c =
      if ltb (length c.queue) send_queue_size
      then (true, record c { queue = c.queue ++ frame ∷ [] })
      else (false, close "send queue full" c)

  unfoldable pub push_frame : Bytes → Conn → Bool × Conn
  unfolding push_open
  push_frame frame c = elim c.closed [ some r ↦ (true, c) | none ↦ push_open frame c ]

  -- `enqueueErr`: true where the source returns nil. Where the connection is closed and its queue
  -- has room Go's select may also queue the frame, which nobody writes any more.
  unfoldable pub enqueue_err : Outbound → Conn → Bool × Conn
  unfolding push_frame encode
  enqueue_err msg c = elim (encode json msg) [ none ↦ (false, c) | some frame ↦ push_frame frame c ]

  unfoldable pub enqueue : Outbound → Conn → Conn
  unfolding enqueue_err
  enqueue msg c = (enqueue_err msg c).1

-- A call of the observer.
pub data Notice : Type 0 where
  doc_active doc_inactive : String → Notice

-- Connections are known by numbers, which stand for their addresses. `notices` are the calls of the
-- observer so far.
pub record Hub : Type 0 where
  pub docs : Map (List ℕ)
  pub active : ℕ
  pub notices : List Notice

abbrev pub new_hub : Hub
new_hub = record { docs = []; active = 0; notices = [] }

-- `max > 0 && h.active >= max`
unfoldable pub at_limit : ℤ → ℕ → Bool
at_limit (pos zero) n = false
at_limit (pos (suc m)) n = leb (suc m) n
at_limit (negsuc m) n = false

unfoldable pub try_register : ℤ → Hub → Bool × Hub
unfolding at_limit
try_register max h =
    if at_limit max h.active then (false, h) else (true, record h { active = h.active + 1 })

-- `if h.active > 0 { h.active-- }`: subtraction stops at 0.
unfoldable pub release : Hub → Hub
release h = record h { active = h.active - 1 }

abbrev pub has_member : ℕ → List ℕ → Bool
has_member c = any_of (λ k. eqb k c)

unfoldable pub add_member : ℕ → List ℕ → List ℕ
add_member c set = if has_member c set then set else set ++ c ∷ []

abbrev pub not_member : ℕ → ℕ → Bool
not_member c k = if eqb k c then false else true

unfoldable pub remove_member : ℕ → List ℕ → List ℕ
remove_member c set = select (not_member c) set

unfoldable pub subscribe : String → ℕ → Hub → Hub
unfolding add_member
subscribe doc_id c h = elim (lookup doc_id h.docs) [
  | some set ↦ record h { docs = insert doc_id (add_member c set) h.docs }
  | none ↦ record h {
    docs = insert doc_id (c ∷ []) h.docs;
    notices = h.notices ++ doc_active doc_id ∷ [];
  }
]

keep_rest : String → List ℕ → Map (List ℕ) → Map (List ℕ) × List Notice
keep_rest doc_id [] docs = (erase doc_id docs, doc_inactive doc_id ∷ [])
keep_rest doc_id (k ∷ ks) docs = (insert doc_id (k ∷ ks) docs, [])

-- One document of the loop in `deregister`: the documents, and what goes into `emptied`.
unfoldable pub leave : ℕ → String → Map (List ℕ) → Map (List ℕ) × List Notice
unfolding remove_member keep_rest
leave c doc_id docs = elim (lookup doc_id docs) [
  | none ↦ (docs, [])
  | some set ↦ keep_rest doc_id (remove_member c set) docs
]

unfoldable pub leave_all : ℕ → List String → Map (List ℕ) → Map (List ℕ) × List Notice
unfolding leave
leave_all c [] docs = (docs, [])
leave_all c (d ∷ ds) docs =
    let (docs', n) = leave c d docs in let (docs'', ns) = leave_all c ds docs' in (docs'', n ++ ns)

-- `subscriptions` are the documents in the connection's `subs`.
unfoldable pub deregister : ℕ → List String → Hub → Hub
unfolding leave_all
deregister c subscriptions h =
    let (docs, notices) = leave_all c subscriptions h.docs in
    record { docs = docs; active = h.active - 1; notices = h.notices ++ notices }

abbrev pub Conns : Type 0
Conns = ℕ → Conn

abbrev pub update : Conns → ℕ → Conn → Conns
update cs k c j = if eqb k j then c else cs j

-- The subscribers of a document.
unfoldable pub members : String → Hub → List ℕ
members doc_id h = elim (lookup doc_id h.docs) [ none ↦ [] | some set ↦ set ]

module _ (json : JsonFrames) (doc_id except : String) (msg : ServerSync) where
  -- What Broadcast does to one target.
  unfoldable pub offer : Conn → Conn
  unfolding session_for enqueue
  offer c = if session_for doc_id c == except then c else enqueue json (server_sync msg) c

  unfoldable pub offer_all : List ℕ → Conns → Conns
  offer_all [] cs = cs
  offer_all (k ∷ ks) cs = offer_all ks (update cs k (offer (cs k)))

  -- `hub.Broadcast`
  unfoldable pub broadcast : Hub → Conns → Conns
  unfolding offer_all members
  broadcast h cs = offer_all (members doc_id h) cs
