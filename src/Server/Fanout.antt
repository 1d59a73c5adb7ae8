-- ===== src/Server/Fanout.antt =====
-- `Broadcast` in internal/server/hub.go over the bounded send queues of connection.go: which
-- connections get the message, and how far a queue grows.
use open_sync_crdt.Prelude.{
  ℕ, ◌≡◌, refl, ◌≤◌, String, Bytes, Bool, true, false, Option, none, some, List, [], ◌∷◌, ◌++◌,
  ◌==◌, ◌||◌, eqb, if◌then◌else◌, length, length-append, arith,
}
use open_sync_crdt.Prelude.{Bool-cases, inl, inr}
use open_sync_crdt.Protocol.{Outbound, ServerSync, server_sync, JsonFrames, encode}
use open_sync_crdt.Server.{
  Conn, Conns, update, Hub, offer, offer_all, broadcast, members, has_member, enqueue_err, enqueue,
  close, send_queue_size, push_open, push_frame, add_member, remove_member, subscribe, deregister,
}
use open_sync_crdt.Server.Rooms.{subscribe-members, deregister-members, names_doc}

-- No connection is twice in a set.
unfoldable pub IsOnce : List ℕ → Type 0
IsOnce [] = Unit
IsOnce (k ∷ ks) = (has_member k ks ≡ false) × IsOnce ks

module _ (json : JsonFrames) (doc_id except : String) (msg : ServerSync) where
  offer_all-offered :
      (ks : List ℕ) (cs : Conns) (k : ℕ)
      → IsOnce ks
      → offer_all json doc_id except msg ks cs k
        ≡ (if has_member k ks then offer json doc_id except msg (cs k) else cs k)
  unfolding offer_all IsOnce
  offer_all-offered [] cs k once = refl
  offer_all-offered (j ∷ js) cs k once = ground (
    arith,
    once.0,
    offer_all-offered js (update cs j (offer json doc_id except msg (cs j))) k once.1,
  )

  -- Where no connection is twice among a document's subscribers, a broadcast offers the message to
  -- each subscriber exactly once, whatever the others' queues hold, and touches nobody else.
  pub broadcast-offered :
      (h : Hub) (cs : Conns) (k : ℕ)
      → IsOnce (members doc_id h)
      → broadcast json doc_id except msg h cs k
        ≡ (if has_member k (members doc_id h) then offer json doc_id except msg (cs k) else cs k)
  unfolding broadcast
  broadcast-offered h cs k once = offer_all-offered (members doc_id h) cs k once

-- The set of a document's subscribers has no connection twice.
unfoldable pub IsSets : Hub → Type 0
IsSets h = (d : String) → IsOnce (members d h)

pub has_member-append :
    (k : ℕ) (ks js : List ℕ) → has_member k (ks ++ js) ≡ (has_member k ks || has_member k js)
has_member-append k [] js = refl
has_member-append k (i ∷ is) js = ground (arith, has_member-append k is js)

pub has_member-remove :
    (k c : ℕ) (set : List ℕ) → has_member k set ≡ false → has_member k (remove_member c set) ≡ false
unfolding remove_member
has_member-remove k c [] absent = refl
has_member-remove k c (i ∷ is) absent = ground (arith, absent, has_member-remove k c is)

append-IsOnce :
    (c : ℕ) (set : List ℕ) → has_member c set ≡ false → IsOnce set → IsOnce (set ++ c ∷ [])
unfolding IsOnce
append-IsOnce c [] absent once = (refl, tt)
append-IsOnce c (i ∷ is) absent once = (
  ground (arith, absent, once.0, has_member-append i is (c ∷ [])),
  append-IsOnce c is (ground (arith, absent)) once.1,
)

add_member-IsOnce : (c : ℕ) (set : List ℕ) → IsOnce set → IsOnce (add_member c set)
unfolding add_member
add_member-IsOnce c set once = elim (Bool-cases (has_member c set)) [
  | inl e ↦ rw (e) once
  | inr e ↦ rw (e) (append-IsOnce c set e once)
]

remove_member-IsOnce : (c : ℕ) (set : List ℕ) → IsOnce set → IsOnce (remove_member c set)
unfolding remove_member IsOnce
remove_member-IsOnce c [] once = tt
remove_member-IsOnce c (i ∷ is) once = elim (Bool-cases (eqb i c)) [
  | inl e ↦ rw (e) (remove_member-IsOnce c is once.1)
  | inr e ↦ rw (e) (has_member-remove i c is once.0, remove_member-IsOnce c is once.1)
]

-- Subscribing, again to the same document included, leaves no connection twice among the
-- subscribers of any document.
pub subscribe-IsSets : (e : String) (c : ℕ) (h : Hub) → IsSets h → IsSets (subscribe e c h)
unfolding IsSets
subscribe-IsSets e c h sets d =
    rw (subscribe-members e d c h)
      (elim (e == d)
        as (λ (b : Bool). IsOnce (if b then add_member c (members d h) else members d h)) [
          | true ↦ add_member-IsOnce c (members d h) (sets d)
          | false ↦ sets d
        ])

pub deregister-IsSets : (c : ℕ) (ds : List String) (h : Hub) → IsSets h → IsSets (deregister c ds h)
unfolding IsSets
deregister-IsSets c ds h sets d =
    rw (deregister-members c ds d h)
      (elim (names_doc d ds)
        as (λ (b : Bool). IsOnce (if b then remove_member c (members d h) else members d h)) [
          | true ↦ remove_member-IsOnce c (members d h) (sets d)
          | false ↦ sets d
        ])

unfoldable pub IsBounded : Conns → Type 0
unfolding send_queue_size
IsBounded cs = (k : ℕ) → length (cs k).queue ≤ send_queue_size

pub push_open-bounded :
    (json : JsonFrames) (frame : Bytes) (c : Conn)
    → length c.queue ≤ send_queue_size
    → length (push_open json frame c).1.queue ≤ send_queue_size
unfolding push_open close send_queue_size
push_open-bounded json frame c bound = ground (arith, bound, length-append c.queue (frame ∷ []))

push_frame-bounded :
    (json : JsonFrames) (frame : Bytes) (c : Conn)
    → length c.queue ≤ send_queue_size
    → length (push_frame json frame c).1.queue ≤ send_queue_size
unfolding push_frame
push_frame-bounded json frame c bound = ground (arith, bound, push_open-bounded json frame c bound)

enqueue_of-bounded :
    (json : JsonFrames) (msg : Outbound) (c : Conn) (o : Option Bytes)
    → encode json msg ≡ o
    → length c.queue ≤ send_queue_size
    → length (enqueue json msg c).queue ≤ send_queue_size
unfolding enqueue enqueue_err encode
enqueue_of-bounded json msg c none coded bound = ground (arith, coded, bound)
enqueue_of-bounded json msg c (some frame) coded bound =
    ground (arith, coded, push_frame-bounded json frame c bound)

offer-bounded :
    (json : JsonFrames) (d except : String) (msg : ServerSync) (c : Conn)
    → length c.queue ≤ send_queue_size
    → length (offer json d except msg c).queue ≤ send_queue_size
unfolding offer
offer-bounded json d except msg c bound = ground (
  arith,
  bound,
  enqueue_of-bounded json (server_sync msg) c (encode json (server_sync msg)) refl bound,
)

offer_all-IsBounded :
    (json : JsonFrames) (d except : String) (msg : ServerSync) (ks : List ℕ) (cs : Conns)
    → IsBounded cs
    → IsBounded (offer_all json d except msg ks cs)
unfolding offer_all IsBounded
offer_all-IsBounded json d except msg [] cs bound = bound
offer_all-IsBounded json d except msg (j ∷ js) cs bound =
    offer_all-IsBounded json d except msg js (update cs j (offer json d except msg (cs j)))
      (λ k. ground (arith, offer-bounded json d except msg (cs j) (bound j), bound k))

-- A broadcast grows no queue beyond its 256 places, a slow subscriber's included.
pub broadcast-IsBounded :
    (json : JsonFrames) (d except : String) (msg : ServerSync) (h : Hub) (cs : Conns)
    → IsBounded cs
    → IsBounded (broadcast json d except msg h cs)
unfolding broadcast
broadcast-IsBounded json d except msg h cs = offer_all-IsBounded json d except msg (members d h) cs
