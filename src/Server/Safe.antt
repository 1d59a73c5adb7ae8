-- ===== src/Server/Safe.antt =====
-- What holds of the hub and the connections together in internal/server: the sets of subscribers,
-- the send queues and the subscriptions that each connection remembers.
use open_sync_crdt.Prelude.{
  ℕ, ◌+◌, ◌≡◌, ◌≤◌, refl, sym, ◌∙◌, String, Bytes, Bool, true, false, ◌||◌, Option, none, some,
  List, [], ◌∷◌, ◌==◌, ◌⊎◌, eqb, eq_iff, subst, if◌then◌else◌, length, Bool-cases, inl, inr, arith,
}
use open_sync_crdt.Prelude.Int.{ℤ}
use open_sync_crdt.Prelude.Map.{Map, insert, keys}
use open_sync_crdt.Protocol.{Outbound, ServerSync, JsonFrames, encode, server_sync}
use open_sync_crdt.Server.{
  Hub, Conn, Conns, update, members, has_member, subscribe, deregister, broadcast, offer, offer_all,
  enqueue, enqueue_err, push_frame, push_open, close, session_for, send_queue_size, add_member,
  try_register, at_limit, new_conn,
}
use open_sync_crdt.Server.Rooms.{
  IsNoticed, names_doc, subscribe-members, deregister-members, subscribe-IsNoticed,
  deregister-IsNoticed, remove_member-removes,
}
use open_sync_crdt.Server.Fanout.{
  IsSets, IsBounded, push_open-bounded, subscribe-IsSets, deregister-IsSets, has_member-append,
  has_member-remove,
}

-- A connection in a document's set remembers the document.
unfoldable pub IsListed : Hub → Conns → Type 0
IsListed h cs =
    (k : ℕ) (d : String) → has_member k (members d h) ≡ true → names_doc d (keys (cs k).subs) ≡ true

pub record IsSafe (h : Hub) (cs : Conns) : Type 0 where
  pub sets : IsSets h
  pub noticed : IsNoticed h
  pub bounded : IsBounded cs
  pub listed : IsListed h cs

keys-insert :
    (d e s : String) (m : Map String)
    → names_doc d (keys (insert e s m)) ≡ ((e == d) || names_doc d (keys m))
unfolding keys insert
keys-insert d e s [] = ground arith
keys-insert d e s ((j, v) ∷ m) =
    ground (arith, eq_iff j e, eq_iff e d, eq_iff j d, keys-insert d e s m)

eqb→eq : (a b : ℕ) → eqb a b ≡ true → a ≡ b
eqb→eq a b h = ground arith

has_member-same :
    (k c : ℕ) (set : List ℕ) → has_member c set ≡ true → eqb c k ≡ true → has_member k set ≡ true
has_member-same k c set old same = subst (λ j. has_member j set ≡ true) (eqb→eq c k same) old

pub has_member-add :
    (k c : ℕ) (set : List ℕ) → has_member k (add_member c set) ≡ (has_member k set || eqb c k)
unfolding add_member
has_member-add k c set = elim (Bool-cases (has_member c set)) [
  | inl old ↦ rw old (ground (arith, has_member-same k c set old))
  | inr new ↦ rw (new, has_member-append k set (c ∷ [])) (ground arith)
]

-- What a connection keeps when something is sent to it: its subscriptions, and the bound.
pub record Kept (c c' : Conn) : Type 0 where
  pub subs : c'.subs ≡ c.subs
  pub bound : length c.queue ≤ send_queue_size → length c'.queue ≤ send_queue_size

pub Kept-refl : (c : Conn) → Kept c c
Kept-refl c = record { subs = refl; bound = λ b. b }

pub Kept-trans : {a b c : Conn} → Kept a b → Kept b c → Kept a c
Kept-trans f g = record { subs = g.subs ∙ f.subs; bound = λ b. g.bound (f.bound b) }

abbrev pub KeptAll : Conns → Conns → Type 0
KeptAll cs cs' = (k : ℕ) → Kept (cs k) (cs' k)

pub update-KeptAll : (cs : Conns) (k : ℕ) (c : Conn) → Kept (cs k) c → KeptAll cs (update cs k c)
update-KeptAll cs k c kept j = elim (Bool-cases (eqb k j)) [
  | inl same ↦ rw same (subst (λ i. Kept (cs i) c) (eqb→eq k j same) kept)
  | inr other ↦ rw other (Kept-refl (cs j))
]

module _ (json : JsonFrames) where
  push_open-Kept : (frame : Bytes) (c : Conn) → Kept c (push_open json frame c).1
  unfolding push_open close
  push_open-Kept frame c = record {
    subs = ground arith;
    bound = λ b. push_open-bounded json frame c b;
  }

  push_frame-Kept : (frame : Bytes) (c : Conn) → Kept c (push_frame json frame c).1
  unfolding push_frame
  push_frame-Kept frame c =
      let k = push_open-Kept frame c in
      record { subs = ground (arith, k.subs); bound = λ b. ground (arith, b, k.bound b) }

  enqueue_of-Kept :
      (msg : Outbound) (c : Conn) (o : Option Bytes)
      → encode json msg ≡ o
      → Kept c (enqueue_err json msg c).1
  unfolding enqueue_err encode
  enqueue_of-Kept msg c none coded = rw (coded, enqueue_err) (Kept-refl c)
  enqueue_of-Kept msg c (some frame) coded = rw (coded, enqueue_err) (push_frame-Kept frame c)

  pub enqueue_err-Kept : (msg : Outbound) (c : Conn) → Kept c (enqueue_err json msg c).1
  enqueue_err-Kept msg c = enqueue_of-Kept msg c (encode json msg) refl

  module _ (d except : String) (msg : ServerSync) where
    offer-Kept : (c : Conn) → Kept c (offer json d except msg c)
    unfolding offer enqueue
    offer-Kept c =
        elim (session_for d c == except)
          as (λ (b : Bool). Kept c (if b then c else (enqueue_err json (server_sync msg) c).1)) [
            | true ↦ Kept-refl c
            | false ↦ enqueue_err-Kept (server_sync msg) c
          ]

    offer_all-Kept : (ks : List ℕ) (cs : Conns) → KeptAll cs (offer_all json d except msg ks cs)
    unfolding offer_all
    offer_all-Kept [] cs j = Kept-refl (cs j)
    offer_all-Kept (k ∷ ks) cs j =
        Kept-trans (update-KeptAll cs k (offer json d except msg (cs k)) (offer-Kept (cs k)) j)
          (offer_all-Kept ks (update cs k (offer json d except msg (cs k))) j)

    pub broadcast-Kept : (h : Hub) (cs : Conns) → KeptAll cs (broadcast json d except msg h cs)
    unfolding broadcast
    broadcast-Kept h cs = offer_all-Kept (members d h) cs

-- Sending keeps the server safe.
pub IsSafe-kept : {h : Hub} {cs cs' : Conns} → KeptAll cs cs' → IsSafe h cs → IsSafe h cs'
unfolding IsBounded IsListed
IsSafe-kept kept safe = record {
  sets = safe.sets;
  noticed = safe.noticed;
  bounded = λ k. (kept k).bound (safe.bounded k);
  listed = λ k d member. rw ((kept k).subs) (safe.listed k d member);
}

-- `c.subs[docID] = sessionID` on one connection.
abbrev pub remember : Conns → ℕ → String → String → Conns
remember cs k d s = update cs k (record (cs k) { subs = insert d s (cs k).subs })

remember-names :
    (cs : Conns) (k : ℕ) (d s : String) (j : ℕ) (e : String)
    → names_doc e (keys (cs j).subs) ≡ true
    → names_doc e (keys (remember cs k d s j).subs) ≡ true
remember-names cs k d s j e old = elim (Bool-cases (eqb k j)) [
  | inl same ↦
      rw (same, keys-insert e d s (cs k).subs)
        (ground
          (arith, subst (λ i. names_doc e (keys (cs i).subs) ≡ true) (sym (eqb→eq k j same)) old))
  | inr other ↦ rw other old
]

remember-itself :
    (cs : Conns) (k : ℕ) (d s : String) (j : ℕ) (e : String)
    → eqb k j ≡ true
    → (d == e) ≡ true
    → names_doc e (keys (remember cs k d s j).subs) ≡ true
remember-itself cs k d s j e same doc = rw (same, keys-insert e d s (cs k).subs, doc) refl

-- A session remembered for a document keeps the server safe.
pub remember-IsSafe :
    (h : Hub) (cs : Conns) (k : ℕ) (d s : String) → IsSafe h cs → IsSafe h (remember cs k d s)
unfolding IsBounded IsListed
remember-IsSafe h cs k d s safe = record {
  sets = safe.sets;
  noticed = safe.noticed;
  bounded = λ j. ground (arith, safe.bounded k, safe.bounded j);
  listed = λ j e member. remember-names cs k d s j e (safe.listed j e member);
}

subscribe-member :
    (d e : String) (k j : ℕ) (h : Hub)
    → has_member j (members e (subscribe d k h)) ≡ true
    → (has_member j (members e h) ≡ true) ⊎ (((d == e) ≡ true) × (eqb k j ≡ true))
subscribe-member d e k j h member =
    ground (arith, member, subscribe-members d e k h, has_member-add j k (members e h))

-- So does a subscription after it.
pub subscribe-IsSafe :
    (h : Hub) (cs : Conns) (k : ℕ) (d s : String)
    → IsSafe h cs
    → IsSafe (subscribe d k h) (remember cs k d s)
unfolding IsListed
subscribe-IsSafe h cs k d s safe = record {
  sets = subscribe-IsSets d k h safe.sets;
  noticed = subscribe-IsNoticed d k h safe.noticed;
  bounded = (remember-IsSafe h cs k d s safe).bounded;
  listed = λ j e member. elim (subscribe-member d e k j h member) [
    | inl old ↦ remember-names cs k d s j e (safe.listed j e old)
    | inr (doc, same) ↦ remember-itself cs k d s j e same doc
  ];
}

-- When a connection ends, it is in no document's set any more.
pub deregister-gone :
    (h : Hub) (cs : Conns) (k : ℕ) (d : String)
    → IsListed h cs
    → has_member k (members d (deregister k (keys (cs k).subs) h)) ≡ false
unfolding IsListed
deregister-gone h cs k d listed = ground (
  arith,
  deregister-members k (keys (cs k).subs) d h,
  remove_member-removes k (members d h),
  listed k d,
)

deregister-member :
    (h : Hub) (k j : ℕ) (ds : List String) (d : String)
    → has_member j (members d (deregister k ds h)) ≡ true
    → has_member j (members d h) ≡ true
deregister-member h k j ds d member = elim (Bool-cases (has_member j (members d h))) [
  | inl old ↦ old
  | inr absent ↦ ground (
    arith,
    member,
    absent,
    deregister-members k ds d h,
    has_member-remove j k (members d h) absent,
  )
]

pub deregister-IsSafe :
    (h : Hub) (cs : Conns) (k : ℕ) (ds : List String) → IsSafe h cs → IsSafe (deregister k ds h) cs
unfolding IsListed
deregister-IsSafe h cs k ds safe = record {
  sets = deregister-IsSets k ds h safe.sets;
  noticed = deregister-IsNoticed k ds h safe.noticed;
  bounded = safe.bounded;
  listed = λ j d member. safe.listed j d (deregister-member h k j ds d member);
}

pub subscribe-active : (d : String) (k : ℕ) (h : Hub) → (subscribe d k h).active ≡ h.active
unfolding subscribe
subscribe-active d k h = ground arith

-- The count of connections plays no part.
pub active-IsSafe :
    {h : Hub} {cs : Conns} (n : ℕ) → IsSafe h cs → IsSafe (record h { active = n }) cs
unfolding IsSets IsNoticed IsListed members
active-IsSafe n safe = record {
  sets = safe.sets;
  noticed = safe.noticed;
  bounded = safe.bounded;
  listed = safe.listed;
}

pub try_register-IsSafe :
    (max : ℤ) (h : Hub) (cs : Conns) → IsSafe h cs → IsSafe (try_register max h).1 cs
unfolding try_register
try_register-IsSafe max h cs safe = elim (Bool-cases (at_limit max h.active)) [
  | inl full ↦ rw full safe
  | inr room ↦ rw room (active-IsSafe (h.active + 1) safe)
]

-- A new connection is in no document's set.
pub connect-IsSafe :
    (h : Hub) (cs : Conns) (k : ℕ) (user : String)
    → ((d : String) → has_member k (members d h) ≡ false)
    → IsSafe h cs
    → IsSafe h (update cs k (new_conn user))
unfolding IsBounded IsListed send_queue_size
connect-IsSafe h cs k user fresh safe = record {
  sets = safe.sets;
  noticed = safe.noticed;
  bounded = λ j. ground (arith, safe.bounded j);
  listed = λ j d member. elim (Bool-cases (eqb k j)) [
    | inl same ↦
        absurd
          (cc (member, subst (λ i. has_member i (members d h) ≡ false) (eqb→eq k j same) (fresh d)))
    | inr other ↦ rw other (safe.listed j d member)
  ];
}
