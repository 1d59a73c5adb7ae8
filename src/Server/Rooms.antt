-- ===== src/Server/Rooms.antt =====
-- internal/server/hub.go: what a subscription and the end of a connection do to the subscribers of
-- every document, and what the observer is told.
use open_sync_crdt.Prelude.{
  ℕ, ◌≡◌, refl, ◌∙◌, String, Bool, true, false, Option, none, some, List, [], ◌∷◌, ◌++◌, ◌==◌,
  eq_iff, if◌then◌else◌, any_of, arith,
}
use open_sync_crdt.Prelude.Map.{Map, lookup, lookup-insert, lookup-erase}
use open_sync_crdt.Server.{
  Hub, Notice, doc_active, doc_inactive, subscribe, leave, leave_all, deregister, members,
  add_member, remove_member, has_member, keep_rest,
}

unfoldable pub set_of : Option (List ℕ) → List ℕ
set_of none = []
set_of (some set) = set

unfoldable pub is_held : Option (List ℕ) → Bool
is_held none = false
is_held (some set) = true

-- What an observer that starts at `on` takes a document for after some notices.
unfoldable pub noticed : String → Bool → List Notice → Bool
noticed d on [] = on
noticed d on (doc_active e ∷ ns) = noticed d (if e == d then true else on) ns
noticed d on (doc_inactive e ∷ ns) = noticed d (if e == d then false else on) ns

pub noticed-append :
    (d : String) (on : Bool) (ns ms : List Notice)
    → noticed d on (ns ++ ms) ≡ noticed d (noticed d on ns) ms
unfolding noticed
noticed-append d on [] ms = refl
noticed-append d on (doc_active e ∷ ns) ms = noticed-append d (if e == d then true else on) ns ms
noticed-append d on (doc_inactive e ∷ ns) ms = noticed-append d (if e == d then false else on) ns ms

keep_rest-lookup :
    (e d : String) (rest : List ℕ) (docs : Map (List ℕ))
    → set_of (lookup d (keep_rest e rest docs).0)
      ≡ (if e == d then rest else set_of (lookup d docs))
unfolding keep_rest set_of
keep_rest-lookup e d [] docs = ground (arith, lookup-erase e d docs)
keep_rest-lookup e d (k ∷ ks) docs = ground (arith, lookup-insert e d (k ∷ ks) docs)

leave_of-members :
    (c : ℕ) (e d : String) (docs : Map (List ℕ)) (r : Option (List ℕ))
    → lookup e docs ≡ r
    → set_of (lookup d (leave c e docs).0)
      ≡ (if e == d then remove_member c (set_of (lookup d docs)) else set_of (lookup d docs))
unfolding leave set_of remove_member
leave_of-members c e d docs none found = ground (arith, found, eq_iff e d)
leave_of-members c e d docs (some set) found =
    ground (arith, found, eq_iff e d, keep_rest-lookup e d (remove_member c set) docs)

leave-members :
    (c : ℕ) (e d : String) (docs : Map (List ℕ))
    → set_of (lookup d (leave c e docs).0)
      ≡ (if e == d then remove_member c (set_of (lookup d docs)) else set_of (lookup d docs))
leave-members c e d docs = leave_of-members c e d docs (lookup e docs) refl

remove_member-again :
    (c : ℕ) (set : List ℕ) → remove_member c (remove_member c set) ≡ remove_member c set
unfolding remove_member
remove_member-again c [] = refl
remove_member-again c (k ∷ ks) = ground (arith, remove_member-again c ks)

pub remove_member-removes : (c : ℕ) (set : List ℕ) → has_member c (remove_member c set) ≡ false
unfolding remove_member
remove_member-removes c [] = refl
remove_member-removes c (k ∷ ks) = ground (arith, remove_member-removes c ks)

abbrev pub names_doc : String → List String → Bool
names_doc d = any_of (λ e. e == d)

leave_all-members :
    (c : ℕ) (d : String) (ds : List String) (docs : Map (List ℕ))
    → set_of (lookup d (leave_all c ds docs).0) ≡ (
        if names_doc d ds then remove_member c (set_of (lookup d docs)) else set_of (lookup d docs))
unfolding leave_all
leave_all-members c d [] docs = refl
leave_all-members c d (e ∷ es) docs = ground (
  arith,
  leave-members c e d docs,
  leave_all-members c d es (leave c e docs).0,
  remove_member-again c (set_of (lookup d docs)),
)

members-set_of : (d : String) (h : Hub) → members d h ≡ set_of (lookup d h.docs)
unfolding members set_of
members-set_of d h = elim (lookup d h.docs) [ none ↦ refl | some set ↦ refl ]

subscribe_of-members :
    (e d : String) (c : ℕ) (h : Hub) (r : Option (List ℕ))
    → lookup e h.docs ≡ r
    → members d (subscribe e c h) ≡ (if e == d then add_member c (members d h) else members d h)
unfolding subscribe set_of add_member members
subscribe_of-members e d c h none found =
    ground (arith, found, eq_iff e d, lookup-insert e d (c ∷ []) h.docs)
subscribe_of-members e d c h (some set) found =
    ground (arith, found, eq_iff e d, lookup-insert e d (add_member c set) h.docs)

-- A subscription adds the connection to the set of that document, and leaves every other
-- document's set as it is.
pub subscribe-members :
    (e d : String) (c : ℕ) (h : Hub)
    → members d (subscribe e c h) ≡ (if e == d then add_member c (members d h) else members d h)
subscribe-members e d c h = subscribe_of-members e d c h (lookup e h.docs) refl

-- The end of a connection removes it from the set of every document it names, and leaves the sets
-- of the other documents, and every other subscriber, as they are.
pub deregister-members :
    (c : ℕ) (ds : List String) (d : String) (h : Hub)
    → members d (deregister c ds h)
      ≡ (if names_doc d ds then remove_member c (members d h) else members d h)
unfolding deregister
deregister-members c ds d h =
    rw (members-set_of d (deregister c ds h), members-set_of d h, leave_all-members c d ds h.docs)

-- What an observer takes a document for is whether the hub holds a set for it.
unfoldable pub IsNoticed : Hub → Type 0
unfolding noticed is_held
IsNoticed h = (d : String) → noticed d false h.notices ≡ is_held (lookup d h.docs)

keep_rest-noticed :
    (e d : String) (rest : List ℕ) (docs : Map (List ℕ)) (on : Bool)
    → is_held (lookup e docs) ≡ true
    → on ≡ is_held (lookup d docs)
    → noticed d on (keep_rest e rest docs).1 ≡ is_held (lookup d (keep_rest e rest docs).0)
unfolding keep_rest noticed is_held
keep_rest-noticed e d [] docs on held same = ground (arith, lookup-erase e d docs, eq_iff e d)
keep_rest-noticed e d (k ∷ ks) docs on held same =
    ground (arith, lookup-insert e d (k ∷ ks) docs, eq_iff e d)

leave_of-noticed :
    (c : ℕ) (e d : String) (docs : Map (List ℕ)) (on : Bool) (r : Option (List ℕ))
    → lookup e docs ≡ r
    → on ≡ is_held (lookup d docs)
    → noticed d on (leave c e docs).1 ≡ is_held (lookup d (leave c e docs).0)
unfolding leave noticed is_held
leave_of-noticed c e d docs on none found same = ground (arith, found, same)
leave_of-noticed c e d docs on (some set) found same =
    rw (found, leave)
      (keep_rest-noticed e d (remove_member c set) docs on (ground (arith, found)) same)

leave_all-noticed :
    (c : ℕ) (d : String) (ds : List String) (docs : Map (List ℕ)) (on : Bool)
    → on ≡ is_held (lookup d docs)
    → noticed d on (leave_all c ds docs).1 ≡ is_held (lookup d (leave_all c ds docs).0)
unfolding leave_all noticed
leave_all-noticed c d [] docs on same = same
leave_all-noticed c d (e ∷ es) docs on same =
    noticed-append d on (leave c e docs).1 (leave_all c es (leave c e docs).0).1
    ∙ leave_all-noticed c d es (leave c e docs).0 (noticed d on (leave c e docs).1)
        (leave_of-noticed c e d docs on (lookup e docs) refl same)

subscribe_of-IsNoticed :
    (e : String) (c : ℕ) (h : Hub) (r : Option (List ℕ))
    → lookup e h.docs ≡ r
    → IsNoticed h
    → IsNoticed (subscribe e c h)
unfolding IsNoticed subscribe noticed is_held
subscribe_of-IsNoticed e c h none found same d = ground (
  arith,
  found,
  eq_iff e d,
  lookup-insert e d (c ∷ []) h.docs,
  same d,
  noticed-append d false h.notices (doc_active e ∷ []),
)
subscribe_of-IsNoticed e c h (some set) found same d =
    ground (arith, found, eq_iff e d, lookup-insert e d (add_member c set) h.docs, same d)

-- A subscription keeps the observer's view right: it takes a document for active exactly when the
-- hub holds a set of subscribers for it.
pub subscribe-IsNoticed : (e : String) (c : ℕ) (h : Hub) → IsNoticed h → IsNoticed (subscribe e c h)
subscribe-IsNoticed e c h = subscribe_of-IsNoticed e c h (lookup e h.docs) refl

-- The end of a connection, which may empty the sets of any number of documents, keeps the
-- observer's view right: it takes a document for active exactly when the hub holds a set for it.
pub deregister-IsNoticed :
    (c : ℕ) (ds : List String) (h : Hub) → IsNoticed h → IsNoticed (deregister c ds h)
unfolding IsNoticed deregister
deregister-IsNoticed c ds h same d =
    noticed-append d false h.notices (leave_all c ds h.docs).1
    ∙ leave_all-noticed c d ds h.docs (noticed d false h.notices) (same d)
