-- ===== src/Cluster/Membership/Balance.antt =====
-- What New and Close of internal/cluster/node.go leave live.
use open_sync_crdt.Prelude.{
  ℕ, ◌+◌, Bool, true, false, Option, none, some, ◌≡◌, refl, arith, Result, ok, err, if◌then◌else◌,
  Bool-cases, inl, inr,
}
use open_sync_crdt.Cluster.Registry.{NodeInfo, InfoJson, SetKey, register}
use open_sync_crdt.Cluster.Membership.{
  Live, JoinError, Answers, dial_redis, registered, new_node, close_node,
}

module _ (out : Answers) where
  -- A node that does not come up leaves as much live as before; one that comes up, once closed, does
  -- too.
  unfoldable pub Balanced : Live → Result JoinError (Option SetKey) × Live → Type 0
  Balanced l (err e, l') = l' ≡ l
  Balanced l (ok k, l') = (close_node out l').1 ≡ l

  same_live :
      (l : Live) {a b c d : ℕ}
      → a ≡ l.clients
      → b ≡ l.pubsubs
      → c ≡ l.contexts
      → d ≡ l.loops
      → ◌≡◌ {A = Live} (record { clients = a; pubsubs = b; contexts = c; loops = d }) l
  same_live l p q r s = λ i. record { clients = p i; pubsubs = q i; contexts = r i; loops = s i }

  abbrev begun : Live → Live
  begun l = record {
    clients = l.clients + 1;
    pubsubs = l.pubsubs + 1;
    contexts = l.contexts + 1;
    loops = l.loops;
  }

  either-Balanced :
      (l : Live) (test : Bool) (x y : Result JoinError (Option SetKey) × Live)
      → Balanced l x
      → Balanced l y
      → Balanced l (if test then x else y)
  either-Balanced l true x y p q = p
  either-Balanced l false x y p q = q

  registered-Balanced : (k : Option SetKey) (l : Live) → Balanced l (registered out k (begun l))
  unfolding new_node Balanced close_node
  registered-Balanced none l = same_live l (omega arith) (omega arith) (omega arith) refl
  registered-Balanced (some k) l =
      either-Balanced l out.sets _ _
        (same_live l (omega arith) (omega arith) (omega arith) (omega arith))
        (same_live l (omega arith) (omega arith) (omega arith) refl)

  -- Whatever of Redis fails, on every path: New leaves no client, subscription, context or goroutine
  -- behind where it returns an error, and Close ends them all where it did not.
  pub new_node-Balanced :
      (json : InfoJson) (info : NodeInfo) (l : Live) → Balanced l (new_node out json info l)
  unfolding new_node Balanced dial_redis close_node
  new_node-Balanced json info l = elim (Bool-cases out.parses) [
    | inr f ↦ rw f refl
    | inl t ↦ rw t (elim (Bool-cases out.pings) [
      | inr f ↦ rw f (same_live l (omega arith) refl refl refl)
      | inl u ↦ rw u (registered-Balanced (register json info) l)
    ])
  ]
