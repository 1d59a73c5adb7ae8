-- ===== src/Embedding/Resources.antt =====
-- What pkg/engine/engine.go acquires and gives back.
use open_sync_crdt.Prelude.{
  ℕ, ◌+◌, Bool, true, false, Option, none, some, ◌≡◌, refl, ap, arith, if◌then◌else◌, Result, ok,
  err,
}
use open_sync_crdt.Prelude.Text.{Text}
use open_sync_crdt.Config.{Config}
use open_sync_crdt.Config.Validate.{Invalid, validate}
use open_sync_crdt.Embedding.{
  Outside, Held, Backend, Authenticator, Embedded, EngineConfig, NewError, resolve,
  new_authenticator, open_store, joined, wired, with_auth, with_store, new_from_config, checked,
  new_engine, close_engine,
}

triple : {a b c x y z : ℕ} → a ≡ x → b ≡ y → c ≡ z → ◌≡◌ {A = ℕ × ℕ × ℕ} (a, b, c) (x, y, z)
triple p q r = λ i. (p i, q i, r i)

module _ (out : Outside) where
  -- A failure leaves as much live as before; an engine that comes up, once closed, does too.
  unfoldable pub Balanced : Held → Result NewError Embedded × Held → Type 0
  Balanced h (err e, h') = h' ≡ h
  Balanced h (ok e, h') = (close_engine out e h').1 ≡ h

  abbrev begun : Held → Held
  begun h = record { contexts = h.contexts + 1; stores = h.stores; nodes = h.nodes }

  abbrev begun_store : Held → Held
  begun_store h = record { contexts = h.contexts + 1; stores = h.stores + 1; nodes = h.nodes }

  same_held :
      (h : Held) {a b c : ℕ}
      → a ≡ h.contexts
      → b ≡ h.stores
      → c ≡ h.nodes
      → ◌≡◌ {A = Held} (record { contexts = a; stores = b; nodes = c }) h
  same_held h p q r = ap (λ x. record { contexts = x.0; stores = x.1; nodes = x.2 }) (triple p q r)

  joined-Balanced :
      (cfg : Config) (b : Backend) (auth : Authenticator) (id : Text) (fine : Bool) (h : Held)
      → Balanced h (joined out cfg b auth id fine (begun_store h))
  unfolding joined Balanced close_engine
  joined-Balanced cfg b auth id true h = same_held h (omega arith) (omega arith) (omega arith)
  joined-Balanced cfg b auth id false h = same_held h (omega arith) (omega arith) refl

  either-Balanced :
      (h : Held) (test : Bool) (x y : Result NewError Embedded × Held)
      → Balanced h x
      → Balanced h y
      → Balanced h (if test then x else y)
  either-Balanced h true x y p q = p
  either-Balanced h false x y p q = q

  wired-Balanced :
      (cfg : Config) (b : Backend) (auth : Authenticator) (id : Text) (h : Held)
      → Balanced h (wired out cfg b auth id (begun_store h))
  unfolding wired Balanced close_engine
  wired-Balanced cfg b auth id h =
      either-Balanced h cfg.cluster.mode _ _
        (joined-Balanced cfg b auth id (out.join cfg.cluster.redis_url id) h)
        (same_held h (omega arith) (omega arith) refl)

  with_auth-Balanced :
      (cfg : Config) (b : Backend) (auth : Option Authenticator) (id : Text) (h : Held)
      → Balanced h (with_auth out cfg b auth id (begun_store h))
  unfolding with_auth Balanced
  with_auth-Balanced cfg b none id h = same_held h (omega arith) (omega arith) refl
  with_auth-Balanced cfg b (some auth) id h = wired-Balanced cfg b auth _ h

  with_store-Balanced :
      (cfg : Config) (b : Option Backend) (id : Text) (h : Held)
      → Balanced h (with_store out cfg b id (begun h))
  unfolding with_store Balanced
  with_store-Balanced cfg none id h = same_held h (omega arith) refl refl
  with_store-Balanced cfg (some b) id h = with_auth-Balanced cfg b (new_authenticator cfg.auth) id h

  checked-Balanced :
      (cfg : Config) (id : Text) (r : Result Invalid Unit) (h : Held)
      → Balanced h (checked out cfg id r h)
  unfolding checked Balanced new_from_config
  checked-Balanced cfg id (err e) h = refl
  checked-Balanced cfg id (ok u) h = with_store-Balanced cfg (open_store out cfg.storage) id h

  -- Whatever of the outside fails: an engine that does not come up leaves no context, store or
  -- cluster node behind; one that comes up, once it is closed, leaves none either, also where leaving
  -- the cluster fails.
  pub new_engine-Balanced : (e : EngineConfig) (h : Held) → Balanced h (new_engine out e h)
  unfolding new_engine
  new_engine-Balanced e h = checked-Balanced (resolve e) e.node_id (validate (resolve e)) h
