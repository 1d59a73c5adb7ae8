-- ===== src/Auth/Cache.antt =====
-- `Authenticate` of the webhook mode in internal/auth/webhook.go: who is let in, and for how long an
-- answer of the developer's endpoint stands.
use open_sync_crdt.Prelude.{
  ℕ, ◌≡◌, refl, ◌+◌, ◌≤◌, String, Bool, true, false, Option, none, some, Result, ok, err, ◌++◌, ◌∷◌,
  [], eqb, if◌then◌else◌, arith, eq_refl,
}
use open_sync_crdt.Prelude.Map.{lookup, lookup-insert}
use open_sync_crdt.Auth.Key.{cache_key}
use open_sync_crdt.Auth.{
  Identity, AuthError, unauthorized, Request, extract_token, CacheEntry, Answer, no_answer, status,
  WebhookAuth, ttl_of, cached, store, deny, judge_body, judge, after_cache, authenticate,
  no_identity, fresh_entry,
}

abbrev pub key_of : Request → String
key_of r = cache_key (extract_token r) (r.query "doc_id")

-- The endpoint's decision: whether to let in, and as whom. There is none where the endpoint gives
-- no answer or a body that does not decode.
unfoldable pub decision : Answer → Option (Identity × Bool)
decision no_answer = none
decision (status code none) = if eqb code 200 then none else some (no_identity, false)
decision (status code (some vr)) =
    if eqb code 200
    then (if vr.allowed
        then some (record { user_id = vr.user_id; metadata = vr.metadata }, true)
        else some (no_identity, false))
    else some (no_identity, false)

unfoldable pub outcome : Identity × Bool → Result AuthError Identity
outcome (id, allowed) = if allowed then ok id else err unauthorized

judge-decides :
    (then_ : ℕ) (key : String) (a : Answer) (w : WebhookAuth) (d : Identity × Bool)
    → decision a ≡ some d
    → judge then_ key a w ≡ (outcome d, store then_ key d.0 d.1 w)
unfolding decision judge judge_body deny outcome
judge-decides then_ key no_answer w d e = ground (arith, e)
judge-decides then_ key (status code none) w (id, allowed) e = ground (arith, e)
judge-decides then_ key (status code (some vr)) w (id, allowed) e = ground (arith, e)

stored-cached :
    (then_ later ttl : ℕ) (key : String) (d : Identity × Bool) (w : WebhookAuth)
    → ttl_of w.cache_ttl ≡ some ttl
    → later ≤ then_ + ttl
    → cached later key (store then_ key d.0 d.1 w) ≡ (some d, store then_ key d.0 d.1 w)
unfolding cached store fresh_entry
stored-cached then_ later ttl key (id, allowed) w on soon = ground (
  arith,
  on,
  soon,
  eq_refl key,
  lookup-insert key key (record { identity = id; allowed = allowed; expires = then_ + ttl })
      w.cache,
)

called : Request → WebhookAuth → WebhookAuth
called r w = record w { calls = w.calls ++ (extract_token r, r.query "doc_id") ∷ [] }

cached-miss :
    (now : ℕ) (r : Request) (w : WebhookAuth)
    → lookup (key_of r) w.cache ≡ none
    → cached now (key_of r) w ≡ (none, w)
unfolding cached fresh_entry
cached-miss now r w missing = ground (arith, missing)

authenticate-calls :
    (now then_ : ℕ) (a : Answer) (r : Request) (w : WebhookAuth) (d : Identity × Bool)
    → lookup (key_of r) w.cache ≡ none
    → decision a ≡ some d
    → authenticate now then_ a r w ≡ (outcome d, store then_ (key_of r) d.0 d.1 (called r w))
unfolding authenticate after_cache called
authenticate-calls now then_ a r w d missing e =
    rw (cached-miss now r w missing) (judge-decides then_ (key_of r) a (called r w) d e)

after_cache-hit :
    (then_ : ℕ) (key : String) (a : Answer) (call : String × String) (d : Identity × Bool)
    (w : WebhookAuth)
    → after_cache then_ key a call (some d, w) ≡ (outcome d, w)
unfolding after_cache outcome
after_cache-hit then_ key a call (id, true) w = refl
after_cache-hit then_ key a call (id, false) w = refl

-- A decision of the endpoint, a refusal too, holds for the cache's time to live: until then a
-- request with the same token and document gets the same result, whatever the endpoint would
-- answer by now, without a call and without a change of the state.
pub authenticate-remembers :
    (now then_ later then' ttl : ℕ) (a b : Answer) (r : Request) (w : WebhookAuth)
    (d : Identity × Bool)
    → lookup (key_of r) w.cache ≡ none
    → decision a ≡ some d
    → ttl_of w.cache_ttl ≡ some ttl
    → later ≤ then_ + ttl
    → authenticate later then' b r (authenticate now then_ a r w).1
      ≡ (outcome d, (authenticate now then_ a r w).1)
unfolding authenticate called
authenticate-remembers now then_ later then' ttl a b r w d missing e on soon =
    rw
      (
        authenticate-calls now then_ a r w d missing e,
        stored-cached then_ later ttl (key_of r) d (called r w) on soon,
      )
      (after_cache-hit then' (key_of r) b (extract_token r, r.query "doc_id") d
        (store then_ (key_of r) d.0 d.1 (called r w)))

-- A cache entry that still lets in, and whom.
unfoldable pub LetsIn : ℕ → Identity → Option CacheEntry → Type 0
LetsIn now id none = ⊥
LetsIn now id (some e) = (e.allowed ≡ true) × (e.identity ≡ id) × (now ≤ e.expires)
