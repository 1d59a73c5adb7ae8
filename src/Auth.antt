-- ===== src/Auth.antt =====
-- internal/auth: the three modes that authorize a new connection, and the cache of the webhook
-- mode. net/http, encoding/json and the clock are parameters.
pub mod Key
pub mod Cache
use open_sync_crdt.Prelude.{
  ℕ, zero, suc, ◌+◌, ◌++◌, String, Bool, true, false, Option, none, some, List, [], ◌∷◌, ◌==◌, ltb,
  if◌then◌else◌, Result, ok, err, eqb,
}
use open_sync_crdt.Auth.Key.{cache_key}
use open_sync_crdt.Prelude.Int.{ℤ, pos, negsuc}
use open_sync_crdt.Prelude.Map.{Map, lookup, insert, erase}

-- `metadata` as the webhook's JSON, which only passes through.
pub record Identity : Type 0 where
  pub user_id : String
  pub metadata : String

abbrev pub no_identity : Identity
no_identity = record { user_id = ""; metadata = "" }

-- `failed` is an error that is not `ErrUnauthorized`.
pub data AuthError : Type 0 where
  unauthorized : AuthError
  failed : String → AuthError

-- What the code reads of the upgrade request: header values with their outer white space cut, what
-- follows "Bearer " in the Authorization header, and the parameters of the query.
pub record Request : Type 0 where
  pub header : String → String
  pub bearer : Option String
  pub query : String → String

unfoldable pub authenticate_none : Request → Result AuthError Identity
authenticate_none r = ok no_identity

unfoldable pub authenticate_header : String → Request → Result AuthError Identity
authenticate_header header_name r =
    let v = r.header header_name in
    if v == "" then err unauthorized else ok (record { user_id = v; metadata = "" })

unfoldable pub given : Option String → String → String
given none h = h
given (some after) h = after

unfoldable pub extract_token : Request → String
unfolding given
extract_token r =
    let h = r.header "Authorization" in if h == "" then r.query "token" else given r.bearer h

pub record CacheEntry : Type 0 where
  pub identity : Identity
  pub allowed : Bool
  pub expires : ℕ

-- The developer's answer to a call: no answer, a status, and for 200 the decoded body.
pub record VerifyResponse : Type 0 where
  pub allowed : Bool
  pub user_id : String
  pub metadata : String

pub data Answer : Type 0 where
  no_answer : Answer
  status : ℕ → Option VerifyResponse → Answer

-- `cacheTTL`, in the clock's units, and the cache by token and document. `calls` are the requests
-- sent so far, oldest first.
pub record WebhookAuth : Type 0 where
  pub cache_ttl : ℤ
  pub cache : Map CacheEntry
  pub calls : List (String × String)

-- `cacheTTL <= 0` has no cache.
unfoldable pub ttl_of : ℤ → Option ℕ
ttl_of (pos zero) = none
ttl_of (pos (suc n)) = some (suc n)
ttl_of (negsuc n) = none

unfoldable pub fresh_entry :
    ℕ → String → Option CacheEntry → WebhookAuth → Option (Identity × Bool) × WebhookAuth
fresh_entry now key none w = (none, w)
fresh_entry now key (some e) w =
    if ltb e.expires now
    then (none, record w { cache = erase key w.cache })
    else (some (e.identity, e.allowed), w)

-- `lookup` at the time `now`.
unfoldable pub cached : ℕ → String → WebhookAuth → Option (Identity × Bool) × WebhookAuth
unfolding ttl_of fresh_entry
cached now key w = elim (ttl_of w.cache_ttl) [
  | none ↦ (none, w)
  | some ttl ↦ fresh_entry now key (lookup key w.cache) w
]

-- `store` at the time `now`.
unfoldable pub store : ℕ → String → Identity → Bool → WebhookAuth → WebhookAuth
unfolding ttl_of
store now key id allowed w = elim (ttl_of w.cache_ttl) [
  | none ↦ w
  | some ttl ↦ record w {
    cache = insert key (record { identity = id; allowed = allowed; expires = now + ttl }) w.cache;
  }
]

abbrev pub Reply : Type 0
Reply = Result AuthError Identity × WebhookAuth

unfoldable pub deny : ℕ → String → WebhookAuth → Reply
unfolding store
deny now key w = (err unauthorized, store now key no_identity false w)

unfoldable pub judge_body : ℕ → String → Option VerifyResponse → WebhookAuth → Reply
unfolding deny store
judge_body now key none w = (err (failed "decode verify response"), w)
judge_body now key (some vr) w =
    let id : Identity = record { user_id = vr.user_id; metadata = vr.metadata } in
    if vr.allowed then (ok id, store now key id true w) else deny now key w

unfoldable pub judge : ℕ → String → Answer → WebhookAuth → Reply
unfolding deny judge_body
judge now key no_answer w = (err unauthorized, w)
judge now key (status code body) w =
    if eqb code 200 then judge_body now key body w else deny now key w

-- The rest of `Authenticate` after the cache: a hit, or a call of the endpoint, whose answer comes
-- at the time `then_`.
unfoldable pub after_cache :
    ℕ → String → Answer → String × String → Option (Identity × Bool) × WebhookAuth → Reply
unfolding judge
after_cache then_ key a call (none, w) =
    judge then_ key a (record w { calls = w.calls ++ call ∷ [] })
after_cache then_ key a call (some (id, allowed), w) =
    if allowed then (ok id, w) else (err unauthorized, w)

-- `Authenticate`, whose cache is read at the time `now`.
unfoldable pub authenticate : ℕ → ℕ → Answer → Request → WebhookAuth → Reply
unfolding after_cache cached extract_token
authenticate now then_ a r w =
    let token = extract_token r in
    let doc_id = r.query "doc_id" in
    let key = cache_key token doc_id in after_cache then_ key a (token, doc_id) (cached now key w)
