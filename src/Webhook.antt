-- ===== src/Webhook.antt =====
-- internal/webhook/dispatcher.go: which events are sent, and the retries of a delivery. net/http,
-- the timers and the endpoint are parameters: `answers k` is what the k-th try gets, a status or
-- nothing.
pub mod Requests
use open_sync_crdt.Prelude.{
  ℕ, zero, suc, ◌≡◌, ◌+◌, ◌*◌, ◌≤◌, ◌<◌, String, Bool, true, false, ◌&&◌, Option, none, some, List,
  [], ◌∷◌, ◌==◌, leb, ltb, if◌then◌else◌, ◌⊎◌,
}
use open_sync_crdt.Prelude.Int.{ℤ, pos, negsuc}
use open_sync_crdt.Prelude.Map.{Map, lookup}

-- `NewDispatcher` keeps the events that have a URL.
unfoldable pub with_url : Map String → Map String
with_url [] = []
with_url ((event, url) ∷ m) =
    let rest = with_url m in if url == "" then rest else (event, url) ∷ rest

-- `post`: no error for a status of 200 to 299.
unfoldable pub post : Option ℕ → Bool
post none = false
post (some code) = leb 200 code && ltb code 300

-- A delivery: how many requests it sent, how long it slept between them, in milliseconds, and
-- whether it gave up, which is what the error metric counts.
pub record Delivery : Type 0 where
  pub posts : ℕ
  pub sleeps : List ℕ
  pub gave_up : Bool

abbrev once : Bool → Delivery
once gave_up = record { posts = 1; sleeps = []; gave_up = gave_up }

abbrev retried : ℕ → Delivery → Delivery
retried backoff d = record { posts = suc d.posts; sleeps = backoff ∷ d.sleeps; gave_up = d.gave_up }

module _ (answers : ℕ → Option ℕ) where
  -- The loop from an attempt on, with the attempts that are left.
  unfoldable pub attempt_loop : ℕ → ℕ → ℕ → Delivery
  unfolding post
  attempt_loop zero attempt backoff = record { posts = 0; sleeps = []; gave_up = false }
  attempt_loop (suc zero) attempt backoff = if post (answers attempt) then once false else once true
  attempt_loop (suc (suc n)) attempt backoff =
      let rest = attempt_loop (suc n) (attempt + 1) (backoff * 2) in
      if post (answers attempt) then once false else retried backoff rest

  unfoldable pub attempts : ℤ → ℕ
  attempts (pos n) = suc n
  attempts (negsuc n) = 0

  unfoldable pub deliver : ℤ → Delivery
  unfolding attempt_loop attempts
  deliver max_retries = attempt_loop (attempts max_retries) 1 200

  -- `Emit`: nothing where the event has no URL.
  unfoldable pub emit : Map String → ℤ → String → Option (String × Delivery)
  unfolding deliver
  emit events max_retries event = elim (lookup event events) [
    | none ↦ none
    | some url ↦ some (url, deliver max_retries)
  ]

-- `k` sleeps, each twice as long as the one before.
unfoldable pub doubling : ℕ → ℕ → List ℕ
doubling b zero = []
doubling b (suc k) = b ∷ doubling (b * 2) k

-- All the `k` tries from `a` on fail.
unfoldable pub Fails : (ℕ → Option ℕ) → ℕ → ℕ → Type 0
Fails answers a k = (i : ℕ) → i < k → post (answers (a + i)) ≡ false

-- A delivery after `k` failures: one more request, and the sleeps in between.
abbrev pub after : ℕ → ℕ → Bool → Delivery
after b k gave_up = record { posts = suc k; sleeps = doubling b k; gave_up = gave_up }

-- From the try `a` on with `n` retries: it ends with the first success, or gives up after `n + 1`
-- failures.
unfoldable pub Delivered : (ℕ → Option ℕ) → ℕ → ℕ → ℕ → Delivery → Type 0
Delivered answers n a b d =
    ((k : ℕ) × (k ≤ n)
      × Fails answers a k
      × (post (answers (a + k)) ≡ true)
      × (d ≡ after b k false))
    ⊎ (Fails answers a (suc n) × (d ≡ after b n true))
