-- ===== src/Config/Events.antt =====
-- applyWebhookEventEnv of internal/config/config.go: the variables WEBHOOK_<EVENT>_URL.
pub mod Names
pub mod Sets
use open_sync_crdt.Prelude.{
  ℕ, ◌-◌, Bool, true, false, not, ◌&&◌, ◌||◌, Option, none, some, List, [], ◌∷◌, length, take, drop,
  ltb, if◌then◌else◌,
}
use open_sync_crdt.Prelude.Text.{
  Text, codes, same_text, cut_at, has_prefix, has_suffix, to_lower, is_word,
}

-- What a Go call does: it panics, or it returns.
pub data Outcome (A : Type 0) : Type 0 where
  panics : Outcome A
  returns : A → Outcome A

unfoldable pub and_then : {A B : Type 0} → Outcome A → (A → Outcome B) → Outcome B
and_then panics f = panics
and_then (returns x) f = f x

abbrev pub EventUrls : Type 0
EventUrls = List (Text × Text)

-- `cfg.Webhooks.Events[name] = val`
unfoldable pub set_event : Text → Text → EventUrls → EventUrls
unfolding same_text
set_event name val [] = (name, val) ∷ []
set_event name val ((other, old) ∷ rest) =
    let more = set_event name val rest in
    if same_text other name then (name, val) ∷ rest else (other, old) ∷ more

-- `s[low:high]`
unfoldable pub slice : Text → ℕ → ℕ → Outcome Text
slice s low high =
    if ltb high low || ltb (length s) high then panics else returns (take (high - low) (drop low s))

-- `SECRET`, `TIMEOUT`, `MAX_RETRIES` and the empty name are no events.
unfoldable pub is_reserved : Text → Bool
unfolding is_word
is_reserved name =
    is_word name "SECRET"
    || (is_word name "TIMEOUT" || (is_word name "MAX_RETRIES" || is_word name ""))

named_event : Text → EventUrls → Text → Outcome EventUrls
unfolding set_event is_reserved to_lower
named_event val events name =
    if is_reserved name then returns events else returns (set_event (to_lower name) val events)

event_entry : Text → Text → EventUrls → Outcome EventUrls
unfolding slice and_then named_event has_prefix has_suffix
event_entry key val events =
    if not (has_prefix key (codes "WEBHOOK_")) || not (has_suffix key (codes "_URL"))
    then returns events
    else and_then (slice key 8 (length key - 4)) (named_event val events)

cut_entry : Option (Text × Text) → EventUrls → Outcome EventUrls
unfolding event_entry
cut_entry none events = returns events
cut_entry (some (key, val)) events = event_entry key val events

-- One line of the environment.
unfoldable pub apply_event : Text → EventUrls → Outcome EventUrls
unfolding cut_entry cut_at
apply_event kv = cut_entry (cut_at b'=' kv)

unfoldable pub apply_webhook_event_env : List Text → EventUrls → Outcome EventUrls
unfolding and_then apply_event
apply_webhook_event_env [] events = returns events
apply_webhook_event_env (kv ∷ rest) events =
    and_then (apply_event kv events) (apply_webhook_event_env rest)
