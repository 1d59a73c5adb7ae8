-- ===== src/Tests/Serving.antt =====
-- Runs of the hub, the auth cache and the webhook deliveries.
use open_sync_crdt.Prelude.{ℕ, true, Option, none, some, [], ◌∷◌, refl, zero, suc}
use open_sync_crdt.Prelude.Int.{pos}
use open_sync_crdt.Prelude.Map.{lookup}
use open_sync_crdt.Protocol.{JsonFrames, ServerSync, new_server_sync}
use open_sync_crdt.Server.{Hub, Conns, new_conn, new_hub, subscribe, deregister, members}
use open_sync_crdt.Server.Rooms.{IsNoticed, subscribe-IsNoticed}
use open_sync_crdt.Server.Fanout.{IsOnce, IsSets, subscribe-IsSets}
use open_sync_crdt.Auth.{Identity, Request, WebhookAuth, Answer, status}

abbrev frames : JsonFrames
frames = record { marshal = λ m. some (1 ∷ []); unmarshal = λ b. none }

-- Two connections of one document, and one of another.
abbrev hub : Hub
hub = subscribe "e" 3 (subscribe "d" 2 (subscribe "d" 1 new_hub))

abbrev conns : Conns
conns k = new_conn "u"

new_hub-IsNoticed : IsNoticed new_hub
unfolding IsNoticed lookup
new_hub-IsNoticed d = refl

hub-IsNoticed : IsNoticed hub
hub-IsNoticed = subscribe-IsNoticed "e" 3 (subscribe "d" 2 (subscribe "d" 1 new_hub)) (
    subscribe-IsNoticed "d" 2 (subscribe "d" 1 new_hub)
      (subscribe-IsNoticed "d" 1 new_hub new_hub-IsNoticed))

new_hub-IsSets : IsSets new_hub
unfolding IsSets members lookup IsOnce
new_hub-IsSets d = tt

hub-IsSets : IsSets hub
hub-IsSets = subscribe-IsSets "e" 3 (subscribe "d" 2 (subscribe "d" 1 new_hub)) (
    subscribe-IsSets "d" 2 (subscribe "d" 1 new_hub)
      (subscribe-IsSets "d" 1 new_hub new_hub-IsSets))

abbrev change : ServerSync
change = new_server_sync "d" "s" 1 (9 ∷ [])

abbrev request : Request
request = record { header = λ h. "t"; bearer = none; query = λ q. "d" }

abbrev webhook_auth : WebhookAuth
webhook_auth = record { cache_ttl = pos 60; cache = []; calls = [] }

abbrev yes : Answer
yes = status 200 (some (record { allowed = true; user_id = "ann"; metadata = "" }))

abbrev ann : Identity
ann = record { user_id = "ann"; metadata = "" }

-- The first two requests fail.
abbrev answers : ℕ → Option ℕ
answers k = elim k [ zero ↦ none | suc zero ↦ none | suc (suc zero) ↦ some 500 | _ ↦ some 204 ]

-- A connection that subscribes to one document.
abbrev serve_one : Identity → Hub → Hub
serve_one id g = deregister 1 ("d" ∷ []) (subscribe "d" 1 g)
