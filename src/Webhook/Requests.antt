-- ===== src/Webhook/Requests.antt =====
-- Sign and Verify of internal/webhook/signer.go, and the requests that Emit and post of dispatcher.go
-- send: their body, their headers and how often. HMAC-SHA256 and encoding/json are parameters.
pub mod Signed
use open_sync_crdt.Prelude.{
  ℕ, zero, suc, ◌+◌, ◌/◌, ◌%◌, ◌<◌, String, Bytes, Bool, true, false, Option, none, some, List, [],
  ◌∷◌, ◌==◌, ltb, length, subst, ◌⊎◌, if◌then◌else◌, ◌≡◌, refl, ap, sym, ◌∙◌, arith, ◌↔◌, eqb,
  eq_refl, Option-cases, inl, inr, Bool-cases,
}
use open_sync_crdt.Prelude.Int.{ℤ, pos}
use open_sync_crdt.Prelude.Map.{Map, lookup, insert, lookup-insert}
use open_sync_crdt.Prelude.Text.{Text, codes, same_text}
use open_sync_crdt.Prelude.Text.Decimal.{decimal}
use open_sync_crdt.Sync.{Field, text}
use open_sync_crdt.Webhook.{deliver, Delivery}

unfoldable pub hex_digit : ℕ → ℕ
hex_digit n = if ltb n 10 then 48 + n else 87 + n

-- `hex.EncodeToString`
unfoldable pub hex : Bytes → Text
unfolding hex_digit
hex [] = []
hex (b ∷ bs) = hex_digit (b / 16) ∷ hex_digit (b % 16) ∷ hex bs

-- HMAC-SHA256 by key and message, and json.Marshal of a body.
pub record Crypto : Type 0 where
  pub mac : Text → Bytes → Bytes
  pub marshal : Map Field → Option Bytes

unfoldable pub AreBytes : Bytes → Type 0
AreBytes [] = Unit
AreBytes (b ∷ bs) = (b < 256) × AreBytes bs

-- The body that Emit makes of an event's fields.
unfoldable pub event_body : String → String → Map Field → Map Field
unfolding insert
event_body event timestamp fields =
    insert "timestamp" (text timestamp) (insert "event" (text event) fields)

-- What post sends.
pub record WebhookRequest : Type 0 where
  pub url : String
  pub content_type : Text
  pub event : String
  pub signature : Text
  pub timestamp : Text
  pub payload : Bytes

unfoldable pub repeat : ℕ → WebhookRequest → List WebhookRequest
repeat zero r = []
repeat (suc n) r = r ∷ repeat n r

module _ (crypto : Crypto) where
  -- `Sign`
  unfoldable pub sign : Text → Bytes → Text
  unfolding hex
  sign secret body = hex (crypto.mac secret body)

  -- `Verify`
  unfoldable pub verify : Text → Bytes → Text → Bool
  unfolding sign same_text
  verify secret body signature = same_text (sign secret body) signature

  unfoldable pub signed_request : Text → String → String → Bytes → ℕ → WebhookRequest
  unfolding sign decimal
  signed_request secret url event payload unix = record {
    url = url;
    content_type = codes "application/json";
    event = event;
    signature = sign secret payload;
    timestamp = decimal (pos unix);
    payload = payload;
  }

  -- One request for each try of the delivery, all the same.
  deliveries : Text → ℤ → (ℕ → Option ℕ) → String → String → ℕ → Option Bytes → List WebhookRequest
  unfolding repeat signed_request deliver
  deliveries secret max_retries answers event url unix none = []
  deliveries secret max_retries answers event url unix (some payload) =
      repeat (deliver answers max_retries).posts (signed_request secret url event payload unix)

  -- `Emit` and what its delivery sends: nothing for an event without a URL, or a body that does not
  -- encode.
  unfoldable pub emit_requests :
      Map String → Text → ℤ → (ℕ → Option ℕ) → String → Map Field → String → ℕ → List WebhookRequest
  unfolding deliveries event_body
  emit_requests events secret max_retries answers event fields timestamp unix =
      elim (lookup event events) [
        | none ↦ []
        | some url ↦
            deliveries secret max_retries answers event url unix
              (crypto.marshal (event_body event timestamp fields))
      ]
