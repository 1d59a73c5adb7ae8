-- ===== src/Tests/Sending.antt =====
-- An event that is sent twice, signed.
use open_sync_crdt.Prelude.{ℕ, String, Option, some, [], ◌∷◌, eqb, if◌then◌else◌}
use open_sync_crdt.Prelude.Map.{Map}
use open_sync_crdt.Sync.{Field, text}
use open_sync_crdt.Webhook.Requests.{Crypto}

-- A MAC of one byte, and a coder of any body.
abbrev crypto : Crypto
crypto = record { mac = λ s b. 171 ∷ []; marshal = λ m. some (2 ∷ []) }

abbrev created_fields : Map Field
created_fields = ("doc_id", text "d") ∷ []

-- The first try fails and the second succeeds.
abbrev replies : ℕ → Option ℕ
replies k = if eqb k 1 then some 500 else some 204

abbrev urls : Map String
urls = ("on_document_created", "http://a") ∷ []
