-- ===== src/Storage/Metadata.antt =====
-- The JSON text of a document's metadata, and the scan of a documents row (internal/storage/
-- sqlite.go, shared by the backends). encoding/json is a parameter.
use open_sync_crdt.Prelude.{
  String, Option, none, some, [], ◌∷◌, ◌||◌, ◌==◌, ◌≡◌, ◌≢◌, false, if◌then◌else◌, Result, ok, err,
}
use open_sync_crdt.Prelude.Map.{Map}
use open_sync_crdt.Storage.{StoreError, failed, document_not_found, Document}
use open_sync_crdt.Storage.Db.{DocRow, SqlError, no_rows}

-- json.Marshal and json.Unmarshal at map[string]string.
pub record Json : Type 0 where
  pub marshal : Map String → Option String
  pub unmarshal : String → Option (Map String)

-- What encoding/json documents: a map is read back as it was written, and the text of a map with
-- an entry is neither empty nor "{}".
pub record IsJson (json : Json) : Type 0 where
  pub round_trip :
      (m : Map String) (s : String) → json.marshal m ≡ some s → json.unmarshal s ≡ some m
  pub visible :
      (m : Map String) (s : String)
      → m ≢ []
      → json.marshal m ≡ some s
      → ((s == "") || (s == "{}")) ≡ false

abbrev or_fail : {A : Type 0} → String → Option A → Result StoreError A
or_fail what none = err (failed what)
or_fail what (some a) = ok a

module _ (json : Json) where
  unfoldable pub marshal_metadata : Map String → Result StoreError String
  marshal_metadata [] = ok "{}"
  marshal_metadata (e ∷ m) = or_fail "marshal metadata" (json.marshal (e ∷ m))

  unfoldable pub unmarshal_metadata : String → Result StoreError (Map String)
  unmarshal_metadata s =
      if (s == "") || (s == "{}") then ok [] else or_fail "unmarshal metadata" (json.unmarshal s)

  with_metadata : DocRow → Result StoreError (Map String) → Result StoreError Document
  with_metadata r (err e) = err e
  with_metadata r (ok m) = ok (record {
    id = r.id;
    metadata = m;
    latest_seq = r.latest_seq;
    created_at = r.created_at;
    updated_at = r.updated_at;
  })

  unfoldable pub scan_document : Result SqlError DocRow → Result StoreError Document
  unfolding with_metadata unmarshal_metadata
  scan_document (err no_rows) = err document_not_found
  scan_document (err e) = err (failed "scan document")
  scan_document (ok r) = with_metadata r (unmarshal_metadata r.metadata)
