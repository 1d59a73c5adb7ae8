-- ===== src/Api.antt =====
-- internal/api/documents.go: the handlers of the management API for documents. net/http and the JSON
-- coders are parameters; a handler gives the response that it writes, and the next state.
pub mod Coherent
pub mod Documents
pub mod Access
use open_sync_crdt.Prelude.{
  ℕ, zero, suc, String, Bytes, Bool, true, false, Option, none, some, List, [], ◌∷◌, ◌++◌, ◌==◌,
  map, ltb, if◌then◌else◌, length, take, Result, ok, err,
}
use open_sync_crdt.Prelude.Int.{ℤ, pos, negsuc}
use open_sync_crdt.Prelude.Map.{Map}
use open_sync_crdt.Prelude.Text.{codes, atoi}
use open_sync_crdt.Storage.{
  StoreError, document_not_found, document_exists, no_snapshot, failed, StoredOp, Document,
  DocumentFilter,
}
use open_sync_crdt.Storage.Contract.{Store}
use open_sync_crdt.Crdt.{Automerge}
use open_sync_crdt.Sync.{
  Engine, Options, EngineError, Field, text, null, take_snapshot, export, forget,
}

-- `docView`
pub record DocView : Type 0 where
  pub id : String
  pub metadata : Map String
  pub latest_seq : ℕ
  pub created_at : ℕ
  pub updated_at : ℕ

unfoldable pub to_doc_view : Document → DocView
to_doc_view d = record {
  id = d.id;
  metadata = d.metadata;
  latest_seq = d.latest_seq;
  created_at = d.created_at;
  updated_at = d.updated_at;
}

-- `opView`
pub record OpView : Type 0 where
  pub seq : ℕ
  pub session_id : String
  pub payload : Bytes
  pub created_at : ℕ

unfoldable pub to_op_view : StoredOp → OpView
to_op_view o = record {
  seq = o.seq;
  session_id = o.session_id;
  payload = o.payload;
  created_at = o.created_at;
}

-- One node of `handleNodes`: its id, its address and its start.
pub record NodeInfo : Type 0 where
  pub id : String
  pub addr : String
  pub started_at : String

pub data Body : Type 0 where
  failure : String → Body
  document : DocView → Body
  documents : List DocView → Body
  deleted : String → Body
  history : String → List OpView → Body
  snapshot : String → ℕ → Body
  exported : String → Bytes → Body
  status_is : String → Body
  unavailable : String → Body
  exposition : Option String → Body
  nodes : Bool → List NodeInfo → Body
  empty : Body

pub record Response : Type 0 where
  pub status : ℕ
  pub body : Body

abbrev pub write_json : ℕ → Body → Response
write_json status body = record { status = status; body = body }

unfoldable pub write_error : ℕ → String → Response
write_error status message = write_json status (failure message)

-- `docError`
unfoldable pub doc_error : StoreError → Response
unfolding write_error
doc_error document_not_found = write_error 404 "document not found"
doc_error e = write_error 500 "internal error"

unfoldable pub atoi_default : String → ℤ → ℤ
atoi_default s def = if s == "" then def else elim (atoi (codes s)) [ none ↦ def | some n ↦ n ]

-- `if limit > 0 && len(ops) > limit { ops = ops[:limit] }`
unfoldable pub limited : {A : Type 0} → ℤ → List A → List A
limited (pos zero) ops = ops
limited (pos (suc n)) ops = if ltb (suc n) (length ops) then take (suc n) ops else ops
limited (negsuc n) ops = ops

-- The body of a POST, as it decodes.
pub record CreateBody : Type 0 where
  pub doc_id : String
  pub metadata : Map String

module _ (st : Store) (am : Automerge) where
  -- The engine, over its store, and the events emitted so far.
  pub record Api : Type 0 where
    pub engine : Engine st am
    pub emitted : List (String × List (String × Field))

  unfoldable pub with_store : st.State → Api → Api
  with_store s a = record a { engine = record a.engine { store = s } }

  created_view : Result StoreError Document → Response
  unfolding write_error to_doc_view
  created_view (err x) = write_error 500 "failed to load created document"
  created_view (ok d) = write_json 201 (document (to_doc_view d))

  created : String → Result StoreError Unit → Api → Response × Api
  unfolding write_error created_view with_store
  created id (err document_exists) a = (write_error 409 "document already exists", a)
  created id (err x) a = (write_error 500 "failed to create document", a)
  created id (ok u) a =
      let (r, s) = st.get_document id a.engine.store in (created_view r, with_store s a)

  -- `none` where the body is not JSON of that form.
  unfoldable pub handle_create_doc : Option CreateBody → Api → Response × Api
  unfolding created write_error with_store
  handle_create_doc none a = (write_error 400 "invalid JSON body", a)
  handle_create_doc (some b) a =
      let (r, s) = st.create_document b.doc_id b.metadata a.engine.store in
      if b.doc_id == ""
      then (write_error 400 "doc_id is required", a)
      else created b.doc_id r (with_store s a)

  listed : Result StoreError (List Document) → Response
  unfolding write_error to_doc_view
  listed (err x) = write_error 500 "failed to list documents"
  listed (ok ds) = write_json 200 (documents (map to_doc_view ds))

  list_by : DocumentFilter → Api → Response × Api
  unfolding listed with_store
  list_by f a = let (r, s) = st.list_documents f a.engine.store in (listed r, with_store s a)

  -- `none` where the time does not parse.
  list_after : ℤ → ℤ → Option (Option ℕ) → Api → Response × Api
  unfolding list_by write_error
  list_after limit offset none a = (write_error 400 "updated_since must be RFC3339", a)
  list_after limit offset (some since) a =
      list_by (record { updated_since = since; limit = limit; offset = offset }) a

  -- `parse_time` is time.Parse for RFC 3339, in the store's units.
  unfoldable pub handle_list_docs :
      (String → Option (Option ℕ)) → (String → String) → Api → Response × Api
  unfolding list_after atoi_default
  handle_list_docs parse_time query a =
      let limit = atoi_default (query "limit") (pos 0) in
      let offset = atoi_default (query "offset") (pos 0) in
      let since = query "updated_since" in
      list_after limit offset (if since == "" then some none else parse_time since) a

  got : Result StoreError Document → Response
  unfolding doc_error to_doc_view
  got (err x) = doc_error x
  got (ok d) = write_json 200 (document (to_doc_view d))

  unfoldable pub handle_get_doc : String → Api → Response × Api
  unfolding got with_store
  handle_get_doc id a = let (r, s) = st.get_document id a.engine.store in (got r, with_store s a)

  after_delete : String → Result StoreError Unit → Api → Response × Api
  unfolding doc_error forget
  after_delete id (err x) a = (doc_error x, a)
  after_delete id (ok u) a = (
    write_json 200 (deleted id),
    record {
      engine = forget st am id a.engine;
      emitted =
          a.emitted ++ ("on_document_deleted", ("doc_id", text id) ∷ ("user_id", null) ∷ []) ∷ [];
    },
  )

  unfoldable pub handle_delete_doc : String → Api → Response × Api
  unfolding after_delete with_store
  handle_delete_doc id a =
      let (r, s) = st.delete_document id a.engine.store in after_delete id r (with_store s a)

  -- The three handlers below first look the document up.
  found : Result StoreError Document → (Api → Response × Api) → Api → Response × Api
  unfolding doc_error
  found (err x) k a = (doc_error x, a)
  found (ok d) k a = k a

  lookup_first : String → (Api → Response × Api) → Api → Response × Api
  unfolding found with_store
  lookup_first id k a = let (r, s) = st.get_document id a.engine.store in found r k (with_store s a)

  history_of : String → ℤ → Result StoreError (List StoredOp) → Response
  unfolding write_error limited to_op_view
  history_of id limit (err x) = write_error 500 "failed to load history"
  history_of id limit (ok ops) = write_json 200 (history id (map to_op_view (limited limit ops)))

  unfoldable pub handle_history : String → (String → String) → Api → Response × Api
  unfolding lookup_first history_of with_store atoi_default
  handle_history id query = lookup_first id λ a.
      let (r, s) = st.get_ops_since id (atoi_default (query "after") (pos 0)) a.engine.store in
      (history_of id (atoi_default (query "limit") (pos 0)) r, with_store s a)

  module _ (opts : Options) where
    snapshot_taken : String → Result EngineError ℕ → Response
    unfolding write_error
    snapshot_taken id (err x) = write_error 500 "failed to snapshot"
    snapshot_taken id (ok seq) = write_json 200 (snapshot id seq)

    unfoldable pub handle_snapshot : String → Api → Response × Api
    unfolding lookup_first snapshot_taken take_snapshot
    handle_snapshot id = lookup_first id λ a.
        let (r, e) = take_snapshot st am opts id a.engine in
        (snapshot_taken id r, record a { engine = e })

    export_taken : String → Result EngineError Bytes → Response
    unfolding write_error
    export_taken id (err x) = write_error 500 "failed to export"
    export_taken id (ok state) = write_json 200 (exported id state)

    unfoldable pub handle_export : String → Api → Response × Api
    unfolding lookup_first export_taken export
    handle_export id = lookup_first id λ a.
        let (r, e) = export st am opts id a.engine in (export_taken id r, record a { engine = e })
