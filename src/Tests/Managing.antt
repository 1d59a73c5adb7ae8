-- ===== src/Tests/Managing.antt =====
-- Requests to the management API, and an embedded engine that comes up and goes.
use open_sync_crdt.Prelude.{
  ℕ, String, Bool, true, false, Option, none, some, List, [], ◌∷◌, ◌≡◌, ◌==◌, refl, Result, ok, map,
  if◌then◌else◌, arith, any_of, inl, inr, ◌⊎◌, ◌≢◌,
}
use open_sync_crdt.Prelude.Text.{Text, codes}
use open_sync_crdt.Storage.Backends.{sqlite}
use open_sync_crdt.Storage.Backends.Conform.{sqlite-Contract}
use open_sync_crdt.Storage.Sql.Laws.{session_views}
use open_sync_crdt.Api.{Api, handle_delete_doc, handle_create_doc, OpView}
use open_sync_crdt.Api.Coherent.{IsServing, handle_create_doc-IsServing}
use open_sync_crdt.Api.Documents.{IsGone, handle_delete_doc-IsGone}
use open_sync_crdt.Api.Access.{Access, delete_doc, managed, handle}
use open_sync_crdt.Api.Access.Guard.{handle-refused, handle-IsServing}
use open_sync_crdt.Embedding.{EngineConfig, Outside, Held, new_engine}
use open_sync_crdt.Embedding.Resources.{Balanced, new_engine-Balanced}
use open_sync_crdt.Tests.Samples.{
  json, automerge, automerge-IsAutomerge, options, engine, engine-IsCoherent,
}

abbrev api : Api (sqlite json) automerge
api = record { engine = engine; emitted = [] }

-- A document, and what is left once it is deleted.
abbrev with_doc : Api (sqlite json) automerge
with_doc =
    (handle_create_doc (sqlite json) automerge (some (record { doc_id = "d"; metadata = [] }))
      api).1

with_doc-IsServing :
    IsServing
      (sqlite json)
      automerge
      session_views
      (sqlite-Contract json)
      automerge-IsAutomerge
      with_doc
with_doc-IsServing =
    handle_create_doc-IsServing (sqlite json) automerge session_views (sqlite-Contract json)
      automerge-IsAutomerge (some (record { doc_id = "d"; metadata = [] })) api engine-IsCoherent

abbrev access : Access
access = record {
  enabled = true;
  key = "k";
  allowed_origins = codes "https://a.example" ∷ [];
  cluster_mode = false;
  parse_time = λ s. none;
  health_check = none;
  render = none;
  self = record { id = "n"; addr = "h:1"; started_at = "t" };
  registry = none;
}

handle-IsServing_example :
    IsServing
      (sqlite json)
      automerge
      session_views
      (sqlite-Contract json)
      automerge-IsAutomerge
      (handle
        (sqlite json)
        automerge
        options
        access
        []
        false
        (managed (delete_doc "d"))
        "Bearer k"
        api).2
handle-IsServing_example =
    handle-IsServing (sqlite json) automerge session_views (sqlite-Contract json)
      automerge-IsAutomerge options access [] false (managed (delete_doc "d")) "Bearer k" api
      engine-IsCoherent

handle-refused_example :
    ((handle
        (sqlite json)
        automerge
        options
        access
        []
        false
        (managed (delete_doc "d"))
        "Bearer x"
        api).2
      ≡ api)
    × ((handle
          (sqlite json)
          automerge
          options
          access
          []
          false
          (managed (delete_doc "d"))
          "Bearer x"
          api).1.status
        ≡ 401)
handle-refused_example =
    handle-refused (sqlite json) automerge options access [] false (delete_doc "d") "Bearer x" api
      refl refl

handle_delete_doc-IsGone_example :
    IsGone
      (sqlite json)
      automerge
      session_views
      (sqlite-Contract json)
      "d"
      with_doc
      (handle_delete_doc (sqlite json) automerge "d" with_doc).1
unfolding handle_delete_doc open_sync_crdt.Storage.Sqlite.delete_document handle_create_doc
    open_sync_crdt.Storage.Sqlite.create_document open_sync_crdt.Storage.Metadata.marshal_metadata
    open_sync_crdt.Storage.Db.insert_document open_sync_crdt.Storage.Db.find_doc
    open_sync_crdt.Storage.Sqlite.get_document open_sync_crdt.Storage.Db.delete_document_rows
    open_sync_crdt.Storage.Db.select_document
handle_delete_doc-IsGone_example =
    handle_delete_doc-IsGone (sqlite json) automerge session_views (sqlite-Contract json) "d"
      with_doc with_doc-IsServing.sound.valid refl

-- The history of a document without operations.
abbrev no_views : List OpView
no_views = []

abbrev embedded : EngineConfig
embedded = record { storage = none; auth = none; full = none; node_id = [] }

abbrev outside : Outside
outside = record {
  open_sqlite = λ c. true;
  open_postgres = λ c. true;
  open_mysql = λ c. true;
  join = λ u i. true;
  leave = true;
  close_store = true;
  generate_node_id = codes "node-1";
}

abbrev held : Held
held = record { contexts = 0; stores = 0; nodes = 0 }

new_engine-Balanced_example : Balanced outside held (new_engine outside embedded held)
new_engine-Balanced_example = new_engine-Balanced outside embedded held
