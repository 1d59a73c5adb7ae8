-- ===== src/Tests/Racing.antt =====
-- Loads of one document that run at the same time, and one that runs while the document is deleted.
use open_sync_crdt.Prelude.{true, [], ◌∷◌, refl}
use open_sync_crdt.Prelude.Map.{lookup}
use open_sync_crdt.Storage.Backends.{sqlite}
use open_sync_crdt.Storage.Backends.Conform.{sqlite-Contract}
use open_sync_crdt.Storage.Db.Consistent.{IsConsistent-empty}
use open_sync_crdt.Storage.Db.{
  select_snapshot, select_ops_since, newest, ops_of, select_latest_seq, find_doc, insert_document,
  insert_operation, update_latest_seq, delete_document_rows,
}
use open_sync_crdt.Storage.Sqlite as Sqlite
use open_sync_crdt.Storage.Sql.Laws.{session_views}
use open_sync_crdt.Sync.{load_doc}
use open_sync_crdt.Sync.Interleave.{LoadWorld, idle, Reach}
use open_sync_crdt.Sync.Interleave.Deletion.{IsRevived, deletion-revives}
use open_sync_crdt.Tests.Samples.{json, automerge, automerge-IsAutomerge, options, engine, calm}

abbrev world : LoadWorld (sqlite json) automerge
world = record { engine = engine; loads = λ t. idle }

-- A store that holds one operation, and nothing in the cache.
abbrev stored : LoadWorld (sqlite json) automerge
stored = record {
  engine = record engine { store = (Sqlite.append_op "d" (3 ∷ 4 ∷ []) "s" calm).1 };
  loads = λ t. idle;
}

deletion-revives_example :
    (w : LoadWorld (sqlite json) automerge) × (Reach (sqlite json) automerge options true stored w)
    × IsRevived
        (sqlite json)
        automerge
        session_views
        (sqlite-Contract json)
        automerge-IsAutomerge
        options
        "d"
        (3 ∷ 4 ∷ [])
        w.engine
unfolding lookup load_doc Sqlite.append_op Sqlite.get_snapshot Sqlite.get_ops_since
    Sqlite.delete_document select_latest_seq find_doc insert_document insert_operation
    update_latest_seq select_snapshot select_ops_since delete_document_rows newest ops_of
deletion-revives_example =
    deletion-revives (sqlite json) automerge session_views (sqlite-Contract json)
      automerge-IsAutomerge options stored 0 "d" (3 ∷ 4 ∷ [])
      ((sqlite-Contract json).append_ok "d" (3 ∷ 4 ∷ []) "s" calm 1 IsConsistent-empty refl).1.valid
      refl refl refl refl
