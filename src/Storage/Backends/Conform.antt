-- ===== src/Storage/Backends/Conform.antt =====
-- Each backend keeps the contract of the `Store` interface. The methods other than AppendOp are
-- the same in all three; AppendOp of PostgreSQL and MySQL first ensures the document's row and then
-- locks it, that of SQLite reads first.
use open_sync_crdt.Prelude.{ℕ, ◌+◌, String, Bytes, ◌≡◌, refl, sym, ap, ◌∙◌, arith, ok, err}
use open_sync_crdt.Storage.{StoreError}
use open_sync_crdt.Storage.Db.Append.{latest, committed, ops_of-committed, ops_of-committed_ne}
use open_sync_crdt.Storage.Db.Consistent.{IsConsistent, committed-IsConsistent}
use open_sync_crdt.Storage.Sql.{Session, Action}
use open_sync_crdt.Storage.Sql.Laws.{session_views, SameViews-db}
use open_sync_crdt.Storage.Contract.{Contract, Appends}
use open_sync_crdt.Storage.Metadata.{Json}
use open_sync_crdt.Storage.Sqlite
use open_sync_crdt.Storage.Postgres
use open_sync_crdt.Storage.Mysql
use open_sync_crdt.Storage.Sqlite.Methods.{
  get_ops_since-log, get_ops_since-same, get_snapshot-newest, get_snapshot-missing,
  get_snapshot-same, get_latest_seq-log, get_latest_seq-same, save_snapshot-atomic,
  save_snapshot-Saves, delete_document-atomic, delete_document-Deletes, create_document-same,
  get_document-same, list_documents-same,
}
use open_sync_crdt.Storage.Backends.{sqlite}

-- The tables after a commit, seen through the two views.
committed-Appends :
    (id : String) (change : Bytes) (session : String) (s t : Session)
    → IsConsistent s.db
    → t.db ≡ committed id change session s.clock s.db
    → Appends session_views id change session s t
committed-Appends id change session s t c e = record {
  valid = rw e (committed-IsConsistent id change session s.clock c);
  appended = rw (e, ops_of-committed id change session s.clock s.db) (ground (arith, c.counted id));
  others = λ j ne. rw e (ops_of-committed_ne id change session s.clock s.db j ne);
  snapshots = λ j. rw e (unfold committed in refl);
}

module _ (json : Json) (append : String → Bytes → String → Action ℕ)
    (atomic : (id : String) (change : Bytes) (session : String) (s : Session) (e : StoreError)
      → (append id change session s).0 ≡ err e
      → (append id change session s).1.db ≡ s.db)
    (commits : (id : String) (change : Bytes) (session : String) (s : Session) (n : ℕ)
      → (append id change session s).0 ≡ ok n
      → (n ≡ latest id s.db + 1)
        × ((append id change session s).1.db ≡ committed id change session s.clock s.db)) where
  -- The contract rests on AppendOp being all or nothing.
  contract_of : Contract (record (sqlite json) { append_op = append }) session_views
  contract_of = record {
    append_ok = λ id change session s n c h.
        let (e, d) = commits id change session s n h in
        (e ∙ ap (λ m. m + 1) (sym (c.counted id)), committed-Appends id change session s _ c d);
    append_err = λ id change session s e h. SameViews-db s _ (atomic id change session s e h);
    since_ok = λ id n s os c h. get_ops_since-log id s n c h;
    since_same = λ id n s. get_ops_since-same id s n;
    save_ok = λ id state at_seq s c h. save_snapshot-Saves id state at_seq s c h;
    save_err = λ id state at_seq s e h. SameViews-db s _ (save_snapshot-atomic id state at_seq s h);
    snapshot_ok = λ id s x h. get_snapshot-newest id s h;
    snapshot_none = λ id s h. get_snapshot-missing id s h;
    snapshot_same = λ id s. get_snapshot-same id s;
    latest_ok = λ id s n c h. get_latest_seq-log id s c h;
    latest_same = λ id s. get_latest_seq-same id s;
    create_same = λ id m s. create_document-same json id m s;
    delete_ok = λ id s c h. delete_document-Deletes id s c h;
    delete_err = λ id s e h. SameViews-db s _ (delete_document-atomic id s h);
    get_same = λ id s. get_document-same json id s;
    list_same = λ f s. list_documents-same json f s;
  }

module _ (json : Json) where
  pub sqlite-Contract : Contract (sqlite json) session_views
  sqlite-Contract =
      contract_of json Sqlite.append_op
        (λ id change session s e h. Sqlite.Append.append_op-atomic id change session s h)
        (λ id change session s n h. Sqlite.Append.append_op-committed id change session s h)
