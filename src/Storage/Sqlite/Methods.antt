-- ===== src/Storage/Sqlite/Methods.antt =====
-- What the methods other than AppendOp do to the two views of the tables.
use open_sync_crdt.Prelude.{
  ℕ, ◌+◌, ◌-◌, String, Bytes, none, some, List, [], ◌∷◌, ◌≡◌, refl, ap, eq_refl, arith, Result, ok,
  err, length, inl, inr, ◌&&◌, select,
}
use open_sync_crdt.Prelude.Int.{ℤ, pos, negsuc}
use open_sync_crdt.Prelude.Map.{Map}
use open_sync_crdt.Storage.{StoreError, StoredOp, DocumentFilter, no_snapshot}
use open_sync_crdt.Storage.Db.{
  Db, DocRow, ops_of, of_doc, after, newest, select_ops_since, upsert_snapshot, select_snapshot,
  select_latest_seq, select_document, select_documents, delete_document_rows, insert_document,
  latest_of, SnapshotRow, put_snapshot, put_snapshot,
}
use open_sync_crdt.Storage.Db.Consistent.{IsConsistent, select-after, order_by-Run, Run-drop}
use open_sync_crdt.Storage.Db.Keeps.{
  newest-put_snapshot, newest-put_snapshot_ne, upsert-IsConsistent, insert_document-IsConsistent,
  select-select, newest-select, remaining, remaining-IsConsistent,
}
use open_sync_crdt.Storage.Sql.{Session, wrap}
use open_sync_crdt.Storage.Sql.Laws.{
  session_views, as_snapshot, SameViews-db, exec-cases, exec-read,
}
use open_sync_crdt.Storage.Contract.{SameViews, Saves, Deletes, since}
use open_sync_crdt.Storage.Metadata.{Json, marshal_metadata, scan_document}
use open_sync_crdt.Storage.Sqlite.{
  get_ops_since, save_snapshot, get_snapshot, get_latest_seq, create_document, delete_document,
  scan_snapshot, new_row, zero_if_missing, affected, create_error, insert_new, get_document,
  list_documents, scan_listed,
}

select-and :
    (id : String) (n : ℤ) (os : List StoredOp)
    → select (λ o. of_doc id o && after n o) os ≡ select (after n) (select (of_doc id) os)
select-and id n [] = refl
select-and id (pos n) (o ∷ os) = ground (arith, select-and id (pos n) os)
select-and id (negsuc n) (o ∷ os) = ground (arith, select-and id (negsuc n) os)

sub-zero : (n : ℕ) → n - 0 ≡ n
sub-zero n = omega arith

select-after_negative : (n : ℕ) (os : List StoredOp) → select (after (negsuc n)) os ≡ os
select-after_negative n [] = refl
select-after_negative n (o ∷ os) = ap (◌∷◌ o) (select-after_negative n os)

-- The rows that GetOpsSince reads are the tail of the document's log, in order.
pub select_ops_since-log :
    (id : String) (n : ℤ) (db : Db)
    → IsConsistent db
    → (select_ops_since id n db).0 ≡ ok (since n (ops_of id db))
unfolding select_ops_since ops_of
select_ops_since-log id (pos n) db c = ap ok (
    rw
      (
        select-and id (pos n) db.operations,
        select-after 0 n (ops_of id db) (c.numbered id),
        sub-zero n,
      )
      (order_by-Run (0 + n) _ (Run-drop 0 n (ops_of id db) (c.numbered id))))
select_ops_since-log id (negsuc n) db c = ap ok (
    rw (select-and id (negsuc n) db.operations, select-after_negative n (ops_of id db))
      (order_by-Run 0 _ (c.numbered id)))

module _ (id : String) (s : Session) where
  pub get_ops_since-log :
      (n : ℤ) {os : List StoredOp}
      → IsConsistent s.db
      → (get_ops_since id n s).0 ≡ ok os
      → os ≡ since n (ops_of id s.db)
  unfolding get_ops_since
  get_ops_since-log n c h = ground (
    arith,
    exec-cases (select_ops_since id n) (wrap "query ops") s,
    select_ops_since-log id n s.db c,
  )

  pub get_ops_since-same : (n : ℤ) → SameViews session_views s (get_ops_since id n s).1
  unfolding get_ops_since select_ops_since
  get_ops_since-same n =
      SameViews-db s _ (exec-read (select_ops_since id n) (wrap "query ops") s refl)

  pub get_snapshot-newest :
      {x : Bytes × ℕ}
      → (get_snapshot id s).0 ≡ ok x
      → as_snapshot (newest id s.db.snapshots) ≡ some x
  unfolding get_snapshot select_snapshot
  get_snapshot-newest h = ground (arith, exec-cases (select_snapshot id) scan_snapshot s)

  pub get_snapshot-missing :
      (get_snapshot id s).0 ≡ err no_snapshot → as_snapshot (newest id s.db.snapshots) ≡ none
  unfolding get_snapshot select_snapshot
  get_snapshot-missing h = ground (arith, exec-cases (select_snapshot id) scan_snapshot s)

  select_snapshot-same : (select_snapshot id s.db).1 ≡ s.db
  unfolding select_snapshot
  select_snapshot-same = ground arith

  pub get_snapshot-same : SameViews session_views s (get_snapshot id s).1
  unfolding get_snapshot
  get_snapshot-same =
      SameViews-db s _ (exec-read (select_snapshot id) scan_snapshot s select_snapshot-same)

  pub get_latest_seq-log :
      {n : ℕ} → IsConsistent s.db → (get_latest_seq id s).0 ≡ ok n → n ≡ length (ops_of id s.db)
  unfolding get_latest_seq select_latest_seq latest_of
  get_latest_seq-log c h =
      ground (arith, exec-cases (select_latest_seq id) zero_if_missing s, c.counted id)

  select_latest_seq-same : (select_latest_seq id s.db).1 ≡ s.db
  unfolding select_latest_seq
  select_latest_seq-same = ground arith

  pub get_latest_seq-same : SameViews session_views s (get_latest_seq id s).1
  unfolding get_latest_seq
  get_latest_seq-same =
      SameViews-db s _ (exec-read (select_latest_seq id) zero_if_missing s select_latest_seq-same)

module _ (id : String) (snapshot : Bytes) (at_seq : ℕ) (s : Session) where
  abbrev row : SnapshotRow
  row = record { doc_id = id; seq = at_seq; state = snapshot; created_at = s.clock }

  pub save_snapshot-atomic :
      {e : StoreError}
      → (save_snapshot id snapshot at_seq s).0 ≡ err e
      → (save_snapshot id snapshot at_seq s).1.db ≡ s.db
  unfolding save_snapshot upsert_snapshot
  save_snapshot-atomic h = ground (arith, exec-cases (upsert_snapshot row) (wrap "save snapshot") s)

  pub save_snapshot-db :
      (save_snapshot id snapshot at_seq s).0 ≡ ok tt
      → (save_snapshot id snapshot at_seq s).1.db
        ≡ record s.db { snapshots = put_snapshot row s.db.snapshots }
  unfolding save_snapshot upsert_snapshot
  save_snapshot-db h = ground (arith, exec-cases (upsert_snapshot row) (wrap "save snapshot") s)

  save_snapshot-IsConsistent :
      IsConsistent s.db → IsConsistent (save_snapshot id snapshot at_seq s).1.db
  unfolding save_snapshot
  save_snapshot-IsConsistent c = elim (exec-cases (upsert_snapshot row) (wrap "save snapshot") s) [
    | inl (_, e) ↦ rw e (upsert-IsConsistent row s.db c)
    | inr (_, e) ↦ rw e c
  ]

  pub save_snapshot-Saves :
      IsConsistent s.db
      → (save_snapshot id snapshot at_seq s).0 ≡ ok tt
      → Saves session_views id snapshot at_seq s (save_snapshot id snapshot at_seq s).1
  unfolding ops_of
  save_snapshot-Saves c h = record {
    valid = save_snapshot-IsConsistent c;
    logs = λ j. rw (save_snapshot-db h);
    saved = rw (save_snapshot-db h) (ground (arith, newest-put_snapshot row s.db.snapshots));
    others = λ j ne.
        rw (save_snapshot-db h) (ap as_snapshot (newest-put_snapshot_ne row j s.db.snapshots ne));
  }

module _ (id : String) (s : Session) where
  pub delete_document-atomic :
      {e : StoreError} → (delete_document id s).0 ≡ err e → (delete_document id s).1.db ≡ s.db
  unfolding delete_document delete_document_rows
  delete_document-atomic h = ground (arith, exec-cases (delete_document_rows id) affected s)

  pub delete_document-db :
      (delete_document id s).0 ≡ ok tt → (delete_document id s).1.db ≡ remaining id s.db
  unfolding delete_document delete_document_rows
  delete_document-db h = ground (arith, exec-cases (delete_document_rows id) affected s)

  pub delete_document-Deletes :
      IsConsistent s.db
      → (delete_document id s).0 ≡ ok tt
      → Deletes session_views id s (delete_document id s).1
  unfolding ops_of
  delete_document-Deletes c h = record {
    valid = rw (delete_document-db h) (remaining-IsConsistent id s.db c);
    no_log =
        rw (delete_document-db h) (ground (arith, select-select id id s.db.operations, eq_refl id));
    no_snapshots =
        rw (delete_document-db h) (ground (arith, newest-select id id s.db.snapshots, eq_refl id));
    other_logs =
        λ j ne. rw (delete_document-db h) (ground (arith, select-select id j s.db.operations));
    other_snapshots =
        λ j ne. rw (delete_document-db h) (ground (arith, newest-select id j s.db.snapshots));
  }

insert_document-ops :
    (row : DocRow) (db : Db) (j : String) → ops_of j (insert_document row db).1 ≡ ops_of j db
unfolding insert_document ops_of
insert_document-ops row db j = ground arith

insert_document-snapshots :
    (row : DocRow) (db : Db) → (insert_document row db).1.snapshots ≡ db.snapshots
unfolding insert_document
insert_document-snapshots row db = ground arith

insert_new-same :
    (id : String) (r : Result StoreError String) (s : Session)
    → SameViews session_views s (insert_new id r s).1
unfolding insert_new
insert_new-same id (err e) s = SameViews-db s _ refl
insert_new-same id (ok meta) s =
    let new : DocRow = new_row id meta s.clock in
    elim (exec-cases (insert_document new) create_error s) [
      | inr (_, e) ↦ SameViews-db s _ e
      | inl (_, e) ↦ record {
        valid = λ c. rw e (insert_document-IsConsistent new s.db refl c);
        logs = λ j. rw e (insert_document-ops new s.db j);
        snapshots =
            λ j. rw e (ap (λ ss. as_snapshot (newest j ss)) (insert_document-snapshots new s.db));
      }
    ]

-- Creating a document touches neither its log nor its snapshots.
pub create_document-same :
    (json : Json) (id : String) (m : Map String) (s : Session)
    → SameViews session_views s (create_document json id m s).1
unfolding create_document
create_document-same json id m s = insert_new-same id (marshal_metadata json m) s

select_document-same : (id : String) (s : Session) → (select_document id s.db).1 ≡ s.db
unfolding select_document
select_document-same id s = ground arith

pub get_document-same :
    (json : Json) (id : String) (s : Session) → SameViews session_views s (get_document json id s).1
unfolding get_document
get_document-same json id s =
    SameViews-db s _
      (exec-read (select_document id) (scan_document json) s (select_document-same id s))

pub list_documents-same :
    (json : Json) (f : DocumentFilter) (s : Session)
    → SameViews session_views s (list_documents json f s).1
unfolding list_documents select_documents
list_documents-same json f s =
    SameViews-db s _
      (exec-read (select_documents f.updated_since f.limit f.offset) (scan_listed json) s refl)
