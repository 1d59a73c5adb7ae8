-- ===== src/Storage/Mysql.antt =====
-- internal/storage/mysql.go: the MySQL backend. The statements are those of Db; `now` is the clock
-- that the method reads when it starts.
use open_sync_crdt.Prelude.{ℕ, zero, suc, ◌+◌, String, Bytes, List, [], ◌∷◌, Result, ok, err}
use open_sync_crdt.Prelude.Int.{ℤ}
use open_sync_crdt.Prelude.Map.{Map}
use open_sync_crdt.Storage.{
  StoreError, document_not_found, document_exists, no_snapshot, failed, StoredOp, Document,
  DocumentFilter,
}
use open_sync_crdt.Storage.Db.{
  DocRow, SnapshotRow, SqlError, no_rows, unique_violation, insert_document, ensure_document,
  select_document, select_documents, select_latest_seq, insert_operation, update_latest_seq,
  delete_document_rows, select_ops_since, select_ops_between, upsert_snapshot, select_snapshot,
}
use open_sync_crdt.Storage.Sql.{Action, pure, ◌>>=◌, ◌>>◌, exec, wrap, transaction}
use open_sync_crdt.Storage.Metadata.{Json, marshal_metadata, scan_document}

-- The row of a document with no operation yet.
abbrev new_row : String → String → ℕ → DocRow
new_row id meta now = record {
  id = id;
  metadata = meta;
  latest_seq = 0;
  created_at = now;
  updated_at = now;
}

create_error : Result SqlError Unit → Result StoreError Unit
create_error (ok _) = ok tt
create_error (err unique_violation) = err document_exists
create_error (err e) = err (failed "create document")

insert_new : String → Result StoreError String → Action Unit
unfolding exec create_error
insert_new id (err e) s = (err e, s)
insert_new id (ok meta) s = exec (insert_document (new_row id meta s.clock)) create_error s

unfoldable pub create_document : Json → String → Map String → Action Unit
unfolding insert_new
create_document json id metadata = insert_new id (marshal_metadata json metadata)

unfoldable pub get_document : Json → String → Action Document
get_document json id = exec (select_document id) (scan_document json)

-- The loop stops at the first row that does not scan.
keep_scanned :
    Result StoreError Document
    → Result StoreError (List Document)
    → Result StoreError (List Document)
keep_scanned (err e) rest = err e
keep_scanned (ok d) (err e) = err e
keep_scanned (ok d) (ok ds) = ok (d ∷ ds)

scan_documents : Json → List DocRow → Result StoreError (List Document)
unfolding keep_scanned
scan_documents json [] = ok []
scan_documents json (r ∷ rs) = keep_scanned (scan_document json (ok r)) (scan_documents json rs)

scan_listed : Json → Result SqlError (List DocRow) → Result StoreError (List Document)
unfolding scan_documents
scan_listed json (err e) = err (failed "list documents")
scan_listed json (ok rs) = scan_documents json rs

unfoldable pub list_documents : Json → DocumentFilter → Action (List Document)
unfolding exec scan_listed
list_documents json f = exec (select_documents f.updated_since f.limit f.offset) (scan_listed json)

-- `n == 0` rows affected is ErrDocumentNotFound.
affected : Result SqlError ℕ → Result StoreError Unit
affected (err e) = err (failed "delete document")
affected (ok zero) = err document_not_found
affected (ok (suc n)) = ok tt

unfoldable pub delete_document : String → Action Unit
unfolding exec affected
delete_document id = exec (delete_document_rows id) affected

append_body : String → Bytes → String → ℕ → Action ℕ
unfolding exec
append_body id change session now = do
  exec (ensure_document (new_row id "{}" now)) (wrap "ensure document on first write")
  latest ← exec (select_latest_seq id) (wrap "read latest seq")
  exec
      (insert_operation (record {
        seq = latest + 1;
        doc_id = id;
        session_id = session;
        payload = change;
        created_at = now;
      }))
      (wrap "insert operation")
  exec (update_latest_seq id (latest + 1) now) (wrap "advance latest seq")
  pure (latest + 1)

unfoldable pub append_op : String → Bytes → String → Action ℕ
unfolding transaction append_body
append_op id change session s = transaction (append_body id change session s.clock) s

unfoldable pub get_ops_since : String → ℤ → Action (List StoredOp)
unfolding exec
get_ops_since id n = exec (select_ops_since id n) (wrap "query ops")

unfoldable pub get_ops_in_range : String → ℤ → ℤ → Action (List StoredOp)
unfolding exec
get_ops_in_range id m n = exec (select_ops_between id m n) (wrap "query ops")

zero_if_missing : Result SqlError ℕ → Result StoreError ℕ
zero_if_missing (ok n) = ok n
zero_if_missing (err no_rows) = ok 0
zero_if_missing (err e) = err (failed "get latest seq")

unfoldable pub get_latest_seq : String → Action ℕ
unfolding exec zero_if_missing
get_latest_seq id = exec (select_latest_seq id) zero_if_missing

unfoldable pub save_snapshot : String → Bytes → ℕ → Action Unit
unfolding exec
save_snapshot id state at_seq s =
    exec
      (upsert_snapshot (record { doc_id = id; seq = at_seq; state = state; created_at = s.clock }))
      (wrap "save snapshot") s

scan_snapshot : Result SqlError SnapshotRow → Result StoreError (Bytes × ℕ)
scan_snapshot (ok r) = ok (r.state, r.seq)
scan_snapshot (err no_rows) = err no_snapshot
scan_snapshot (err e) = err (failed "get snapshot")

unfoldable pub get_snapshot : String → Action (Bytes × ℕ)
unfolding exec scan_snapshot
get_snapshot id = exec (select_snapshot id) scan_snapshot
