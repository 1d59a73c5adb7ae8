-- ===== src/Storage/Postgres/Append.antt =====
-- AppendOp of internal/storage/postgres.go: all or nothing.
use open_sync_crdt.Prelude.{ℕ, ◌+◌, String, Bytes, [], ◌≡◌, ok, err, arith, eq_refl}
use open_sync_crdt.Storage.{StoreError}
use open_sync_crdt.Storage.Db.{
  latest_of, select_latest_seq, ensure_document, insert_operation, update_latest_seq,
}
use open_sync_crdt.Storage.Db.Append.{latest, committed, with_row, find_doc-append, fresh_row}
use open_sync_crdt.Storage.Db.Consistent.{IsConsistent, next_op-free}
use open_sync_crdt.Storage.Sql.{Session, transaction-atomic}
use open_sync_crdt.Storage.Postgres.{append_op, append_body}

module _ (id : String) (change : Bytes) (session : String) (s : Session) where
  -- An append that returns an error has changed nothing, wherever the failure came.
  pub append_op-atomic :
      {e : StoreError}
      → (append_op id change session s).0 ≡ err e
      → (append_op id change session s).1.db ≡ s.db
  unfolding append_op
  append_op-atomic h = transaction-atomic (append_body id change session s.clock) s h

  -- One that returns a number has committed the operation under the next one.
  pub append_op-committed :
      {n : ℕ}
      → (append_op id change session s).0 ≡ ok n
      → (n ≡ latest id s.db + 1)
        × ((append_op id change session s).1.db ≡ committed id change session s.clock s.db)
  unfolding append_op ensure_document select_latest_seq insert_operation update_latest_seq committed
      with_row latest_of
  append_op-committed h =
      ground (arith, find_doc-append id s.db.documents (fresh_row id s.clock), eq_refl id)

  -- On consistent tables, without an outside failure, an append always commits.
  pub append_op-total :
      IsConsistent s.db
      → s.faults ≡ []
      → (append_op id change session s).0 ≡ ok (latest id s.db + 1)
  unfolding append_op ensure_document select_latest_seq insert_operation update_latest_seq latest_of
  append_op-total c h = ground (
    arith,
    next_op-free id change session s.clock c,
    find_doc-append id s.db.documents (fresh_row id s.clock),
    eq_refl id,
  )
