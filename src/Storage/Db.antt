-- ===== src/Storage/Db.antt =====
-- The three tables of the schema (`sqliteSchema` in internal/storage/sqlite.go, and the migrations
-- of the other two backends), and the SQL statements that the backends send to them. Every
-- constraint that the schema declares is part of the statement: primary keys, the foreign keys on
-- documents(id), and ON DELETE CASCADE.
pub mod Append
pub mod Keeps
pub mod Consistent
use open_sync_crdt.Prelude.{
  ℕ, zero, suc, ◌+◌, String, Bool, true, false, ◌&&◌, Option, none, some, List, [], ◌∷◌, ◌++◌,
  Bytes, ◌==◌, eqb, leb, ltb, if◌then◌else◌, Result, ok, err, select, any_of, take, drop,
}
use open_sync_crdt.Prelude.Int.{ℤ, pos, negsuc}
use open_sync_crdt.Storage.{StoredOp}

pub record DocRow : Type 0 where
  pub id : String
  pub metadata : String
  pub latest_seq : ℕ
  pub created_at : ℕ
  pub updated_at : ℕ

pub record SnapshotRow : Type 0 where
  pub doc_id : String
  pub seq : ℕ
  pub state : Bytes
  pub created_at : ℕ

-- Rows stand in the order of their insertion. A row of the operations table has the columns of
-- `StoredOp`.
pub record Db : Type 0 where
  pub documents : List DocRow
  pub operations : List StoredOp
  pub snapshots : List SnapshotRow

abbrev pub empty : Db
empty = record { documents = []; operations = []; snapshots = [] }

-- What a statement can fail with; `io` stands for everything but the constraints.
pub data SqlError : Type 0 where
  unique_violation foreign_key_violation no_rows io : SqlError

abbrev pub Statement : Type 0 → Type 0
Statement A = Db → Result SqlError A × Db

-- The row of a primary key.
unfoldable pub find_doc : String → List DocRow → Option DocRow
find_doc id [] = none
find_doc id (r ∷ rs) = if r.id == id then some r else find_doc id rs

abbrev pub of_doc : String → StoredOp → Bool
of_doc id o = o.doc_id == id

-- The document's rows of the operations table.
unfoldable pub ops_of : String → Db → List StoredOp
ops_of id db = select (of_doc id) db.operations

unfoldable pub latest_of : Option DocRow → ℕ
latest_of none = 0
latest_of (some r) = r.latest_seq

-- ORDER BY key ASC: a stable insertion sort.
module _ {ℓ} {A : Type ℓ} (key : A → ℕ) where
  unfoldable pub insert_by : A → List A → List A
  insert_by a [] = a ∷ []
  insert_by a (x ∷ xs) = if leb (key a) (key x) then a ∷ x ∷ xs else x ∷ insert_by a xs

  unfoldable pub order_by : List A → List A
  unfolding insert_by
  order_by [] = []
  order_by (x ∷ xs) = insert_by x (order_by xs)

-- ORDER BY updated_at DESC.
unfoldable pub insert_recent : DocRow → List DocRow → List DocRow
insert_recent r [] = r ∷ []
insert_recent r (x ∷ xs) =
    if leb x.updated_at r.updated_at then r ∷ x ∷ xs else x ∷ insert_recent r xs

unfoldable pub most_recent_first : List DocRow → List DocRow
unfolding insert_recent
most_recent_first [] = []
most_recent_first (r ∷ rs) = insert_recent r (most_recent_first rs)

-- INSERT INTO documents (id, metadata, latest_seq, created_at, updated_at)
unfoldable pub insert_document : DocRow → Statement Unit
insert_document row db = elim (find_doc row.id db.documents) [
  | some _ ↦ (err unique_violation, db)
  | none ↦ (ok tt, record db { documents = db.documents ++ row ∷ [] })
]

-- The same with ON CONFLICT (id) DO NOTHING, or ON DUPLICATE KEY UPDATE id = id.
unfoldable pub ensure_document : DocRow → Statement Unit
ensure_document row db = elim (find_doc row.id db.documents) [
  | some _ ↦ (ok tt, db)
  | none ↦ (ok tt, record db { documents = db.documents ++ row ∷ [] })
]

-- SELECT … FROM documents WHERE id = ?
unfoldable pub select_document : String → Statement DocRow
select_document id db = elim (find_doc id db.documents) [
  | none ↦ (err no_rows, db)
  | some r ↦ (ok r, db)
]

-- SELECT latest_seq FROM documents WHERE id = ? (with or without FOR UPDATE)
unfoldable pub select_latest_seq : String → Statement ℕ
select_latest_seq id db = elim (find_doc id db.documents) [
  | none ↦ (err no_rows, db)
  | some r ↦ (ok r.latest_seq, db)
]

abbrev pub same_key : StoredOp → StoredOp → Bool
same_key a b = (b.doc_id == a.doc_id) && eqb b.seq a.seq

-- INSERT INTO operations (doc_id, seq, session_id, payload, created_at)
unfoldable pub insert_operation : StoredOp → Statement Unit
insert_operation row db = elim (find_doc row.doc_id db.documents) [
  | none ↦ (err foreign_key_violation, db)
  | some _ ↦
      if any_of (same_key row) db.operations
      then (err unique_violation, db)
      else (ok tt, record db { operations = db.operations ++ row ∷ [] })
]

unfoldable pub set_latest : String → ℕ → ℕ → List DocRow → List DocRow
set_latest id seq now [] = []
set_latest id seq now (r ∷ rs) =
    let rest = set_latest id seq now rs in
    if r.id == id then record r { latest_seq = seq; updated_at = now } ∷ rest else r ∷ rest

-- UPDATE documents SET latest_seq = ?, updated_at = ? WHERE id = ?
unfoldable pub update_latest_seq : String → ℕ → ℕ → Statement Unit
unfolding set_latest
update_latest_seq id seq now db =
    (ok tt, record db { documents = set_latest id seq now db.documents })

abbrev pub not_doc : String → DocRow → Bool
not_doc id r = if r.id == id then false else true

abbrev pub not_op : String → StoredOp → Bool
not_op id o = if o.doc_id == id then false else true

abbrev pub not_snapshot : String → SnapshotRow → Bool
not_snapshot id s = if s.doc_id == id then false else true

-- DELETE FROM documents WHERE id = ?, with the cascade; the result is the number of rows affected.
unfoldable pub delete_document_rows : String → Statement ℕ
delete_document_rows id db = elim (find_doc id db.documents) [
  | none ↦ (ok 0, db)
  | some _ ↦ (
    ok 1,
    record {
      documents = select (not_doc id) db.documents;
      operations = select (not_op id) db.operations;
      snapshots = select (not_snapshot id) db.snapshots;
    },
  )
]

-- `seq > ?` at an int64.
abbrev pub after : ℤ → StoredOp → Bool
after (pos n) o = ltb n o.seq
after (negsuc n) o = true

-- `seq <= ?` at an int64.
abbrev pub up_to : ℤ → StoredOp → Bool
up_to (pos n) o = leb o.seq n
up_to (negsuc n) o = false

-- `seq >= ?` at an int64.
abbrev pub at_least : ℤ → StoredOp → Bool
at_least (pos n) o = leb n o.seq
at_least (negsuc n) o = true

-- SELECT … FROM operations WHERE doc_id = ? AND seq > ? ORDER BY seq ASC
unfoldable pub select_ops_since : String → ℤ → Statement (List StoredOp)
unfolding order_by
select_ops_since id n db =
    (ok (order_by (λ o. o.seq) (select (λ o. of_doc id o && after n o) db.operations)), db)

-- SELECT … FROM operations WHERE doc_id = ? AND seq >= ? AND seq <= ? ORDER BY seq ASC
unfoldable pub select_ops_between : String → ℤ → ℤ → Statement (List StoredOp)
unfolding order_by
select_ops_between id m n db = (
  ok (
      order_by (λ o. o.seq)
        (select (λ o. of_doc id o && (at_least m o && up_to n o)) db.operations)),
  db,
)

-- INSERT INTO snapshots … ON CONFLICT(doc_id, seq) DO UPDATE SET state, created_at
unfoldable pub put_snapshot : SnapshotRow → List SnapshotRow → List SnapshotRow
put_snapshot row [] = row ∷ []
put_snapshot row (s ∷ ss) =
    if (s.doc_id == row.doc_id) && eqb s.seq row.seq then row ∷ ss else s ∷ put_snapshot row ss

unfoldable pub upsert_snapshot : SnapshotRow → Statement Unit
unfolding put_snapshot
upsert_snapshot row db = elim (find_doc row.doc_id db.documents) [
  | none ↦ (err foreign_key_violation, db)
  | some _ ↦ (ok tt, record db { snapshots = put_snapshot row db.snapshots })
]

-- The later of two snapshots.
unfoldable pub newer : SnapshotRow → Option SnapshotRow → Option SnapshotRow
newer s none = some s
newer s (some t) = if ltb s.seq t.seq then some t else some s

unfoldable pub newest : String → List SnapshotRow → Option SnapshotRow
unfolding newer
newest id [] = none
newest id (s ∷ ss) = let rest = newest id ss in if s.doc_id == id then newer s rest else rest

-- SELECT state, seq FROM snapshots WHERE doc_id = ? ORDER BY seq DESC LIMIT 1
unfoldable pub select_snapshot : String → Statement SnapshotRow
unfolding newest
select_snapshot id db = elim (newest id db.snapshots) [
  | none ↦ (err no_rows, db)
  | some s ↦ (ok s, db)
]

abbrev pub updated_after : Option ℕ → DocRow → Bool
updated_after none r = true
updated_after (some t) r = leb t r.updated_at

-- `LIMIT ?` and `LIMIT ? OFFSET ?`; without a limit there is no clause at all.
unfoldable pub paginate {ℓ} : {A : Type ℓ} → ℤ → ℤ → List A → List A
paginate (pos (suc limit)) (pos offset) rs = take (suc limit) (drop offset rs)
paginate (pos (suc limit)) (negsuc n) rs = take (suc limit) rs
paginate (pos zero) offset rs = rs
paginate (negsuc n) offset rs = rs

-- SELECT … FROM documents [WHERE updated_at >= ?] ORDER BY updated_at DESC [LIMIT ? [OFFSET ?]]
unfoldable pub select_documents : Option ℕ → ℤ → ℤ → Statement (List DocRow)
unfolding most_recent_first paginate
select_documents since limit offset db =
    (ok (paginate limit offset (most_recent_first (select (updated_after since) db.documents))), db)
