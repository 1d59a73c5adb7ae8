-- ===== src/Storage/Db/Keeps.antt =====
-- The other statements that change the tables: what is read back afterwards, and that they keep
-- the invariant.
use open_sync_crdt.Prelude.{
  String, false, none, some, List, [], ◌∷◌, ◌≡◌, ap, ◌==◌, eq_iff, eq_refl, arith, if◌then◌else◌,
  leb, select, ◌∙◌, String-cases, Option-cases, Bool-cases, inl, inr,
}
use open_sync_crdt.Storage.{StoredOp}
use open_sync_crdt.Storage.Db.{
  Db, DocRow, SnapshotRow, find_doc, ops_of, of_doc, latest_of, newest, newer, put_snapshot,
  not_doc, not_op, not_snapshot, insert_document, delete_document_rows, upsert_snapshot,
}
use open_sync_crdt.Storage.Db.Append.{find_doc-append}
use open_sync_crdt.Storage.Db.Consistent.{IsConsistent}

-- After a snapshot is written, the newest of its document is the one written, unless one at a higher
-- sequence number was there, which stays the newest.
pub newest-put_snapshot :
    (row : SnapshotRow) (ss : List SnapshotRow)
    → newest row.doc_id (put_snapshot row ss) ≡ elim (newest row.doc_id ss) [
      | none ↦ some row
      | some t ↦ if leb t.seq row.seq then some row else some t
    ]
unfolding newest put_snapshot newer
newest-put_snapshot row [] = rw eq_refl
newest-put_snapshot row (s ∷ ss) =
    ground (arith, newest-put_snapshot row ss, eq_refl row.doc_id, eq_iff s.doc_id row.doc_id)

pub newest-put_snapshot_ne :
    (row : SnapshotRow) (id : String) (ss : List SnapshotRow)
    → (row.doc_id == id) ≡ false
    → newest id (put_snapshot row ss) ≡ newest id ss
unfolding newest put_snapshot newer
newest-put_snapshot_ne row id [] h = rw h
newest-put_snapshot_ne row id (s ∷ ss) h =
    ground (arith, newest-put_snapshot_ne row id ss, eq_iff s.doc_id row.doc_id)

-- After DELETE the document's rows are gone and the others stay, in all three tables.
pub find_doc-select :
    (id j : String) (rs : List DocRow)
    → find_doc j (select (not_doc id) rs) ≡ (if id == j then none else find_doc j rs)
unfolding find_doc
find_doc-select id j [] = ground arith
find_doc-select id j (r ∷ rs) =
    ground (arith, find_doc-select id j rs, eq_iff r.id id, eq_iff r.id j, eq_iff id j)

pub select-select :
    (id j : String) (os : List StoredOp)
    → select (of_doc j) (select (not_op id) os) ≡ (if id == j then [] else select (of_doc j) os)
select-select id j [] = ground arith
select-select id j (o ∷ os) =
    ground (arith, select-select id j os, eq_iff o.doc_id id, eq_iff o.doc_id j, eq_iff id j)

pub newest-select :
    (id j : String) (ss : List SnapshotRow)
    → newest j (select (not_snapshot id) ss) ≡ (if id == j then none else newest j ss)
unfolding newest
newest-select id j [] = ground arith
newest-select id j (s ∷ ss) =
    ground (arith, newest-select id j ss, eq_iff s.doc_id id, eq_iff s.doc_id j, eq_iff id j)

-- A new document with no operation, where the id was free.
pub insert_document-IsConsistent :
    (row : DocRow) (db : Db)
    → row.latest_seq ≡ 0
    → IsConsistent db
    → IsConsistent (insert_document row db).1
unfolding insert_document ops_of latest_of
insert_document-IsConsistent row db z c = elim (Option-cases (find_doc row.id db.documents)) [
  | inr (r, e) ↦ rw (e, insert_document) c
  | inl e ↦
      rw (e, insert_document)
        (record {
          numbered = c.numbered;
          counted =
              λ j. ground (arith, c.counted j, find_doc-append j db.documents row, eq_iff row.id j);
          owned = λ j h. c.owned j (ground (arith, find_doc-append j db.documents row));
        })
]

module _ (id : String) (db : Db) where
  abbrev pub remaining : Db
  remaining = record {
    documents = select (not_doc id) db.documents;
    operations = select (not_op id) db.operations;
    snapshots = select (not_snapshot id) db.snapshots;
  }

  pub remaining-IsConsistent : IsConsistent db → IsConsistent remaining
  unfolding ops_of latest_of
  remaining-IsConsistent c = record {
    numbered = λ j.
        rw (select-select id j db.operations)
          (elim (Bool-cases (id == j)) [ inl t ↦ rw t tt | inr f ↦ rw f (c.numbered j) ]);
    counted = λ j.
        ground
          (arith, select-select id j db.operations, find_doc-select id j db.documents, c.counted j);
    owned = λ j h.
        ground
          (arith, newest-select id j db.snapshots, find_doc-select id j db.documents, c.owned j);
  }

-- DELETE with its cascade.
pub delete-IsConsistent :
    (id : String) (db : Db) → IsConsistent db → IsConsistent (delete_document_rows id db).1
unfolding delete_document_rows
delete-IsConsistent id db c = elim (Option-cases (find_doc id db.documents)) [
  | inl e ↦ rw (e, delete_document_rows) c
  | inr (r, e) ↦ rw (e, delete_document_rows) (remaining-IsConsistent id db c)
]

-- A snapshot of a document that exists.
pub upsert-IsConsistent :
    (row : SnapshotRow) (db : Db) → IsConsistent db → IsConsistent (upsert_snapshot row db).1
unfolding upsert_snapshot ops_of
upsert-IsConsistent row db c = elim (Option-cases (find_doc row.doc_id db.documents)) [
  | inl e ↦ rw (e, upsert_snapshot) c
  | inr (r, e) ↦
      rw (e, upsert_snapshot)
        (record {
          numbered = c.numbered;
          counted = c.counted;
          owned = λ j h. elim (String-cases row.doc_id j) [
            | inl (q, t) ↦ cc (h, e, ap (λ k. find_doc k db.documents) q)
            | inr (q, f) ↦ newest-put_snapshot_ne row j db.snapshots f ∙ c.owned j h
          ];
        })
]
