-- ===== src/Storage/Db/Append.antt =====
-- What a committed append leaves in the tables, as one function, and how the three tables read
-- after it.
use mathlib.Core.List.{append-nil}
use open_sync_crdt.Prelude.{
  ℕ, ◌+◌, String, Bytes, false, none, some, List, [], ◌∷◌, ◌++◌, ◌≡◌, refl, ◌==◌, eq_iff, arith,
  if◌then◌else◌, select, select-append, String-cases, subst, inl, inr, eq_refl,
}
use open_sync_crdt.Storage.{StoredOp}
use open_sync_crdt.Storage.Db.{Db, DocRow, find_doc, ops_of, of_doc, latest_of, set_latest}

abbrev pub latest : String → Db → ℕ
latest id db = latest_of (find_doc id db.documents)

abbrev pub fresh_row : String → ℕ → DocRow
fresh_row id now = record {
  id = id;
  metadata = "{}";
  latest_seq = 0;
  created_at = now;
  updated_at = now;
}

-- The documents table once the row is there.
unfoldable pub with_row : String → ℕ → List DocRow → List DocRow
with_row id now rs = elim (find_doc id rs) [ some _ ↦ rs | none ↦ rs ++ fresh_row id now ∷ [] ]

abbrev pub next_op : String → Bytes → String → ℕ → Db → StoredOp
next_op id change session now db = record {
  seq = latest id db + 1;
  doc_id = id;
  session_id = session;
  payload = change;
  created_at = now;
}

unfoldable pub committed : String → Bytes → String → ℕ → Db → Db
unfolding with_row set_latest
committed id change session now db = record db {
  documents = set_latest id (latest id db + 1) now (with_row id now db.documents);
  operations = db.operations ++ next_op id change session now db ∷ [];
}

pub find_doc-append :
    (id : String) (rs : List DocRow) (r : DocRow)
    → find_doc id (rs ++ r ∷ [])
      ≡ elim (find_doc id rs) [ some x ↦ some x | none ↦ if r.id == id then some r else none ]
unfolding find_doc
find_doc-append id [] r = ground arith
find_doc-append id (x ∷ rs) r = ground (arith, find_doc-append id rs r)

pub latest-set_latest :
    (id j : String) (n now : ℕ) (rs : List DocRow)
    → latest_of (find_doc j (set_latest id n now rs))
      ≡ elim (find_doc j rs) [ none ↦ 0 | some r ↦ if id == j then n else r.latest_seq ]
unfolding find_doc set_latest latest_of
latest-set_latest id j n now [] = refl
latest-set_latest id j n now (r ∷ rs) =
    ground (arith, latest-set_latest id j n now rs, eq_iff r.id id, eq_iff r.id j, eq_iff id j)

pub find_doc-set_latest :
    (id j : String) (n now : ℕ) (rs : List DocRow)
    → find_doc j (set_latest id n now rs) ≡ none
    → find_doc j rs ≡ none
unfolding find_doc set_latest
find_doc-set_latest id j n now [] h = refl
find_doc-set_latest id j n now (r ∷ rs) h = ground (arith, find_doc-set_latest id j n now rs)

pub find_doc-with_row :
    (id j : String) (now : ℕ) (rs : List DocRow)
    → find_doc j (with_row id now rs) ≡ elim (find_doc j rs) [
      | some x ↦ some x
      | none ↦ if id == j then some (fresh_row id now) else none
    ]
unfolding with_row
find_doc-with_row id j now rs = elim (String-cases id j) [
  | inl (e, t) ↦
      subst
        (λ k. find_doc k (with_row id now rs) ≡ elim (find_doc k rs) [
          | some x ↦ some x
          | none ↦ if id == k then some (fresh_row id now) else none
        ])
        e (ground (arith, find_doc-append id rs (fresh_row id now), eq_refl id))
  | inr (ne, f) ↦ ground (arith, find_doc-append j rs (fresh_row id now))
]

module _ (id : String) (change : Bytes) (session : String) (now : ℕ) (db : Db) where
  -- The log of the document gains the new operation at its end.
  pub ops_of-committed :
      ops_of id (committed id change session now db)
      ≡ ops_of id db ++ next_op id change session now db ∷ []
  unfolding ops_of committed
  ops_of-committed = rw select-append (rw eq_refl)

  pub ops_of-committed_ne :
      (j : String) → (id == j) ≡ false → ops_of j (committed id change session now db) ≡ ops_of j db
  unfolding ops_of committed
  ops_of-committed_ne j h = rw select-append (rw h (append-nil (select (of_doc j) db.operations)))

  pub latest-committed : latest id (committed id change session now db) ≡ latest id db + 1
  unfolding committed latest_of
  latest-committed = ground (
    arith,
    latest-set_latest id id (latest id db + 1) now (with_row id now db.documents),
    find_doc-with_row id id now db.documents,
    eq_refl id,
  )

  pub latest-committed_ne :
      (j : String) → (id == j) ≡ false → latest j (committed id change session now db) ≡ latest j db
  unfolding committed latest_of
  latest-committed_ne j h = ground (
    arith,
    latest-set_latest id j (latest id db + 1) now (with_row id now db.documents),
    find_doc-with_row id j now db.documents,
  )

  -- An append removes no document.
  pub find_doc-committed :
      (j : String)
      → find_doc j (committed id change session now db).documents ≡ none
      → find_doc j db.documents ≡ none
  unfolding committed
  find_doc-committed j h = ground (
    arith,
    find_doc-set_latest id j (latest id db + 1) now (with_row id now db.documents),
    find_doc-with_row id j now db.documents,
  )
