-- ===== src/Storage/Sql/Laws.antt =====
-- What a statement sent to the database leaves behind, whether or not it meets a failure.
use open_sync_crdt.Prelude.{
  ℕ, Bool, true, false, Option, none, some, List, [], ◌∷◌, ◌≡◌, refl, Result, err, arith, Bytes,
  inl, inr, ◌⊎◌,
}
use open_sync_crdt.Storage.{StoreError}
use open_sync_crdt.Storage.Db.{SqlError, io, Statement, ops_of, newest, SnapshotRow}
use open_sync_crdt.Storage.Db.Consistent.{IsConsistent}
use open_sync_crdt.Storage.Sql.{Session, exec, issue}
use open_sync_crdt.Storage.Contract.{Views, SameViews}

-- The two views of a database.
abbrev pub as_snapshot : Option SnapshotRow → Option (Bytes × ℕ)
as_snapshot none = none
as_snapshot (some r) = some (r.state, r.seq)

abbrev pub session_views : Views Session
session_views = record {
  IsValid = λ s. IsConsistent s.db;
  log = λ id s. ops_of id s.db;
  snapshot = λ id s. as_snapshot (newest id s.db.snapshots);
  now = λ s. s.clock;
}

-- A session with the same tables looks the same.
pub SameViews-db : (s t : Session) → t.db ≡ s.db → SameViews session_views s t
SameViews-db s t e = record { valid = λ c. rw e c; logs = λ id. rw e; snapshots = λ id. rw e }

module _ {A B : Type 0} (q : Statement A) (k : Result SqlError A → Result StoreError B)
    (s : Session) where
  -- Either the statement ran on the tables, or it failed and they are as before.
  pub exec-cases :
      (((exec q k s).0 ≡ k (q s.db).0) × ((exec q k s).1.db ≡ (q s.db).1))
      ⊎ (((exec q k s).0 ≡ k (err io)) × ((exec q k s).1.db ≡ s.db))
  unfolding exec
  exec-cases = go s.faults
    where
      go :
          (fs : List Bool)
          → ((k (issue q fs s).0 ≡ k (q s.db).0) × ((issue q fs s).1.db ≡ (q s.db).1))
            ⊎ ((k (issue q fs s).0 ≡ k (err io)) × ((issue q fs s).1.db ≡ s.db))
      go [] = inl (refl, refl)
      go (true ∷ fs) = inr (refl, refl)
      go (false ∷ fs) = inl (refl, refl)

  -- A query leaves the tables alone.
  pub exec-read : (q s.db).1 ≡ s.db → (exec q k s).1.db ≡ s.db
  exec-read r = ground (arith, exec-cases)
