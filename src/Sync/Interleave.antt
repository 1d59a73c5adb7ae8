-- ===== src/Sync/Interleave.antt =====
-- internal/sync/engine.go: state() in the segments between which other goroutines run. It looks
-- the document up under the engine's lock, reads the store without a lock (GetSnapshot, then
-- GetOpsSince), and takes the lock again to put the document into the cache or to drop it for one
-- that another goroutine has put there. What is done with a cached document is done under that
-- document's lock, as one step. The management API deletes in two steps: from the store, then
-- from the cache.
pub mod Leaves
pub mod Safe
pub mod Alone
pub mod Deletion
use open_sync_crdt.Prelude.{
  ℕ, String, Bytes, Bool, true, false, none, some, [], ◌≡◌, refl, if◌then◌else◌, eqb, Result, ok,
  err,
}
use open_sync_crdt.Prelude.Int.{pos}
use open_sync_crdt.Prelude.Map.{lookup, insert}
use open_sync_crdt.Storage.{StoreError, no_snapshot}
use open_sync_crdt.Storage.Contract.{Store}
use open_sync_crdt.Crdt.{Automerge}
use open_sync_crdt.Sync.{
  Engine, Options, EngineError, load_tail, submit, take_snapshot, export, forget,
}
use open_sync_crdt.Sync.Restart.{IsAppendError}

module _ (st : Store) (am : Automerge) where
  -- How far one goroutine's call of state() has come.
  pub data Load : Type 0 where
    idle : Load
    missed : String → Load
    read : String → Bytes → ℕ → Load
    loaded : String → am.Doc → Load

  -- The engine, and the load of each goroutine.
  pub record LoadWorld : Type 0 where
    pub engine : Engine st am
    pub loads : ℕ → Load

  unfoldable pub set_load : ℕ → Load → (ℕ → Load) → ℕ → Load
  set_load t p loads u = if eqb t u then p else loads u

  unfoldable pub with_state : st.State → Engine st am → Engine st am
  with_state s e = record e { store = s }

  -- A failed read ends the load; no snapshot is a snapshot of nothing, at zero.
  unfoldable pub after_snapshot : String → Result StoreError (Bytes × ℕ) → Load
  after_snapshot id (ok (b, n)) = read id b n
  after_snapshot id (err no_snapshot) = read id [] 0
  after_snapshot id (err _) = idle

  unfoldable pub after_ops : String → Result EngineError am.Doc → Load
  after_ops id (ok d) = loaded id d
  after_ops id (err x) = idle

  -- The document that another goroutine has loaded meanwhile stays.
  unfoldable pub install : String → am.Doc → Engine st am → Engine st am
  install id d e = elim (lookup id e.docs) [
    | some d' ↦ e
    | none ↦ record e { docs = insert id d e.docs }
  ]

  pub install-new :
      (id : String) (d : am.Doc) (e : Engine st am)
      → lookup id e.docs ≡ none
      → install id d e ≡ record e { docs = insert id d e.docs }
  unfolding install
  install-new id d e q = rw (q, install) refl

  module _ (opts : Options) where
    -- One segment of one goroutine. Deletions are steps only where they are allowed. A Submit
    -- whose append the store refuses is not a step.
    pub data Step (deletions : Bool) (w : LoadWorld) : LoadWorld → Type 0 where
      miss :
          (t : ℕ) (id : String)
          → w.loads t ≡ idle
          → lookup id w.engine.docs ≡ none
          → Step deletions w (record w { loads = set_load t (missed id) w.loads })
      read_snapshot :
          (t : ℕ) (id : String)
          → w.loads t ≡ missed id
          → Step deletions w (record {
            engine = with_state (st.get_snapshot id w.engine.store).1 w.engine;
            loads = set_load t (after_snapshot id (st.get_snapshot id w.engine.store).0) w.loads;
          })
      read_ops :
          (t : ℕ) (id : String) (b : Bytes) (n : ℕ)
          → w.loads t ≡ read id b n
          → Step deletions w (record {
            engine = with_state (st.get_ops_since id (pos n) w.engine.store).1 w.engine;
            loads =
                set_load t
                  (after_ops id
                    (load_tail st am opts b (st.get_ops_since id (pos n) w.engine.store).0))
                  w.loads;
          })
      installed :
          (t : ℕ) (id : String) (d : am.Doc)
          → w.loads t ≡ loaded id d
          → Step deletions w
              (record { engine = install id d w.engine; loads = set_load t idle w.loads })
      on_submit :
          (id session user : String) (payload : Bytes) (d : am.Doc)
          → lookup id w.engine.docs ≡ some d
          → (IsAppendError (submit st am opts id session user payload w.engine).0 → ⊥)
          → Step deletions w
              (record w { engine = (submit st am opts id session user payload w.engine).1 })
      on_snapshot :
          (id : String) (d : am.Doc)
          → lookup id w.engine.docs ≡ some d
          → Step deletions w (record w { engine = (take_snapshot st am opts id w.engine).1 })
      on_export :
          (id : String) (d : am.Doc)
          → lookup id w.engine.docs ≡ some d
          → Step deletions w (record w { engine = (export st am opts id w.engine).1 })
      deleted :
          (id : String)
          → deletions ≡ true
          → Step deletions w
              (record w { engine = with_state (st.delete_document id w.engine.store).1 w.engine })
      forgotten :
          (id : String)
          → deletions ≡ true
          → Step deletions w (record w { engine = forget st am id w.engine })

    pub data Reach (deletions : Bool) (w : LoadWorld) : LoadWorld → Type 0 where
      here : Reach deletions w w
      then_ : {a b : LoadWorld} → Reach deletions w a → Step deletions a b → Reach deletions w b
