-- ===== src/Sync/Interleave/Safe.antt =====
-- The loads of state() in internal/sync/engine.go that run at the same time, with submits,
-- snapshots and exports between their segments.
use open_sync_crdt.Prelude.{ℕ, none, some, [], ◌≡◌, ◌⊎◌}
use open_sync_crdt.Prelude.Map.{lookup}
use open_sync_crdt.Storage.Contract.{Store, Contract, Views}
use open_sync_crdt.Crdt.{Automerge, IsAutomerge}
use open_sync_crdt.Sync.{Engine}
use open_sync_crdt.Sync.Coherent.{Builds, IsCoherent}
use open_sync_crdt.Sync.Interleave.{Load, idle, missed, read, loaded, LoadWorld}
use open_sync_crdt.Sync.Interleave.Leaves.{Leaves}

module _ (st : Store) (am : Automerge) (v : Views st.State) (law : Contract st v)
    (auto : IsAutomerge am) where
  abbrev E : Type 0
  E = Engine st am

  -- What a load holds is still what it would read, unless the document is cached by now.
  Pending : E → Load st am → Type 0
  Pending e idle = Unit
  Pending e (missed id) = Unit
  Pending e (read id b n) =
      lookup id e.docs ≡ none → (v.snapshot id e.store ≡ some (b, n)) ⊎ ((b ≡ []) × (n ≡ 0))
  Pending e (loaded id d) = lookup id e.docs ≡ none → Builds st am v law auto id e.store d

  record IsRight (w : LoadWorld st am) : Type 0 where
    coherent : IsCoherent st am v law auto w.engine
    pending : (t : ℕ) → Pending w.engine (w.loads t)
