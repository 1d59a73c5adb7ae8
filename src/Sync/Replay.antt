-- ===== src/Sync/Replay.antt =====
-- internal/sync/replay.go: the catch-up of a subscriber, in batches.
pub mod Batches
use open_sync_crdt.Prelude.{
  ℕ, zero, suc, ◌+◌, ◌-◌, ◌*◌, ◌/◌, String, Bool, true, false, List, [], ◌∷◌, ◌++◌, map, eqb, ltb,
  if◌then◌else◌, length, take, drop, Result, ok, err,
}
use open_sync_crdt.Prelude.Int.{ℤ}
use open_sync_crdt.Protocol.{Replay, ReplayOp, new_replay}
use open_sync_crdt.Storage.{StoreError, StoredOp}
use open_sync_crdt.Storage.Contract.{Store}
use open_sync_crdt.Sync.{EngineError, store_error}

unfoldable pub to_replay_op : StoredOp → ReplayOp
to_replay_op o = record { seq = o.seq; from_session = o.session_id; payload = o.payload }

-- `ops[start:end]`
unfoldable pub slice {ℓ} : {A : Type ℓ} → ℕ → ℕ → List A → List A
slice start end xs = take (end - start) (drop start xs)

-- The number of batches: one at least.
unfoldable pub total_batches : ℕ → ℕ → ℕ
total_batches size count = let total = (count + size - 1) / size in if eqb total 0 then 1 else total

module _ (id : String) (size : ℕ) (ops : List StoredOp) where
  batch_end : ℕ → ℕ
  batch_end start = if ltb (length ops) (start + size) then length ops else start + size

  unfoldable pub batch_message : ℕ → ℕ → Replay
  unfolding batch_end slice to_replay_op new_replay
  batch_message total batch =
      let start = batch * size in
      new_replay id (map to_replay_op (slice start (batch_end start) ops)) (batch + 1) total
        (eqb (batch + 1) total)

  -- The loop from one batch on, for the rounds that are left: it stops where `deliver` fails.
  module _ {ℓ} {D : Type ℓ} (deliver : Replay → D → Bool × D) where
    unfoldable pub deliver_from : ℕ → ℕ → ℕ → D → Bool × D
    deliver_from total zero batch d = (true, d)
    deliver_from total (suc left) batch d =
        let (fine, d') = deliver (batch_message total batch) d in
        let rest = deliver_from total left (batch + 1) d' in if fine then rest else (false, d')

pub data ReplayError : Type 0 where
  load_failed : StoreError → ReplayError
  not_delivered : ReplayError

module _ (st : Store) (size : ℕ) {D : Type 0} (deliver : Replay → D → Bool × D) where
  unfoldable pub delivered : Bool × D → Result ReplayError Unit × D
  delivered (true, d) = (ok tt, d)
  delivered (false, d) = (err not_delivered, d)

  unfoldable pub replay_ops :
      String → Result StoreError (List StoredOp) → D → Result ReplayError Unit × D
  unfolding delivered total_batches deliver_from
  replay_ops id (err e) d = (err (load_failed e), d)
  replay_ops id (ok ops) d =
      let total = total_batches size (length ops) in
      delivered (deliver_from id size ops deliver total total 0 d)

  unfoldable pub replay : String → ℤ → st.State → D → Result ReplayError Unit × st.State × D
  unfolding replay_ops
  replay id after s d =
      let (r, s') = st.get_ops_since id after s in let (r', d') = replay_ops id r d in (r', s', d')
