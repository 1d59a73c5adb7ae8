-- ===== src/Server/Connection/Joining.antt =====
-- A subscriber that joins while changes are committed: handleSubscribe of internal/server/connection.go
-- joins the document's set before Replay of internal/sync/replay.go reads the log; Submit of
-- internal/sync/engine.go appends a change and then broadcasts it, both under the document's lock.
-- Between these segments other goroutines run. `numbers` has the numbers that the subscriber `k` was
-- offered, by a broadcast or in a replay.
use open_sync_crdt.Prelude.{
  ℕ, ◌+◌, ◌≤◌, ◌<◌, String, Bytes, Bool, true, Option, none, some, List, [], ◌∷◌, ◌++◌, ◌≡◌, length,
  map, ok, if◌then◌else◌, ◌⊎◌,
}
use open_sync_crdt.Prelude.Int.{pos}
use open_sync_crdt.Storage.{StoredOp}
use open_sync_crdt.Storage.Contract.{Store, Contract, Views}
use open_sync_crdt.Server.{Hub, members, has_member, subscribe}

module _ (st : Store) where
  -- What is committed but not yet broadcast, and whether the subscriber has its replay.
  pub record Joining : Type 0 where
    pub store : st.State
    pub hub : Hub
    pub pending : Option ℕ
    pub numbers : List ℕ
    pub has_replay : Bool

  unfoldable pub announced_to : ℕ → String → ℕ → Joining → List ℕ
  announced_to k id n w = if has_member k (members id w.hub) then w.numbers ++ n ∷ [] else w.numbers

  -- A segment: an append, the broadcast of what was appended, somebody's subscription, or the
  -- replay of the subscriber `k`, who is in the set by then.
  pub data Segment (k : ℕ) (id : String) (after : ℕ) (w : Joining) : Joining → Type 0 where
    on_commit :
        (session : String) (payload : Bytes) (n : ℕ)
        → w.pending ≡ none
        → (st.append_op id payload session w.store).0 ≡ ok n
        → Segment k id after w
            (record w { store = (st.append_op id payload session w.store).1; pending = some n })
    on_announce :
        (n : ℕ)
        → w.pending ≡ some n
        → Segment k id after w (record w { pending = none; numbers = announced_to k id n w })
    on_join : (c : ℕ) → Segment k id after w (record w { hub = subscribe id c w.hub })
    on_replay :
        (os : List StoredOp)
        → has_member k (members id w.hub) ≡ true
        → (st.get_ops_since id (pos after) w.store).0 ≡ ok os
        → Segment k id after w (record w {
          store = (st.get_ops_since id (pos after) w.store).1;
          numbers = w.numbers ++ map (λ o. o.seq) os;
          has_replay = true;
        })

  pub data Joins (k : ℕ) (id : String) (after : ℕ) (w : Joining) : Joining → Type 0 where
    begins : Joins k id after w w
    then_ : {a b : Joining} → Joins k id after w a → Segment k id after a b → Joins k id after w b

-- The operations are numbered from `n + 1` on, in order.
unfoldable pub IsNumbered : ℕ → List StoredOp → Type 0
IsNumbered n [] = Unit
IsNumbered n (o ∷ os) = (o.seq ≡ n + 1) × IsNumbered (n + 1) os

module _ (st : Store) (v : Views st.State) (law : Contract st v) (k : ℕ) (id : String)
    (after : ℕ) where
  -- What the subscriber misses of the log is at most the change that is about to be broadcast.
  record IsCaughtUp (w : Joining st) : Type 0 where
    valid : v.IsValid w.store
    numbered : IsNumbered 0 (v.log id w.store)
    in_set : w.has_replay ≡ true → has_member k (members id w.hub) ≡ true
    seen :
        w.has_replay ≡ true
        → (i : ℕ) → after < i
        → i ≤ length (v.log id w.store)
        → (has_member i w.numbers ≡ true) ⊎ (w.pending ≡ some i)
