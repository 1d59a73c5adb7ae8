-- ===== src/Storage/Contract.antt =====
-- The `Store` interface of internal/storage/interface.go, and the contract that its comments
-- state, over two abstract views of a store: the log of each document and its latest snapshot.
use open_sync_crdt.Prelude.{
  ℕ, ◌+◌, String, Bytes, false, Option, none, some, List, [], ◌∷◌, ◌++◌, ◌≡◌, ◌==◌, if◌then◌else◌,
  leb, length, drop, Result, ok, err,
}
use open_sync_crdt.Prelude.Int.{ℤ, pos, negsuc}
use open_sync_crdt.Prelude.Map.{Map}
use open_sync_crdt.Storage.{StoreError, no_snapshot, StoredOp, Document, DocumentFilter}

-- Every method takes the store's state and gives the next one beside its result.
pub record Store : Type 1 where
  pub State : Type 0
  pub append_op : String → Bytes → String → State → Result StoreError ℕ × State
  pub get_ops_since : String → ℤ → State → Result StoreError (List StoredOp) × State
  pub get_ops_in_range : String → ℤ → ℤ → State → Result StoreError (List StoredOp) × State
  pub save_snapshot : String → Bytes → ℕ → State → Result StoreError Unit × State
  pub get_snapshot : String → State → Result StoreError (Bytes × ℕ) × State
  pub get_latest_seq : String → State → Result StoreError ℕ × State
  pub create_document : String → Map String → State → Result StoreError Unit × State
  pub get_document : String → State → Result StoreError Document × State
  pub list_documents : DocumentFilter → State → Result StoreError (List Document) × State
  pub delete_document : String → State → Result StoreError Unit × State

-- The operations with `seq > n`.
abbrev pub since : ℤ → List StoredOp → List StoredOp
since (pos n) os = drop n os
since (negsuc n) os = os

-- The snapshot at the higher sequence number; a snapshot at the same one is replaced.
abbrev pub newer_of : Bytes × ℕ → Option (Bytes × ℕ) → Option (Bytes × ℕ)
newer_of new none = some new
newer_of new (some old) = if leb old.1 new.1 then some new else some old

abbrev pub snapshot_result : Option (Bytes × ℕ) → Result StoreError (Bytes × ℕ)
snapshot_result none = err no_snapshot
snapshot_result (some x) = ok x

-- What a store looks like from outside.
pub record Views (State : Type 0) : Type 1 where
  pub IsValid : State → Type 0
  pub log : String → State → List StoredOp
  pub snapshot : String → State → Option (Bytes × ℕ)
  pub now : State → ℕ

module _ {State : Type 0} (v : Views State) where
  -- Neither view of any document has changed.
  pub record SameViews (s t : State) : Type 0 where
    pub valid : v.IsValid s → v.IsValid t
    pub logs : (id : String) → v.log id t ≡ v.log id s
    pub snapshots : (id : String) → v.snapshot id t ≡ v.snapshot id s

  -- Only the log of one document has changed: it has one more operation.
  pub record Appends (id : String) (change : Bytes) (session : String) (s t : State) : Type 0 where
    pub valid : v.IsValid t
    pub appended :
        v.log id t
        ≡ v.log id s
          ++ record {
            seq = length (v.log id s) + 1;
            doc_id = id;
            session_id = session;
            payload = change;
            created_at = v.now s;
          }
            ∷ []
    pub others : (j : String) → (id == j) ≡ false → v.log j t ≡ v.log j s
    pub snapshots : (j : String) → v.snapshot j t ≡ v.snapshot j s

  -- Only the snapshots of one document have changed.
  pub record Saves (id : String) (snapshot_bytes : Bytes) (at_seq : ℕ) (s t : State) : Type 0 where
    pub valid : v.IsValid t
    pub logs : (j : String) → v.log j t ≡ v.log j s
    pub saved : v.snapshot id t ≡ newer_of (snapshot_bytes, at_seq) (v.snapshot id s)
    pub others : (j : String) → (id == j) ≡ false → v.snapshot j t ≡ v.snapshot j s

  -- One document is gone from both views.
  pub record Deletes (id : String) (s t : State) : Type 0 where
    pub valid : v.IsValid t
    pub no_log : v.log id t ≡ []
    pub no_snapshots : v.snapshot id t ≡ none
    pub other_logs : (j : String) → (id == j) ≡ false → v.log j t ≡ v.log j s
    pub other_snapshots : (j : String) → (id == j) ≡ false → v.snapshot j t ≡ v.snapshot j s

-- The contract. Whatever outside failures a call meets, it does what it says and returns no
-- error, or returns an error and has changed nothing.
pub record Contract (st : Store) (v : Views st.State) : Type 0 where
  pub append_ok :
      (id : String) (change : Bytes) (session : String) (s : st.State) (n : ℕ)
      → v.IsValid s
      → (st.append_op id change session s).0 ≡ ok n
      → (n ≡ length (v.log id s) + 1)
        × Appends v id change session s (st.append_op id change session s).1
  pub append_err :
      (id : String) (change : Bytes) (session : String) (s : st.State) (e : StoreError)
      → (st.append_op id change session s).0 ≡ err e
      → SameViews v s (st.append_op id change session s).1
  pub since_ok :
      (id : String) (n : ℤ) (s : st.State) (os : List StoredOp)
      → v.IsValid s
      → (st.get_ops_since id n s).0 ≡ ok os
      → os ≡ since n (v.log id s)
  pub since_same : (id : String) (n : ℤ) (s : st.State) → SameViews v s (st.get_ops_since id n s).1
  pub save_ok :
      (id : String) (state : Bytes) (at_seq : ℕ) (s : st.State)
      → v.IsValid s
      → (st.save_snapshot id state at_seq s).0 ≡ ok tt
      → Saves v id state at_seq s (st.save_snapshot id state at_seq s).1
  pub save_err :
      (id : String) (state : Bytes) (at_seq : ℕ) (s : st.State) (e : StoreError)
      → (st.save_snapshot id state at_seq s).0 ≡ err e
      → SameViews v s (st.save_snapshot id state at_seq s).1
  pub snapshot_ok :
      (id : String) (s : st.State) (x : Bytes × ℕ)
      → (st.get_snapshot id s).0 ≡ ok x
      → v.snapshot id s ≡ some x
  pub snapshot_none :
      (id : String) (s : st.State)
      → (st.get_snapshot id s).0 ≡ err no_snapshot
      → v.snapshot id s ≡ none
  pub snapshot_same : (id : String) (s : st.State) → SameViews v s (st.get_snapshot id s).1
  pub latest_ok :
      (id : String) (s : st.State) (n : ℕ)
      → v.IsValid s
      → (st.get_latest_seq id s).0 ≡ ok n
      → n ≡ length (v.log id s)
  pub latest_same : (id : String) (s : st.State) → SameViews v s (st.get_latest_seq id s).1
  pub create_same :
      (id : String) (m : Map String) (s : st.State) → SameViews v s (st.create_document id m s).1
  pub delete_ok :
      (id : String) (s : st.State)
      → v.IsValid s
      → (st.delete_document id s).0 ≡ ok tt
      → Deletes v id s (st.delete_document id s).1
  pub delete_err :
      (id : String) (s : st.State) (e : StoreError)
      → (st.delete_document id s).0 ≡ err e
      → SameViews v s (st.delete_document id s).1
  pub get_same : (id : String) (s : st.State) → SameViews v s (st.get_document id s).1
  pub list_same : (f : DocumentFilter) (s : st.State) → SameViews v s (st.list_documents f s).1
