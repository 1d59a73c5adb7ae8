-- ===== src/Sync/Interleave/Alone.antt =====
-- state() of internal/sync/engine.go when no other goroutine runs between its segments.
use open_sync_crdt.Prelude.{
  ℕ, String, Bytes, Bool, false, none, [], ◌≡◌, refl, arith, Result, ok, err, eqb,
}
use open_sync_crdt.Prelude.Map.{lookup}
use open_sync_crdt.Storage.{StoreError, no_snapshot}
use open_sync_crdt.Storage.Contract.{Store}
use open_sync_crdt.Crdt.{Automerge}
use open_sync_crdt.Sync.{Engine, Options, load_doc, load_from, loaded_snapshot}
use open_sync_crdt.Sync.Interleave.{
  Load, idle, missed, read, LoadWorld, set_load, with_state, after_snapshot, after_ops, Step, miss,
  read_snapshot, read_ops, Reach, here, then_,
}

module _ (st : Store) (am : Automerge) (opts : Options) (deletions : Bool)
    (w0 : LoadWorld st am) where
  -- What goroutine `t` has reached without the others: its own load is `p`, theirs are as at first.
  pub record Only (t : ℕ) (p : Load st am) (e : Engine st am) : Type 0 where
    pub loads : ℕ → Load st am
    pub reached : Reach st am opts deletions w0 (record { engine = e; loads = loads })
    pub own : loads t ≡ p
    pub others : (u : ℕ) → eqb t u ≡ false → loads u ≡ w0.loads u

  pub step-Only :
      (t : ℕ) (p q : Load st am) (e e' : Engine st am) (o : Only t p e)
      → Step st am opts deletions
          (record { engine = e; loads = o.loads })
          (record { engine = e'; loads = set_load st am t q o.loads })
      → Only t q e'
  unfolding set_load
  step-Only t p q e e' o s = record {
    loads = set_load st am t q o.loads;
    reached = then_ o.reached s;
    own = ground arith;
    others = λ u f. rw f (o.others u f);
  }

  ops-Only :
      (t : ℕ) (id : String) (b : Bytes) (n : ℕ) (e : Engine st am) (s : st.State)
      → Only t (read id b n) (record e { store = s })
      → let x = load_from st am opts id b n s in
        Only t (after_ops st am id x.0) (record e { store = x.1 })
  unfolding load_doc with_state
  ops-Only t id b n e s o = step-Only t (read id b n) _ _ _ o (read_ops t id b n o.own)

  snapshot-Only :
      (t : ℕ) (id : String) (e : Engine st am) (s : st.State) (r : Result StoreError (Bytes × ℕ))
      → Only t (after_snapshot st am id r) (record e { store = s })
      → let x = loaded_snapshot st am opts id r s in
        Only t (after_ops st am id x.0) (record e { store = x.1 })
  unfolding load_doc after_snapshot after_ops
  snapshot-Only t id e s (ok (b, n)) o = ops-Only t id b n e s o
  snapshot-Only t id e s (err no_snapshot) o = ops-Only t id [] 0 e s o
  snapshot-Only t id e s (err _) o = o

  abbrev start : (t : ℕ) → w0.loads t ≡ idle → Only t idle w0.engine
  start t i = record { loads = w0.loads; reached = here; own = i; others = λ u f. refl }

  -- The segments that read the store are loadDoc.
  pub load-Only :
      (t : ℕ) (id : String)
      → w0.loads t ≡ idle
      → lookup id w0.engine.docs ≡ none
      → let x = load_doc st am opts id w0.engine.store in
        Only t (after_ops st am id x.0) (with_state st am x.1 w0.engine)
  unfolding load_doc with_state
  load-Only t id i q =
      let first : Only t (missed id) w0.engine =
        step-Only t idle (missed id) _ _ (start t i) (miss t id i q) in
      snapshot-Only t id w0.engine _ _
        (step-Only t (missed id) _ _ _ first (read_snapshot t id first.own))
