-- ===== src/Sync/Interleave/Leaves.antt =====
-- What the operations of internal/sync/engine.go on a cached document leave of the documents that
-- are not in the cache.
use open_sync_crdt.Prelude.{
  ℕ, String, Bytes, false, none, some, [], ◌∷◌, ◌++◌, ◌≡◌, refl, ap, sym, ◌∙◌, subst, arith, Result,
  ok, err, Bool-cases, String-cases, Result-cases, inl, inr, ◌==◌,
}
use open_sync_crdt.Prelude.Map.{lookup, insert, lookup-insert}
use open_sync_crdt.Storage.{StoreError}
use open_sync_crdt.Storage.Contract.{Store, Contract, Views, SameViews}
use open_sync_crdt.Crdt.{Automerge, IsAutomerge}
use open_sync_crdt.Sync.{
  Engine, Options, Applied, state, submit, submit_to, append_change, commit_change, apply_change,
  save_if_due, snapshot_due, take_snapshot, snapshot_at, export,
}

module _ (st : Store) (am : Automerge) (v : Views st.State) (law : Contract st v)
    (auto : IsAutomerge am) where
  abbrev E : Type 0
  E = Engine st am

  -- Only what the store has of one document may have changed.
  record Touches (id : String) (s t : st.State) : Type 0 where
    valid : v.IsValid t
    logs : (j : String) → (id == j) ≡ false → v.log j t ≡ v.log j s
    snapshots : (j : String) → (id == j) ≡ false → v.snapshot j t ≡ v.snapshot j s

  Touches-trans :
      (id : String) {a b c : st.State} → Touches id a b → Touches id b c → Touches id a c
  Touches-trans id f g = record {
    valid = g.valid;
    logs = λ j h. g.logs j h ∙ f.logs j h;
    snapshots = λ j h. g.snapshots j h ∙ f.snapshots j h;
  }

  Touches-refl : (id : String) (s : st.State) → v.IsValid s → Touches id s s
  Touches-refl id s k = record { valid = k; logs = λ j h. refl; snapshots = λ j h. refl }

  Touches-same : (id : String) {s t : st.State} → v.IsValid s → SameViews v s t → Touches id s t
  Touches-same id k w = record {
    valid = w.valid k;
    logs = λ j h. w.logs j;
    snapshots = λ j h. w.snapshots j;
  }

  append-Touches :
      (id session : String) (payload : Bytes) (s : st.State) (r : Result StoreError ℕ)
      → v.IsValid s
      → (st.append_op id payload session s).0 ≡ r
      → Touches id s (st.append_op id payload session s).1
  append-Touches id session payload s (err x) k q =
      Touches-same id k (law.append_err id payload session s x q)
  append-Touches id session payload s (ok n) k q =
      let w = (law.append_ok id payload session s n k q).1 in
      record { valid = w.valid; logs = w.others; snapshots = λ j h. w.snapshots j }

  save-Touches :
      (id : String) (b : Bytes) (n : ℕ) (s : st.State) (r : Result StoreError Unit)
      → v.IsValid s
      → (st.save_snapshot id b n s).0 ≡ r
      → Touches id s (st.save_snapshot id b n s).1
  save-Touches id b n s (err x) k q = Touches-same id k (law.save_err id b n s x q)
  save-Touches id b n s (ok tt) k q =
      let w = law.save_ok id b n s k q in
      record { valid = w.valid; logs = λ j h. w.logs j; snapshots = w.others }

  -- What a step leaves of a document that is not in the cache after it: it was not before, and the
  -- store has the same of it.
  pub record Leaves (e e' : E) : Type 0 where
    pub missing : (j : String) → lookup j e'.docs ≡ none → lookup j e.docs ≡ none
    pub logs : (j : String) → lookup j e'.docs ≡ none → v.log j e'.store ≡ v.log j e.store
    pub snapshots :
        (j : String) → lookup j e'.docs ≡ none → v.snapshot j e'.store ≡ v.snapshot j e.store

  pub missing-insert :
      (id j : String) (d : am.Doc) (e : E)
      → lookup j (insert id d e.docs) ≡ none
      → lookup j e.docs ≡ none
  missing-insert id j d e h = ground (arith, lookup-insert id j d e.docs)

  -- A step on a cached document touches nothing of a document that is not cached.
  Touches-Leaves :
      (id : String) (d : am.Doc) (e e' : E)
      → lookup id e.docs ≡ some d
      → Touches id e.store e'.store
      → ((j : String) → lookup j e'.docs ≡ none → lookup j e.docs ≡ none)
      → Leaves e e'
  Touches-Leaves id d e e' q w m = record {
    missing = m;
    logs = λ j h. w.logs j (other j (m j h));
    snapshots = λ j h. w.snapshots j (other j (m j h));
  }
    where
      other : (j : String) → lookup j e.docs ≡ none → (id == j) ≡ false
      other j h = elim (String-cases id j) [
        | inl (p, t) ↦ absurd (ground (arith, subst (λ k. lookup k e.docs ≡ some d) p q))
        | inr (p, f) ↦ f
      ]

  pub Leaves-same : (e e' : E) → SameViews v e.store e'.store → e'.docs ≡ e.docs → Leaves e e'
  Leaves-same e e' w p = record {
    missing = λ j h. sym (ap (lookup j) p) ∙ h;
    logs = λ j h. w.logs j;
    snapshots = λ j h. w.snapshots j;
  }

  module _ (opts : Options) where
    save_if_due-Touches :
        (id : String) (d : am.Doc) (n : ℕ) (s : st.State)
        → v.IsValid s
        → Touches id s (save_if_due st am opts id d n s)
    unfolding submit
    save_if_due-Touches id d n s k = elim (Bool-cases (snapshot_due opts.snapshot_interval n)) [
      | inl t ↦ rw t (save-Touches id (am.save d) n s _ k refl)
      | inr f ↦ rw f (Touches-refl id s k)
    ]

    commit-Touches :
        (id session user : String) (payload : Bytes) (d : am.Doc) (e : E) (r : Result StoreError ℕ)
        → v.IsValid e.store
        → Touches id e.store (commit_change st am opts id session user payload d e r).1.store
          × ((commit_change st am opts id session user payload d e r).1.docs ≡ e.docs)
    unfolding submit
    commit-Touches id session user payload d e (err x) k = (Touches-refl id e.store k, refl)
    commit-Touches id session user payload d e (ok n) k =
        (save_if_due-Touches id d n e.store k, refl)

    append_change-Touches :
        (id session user : String) (payload : Bytes) (a : Applied st am opts) (e : E)
        → v.IsValid e.store
        → Touches id e.store (append_change st am opts id session user payload a e).1.store
          × ((append_change st am opts id session user payload a e).1.docs ≡ e.docs)
    unfolding submit
    append_change-Touches id session user payload a e k = elim (Result-cases a.result) [
      | inr (x, q) ↦ rw (q, append_change) (Touches-refl id e.store k, refl)
      | inl (u, q) ↦
          let w = append-Touches id session payload e.store _ k refl in
          let (c, p) =
            commit-Touches id session user payload a.doc
              (record e { store = (st.append_op id payload session e.store).1 })
              (st.append_op id payload session e.store).0 w.valid in
          rw (q, append_change) (Touches-trans id w c, p)
    ]

    submit_to-Leaves :
        (id session user : String) (payload : Bytes) (d : am.Doc) (e : E)
        → v.IsValid e.store
        → lookup id e.docs ≡ some d
        → Leaves e (submit_to st am opts id session user payload (ok d, e)).1
    unfolding submit
    submit_to-Leaves id session user payload d e k q =
        let a = apply_change st am opts id d payload in
        let (w, p) =
          append_change-Touches id session user payload a
            (record e { docs = insert id a.doc e.docs; effects = e.effects ++ a.fired }) k in
        Touches-Leaves id d e _ q w (λ j h. missing-insert id j a.doc e (sym (ap (lookup j) p) ∙ h))

    pub Leaves-refl : (e : E) → Leaves e e
    Leaves-refl e = record { missing = λ j h. h; logs = λ j h. refl; snapshots = λ j h. refl }

    -- A submit for a cached document leaves every document that is not cached.
    pub submit-Leaves :
        (id session user : String) (payload : Bytes) (d : am.Doc) (e : E)
        → v.IsValid e.store
        → lookup id e.docs ≡ some d
        → Leaves e (submit st am opts id session user payload e).1
    unfolding submit state
    submit-Leaves id session user [] d e k q = elim (Bool-cases (id == "")) [
      | inl t ↦ rw t (Leaves-refl e)
      | inr f ↦ rw f (Leaves-refl e)
    ]
    submit-Leaves id session user (b ∷ payload) d e k q = elim (Bool-cases (id == "")) [
      | inl t ↦ rw t (Leaves-refl e)
      | inr f ↦ rw (f, q, state) (submit_to-Leaves id session user (b ∷ payload) d e k q)
    ]

    snapshot_at-Leaves :
        (id : String) (d : am.Doc) (e : E) (r : Result StoreError ℕ) (s : st.State)
        → v.IsValid e.store
        → SameViews v e.store s
        → lookup id e.docs ≡ some d
        → Leaves e (snapshot_at st am opts id d e (r, s)).1
    unfolding take_snapshot
    snapshot_at-Leaves id d e (err x) s k w q =
        Touches-Leaves id d e _ q (Touches-same id k w) (λ j h. h)
    snapshot_at-Leaves id d e (ok n) s k w q =
        Touches-Leaves id d e _ q
          (Touches-trans id (Touches-same id k w)
            (save-Touches id (am.save d) n s _ (w.valid k) refl))
          (λ j h. h)

    pub take_snapshot-Leaves :
        (id : String) (d : am.Doc) (e : E)
        → v.IsValid e.store
        → lookup id e.docs ≡ some d
        → Leaves e (take_snapshot st am opts id e).1
    unfolding take_snapshot state
    take_snapshot-Leaves id d e k q =
        rw (q, state) (snapshot_at-Leaves id d e _ _ k (law.latest_same id e.store) q)

    pub export-Leaves :
        (id : String) (d : am.Doc) (e : E)
        → lookup id e.docs ≡ some d
        → Leaves e (export st am opts id e).1
    unfolding export state
    export-Leaves id d e q = rw (q, state) (Leaves-refl e)
