-- ===== src/Sync/Coherent.antt =====
-- The cache and the snapshots hold nothing but the logs: every cached document, and every
-- document that is loaded, is the one that its log builds. Without a resolver.
use mathlib.Core.List.{map-append}
use open_sync_crdt.Prelude.{
  ℕ, ◌≤◌, String, Bytes, some, List, [], map, ◌≡◌, ◌≢◌, refl, ap, sym, ◌∙◌, subst, arith, length,
  take, drop, Result, ok, err, Option-cases, String-cases, inl, inr, ◌⊎◌, take-append-drop,
}
use open_sync_crdt.Prelude.Int.{pos}
use open_sync_crdt.Prelude.Map.{lookup, insert, lookup-insert}
use open_sync_crdt.Storage.{StoreError, no_snapshot, StoredOp}
use open_sync_crdt.Storage.Contract.{Store, Contract, Views, SameViews}
use open_sync_crdt.Crdt.{Automerge, IsAutomerge, CrdtError, rehydrate}
use open_sync_crdt.Crdt.Fold.{fold_ops, fold_ops-append, rehydrate_new, rehydrate_saved}
use open_sync_crdt.Sync.Submit.{state-same}
use open_sync_crdt.Sync.{
  Engine, Options, EngineError, state, load_doc, loaded_snapshot, load_tail, rehydrated,
  cache_loaded, export, exported,
}

abbrev pub payloads : List StoredOp → List Bytes
payloads = map (λ o. o.payload)

module _ (st : Store) (am : Automerge) (v : Views st.State) (law : Contract st v)
    (auto : IsAutomerge am) where
  -- The document that the log of `id` builds is `d`.
  abbrev pub Builds : String → st.State → am.Doc → Type 0
  Builds id s d = fold_ops am am.new (payloads (v.log id s)) ≡ some d

  -- A snapshot at n is the saved document of the first n operations.
  pub record IsSnapshot (log : List StoredOp) (b : Bytes) (n : ℕ) : Type 0 where
    pub doc : am.Doc
    pub bytes : b ≡ am.save doc
    pub within : n ≤ length log
    pub prefix : fold_ops am am.new (payloads (take n log)) ≡ some doc

  pub record IsSound (s : st.State) : Type 0 where
    pub valid : v.IsValid s
    pub snapshots :
        (id : String) (b : Bytes) (n : ℕ)
        → v.snapshot id s ≡ some (b, n)
        → IsSnapshot (v.log id s) b n

  pub record IsCoherent (e : Engine st am) : Type 0 where
    pub sound : IsSound e.store
    pub cached : (id : String) (d : am.Doc) → lookup id e.docs ≡ some d → Builds id e.store d

  SameViews-trans : {a b c : st.State} → SameViews v a b → SameViews v b c → SameViews v a c
  SameViews-trans f g = record {
    valid = λ h. g.valid (f.valid h);
    logs = λ j. g.logs j ∙ f.logs j;
    snapshots = λ j. g.snapshots j ∙ f.snapshots j;
  }

  pub IsSound-same : {s t : st.State} → SameViews v s t → IsSound s → IsSound t
  IsSound-same w h = record {
    valid = w.valid h.valid;
    snapshots = λ id b n q. rw (w.logs id) (h.snapshots id b n (sym (w.snapshots id) ∙ q));
  }

  pub Builds-same :
      {s t : st.State} (id : String) (d : am.Doc) → SameViews v s t → Builds id s d → Builds id t d
  Builds-same id d w h = ap (λ l. fold_ops am am.new (payloads l)) (w.logs id) ∙ h

  split_log :
      (n : ℕ) (log : List StoredOp) (d0 d : am.Doc)
      → fold_ops am am.new (payloads (take n log)) ≡ some d0
      → fold_ops am d0 (payloads (drop n log)) ≡ some d
      → fold_ops am am.new (payloads log) ≡ some d
  split_log n log d0 d p q =
      ap (λ l. fold_ops am am.new (payloads l)) (sym (take-append-drop n log))
      ∙ ap (fold_ops am am.new) (map-append (λ (o : StoredOp). o.payload) (take n log) (drop n log))
      ∙ fold_ops-append am am.new d0 _ _ p
      ∙ q

  -- The two ways in which loadDoc starts: from a snapshot, or from nothing.
  rehydrate-Builds :
      (id : String) (b : Bytes) (n : ℕ) (s : st.State) (d : am.Doc)
      → IsSound s
      → (v.snapshot id s ≡ some (b, n)) ⊎ ((b ≡ []) × (n ≡ 0))
      → rehydrate am b (payloads (drop n (v.log id s))) ≡ ok d
      → Builds id s d
  rehydrate-Builds id b n s d h (inl k) e =
      let z = h.snapshots id b n k in
      let loads : am.load b ≡ some z.doc = ap am.load z.bytes ∙ auto.load-save z.doc in
      let full : b ≢ [] = λ q. auto.save_nonempty z.doc (sym z.bytes ∙ q) in
      split_log n (v.log id s) z.doc d z.prefix
        (rehydrate_saved am b z.doc (payloads (drop n (v.log id s))) d full loads e)
  rehydrate-Builds id b n s d h (inr (p, q)) e = rehydrate_new am (payloads (v.log id s)) d (
      subst (λ m. rehydrate am [] (payloads (drop m (v.log id s))) ≡ ok d) q
        (subst (λ c. rehydrate am c (payloads (drop n (v.log id s))) ≡ ok d) p e))

  -- One more cached document that its log builds.
  pub insert-Coherent :
      (id : String) (d : am.Doc) (e : Engine st am)
      → IsCoherent e
      → Builds id e.store d
      → IsCoherent (record e { docs = insert id d e.docs })
  insert-Coherent id d e h b = record {
    sound = h.sound;
    cached = λ j d' q. elim (String-cases id j) [
      | inl (p, t) ↦
          let same : d ≡ d' = ground (arith, lookup-insert id j d e.docs) in
          subst (λ x. Builds j e.store x) same (subst (λ k. Builds k e.store d) p b)
      | inr (p, f) ↦ h.cached j d' (ground (arith, lookup-insert id j d e.docs))
    ];
  }

  ok-some : {d d' : am.Doc} → ◌≡◌ {A = Result EngineError am.Doc} (ok d) (ok d') → some d ≡ some d'
  ok-some q = cc

  -- A coherent engine, and the document that the log builds if there is one.
  abbrev pub Finds : String → Result EngineError am.Doc × Engine st am → Type 0
  Finds id (r, e) = IsCoherent e × ((d : am.Doc) → r ≡ ok d → Builds id e.store d)

  module _ (opts : Options) where
    rehydrated-ok :
        (r : Result CrdtError am.Doc) (d : am.Doc) → rehydrated st am opts r ≡ ok d → r ≡ ok d
    unfolding load_doc
    rehydrated-ok (ok a) d h = cc
    rehydrated-ok (err x) d h = cc

    -- What a load that succeeds yields is the document of the log.
    pub load_tail-Builds :
        (id : String) (b : Bytes) (n : ℕ) (s s' : st.State) (d : am.Doc)
        → IsSound s
        → (v.snapshot id s ≡ some (b, n)) ⊎ ((b ≡ []) × (n ≡ 0))
        → SameViews v s s'
        → (r : Result StoreError (List StoredOp)) → (st.get_ops_since id (pos n) s').0 ≡ r
        → load_tail st am opts b r ≡ ok d
        → Builds id s d
    unfolding load_doc
    load_tail-Builds id b n s s' d h k w (err x) q e = cc
    load_tail-Builds id b n s s' d h k w (ok ops) q e =
        let tail : ops ≡ drop n (v.log id s) =
          law.since_ok id (pos n) s' ops (w.valid h.valid) q ∙ ap (drop n) (w.logs id) in
        rehydrate-Builds id b n s d h k
          (subst (λ os. rehydrate am b (payloads os) ≡ ok d) tail (rehydrated-ok _ d e))

    loaded_snapshot-Builds :
        (id : String) (s : st.State) (d : am.Doc) (r : Result StoreError (Bytes × ℕ))
        → IsSound s
        → (st.get_snapshot id s).0 ≡ r
        → (loaded_snapshot st am opts id r (st.get_snapshot id s).1).0 ≡ ok d
        → Builds id s d
    unfolding load_doc
    loaded_snapshot-Builds id s d (ok (b, n)) h q e =
        load_tail-Builds id b n s _ d h (inl (law.snapshot_ok id s (b, n) q))
          (law.snapshot_same id s) _ refl e
    loaded_snapshot-Builds id s d (err no_snapshot) h q e =
        load_tail-Builds id [] 0 s _ d h (inr (refl, refl)) (law.snapshot_same id s) _ refl e
    loaded_snapshot-Builds id s d (err _) h q e = cc

    -- Loading a document from the store gives the document that its log builds.
    pub load_doc-Builds :
        (id : String) (s : st.State) (d : am.Doc)
        → IsSound s
        → (load_doc st am opts id s).0 ≡ ok d
        → Builds id s d
    unfolding load_doc
    load_doc-Builds id s d h e = loaded_snapshot-Builds id s d _ h refl e

    loaded_snapshot_sound :
        (id : String) (r : Result StoreError (Bytes × ℕ)) (s : st.State)
        → SameViews v s (loaded_snapshot st am opts id r s).1
    unfolding load_doc
    loaded_snapshot_sound id (ok (b, n)) s = law.since_same id (pos n) s
    loaded_snapshot_sound id (err no_snapshot) s = law.since_same id (pos 0) s
    loaded_snapshot_sound id (err _) s = record {
      valid = λ h. h;
      logs = λ j. refl;
      snapshots = λ j. refl;
    }

    pub load_doc-same : (id : String) (s : st.State) → SameViews v s (load_doc st am opts id s).1
    unfolding load_doc
    load_doc-same id s = SameViews-trans (law.snapshot_same id s) (loaded_snapshot_sound id _ _)

    cache_loaded-Coherent :
        (id : String) (e : Engine st am) (s : st.State) (r : Result EngineError am.Doc)
        → IsCoherent e
        → SameViews v e.store s
        → ((d : am.Doc) → r ≡ ok d → Builds id e.store d)
        → Finds id (cache_loaded st am opts id e (r, s))
    unfolding state
    cache_loaded-Coherent id e s (err x) h w b = (
      record {
        sound = IsSound-same w h.sound;
        cached = λ j d q. Builds-same j d w (h.cached j d q);
      },
      λ d q. cc,
    )
    cache_loaded-Coherent id e s (ok d) h w b = (
      insert-Coherent id d (record e { store = s })
          (record {
            sound = IsSound-same w h.sound;
            cached = λ j d' q. Builds-same j d' w (h.cached j d' q);
          })
          (Builds-same id d w (b d refl)),
      λ d' q. Builds-same id d' w (b d' q),
    )

    -- Finding a document keeps coherence, and finds the document that the log builds.
    pub state-Coherent :
        (id : String) (e : Engine st am) → IsCoherent e → Finds id (state st am opts id e)
    unfolding state
    state-Coherent id e h = elim (Option-cases (lookup id e.docs)) [
      | inr (d, q) ↦ rw (q, state) (h, λ d' r. h.cached id d' (q ∙ ok-some r))
      | inl q ↦
          rw (q, state)
            (cache_loaded-Coherent id e (load_doc st am opts id e.store).1 _ h
              (load_doc-same id e.store) (λ d r. load_doc-Builds id e.store d h.sound r))
    ]

    exported-Builds :
        (id : String) (x : Result EngineError am.Doc × Engine st am) (b : Bytes)
        → Finds id x
        → (exported st am opts x).0 ≡ ok b
        → (d : am.Doc) × (Builds id x.1.store d) × (b ≡ am.save d)
    unfolding export
    exported-Builds id (ok d, e) b f q = (d, f.1 d refl, ground arith)
    exported-Builds id (err x, e) b f q = cc

    -- Over a store that keeps its contract and an Automerge that does what it documents, of a
    -- coherent engine: an export that succeeds is the saved form of the document that the log
    -- builds, whether it was cached, loaded from a snapshot or replayed from the first operation.
    pub export-Builds :
        (id : String) (e : Engine st am) (b : Bytes)
        → IsCoherent e
        → (export st am opts id e).0 ≡ ok b
        → (d : am.Doc) × (Builds id e.store d) × (b ≡ am.save d)
    unfolding export
    export-Builds id e b h q =
        let (d, c, p) = exported-Builds id (state st am opts id e) b (state-Coherent id e h) q in
        let same = (state-same st am v law opts id e).0.logs id in
        (d, ap (λ l. fold_ops am am.new (payloads l)) (sym same) ∙ c, p)
