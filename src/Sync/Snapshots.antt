-- ===== src/Sync/Snapshots.antt =====
-- Appends and snapshots keep every snapshot the document of a prefix of its log.
use mathlib.Core.List.{map-append}
use open_sync_crdt.Prelude.{
  ℕ, zero, suc, ◌≤◌, String, Bytes, true, false, Option, none, some, List, [], ◌∷◌, ◌++◌, ◌≡◌, refl,
  ap, sym, ◌∙◌, subst, arith, length, length-append, take, take_all, Result, ok, err, Bool-cases,
  String-cases, inl, inr, ◌⊎◌, ◌==◌,
}
use open_sync_crdt.Storage.{StoreError, StoredOp}
use open_sync_crdt.Storage.Contract.{Store, Contract, Views, SameViews, Appends, Saves, newer_of}
use open_sync_crdt.Crdt.{Automerge, IsAutomerge}
use open_sync_crdt.Crdt.Fold.{fold_ops, fold_ops-append, fold_ops_one}
use open_sync_crdt.Sync.{
  Engine, Options, EngineError, submit, save_if_due, snapshot_due, snapshot_at, snapshot_of,
  take_snapshot, export, exported,
}
use open_sync_crdt.Sync.Coherent.{
  payloads, Builds, IsSnapshot, IsSound, IsSound-same, IsCoherent, Builds-same, Finds,
  state-Coherent,
}

module _ (st : Store) (am : Automerge) (v : Views st.State) (law : Contract st v)
    (auto : IsAutomerge am) where
  abbrev E : Type 0
  E = Engine st am

  take-append : (n : ℕ) (xs ys : List StoredOp) → n ≤ length xs → take n (xs ++ ys) ≡ take n xs
  take-append zero xs ys h = refl
  take-append (suc n) [] ys h = absurd (omega arith)
  take-append (suc n) (x ∷ xs) ys h = ap (◌∷◌ x) (take-append n xs ys (omega arith))

  IsSnapshot-append :
      (log : List StoredOp) (o : StoredOp) (b : Bytes) (n : ℕ)
      → IsSnapshot st am v law auto log b n
      → IsSnapshot st am v law auto (log ++ o ∷ []) b n
  IsSnapshot-append log o b n z = record {
    doc = z.doc;
    bytes = z.bytes;
    within = omega (arith, length-append log (o ∷ []), z.within);
    prefix =
        ap (λ l. fold_ops am am.new (payloads l)) (take-append n log (o ∷ []) z.within) ∙ z.prefix;
  }

  newer_of-cases :
      (x y : Bytes × ℕ) (o : Option (Bytes × ℕ)) → newer_of x o ≡ some y → (x ≡ y) ⊎ (o ≡ some y)
  newer_of-cases x y none h = inl (ground arith)
  newer_of-cases x y (some z) h = ground arith

  -- Saving the current document keeps every snapshot right.
  pub Saves-IsSound :
      (id : String) (d : am.Doc) (n : ℕ) (s t : st.State)
      → IsSound st am v law auto s
      → Builds st am v law auto id s d
      → n ≡ length (v.log id s)
      → Saves v id (am.save d) n s t
      → IsSound st am v law auto t
  Saves-IsSound id d n s t h c e w = record {
    valid = w.valid;
    snapshots = λ j b m q. elim (String-cases id j) [
      | inl (p, _) ↦
          subst (λ k. v.snapshot k t ≡ some (b, m) → IsSnapshot st am v law auto (v.log k t) b m) p
            (own b m) q
      | inr (_, f) ↦ rw (w.logs j) (h.snapshots j b m (sym (w.others j f) ∙ q))
    ];
  }
    where
      own :
          (b : Bytes) (m : ℕ)
          → v.snapshot id t ≡ some (b, m)
          → IsSnapshot st am v law auto (v.log id t) b m
      own b m q = elim (newer_of-cases (am.save d, n) (b, m) (v.snapshot id s) (sym w.saved ∙ q)) [
        | inr old ↦ rw (w.logs id) (h.snapshots id b m old)
        | inl new ↦
            let whole : length (v.log id s) ≡ m = sym e ∙ ap (λ x. x.1) new in
            rw (w.logs id) (record {
              doc = d;
              bytes = sym (ap (λ x. x.0) new);
              within = omega arith;
              prefix =
                  ap (λ l. fold_ops am am.new (payloads l)) (take_all m (v.log id s) (omega arith))
                  ∙ c;
            })
      ]

  module _ (id session : String) (payload : Bytes) (s t : st.State) (h : IsSound st am v law auto s)
      (w : Appends v id payload session s t) where
    pub Appends-IsSound : IsSound st am v law auto t
    Appends-IsSound = record {
      valid = w.valid;
      snapshots = λ j b n q.
          let z = h.snapshots j b n (sym (w.snapshots j) ∙ q) in
          elim (String-cases id j) [
            | inl (p, _) ↦
                subst
                  (λ k.
                    IsSnapshot st am v law auto (v.log k s) b n
                    → IsSnapshot st am v law auto (v.log k t) b n)
                  p (λ y. rw w.appended (IsSnapshot-append (v.log id s) _ b n y)) z
            | inr (_, f) ↦ rw (w.others j f) z
          ];
    }

    pub Appends-Builds :
        (d : am.Doc)
        → Builds st am v law auto id s d
        → (am.load_incremental d payload).1 ≡ true
        → Builds st am v law auto id t (am.load_incremental d payload).0
    Appends-Builds d c fine =
        ap (λ l. fold_ops am am.new (payloads l)) w.appended
        ∙ ap (fold_ops am am.new) (map-append (λ (o : StoredOp). o.payload) (v.log id s) _)
        ∙ fold_ops-append am am.new d (payloads (v.log id s)) _ c
        ∙ fold_ops_one am d payload fine

    pub Appends-others :
        (j : String) (d : am.Doc)
        → (id == j) ≡ false
        → Builds st am v law auto j s d
        → Builds st am v law auto j t d
    Appends-others j d f c = ap (λ l. fold_ops am am.new (payloads l)) (w.others j f) ∙ c

  module _ (opts : Options) where
    pub saved-IsSound :
        (id : String) (d : am.Doc) (n : ℕ) (s : st.State) (r : Result StoreError Unit)
        → IsSound st am v law auto s
        → Builds st am v law auto id s d
        → n ≡ length (v.log id s)
        → (st.save_snapshot id (am.save d) n s).0 ≡ r
        → IsSound st am v law auto (st.save_snapshot id (am.save d) n s).1
    saved-IsSound id d n s (ok tt) h c e q =
        Saves-IsSound id d n s _ h c e (law.save_ok id (am.save d) n s h.valid q)
    saved-IsSound id d n s (err x) h c e q =
        IsSound-same st am v law auto (law.save_err id (am.save d) n s x q) h

    pub save_if_due-IsSound :
        (id : String) (d : am.Doc) (n : ℕ) (s : st.State)
        → IsSound st am v law auto s
        → Builds st am v law auto id s d
        → n ≡ length (v.log id s)
        → IsSound st am v law auto (save_if_due st am opts id d n s)
    unfolding submit
    save_if_due-IsSound id d n s h c e = elim (Bool-cases (snapshot_due opts.snapshot_interval n)) [
      | inl t ↦ rw t (saved-IsSound id d n s _ h c e refl)
      | inr f ↦ rw f h
    ]

    saved-Coherent :
        (id : String) (d : am.Doc) (e : Engine st am) (r : Result StoreError ℕ) (s : st.State)
        → IsCoherent st am v law auto e
        → Builds st am v law auto id e.store d
        → SameViews v e.store s
        → ((n : ℕ) → r ≡ ok n → n ≡ length (v.log id e.store))
        → IsCoherent st am v law auto (snapshot_at st am opts id d e (r, s)).1
    unfolding take_snapshot
    saved-Coherent id d e (err x) s h b w latest = record {
      sound = IsSound-same st am v law auto w h.sound;
      cached = λ j d' q. Builds-same st am v law auto j d' w (h.cached j d' q);
    }
    saved-Coherent id d e (ok n) s h b w latest =
        let count : n ≡ length (v.log id s) = latest n refl ∙ sym (ap length (w.logs id)) in
        let t = (st.save_snapshot id (am.save d) n s).1 in
        let logs : (j : String) → v.log j t ≡ v.log j s =
          save_logs id (am.save d) n s _ (w.valid h.sound.valid) refl in
        record {
          sound =
              saved-IsSound id d n s _ (IsSound-same st am v law auto w h.sound)
                (Builds-same st am v law auto id d w b) count refl;
          cached = λ j d' q.
              ap (λ l. fold_ops am am.new (payloads l)) (logs j ∙ w.logs j) ∙ h.cached j d' q;
        }
      where
        save_logs :
            (j : String) (state : Bytes) (n : ℕ) (s : st.State) (r : Result StoreError Unit)
            → v.IsValid s
            → (st.save_snapshot j state n s).0 ≡ r
            → (k : String) → v.log k (st.save_snapshot j state n s).1 ≡ v.log k s
        save_logs j state n s (ok tt) z q k = (law.save_ok j state n s z q).logs k
        save_logs j state n s (err x) z q k = (law.save_err j state n s x q).logs k

    snapshot_of-Coherent :
        (id : String) (x : Result EngineError am.Doc × Engine st am)
        → Finds st am v law auto id x
        → IsCoherent st am v law auto (snapshot_of st am opts id x).1
    unfolding take_snapshot
    snapshot_of-Coherent id (err x, e) f = f.0
    snapshot_of-Coherent id (ok d, e) f =
        saved-Coherent id d e _ _ f.0 (f.1 d refl) (law.latest_same id e.store)
          (λ n q. law.latest_ok id e.store n f.0.sound.valid q)

    -- A snapshot on request saves the document that the log builds, or nothing.
    pub take_snapshot-Coherent :
        (id : String) (e : Engine st am)
        → IsCoherent st am v law auto e
        → IsCoherent st am v law auto (take_snapshot st am opts id e).1
    unfolding take_snapshot
    take_snapshot-Coherent id e h =
        snapshot_of-Coherent id _ (state-Coherent st am v law auto opts id e h)

    exported-Coherent :
        (id : String) (x : Result EngineError am.Doc × Engine st am)
        → Finds st am v law auto id x
        → IsCoherent st am v law auto (exported st am opts x).1
    unfolding export
    exported-Coherent id (err x, e) f = f.0
    exported-Coherent id (ok d, e) f = f.0

    pub export-Coherent :
        (id : String) (e : Engine st am)
        → IsCoherent st am v law auto e
        → IsCoherent st am v law auto (export st am opts id e).1
    unfolding export
    export-Coherent id e h = exported-Coherent id _ (state-Coherent st am v law auto opts id e h)
