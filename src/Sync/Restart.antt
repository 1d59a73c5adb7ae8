-- ===== src/Sync/Restart.antt =====
-- Submit keeps the engine coherent, and a restart changes no export.
use open_sync_crdt.Prelude.{
  ℕ, ◌+◌, String, Bytes, Bool, true, false, none, List, [], ◌∷◌, ◌++◌, ◌≡◌, ◌≢◌, refl, ap, sym, ◌∙◌,
  subst, arith, length, length-append, Result, ok, err, Bool-cases, String-cases, inl, inr, ◌==◌,
}
use open_sync_crdt.Prelude.Map.{lookup, insert, lookup-insert}
use open_sync_crdt.Storage.{StoreError}
use open_sync_crdt.Storage.Contract.{Store, Contract, Views, Appends}
use open_sync_crdt.Crdt.{Automerge, IsAutomerge, apply, applied}
use open_sync_crdt.Crdt.Fold.{fold_ops}
use open_sync_crdt.Sync.{
  Engine, Effect, Options, EngineError, store_error, Applied, state, submit, submit_to,
  append_change, commit_change, apply_change, save_if_due, export,
}
use open_sync_crdt.Sync.Submit.{save_if_due-same}
use open_sync_crdt.Sync.Snapshots.{
  Appends-IsSound, Appends-Builds, Appends-others, save_if_due-IsSound,
}
use open_sync_crdt.Sync.Coherent.{
  payloads, Builds, IsSound, IsCoherent, insert-Coherent, Finds, state-Coherent, export-Builds,
}

-- The store refused the operation: the one error after which the cache is ahead of the log.
abbrev pub IsAppendError : Result EngineError ℕ → Type 0
IsAppendError (err (store_error what x)) = what ≡ "append op"
IsAppendError _ = ⊥

module _ (st : Store) (am : Automerge) (v : Views st.State) (law : Contract st v)
    (auto : IsAutomerge am) where
  abbrev E : Type 0
  E = Engine st am

  module _ (opts : Options) where
    module _ (id session user : String) (payload : Bytes) (d : am.Doc) (e : E)
        (h : IsCoherent st am v law auto e) (c : Builds st am v law auto id e.store d)
        (fine : (am.load_incremental d payload).1 ≡ true) (fx : List Effect) where
      abbrev d' : am.Doc
      d' = (am.load_incremental d payload).0

      -- The engine with the changed document in its cache.
      abbrev changed : E
      changed = record e { docs = insert id d' e.docs; effects = fx }

      abbrev t : st.State
      t = (st.append_op id payload session e.store).1

      commit-Coherent :
          (n : ℕ)
          → (st.append_op id payload session e.store).0 ≡ ok n
          → IsCoherent st am v law auto
              (commit_change st am opts id session user payload d'
                (record changed { store = t })
                (ok n)).1
      unfolding submit
      commit-Coherent n q = record {
        sound = save_if_due-IsSound st am v law auto opts id d' n t sound_t built number;
        cached = λ j x l. elim (String-cases id j) [
          | inl (p, hit) ↦
              let same : d' ≡ x = ground (arith, lookup-insert id j d' e.docs) in
              kept j x (
                subst (λ y. Builds st am v law auto j t y) same
                  (subst (λ k. Builds st am v law auto k t d') p built))
          | inr (_, miss) ↦ kept j x (
              Appends-others st am v law auto id session payload e.store t h.sound w j x miss
                (h.cached j x (ground (arith, lookup-insert id j d' e.docs))))
        ];
      }
        where
          w : Appends v id payload session e.store t
          w = (law.append_ok id payload session e.store n h.sound.valid q).1

          sound_t : IsSound st am v law auto t
          sound_t = Appends-IsSound st am v law auto id session payload e.store t h.sound w

          built : Builds st am v law auto id t d'
          built = Appends-Builds st am v law auto id session payload e.store t h.sound w d c fine

          number : n ≡ length (v.log id t)
          number =
              (law.append_ok id payload session e.store n h.sound.valid q).0
              ∙ omega (
                arith,
                ap length w.appended,
                length-append (v.log id e.store) (
                    record {
                      seq = length (v.log id e.store) + 1;
                      doc_id = id;
                      session_id = session;
                      payload = payload;
                      created_at = v.now e.store;
                    }
                    ∷ []),
              )

          kept :
              (j : String) (x : am.Doc)
              → Builds st am v law auto j t x
              → Builds st am v law auto j (save_if_due st am opts id d' n t) x
          kept j x b =
              ap (λ l. fold_ops am am.new (payloads l))
                ((save_if_due-same st am v law opts id d' n t w.valid).logs j)
              ∙ b

      -- The append, by the reply of the store: coherence is kept unless the store refuses.
      reply-Coherent :
          (r : Result StoreError ℕ)
          → (st.append_op id payload session e.store).0 ≡ r
          → ((x : StoreError) → r ≢ err x)
          → IsCoherent st am v law auto
              (commit_change st am opts id session user payload d'
                (record changed { store = t })
                r).1
      reply-Coherent (err x) q f = absurd (f x refl)
      reply-Coherent (ok n) q f = commit-Coherent n q

    -- A submitted change, accepted or refused by anyone but the store, keeps the engine coherent.
    module _ (no_resolver : opts.resolver ≡ none) where
      plain_change :
          (id : String) (d : am.Doc) (payload : Bytes)
          → apply_change st am opts id d payload ≡ record {
            result = (apply am d payload).0;
            doc = (am.load_incremental d payload).0;
            fired = [];
          }
      unfolding apply_change
      plain_change id d payload = rw (no_resolver, apply_change)

      -- What the rest of Submit keeps, for the outcome of applyChange.
      abbrev Keeps : String → String → String → Bytes → E → Applied st am opts → Type 0
      Keeps id session user payload e a =
          let x =
            append_change st am opts id session user payload a
              (record e { docs = insert id a.doc e.docs; effects = e.effects ++ a.fired }) in
          ((IsAppendError x.0 → ⊥) → IsCoherent st am v law auto x.1)

      outcome-Coherent :
          (id session user : String) (payload : Bytes) (d : am.Doc) (e : E) (done : Bool)
          → IsCoherent st am v law auto e
          → Builds st am v law auto id e.store d
          → (am.load_incremental d payload).1 ≡ done
          → Keeps id session user payload e (record {
            result = applied am done;
            doc = (am.load_incremental d payload).0;
            fired = [];
          })
      unfolding submit apply
      outcome-Coherent id session user payload d e true h c q f =
          reply-Coherent id session user payload d e h c q (e.effects ++ []) _ refl (λ x p. f (
            subst
              (λ r.
                IsAppendError
                  (commit_change st am opts id session user payload
                    (am.load_incremental d payload).0
                    (record e {
                      docs = insert id (am.load_incremental d payload).0 e.docs;
                      effects = e.effects ++ [];
                      store = (st.append_op id payload session e.store).1;
                    })
                    r).0)
              (sym p) refl))
      outcome-Coherent id session user payload d e false h c q f =
          let z = insert-Coherent st am v law auto id d e h c in
          rw (auto.refused d payload q) (record { sound = z.sound; cached = z.cached })

      submit_to-Coherent :
          (id session user : String) (payload : Bytes) (x : Result EngineError am.Doc × E)
          → Finds st am v law auto id x
          → let y = submit_to st am opts id session user payload x in
            ((IsAppendError y.0 → ⊥) → IsCoherent st am v law auto y.1)
      unfolding submit apply
      submit_to-Coherent id session user payload (err x, e) h = λ f. h.0
      submit_to-Coherent id session user payload (ok d, e) h =
          subst (Keeps id session user payload e) (sym (plain_change id d payload))
            (outcome-Coherent id session user payload d e _ h.0 (h.1 d refl) refl)

      submit-keeps :
          (id session user : String) (payload : Bytes) (e : E)
          → IsCoherent st am v law auto e
          → let y = submit st am opts id session user payload e in
            ((IsAppendError y.0 → ⊥) → IsCoherent st am v law auto y.1)
      unfolding submit
      submit-keeps id session user [] e h = elim (Bool-cases (id == "")) [
        | inl t ↦ rw t (λ f. h)
        | inr f ↦ rw f (λ f'. h)
      ]
      submit-keeps id session user (b ∷ payload) e h = elim (Bool-cases (id == "")) [
        | inl t ↦ rw t (λ f. h)
        | inr f ↦ rw f (
            submit_to-Coherent id session user (b ∷ payload) (state st am opts id e)
              (state-Coherent st am v law auto opts id e h))
      ]

      pub submit-Coherent :
          (id session user : String) (payload : Bytes) (e : E)
          → IsCoherent st am v law auto e
          → (IsAppendError (submit st am opts id session user payload e).0 → ⊥)
          → IsCoherent st am v law auto (submit st am opts id session user payload e).1
      submit-Coherent id session user payload e h f = submit-keeps id session user payload e h f

  -- A restart forgets the cache and keeps the store.
  abbrev pub restart : E → E
  restart e = record { store = e.store; docs = []; effects = [] }

  -- Over a store that keeps its contract and an Automerge that does what it documents, of a
  -- coherent engine: where an export before a restart and one after it both succeed, they are byte
  -- for byte the same.
  pub export-restart :
      (opts : Options) (id : String) (e : E) (b b' : Bytes)
      → IsCoherent st am v law auto e
      → (export st am opts id e).0 ≡ ok b
      → (export st am opts id (restart e)).0 ≡ ok b'
      → b ≡ b'
  unfolding lookup
  export-restart opts id e b b' h q q' =
      let (d, c, p) = export-Builds st am v law auto opts id e b h q in
      let fresh : IsCoherent st am v law auto (restart e) = record {
        sound = h.sound;
        cached = λ j x l. cc;
      } in
      let (d', c', p') = export-Builds st am v law auto opts id (restart e) b' fresh q' in cc
