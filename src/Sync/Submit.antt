-- ===== src/Sync/Submit.antt =====
-- What a submitted change does to the logs and to the outside, on every path.
use mathlib.Core.List.{map-append, append-nil}
use open_sync_crdt.Prelude.{
  ℕ, ◌+◌, String, Bytes, false, List, [], ◌∷◌, ◌++◌, ◌≡◌, refl, ap, ◌∙◌, arith, eqb, if◌then◌else◌,
  length, Result, ok, err, Result-cases, Option-cases, Bool-cases, map, inl, inr, ◌==◌,
}
use open_sync_crdt.Prelude.Int.{pos}
use open_sync_crdt.Prelude.Map.{lookup, insert}
use open_sync_crdt.Protocol.{new_server_sync}
use open_sync_crdt.Storage.{StoreError, no_snapshot}
use open_sync_crdt.Storage.Contract.{Store, Contract, Views, SameViews}
use open_sync_crdt.Storage.History.{sent}
use open_sync_crdt.Crdt.{Automerge}
use open_sync_crdt.Sync.{
  Engine, Options, created_event, updated_event, events, EngineError, Effect, emit, broadcast,
  Applied, state, load_doc, submit, submit_to, append_change, commit_change, apply_change,
  save_if_due, loaded_snapshot, cache_loaded, snapshot_due,
}

-- The calls of the broadcaster among the effects, in order.
unfoldable pub broadcasts : List Effect → List Effect
broadcasts [] = []
broadcasts (emit w fs ∷ es) = broadcasts es
broadcasts (broadcast id session m ∷ es) = broadcast id session m ∷ broadcasts es

pub broadcasts-append :
    (xs ys : List Effect) → broadcasts (xs ++ ys) ≡ broadcasts xs ++ broadcasts ys
unfolding broadcasts
broadcasts-append [] ys = refl
broadcasts-append (emit w fs ∷ xs) ys = broadcasts-append xs ys
broadcasts-append (broadcast id session m ∷ xs) ys =
    ap (◌∷◌ (broadcast id session m)) (broadcasts-append xs ys)

module _ (st : Store) (am : Automerge) (v : Views st.State) (law : Contract st v)
    (opts : Options) where
  abbrev E : Type 0
  E = Engine st am

  -- Neither the logs nor validity change; snapshots may.
  pub record SameLogs (s t : st.State) : Type 0 where
    pub valid : v.IsValid s → v.IsValid t
    pub logs : (j : String) → v.log j t ≡ v.log j s

  abbrev of_same : {s t : st.State} → SameViews v s t → SameLogs s t
  of_same h = record { valid = h.valid; logs = h.logs }

  SameLogs-trans : {a b c : st.State} → SameLogs a b → SameLogs b c → SameLogs a c
  SameLogs-trans f g = record { valid = λ h. g.valid (f.valid h); logs = λ j. g.logs j ∙ f.logs j }

  SameLogs-refl : (s : st.State) → SameLogs s s
  SameLogs-refl s = record { valid = λ h. h; logs = λ j. refl }

  loaded_snapshot-same :
      (id : String) (r : Result StoreError (Bytes × ℕ)) (s : st.State)
      → SameLogs s (loaded_snapshot st am opts id r s).1
  unfolding load_doc
  loaded_snapshot-same id (ok (b, n)) s = of_same (law.since_same id (pos n) s)
  loaded_snapshot-same id (err no_snapshot) s = of_same (law.since_same id (pos 0) s)
  loaded_snapshot-same id (err _) s = SameLogs-refl s

  load_doc-same : (id : String) (s : st.State) → SameLogs s (load_doc st am opts id s).1
  unfolding load_doc
  load_doc-same id s =
      SameLogs-trans (of_same (law.snapshot_same id s)) (loaded_snapshot-same id _ _)

  cache_loaded-store :
      (id : String) (e : E) (x : Result EngineError am.Doc × st.State)
      → (cache_loaded st am opts id e x).1.store ≡ x.1
  unfolding state
  cache_loaded-store id e (ok d, s) = refl
  cache_loaded-store id e (err x, s) = refl

  cache_loaded-effects :
      (id : String) (e : E) (x : Result EngineError am.Doc × st.State)
      → (cache_loaded st am opts id e x).1.effects ≡ e.effects
  unfolding state
  cache_loaded-effects id e (ok d, s) = refl
  cache_loaded-effects id e (err x, s) = refl

  -- Finding a document's state changes no log and calls nobody.
  pub state-same :
      (id : String) (e : E)
      → SameLogs e.store (state st am opts id e).1.store
        × ((state st am opts id e).1.effects ≡ e.effects)
  unfolding state
  state-same id e = elim (Option-cases (lookup id e.docs)) [
    | inr (d, h) ↦ rw (h, state) (SameLogs-refl e.store, refl)
    | inl h ↦
        rw (h, state)
          (
            rw (cache_loaded-store id e (load_doc st am opts id e.store))
                (load_doc-same id e.store),
            cache_loaded-effects id e (load_doc st am opts id e.store),
          )
  ]

  saved-same :
      (id : String) (b : Bytes) (n : ℕ) (s : st.State) (r : Result StoreError Unit)
      → v.IsValid s
      → (st.save_snapshot id b n s).0 ≡ r
      → SameLogs s (st.save_snapshot id b n s).1
  saved-same id b n s (ok tt) valid e =
      let w = law.save_ok id b n s valid e in record { valid = λ _. w.valid; logs = w.logs }
  saved-same id b n s (err x) valid e = of_same (law.save_err id b n s x e)

  pub save_if_due-same :
      (id : String) (d : am.Doc) (n : ℕ) (s : st.State)
      → v.IsValid s
      → SameLogs s (save_if_due st am opts id d n s)
  unfolding submit
  save_if_due-same id d n s valid = elim (Bool-cases (snapshot_due opts.snapshot_interval n)) [
    | inl t ↦ rw t (saved-same id (am.save d) n s _ valid refl)
    | inr f ↦ rw f (SameLogs-refl s)
  ]

  -- An accepted change: one more operation in one log, and one broadcast of it.
  pub record Accepted (id session : String) (payload : Bytes) (n : ℕ) (e e' : E) : Type 0 where
    pub valid : v.IsValid e'.store
    pub number : n ≡ length (v.log id e.store) + 1
    pub appended :
        map sent (v.log id e'.store)
        ≡ map sent (v.log id e.store) ++ record { payload = payload; session_id = session } ∷ []
    pub others : (j : String) → (id == j) ≡ false → v.log j e'.store ≡ v.log j e.store
    pub announced :
        broadcasts e'.effects
        ≡ broadcasts e.effects ++ broadcast id session (new_server_sync id session n payload) ∷ []

  -- A refused one: the same logs, and no broadcast.
  pub record Refused (e e' : E) : Type 0 where
    pub valid : v.IsValid e'.store
    pub logs : (j : String) → v.log j e'.store ≡ v.log j e.store
    pub quiet : broadcasts e'.effects ≡ broadcasts e.effects

  abbrev pub Outcome : String → String → Bytes → E → Result EngineError ℕ × E → Type 0
  Outcome id session payload e (ok n, e') = Accepted id session payload n e e'
  Outcome id session payload e (err x, e') = Refused e e'

  created-quiet :
      (n : ℕ) (id user : String)
      → broadcasts
          (events st am opts (if eqb n 1 then created_event st am opts id user ∷ [] else []))
        ≡ []
  unfolding submit broadcasts
  created-quiet n id user = ground arith

  updated-quiet :
      (id session user : String) (n : ℕ)
      → broadcasts (events st am opts (updated_event st am opts id session user n ∷ [])) ≡ []
  unfolding submit broadcasts
  updated-quiet id session user n = ground arith

  module _ (id session user : String) (payload : Bytes) where
    -- The last step, by the reply of the store.
    commit-Outcome :
        (d : am.Doc) (e : E) (r : Result StoreError ℕ)
        → v.IsValid e.store
        → (st.append_op id payload session e.store).0 ≡ r
        → Outcome id session payload e (
            commit_change st am opts id session user payload d
              (record e { store = (st.append_op id payload session e.store).1 })
              r)
    unfolding submit
    commit-Outcome d e (err x) valid h =
        let w = law.append_err id payload session e.store x h in
        record { valid = w.valid valid; logs = w.logs; quiet = refl }
    commit-Outcome d e (ok n) valid h =
        let (number, w) = law.append_ok id payload session e.store n valid h in
        let k = save_if_due-same id d n (st.append_op id payload session e.store).1 w.valid in
        record {
          valid = k.valid w.valid;
          number = number;
          appended = ap (map sent) (k.logs id ∙ w.appended) ∙ map-append sent (v.log id e.store) _;
          others = λ j f. k.logs j ∙ w.others j f;
          announced =
              rw
                (
                  broadcasts-append e.effects,
                  broadcasts-append (
                      events st am opts
                        (if eqb n 1 then created_event st am opts id user ∷ [] else [])),
                  broadcasts-append
                      (events st am opts (updated_event st am opts id session user n ∷ [])),
                  created-quiet n id user,
                  updated-quiet id session user n,
                )
                (unfold broadcasts in refl);
        }

    append-Outcome :
        (a : Applied st am opts) (e : E)
        → v.IsValid e.store
        → Outcome id session payload e (append_change st am opts id session user payload a e)
    unfolding submit
    append-Outcome a e valid = elim (Result-cases a.result) [
      | inl (u, h) ↦ rw (h, append_change) (commit-Outcome a.doc e _ valid refl)
      | inr (x, h) ↦
          rw (h, append_change) (record { valid = valid; logs = λ j. refl; quiet = refl })
    ]

  -- Consulting the resolver broadcasts nothing.
  apply_change-quiet :
      (id : String) (d : am.Doc) (payload : Bytes)
      → broadcasts (apply_change st am opts id d payload).fired ≡ []
  unfolding apply_change broadcasts
  apply_change-quiet id d payload = ground arith

  Outcome-before :
      (id session : String) (payload : Bytes) (e e1 : E) (x : Result EngineError ℕ × E)
      → SameLogs e.store e1.store
      → broadcasts e1.effects ≡ broadcasts e.effects
      → Outcome id session payload e1 x
      → Outcome id session payload e x
  Outcome-before id session payload e e1 (ok n, e') k q o = record {
    valid = o.valid;
    number = o.number ∙ ap (λ l. length l + 1) (k.logs id);
    appended =
        o.appended
        ∙ ap (λ l. map sent l ++ record { payload = payload; session_id = session } ∷ [])
            (k.logs id);
    others = λ j f. o.others j f ∙ k.logs j;
    announced =
        o.announced
        ∙ ap (λ l. l ++ broadcast id session (new_server_sync id session n payload) ∷ []) q;
  }
  Outcome-before id session payload e e1 (err x, e') k q o = record {
    valid = o.valid;
    logs = λ j. o.logs j ∙ k.logs j;
    quiet = o.quiet ∙ q;
  }

  Refused-same : (e : E) → v.IsValid e.store → Refused e e
  Refused-same e valid = record { valid = valid; logs = λ j. refl; quiet = refl }

  submit_to-Outcome :
      (id session user : String) (payload : Bytes) (e : E) (x : Result EngineError am.Doc × E)
      → v.IsValid e.store
      → SameLogs e.store x.1.store
      → x.1.effects ≡ e.effects
      → Outcome id session payload e (submit_to st am opts id session user payload x)
  unfolding submit
  submit_to-Outcome id session user payload e (err x, e1) valid k q =
      Outcome-before id session payload e e1 (err x, e1) k (ap broadcasts q)
        (Refused-same e1 (k.valid valid))
  submit_to-Outcome id session user payload e (ok d, e1) valid k q =
      let a = apply_change st am opts id d payload in
      let e2 : E = record e1 { docs = insert id a.doc e1.docs; effects = e1.effects ++ a.fired } in
      Outcome-before id session payload e e2 _ k
        (rw (broadcasts-append e1.effects a.fired, apply_change-quiet id d payload, q)
          (append-nil (broadcasts e.effects)))
        (append-Outcome id session user payload a e2 (k.valid valid))

  -- Over a store that keeps its contract, from a valid state, a submitted change is accepted or
  -- refused as a whole, whatever the store, the resolver and Automerge reply. Accepted, it has the
  -- next number, is one more operation at the end of its document's log, leaves every other log as
  -- it was, and is broadcast once, under that number. Refused, it leaves every log as it was and
  -- is not broadcast.
  pub submit-Outcome :
      (id session user : String) (payload : Bytes) (e : E)
      → v.IsValid e.store
      → Outcome id session payload e (submit st am opts id session user payload e)
  unfolding submit
  submit-Outcome id session user [] e valid = elim (Bool-cases (id == "")) [
    | inl t ↦ rw t (Refused-same e valid)
    | inr f ↦ rw f (Refused-same e valid)
  ]
  submit-Outcome id session user (b ∷ payload) e valid = elim (Bool-cases (id == "")) [
    | inl t ↦ rw t (Refused-same e valid)
    | inr f ↦
        let (k, q) = state-same id e in
        rw f (submit_to-Outcome id session user (b ∷ payload) e (state st am opts id e) valid k q)
  ]
