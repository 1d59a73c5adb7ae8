-- ===== src/Storage/History.antt =====
-- Any sequence of calls on a store that keeps the contract: what the logs hold at the end is what
-- the acknowledged calls say, and nothing else.
use mathlib.Core.List.{map-append}
use open_sync_crdt.Prelude.{
  ℕ, String, Bytes, List, [], ◌∷◌, ◌++◌, map, ◌≡◌, refl, ap, ◌∙◌, subst, ◌==◌, if◌then◌else◌,
  Result, ok, err, String-cases, inl, inr,
}
use open_sync_crdt.Prelude.Int.{ℤ}
use open_sync_crdt.Prelude.Map.{Map}
use open_sync_crdt.Storage.{StoreError, StoredOp}
use open_sync_crdt.Storage.Contract.{Store, Contract, Views, SameViews, Appends, Deletes}

-- The calls that the server makes of its store.
pub data Call : Type 0 where
  append : String → Bytes → String → Call
  read_since : String → ℤ → Call
  save : String → Bytes → ℕ → Call
  read_snapshot : String → Call
  read_latest : String → Call
  create : String → Map String → Call
  delete : String → Call

-- An operation as its author sent it.
pub record Sent : Type 0 where
  pub payload : Bytes
  pub session_id : String

abbrev pub sent : StoredOp → Sent
sent o = record { payload = o.payload; session_id = o.session_id }

-- What an outsider believes each log to be.
abbrev pub Belief : Type 0
Belief = String → List Sent

-- An acknowledged append adds one operation to one log, an acknowledged delete empties one.
abbrev pub after_append : String → Sent → Result StoreError ℕ → Belief → Belief
after_append id o (ok n) b j = if id == j then b j ++ o ∷ [] else b j
after_append id o (err e) b j = b j

abbrev pub after_delete : String → Result StoreError Unit → Belief → Belief
after_delete id (ok u) b j = if id == j then [] else b j
after_delete id (err e) b j = b j

module _ (st : Store) where
  -- One call: the next state, and the next belief by the reply alone.
  unfoldable pub step : Call → st.State × Belief → st.State × Belief
  step (append id change session) (s, b) =
      let (r, t) = st.append_op id change session s in
      (t, after_append id (record { payload = change; session_id = session }) r b)
  step (read_since id n) (s, b) = ((st.get_ops_since id n s).1, b)
  step (save id state at_seq) (s, b) = ((st.save_snapshot id state at_seq s).1, b)
  step (read_snapshot id) (s, b) = ((st.get_snapshot id s).1, b)
  step (read_latest id) (s, b) = ((st.get_latest_seq id s).1, b)
  step (create id m) (s, b) = ((st.create_document id m s).1, b)
  step (delete id) (s, b) = let (r, t) = st.delete_document id s in (t, after_delete id r b)

  unfoldable pub run : List Call → st.State × Belief → st.State × Belief
  unfolding step
  run [] x = x
  run (c ∷ cs) x = run cs (step c x)

module _ (st : Store) (v : Views st.State) (law : Contract st v) where
  -- The state is valid and the belief is right.
  pub record Agrees (x : st.State × Belief) : Type 0 where
    pub valid : v.IsValid x.0
    pub right : (j : String) → map sent (v.log j x.0) ≡ x.1 j

  Agrees-same : {s t : st.State} {b : Belief} → SameViews v s t → Agrees (s, b) → Agrees (t, b)
  Agrees-same h a = record {
    valid = h.valid a.valid;
    right = λ j. ap (map sent) (h.logs j) ∙ a.right j;
  }

  module _ (s : st.State) (b : Belief) (a : Agrees (s, b)) where
    append_replied :
        (id : String) (change : Bytes) (session : String) (r : Result StoreError ℕ)
        → (st.append_op id change session s).0 ≡ r
        → Agrees (
          (st.append_op id change session s).1,
          after_append id (record { payload = change; session_id = session }) r b,
        )
    append_replied id change session (err x) e =
        Agrees-same (law.append_err id change session s x e) a
    append_replied id change session (ok n) e = record {
      valid = w.valid;
      right = λ j. elim (String-cases id j) [
        | inl (q, t) ↦ rw t (subst (λ k. map sent (v.log k after) ≡ b k ++ o ∷ []) q own)
        | inr (q, f) ↦ rw f (ap (map sent) (w.others j f) ∙ a.right j)
      ];
    }
      where
        after : st.State
        after = (st.append_op id change session s).1

        o : Sent
        o = record { payload = change; session_id = session }

        w : Appends v id change session s after
        w = (law.append_ok id change session s n a.valid e).1

        own : map sent (v.log id after) ≡ b id ++ o ∷ []
        own = rw (w.appended, map-append sent (v.log id s), a.right id)

    delete_replied :
        (id : String) (r : Result StoreError Unit)
        → (st.delete_document id s).0 ≡ r
        → Agrees ((st.delete_document id s).1, after_delete id r b)
    delete_replied id (err x) e = Agrees-same (law.delete_err id s x e) a
    delete_replied id (ok tt) e =
        let w : Deletes v id s (st.delete_document id s).1 = law.delete_ok id s a.valid e in
        record {
          valid = w.valid;
          right = λ j. elim (String-cases id j) [
            | inl (q, t) ↦
                rw t
                  (subst (λ k. map sent (v.log k (st.delete_document id s).1) ≡ []) q (rw w.no_log))
            | inr (q, f) ↦ rw f (ap (map sent) (w.other_logs j f) ∙ a.right j)
          ];
        }

    save_replied :
        (id : String) (state : Bytes) (n : ℕ) (r : Result StoreError Unit)
        → (st.save_snapshot id state n s).0 ≡ r
        → Agrees ((st.save_snapshot id state n s).1, b)
    save_replied id state n (err x) e = Agrees-same (law.save_err id state n s x e) a
    save_replied id state n (ok tt) e =
        let w = law.save_ok id state n s a.valid e in
        record { valid = w.valid; right = λ j. ap (map sent) (w.logs j) ∙ a.right j }

  step-Agrees : (c : Call) (s : st.State) (b : Belief) → Agrees (s, b) → Agrees (step st c (s, b))
  unfolding step
  step-Agrees (append id change session) s b a = append_replied s b a id change session _ refl
  step-Agrees (read_since id n) s b a = Agrees-same (law.since_same id n s) a
  step-Agrees (save id state n) s b a = save_replied s b a id state n _ refl
  step-Agrees (read_snapshot id) s b a = Agrees-same (law.snapshot_same id s) a
  step-Agrees (read_latest id) s b a = Agrees-same (law.latest_same id s) a
  step-Agrees (create id m) s b a = Agrees-same (law.create_same id m s) a
  step-Agrees (delete id) s b a = delete_replied s b a id _ refl

  pub run-Agrees :
      (cs : List Call) (s : st.State) (b : Belief) → Agrees (s, b) → Agrees (run st cs (s, b))
  unfolding run
  run-Agrees [] s b a = a
  run-Agrees (c ∷ cs) s b a =
      let (t, b') = step st c (s, b) in run-Agrees cs t b' (step-Agrees c s b a)
