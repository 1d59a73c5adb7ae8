-- ===== src/Server/Connection/Safe.antt =====
-- Every handler of internal/server/connection.go keeps the hub and the connections safe.
use open_sync_crdt.Prelude.{
  ℕ, zero, suc, ◌+◌, ◌≡◌, refl, String, Bool, true, false, Option, none, some, List, [], ◌∷◌, ◌==◌,
  subst, sym, ap, ◌∙◌, Bool-cases, inl, inr, Result, ok, err, if◌then◌else◌, arith,
}
use open_sync_crdt.Prelude.Int.{ℤ}
use open_sync_crdt.Prelude.Map.{lookup}
use open_sync_crdt.Protocol.{Inbound, Outbound, replay, JsonFrames}
use open_sync_crdt.Storage.{StoredOp, StoreError}
use open_sync_crdt.Storage.Contract.{Store}
use open_sync_crdt.Crdt.{Automerge}
use open_sync_crdt.Metrics.{Registry, operation, operation_error}
use open_sync_crdt.Sync.{
  Engine, Options, EngineError, Effect, emit, broadcast, replay_batch, submit,
}
use open_sync_crdt.Sync.Replay as ReplayLoop
use open_sync_crdt.Sync.Replay.{ReplayError, deliver_from, batch_message}
use open_sync_crdt.Server.{Hub, Conn, update, enqueue, subscribe}
use open_sync_crdt.Server.Safe.{
  IsSafe, Kept, Kept-refl, Kept-trans, KeptAll, update-KeptAll, enqueue_err-Kept, broadcast-Kept,
  IsSafe-kept, remember-IsSafe, subscribe-IsSafe, subscribe-active,
}
use open_sync_crdt.Server.Connection.{
  World, send, fire, perform, deliver, replayed, replay_to, connected_event, set_sub,
  handle_subscribe, remember_session, submitted, run_submit, handle_sync,
}

module _ (st : Store) (am : Automerge) (opts : Options) (json : JsonFrames) where
  abbrev pub IsSafeWorld : World st am → Type 0
  IsSafeWorld w = IsSafe w.hub w.conns

  -- What a handler's replies and broadcasts do: the hub stays, and what every connection keeps.
  pub record Sends (w w' : World st am) : Type 0 where
    pub hub : w'.hub ≡ w.hub
    pub conns : KeptAll w.conns w'.conns

  pub Sends-safe : {w w' : World st am} → Sends w w' → IsSafeWorld w → IsSafeWorld w'
  Sends-safe {w' = w'} s safe =
      subst (λ h. IsSafe h w'.conns) (sym s.hub) (IsSafe-kept s.conns safe)

  pub Sends-refl : (w : World st am) → Sends w w
  Sends-refl w = record { hub = refl; conns = λ k. Kept-refl (w.conns k) }

  pub Sends-trans : {a b c : World st am} → Sends a b → Sends b c → Sends a c
  Sends-trans f g = record { hub = g.hub ∙ f.hub; conns = λ k. Kept-trans (f.conns k) (g.conns k) }

  pub send-Sends :
      (k : ℕ) (msg : Outbound) (w : World st am) → Sends w (send st am opts json k msg w)
  unfolding send enqueue
  send-Sends k msg w = record {
    hub = refl;
    conns = update-KeptAll w.conns k _ (enqueue_err-Kept json msg (w.conns k));
  }

  perform-Sends : (es : List Effect) (w : World st am) → Sends w (perform st am opts json es w)
  unfolding perform
  perform-Sends [] w = Sends-refl w
  perform-Sends (emit name fields ∷ es) w =
      Sends-trans (record { hub = refl; conns = (Sends-refl w).conns }) (perform-Sends es _)
  perform-Sends (broadcast id session msg ∷ es) w =
      Sends-trans (record { hub = refl; conns = broadcast-Kept json id session msg w.hub w.conns })
        (perform-Sends es _)

  deliver_from-Kept :
      (id : String) (size : ℕ) (ops : List StoredOp) (total left batch : ℕ) (d : Conn × Registry)
      → Kept d.0 (deliver_from id size ops (deliver st am opts json) total left batch d).1.0
  unfolding deliver_from deliver
  deliver_from-Kept id size ops total zero batch d = Kept-refl d.0
  deliver_from-Kept id size ops total (suc left) batch d =
      let b = batch_message id size ops total batch in
      let step = deliver st am opts json b d in
      Kept-trans (enqueue_err-Kept json (replay b) d.0)
        (elim step.0
          as (λ (fine : Bool).
            Kept step.1.0
              (if fine
                then deliver_from id size ops (deliver st am opts json) total left (batch + 1)
                    step.1
                else (false, step.1)).1.0) [
                  | true ↦ deliver_from-Kept id size ops total left (batch + 1) step.1
                  | false ↦ Kept-refl step.1.0
                ])

  delivered-Kept :
      (c : Conn) (x : Bool × (Conn × Registry))
      → Kept c x.1.0
      → Kept c (ReplayLoop.delivered st 1 (deliver st am opts json) x).1.0
  unfolding ReplayLoop.delivered
  delivered-Kept c (true, d) kept = kept
  delivered-Kept c (false, d) kept = kept

  replay_ops-Kept :
      (id : String) (size : ℕ) (r : Result StoreError (List StoredOp)) (d : Conn × Registry)
      → Kept d.0 (ReplayLoop.replay_ops st size (deliver st am opts json) id r d).1.0
  unfolding ReplayLoop.replay_ops
  replay_ops-Kept id size (err e) d = Kept-refl d.0
  replay_ops-Kept id size (ok ops) d = delivered-Kept d.0 _ (deliver_from-Kept id size ops _ _ 0 d)

  replay-Kept :
      (id : String) (size : ℕ) (n : ℤ) (s : st.State) (d : Conn × Registry)
      → Kept d.0 (ReplayLoop.replay st size (deliver st am opts json) id n s d).2.0
  unfolding ReplayLoop.replay
  replay-Kept id size n s d = replay_ops-Kept id size (st.get_ops_since id n s).0 d

  replayed-Sends :
      (k : ℕ) (r : Result ReplayError Unit) (w : World st am)
      → Sends w (replayed st am opts json k r w)
  unfolding replayed
  replayed-Sends k (ok u) w = Sends-refl w
  replayed-Sends k (err x) w = send-Sends k _ w

  replay_to-Sends :
      (k : ℕ) (m : Inbound) (w : World st am) → Sends w (replay_to st am opts json k m w)
  unfolding replay_to
  replay_to-Sends k m w =
      let (r, s, (c, reg)) =
        ReplayLoop.replay st (replay_batch opts.replay_batch_size) (deliver st am opts json)
          m.doc_id m.last_seq w.engine.store (w.conns k, w.metrics) in
      let w' : World st am = record w {
        engine = record w.engine { store = s };
        conns = update w.conns k c;
        metrics = reg;
      } in
      Sends-trans {b = w'}
        (record {
          hub = refl;
          conns = update-KeptAll w.conns k c (
              replay-Kept m.doc_id (replay_batch opts.replay_batch_size) m.last_seq w.engine.store
                (w.conns k, w.metrics));
        })
        (replayed-Sends k r w')

  submitted-Sends :
      (k : ℕ) (m : Inbound) (r : Result EngineError ℕ) (w : World st am)
      → Sends w (submitted st am opts json k m r w)
  unfolding submitted
  submitted-Sends k m (ok seq) w =
      let s = send-Sends k _ (record w { metrics = operation m.doc_id w.metrics }) in
      record { hub = s.hub; conns = s.conns }
  submitted-Sends k m (err x) w =
      let s = send-Sends k _ (record w { metrics = operation_error w.metrics }) in
      record { hub = s.hub; conns = s.conns }

  run_submit-Sends :
      (k : ℕ) (m : Inbound) (w : World st am) → Sends w (run_submit st am opts json k m w).1
  unfolding run_submit
  run_submit-Sends k m w =
      let e : Engine st am = record w.engine { effects = [] } in
      let (r, e') = submit st am opts m.doc_id m.session_id (w.conns k).user_id m.payload e in
      let s = perform-Sends e'.effects (record w { engine = e' }) in
      record { hub = s.hub; conns = s.conns }

  remember_session-safe :
      (k : ℕ) (m : Inbound) (w : World st am)
      → IsSafeWorld w
      → IsSafeWorld (remember_session st am opts json k m w)
  unfolding remember_session set_sub
  remember_session-safe k m w safe =
      elim (lookup m.doc_id (w.conns k).subs)
        as (λ (o : Option String).
          IsSafeWorld
            (elim o [ some s ↦ w | none ↦ set_sub st am opts json k m.doc_id m.session_id w ])) [
              | some s ↦ safe
              | none ↦ remember-IsSafe w.hub w.conns k m.doc_id m.session_id safe
            ]

  pub handle_subscribe-safe :
      (k : ℕ) (m : Inbound) (w : World st am)
      → IsSafeWorld w
      → IsSafeWorld (handle_subscribe st am opts json k m w)
  unfolding handle_subscribe
  handle_subscribe-safe k m w safe = elim (Bool-cases (m.doc_id == "")) [
    | inl empty ↦ rw empty (Sends-safe (send-Sends k _ w) safe)
    | inr named ↦ rw named (
        Sends-safe (replay_to-Sends k m _)
          (subscribe-IsSafe w.hub w.conns k m.doc_id m.session_id safe))
  ]

  pub handle_sync-safe :
      (k : ℕ) (m : Inbound) (w : World st am)
      → IsSafeWorld w
      → IsSafeWorld (handle_sync st am opts json k m w)
  unfolding handle_sync
  handle_sync-safe k m w safe = elim (Bool-cases (m.doc_id == "")) [
    | inl empty ↦ rw empty (Sends-safe (send-Sends k _ w) safe)
    | inr named ↦ rw named (
        Sends-safe
          (Sends-trans (run_submit-Sends k m (remember_session st am opts json k m w))
            (submitted-Sends k m _ _))
          (remember_session-safe k m w safe))
  ]

  -- No frame takes or gives back a slot.
  pub handle_subscribe-active :
      (k : ℕ) (m : Inbound) (w : World st am)
      → (handle_subscribe st am opts json k m w).hub.active ≡ w.hub.active
  unfolding handle_subscribe
  handle_subscribe-active k m w = elim (Bool-cases (m.doc_id == "")) [
    | inl empty ↦ rw empty refl
    | inr named ↦
        let w1 = set_sub st am opts json k m.doc_id m.session_id w in
        let w2 : World st am = record w1 { hub = subscribe m.doc_id k w1.hub } in
        let w3 =
          fire st am opts json "on_client_connected"
            (connected_event st am opts json m.doc_id m.session_id (w2.conns k)) w2 in
        rw named (
          ap (λ (h : Hub). h.active) (replay_to-Sends k m w3).hub
          ∙ subscribe-active m.doc_id k w.hub)
  ]

  remember_session-hub :
      (k : ℕ) (m : Inbound) (w : World st am) → (remember_session st am opts json k m w).hub ≡ w.hub
  unfolding remember_session
  remember_session-hub k m w = ground arith

  pub handle_sync-active :
      (k : ℕ) (m : Inbound) (w : World st am)
      → (handle_sync st am opts json k m w).hub.active ≡ w.hub.active
  unfolding handle_sync
  handle_sync-active k m w = elim (Bool-cases (m.doc_id == "")) [
    | inl empty ↦ rw empty refl
    | inr named ↦
        let (r, w') = run_submit st am opts json k m (remember_session st am opts json k m w) in
        rw named (
          ap (λ (h : Hub). h.active)
            ((submitted-Sends k m r w').hub
              ∙ (run_submit-Sends k m (remember_session st am opts json k m w)).hub
              ∙ remember_session-hub k m w))
  ]
