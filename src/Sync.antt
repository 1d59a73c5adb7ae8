-- ===== src/Sync.antt =====
-- internal/sync/engine.go: the engine's state and its operations, over a store and Automerge.
-- Every operation holds the document's lock from its first use of the cached document to its
-- return, so each is one step; the load of a document that is not cached is part of the step. Webhooks and broadcasts go out through interfaces: the engine's `effects`
-- are its calls of them, in order.
pub mod Replay
pub mod Submit
pub mod Coherent
pub mod Snapshots
pub mod Restart
pub mod Divergence
pub mod Interleave
use open_sync_crdt.Prelude.{
  ℕ, zero, suc, ◌+◌, ◌*◌, ◌%◌, String, Bytes, Bool, true, false, ◌&&◌, ◌||◌, Option, none, some,
  List, [], ◌∷◌, ◌++◌, map, ◌==◌, eqb, leb, ltb, if◌then◌else◌, length, Result, ok, err,
}
use open_sync_crdt.Prelude.Int.{ℤ, pos, negsuc}
use open_sync_crdt.Prelude.Map.{Map, lookup, insert, erase}
use open_sync_crdt.Protocol.{ServerSync, new_server_sync}
use open_sync_crdt.Storage.{StoreError, no_snapshot, StoredOp}
use open_sync_crdt.Storage.Contract.{Store}
use open_sync_crdt.Crdt.{
  Automerge, CrdtError, Resolver, ResolveError, resolve_message, apply, load, rehydrate, resolve,
}

pub data EngineError : Type 0 where
  empty_doc_id empty_payload : EngineError
  store_error : String → StoreError → EngineError
  crdt_error : CrdtError → EngineError

-- A value in the fields of a webhook event.
pub data Field : Type 0 where
  text : String → Field
  num : ℕ → Field
  null : Field

unfoldable pub nullable : String → Field
nullable s = if s == "" then null else text s

pub data Effect : Type 0 where
  emit : String → List (String × Field) → Effect
  broadcast : String → String → ServerSync → Effect

-- `Options` as NewEngine keeps them: no emitter, or no resolver, is nil in the source.
pub record Options : Type 0 where
  pub snapshot_interval : ℤ
  pub replay_batch_size : ℤ
  pub resolver : Option Resolver
  pub has_emitter : Bool

unfoldable pub default_replay_batch_size : ℕ
default_replay_batch_size = 500

-- `batch <= 0` takes the default.
unfoldable pub replay_batch : ℤ → ℕ
unfolding default_replay_batch_size
replay_batch (pos zero) = default_replay_batch_size
replay_batch (pos (suc n)) = suc n
replay_batch (negsuc n) = default_replay_batch_size

-- `snapshotEvery > 0 && seq % snapshotEvery == 0`
unfoldable pub snapshot_due : ℤ → ℕ → Bool
snapshot_due (pos zero) seq = false
snapshot_due (pos (suc n)) seq = eqb (seq % suc n) 0
snapshot_due (negsuc n) seq = false

module _ (st : Store) (am : Automerge) where
  pub record Engine : Type 0 where
    pub store : st.State
    pub docs : Map am.Doc
    pub effects : List Effect

  module _ (opts : Options) where
    events : List Effect → List Effect
    events es = if opts.has_emitter then es else []

    -- What applyChange leaves: its error, the document, and the webhooks that it fires.
    pub record Applied : Type 0 where
      pub result : Result CrdtError Unit
      pub doc : am.Doc
      pub fired : List Effect

    resolver_failed : String → ResolveError → Effect
    unfolding resolve_message
    resolver_failed id x = emit "on_sync_error" (
        ("doc_id", text id)
        ∷ ("session_id", text "")
        ∷ ("error_code", text "resolver_failed")
        ∷ ("error_message", text (resolve_message x))
        ∷ [])

    -- A resolved state that loads takes the document's place; any failure keeps Automerge's.
    use_resolved : String → am.Doc → Result ResolveError Bytes → Applied
    unfolding resolver_failed load events
    use_resolved id d (err e) = record {
      result = ok tt;
      doc = d;
      fired = events (resolver_failed id e ∷ []);
    }
    use_resolved id d (ok state) = elim (load am state) [
      | err e ↦ record { result = ok tt; doc = d; fired = [] }
      | ok d' ↦ record { result = ok tt; doc = d'; fired = [] }
    ]

    consult : Resolver → String → am.Doc → Bytes → Result CrdtError Unit × am.Doc → Applied
    unfolding use_resolved
    consult r id before payload (err e, d) = record { result = err e; doc = d; fired = [] }
    consult r id before payload (ok u, d) =
        if eqb (length (am.heads before)) 0 || leb (length (am.heads d)) 1
        then record { result = ok tt; doc = d; fired = [] }
        else use_resolved id d (resolve r id (am.save before) payload (am.save before))

    unfoldable pub apply_change : String → am.Doc → Bytes → Applied
    unfolding consult apply
    apply_change id d payload = elim opts.resolver [
      | none ↦ let (r, d') = apply am d payload in record { result = r; doc = d'; fired = [] }
      | some r ↦ consult r id d payload (apply am d payload)
    ]

    rehydrated : Result CrdtError am.Doc → Result EngineError am.Doc
    rehydrated (err e) = err (crdt_error e)
    rehydrated (ok d) = ok d

    unfoldable pub load_tail : Bytes → Result StoreError (List StoredOp) → Result EngineError am.Doc
    unfolding rehydrated rehydrate
    load_tail snapshot (err e) = err (store_error "load ops" e)
    load_tail snapshot (ok ops) = rehydrated (rehydrate am snapshot (map (λ o. o.payload) ops))

    load_from : String → Bytes → ℕ → st.State → Result EngineError am.Doc × st.State
    unfolding load_tail
    load_from id snapshot at_seq s =
        let (r, s') = st.get_ops_since id (pos at_seq) s in (load_tail snapshot r, s')

    loaded_snapshot :
        String → Result StoreError (Bytes × ℕ) → st.State → Result EngineError am.Doc × st.State
    unfolding load_from
    loaded_snapshot id (ok (snapshot, at_seq)) s = load_from id snapshot at_seq s
    loaded_snapshot id (err no_snapshot) s = load_from id [] 0 s
    loaded_snapshot id (err e) s = (err (store_error "load snapshot" e), s)

    unfoldable pub load_doc : String → st.State → Result EngineError am.Doc × st.State
    unfolding loaded_snapshot
    load_doc id s = let (r, s') = st.get_snapshot id s in loaded_snapshot id r s'

    cache_loaded :
        String → Engine → Result EngineError am.Doc × st.State → Result EngineError am.Doc × Engine
    cache_loaded id e (err x, s) = (err x, record e { store = s })
    cache_loaded id e (ok d, s) = (ok d, record e { store = s; docs = insert id d e.docs })

    -- The cached document, or the one that the store gives.
    unfoldable pub state : String → Engine → Result EngineError am.Doc × Engine
    unfolding load_doc cache_loaded
    state id e = elim (lookup id e.docs) [
      | some d ↦ (ok d, e)
      | none ↦ cache_loaded id e (load_doc id e.store)
    ]

    created_event : String → String → Effect
    unfolding nullable
    created_event id user =
        emit "on_document_created" (("doc_id", text id) ∷ ("user_id", nullable user) ∷ [])

    updated_event : String → String → String → ℕ → Effect
    unfolding nullable
    updated_event id session user seq = emit "on_document_updated" (
        ("doc_id", text id)
        ∷ ("seq", num seq)
        ∷ ("user_id", nullable user)
        ∷ ("session_id", text session)
        ∷ [])

    -- A snapshot that fails is only logged.
    pub save_if_due : String → am.Doc → ℕ → st.State → st.State
    unfolding snapshot_due
    save_if_due id d seq s =
        if snapshot_due opts.snapshot_interval seq
        then (st.save_snapshot id (am.save d) seq s).1
        else s

    commit_change :
        String
        → String
        → String
        → Bytes
        → am.Doc
        → Engine
        → Result StoreError ℕ
        → Result EngineError ℕ × Engine
    unfolding save_if_due created_event updated_event new_server_sync events
    commit_change id session user payload d e (err x) = (err (store_error "append op" x), e)
    commit_change id session user payload d e (ok seq) = (
      ok seq,
      record e {
        store = save_if_due id d seq e.store;
        effects =
            e.effects
            ++ (events (if eqb seq 1 then created_event id user ∷ [] else [])
                ++ (events (updated_event id session user seq ∷ [])
                    ++ broadcast id session (new_server_sync id session seq payload) ∷ []));
      },
    )

    append_change :
        String → String → String → Bytes → Applied → Engine → Result EngineError ℕ × Engine
    unfolding commit_change
    append_change id session user payload a e = elim a.result [
      | err x ↦ (err (crdt_error x), e)
      | ok u ↦
          let (r, s) = st.append_op id payload session e.store in
          commit_change id session user payload a.doc (record e { store = s }) r
    ]

    -- The document is changed in the cache before the operation is appended.
    submit_to :
        String
        → String
        → String
        → Bytes
        → Result EngineError am.Doc × Engine
        → Result EngineError ℕ × Engine
    unfolding append_change
    submit_to id session user payload (err x, e) = (err x, e)
    submit_to id session user payload (ok d, e) =
        let a = apply_change id d payload in
        append_change id session user payload a
          (record e { docs = insert id a.doc e.docs; effects = e.effects ++ a.fired })

    unfoldable pub submit :
        String → String → String → Bytes → Engine → Result EngineError ℕ × Engine
    unfolding submit_to
    submit id session user [] e = if id == "" then (err empty_doc_id, e) else (err empty_payload, e)
    submit id session user (b ∷ payload) e =
        if id == ""
        then (err empty_doc_id, e)
        else submit_to id session user (b ∷ payload) (state id e)

    saved : ℕ → Result StoreError Unit → Result EngineError ℕ
    saved seq (err x) = err (store_error "save snapshot" x)
    saved seq (ok u) = ok seq

    snapshot_at :
        String → am.Doc → Engine → Result StoreError ℕ × st.State → Result EngineError ℕ × Engine
    unfolding saved
    snapshot_at id d e (err x, s) = (err (store_error "" x), record e { store = s })
    snapshot_at id d e (ok seq, s) =
        let (r, s') = st.save_snapshot id (am.save d) seq s in
        (saved seq r, record e { store = s' })

    snapshot_of : String → Result EngineError am.Doc × Engine → Result EngineError ℕ × Engine
    unfolding snapshot_at
    snapshot_of id (err x, e) = (err x, e)
    snapshot_of id (ok d, e) = snapshot_at id d e (st.get_latest_seq id e.store)

    -- `Snapshot`
    unfoldable pub take_snapshot : String → Engine → Result EngineError ℕ × Engine
    unfolding snapshot_of
    take_snapshot id e = snapshot_of id (state id e)

    exported : Result EngineError am.Doc × Engine → Result EngineError Bytes × Engine
    exported (err x, e) = (err x, e)
    exported (ok d, e) = (ok (am.save d), e)

    -- `Export`
    unfoldable pub export : String → Engine → Result EngineError Bytes × Engine
    unfolding exported
    export id e = exported (state id e)

  -- `Forget`
  unfoldable pub forget : String → Engine → Engine
  forget id e = record e { docs = erase id e.docs }
