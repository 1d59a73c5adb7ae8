-- ===== src/Api/Documents.antt =====
-- What the deletion and the history of a document, internal/api/documents.go, come to.
use open_sync_crdt.Prelude.{
  String, false, none, List, [], ◌∷◌, ◌++◌, map, ◌==◌, ◌≡◌, refl, sym, ap, ◌∙◌, arith, eq_refl,
  Result, ok, err,
}
use open_sync_crdt.Prelude.Int.{ℤ, pos}
use open_sync_crdt.Prelude.Map.{lookup, lookup-erase}
use open_sync_crdt.Storage.{StoreError, document_not_found, StoredOp, Document}
use open_sync_crdt.Storage.Contract.{Store, Contract, Views, since, Deletes}
use open_sync_crdt.Crdt.{Automerge}
use open_sync_crdt.Sync.{text, null, forget}
use open_sync_crdt.Api.{
  Api, OpView, after_delete, handle_delete_doc, doc_error, write_error, with_store, found,
  lookup_first, history_of, handle_history, limited, to_op_view, atoi_default, write_json, history,
}

module _ (st : Store) (am : Automerge) (v : Views st.State) (law : Contract st v) where
  -- A document is gone: from the log, the snapshots and the cache; the others are as they were; and
  -- one event tells of it.
  pub record IsGone (id : String) (a b : Api st am) : Type 0 where
    pub deletes : Deletes v id a.engine.store b.engine.store
    pub not_cached : lookup id b.engine.docs ≡ none
    pub others_cached :
        (j : String) → (id == j) ≡ false → lookup j b.engine.docs ≡ lookup j a.engine.docs
    pub told :
        b.emitted
        ≡ a.emitted ++ ("on_document_deleted", ("doc_id", text id) ∷ ("user_id", null) ∷ []) ∷ []

  error_status : (e : StoreError) → ¬ ((doc_error e).status ≡ 200)
  unfolding doc_error write_error
  error_status document_not_found h = ground arith
  error_status _ h = ground arith

  deleted-IsGone :
      (id : String) (a : Api st am) (r : Result StoreError Unit)
      → v.IsValid a.engine.store
      → (st.delete_document id a.engine.store).0 ≡ r
      → (after_delete st am id r
          (with_store st am (st.delete_document id a.engine.store).1 a)).0.status
        ≡ 200
      → IsGone id a
          (after_delete st am id r (with_store st am (st.delete_document id a.engine.store).1 a)).1
  unfolding after_delete with_store forget
  deleted-IsGone id a (err e) c q h = absurd (error_status e h)
  deleted-IsGone id a (ok u) c q h = record {
    deletes = law.delete_ok id a.engine.store c q;
    not_cached = ground (arith, lookup-erase id id a.engine.docs, eq_refl id);
    others_cached = λ j ne. ground (arith, lookup-erase id j a.engine.docs);
    told = refl;
  }

  -- Over a store that keeps its contract: a request to delete a document that is answered with 200
  -- has taken it, and nothing else, from the log, the snapshots and the cache, and has told of it by
  -- one event.
  pub handle_delete_doc-IsGone :
      (id : String) (a : Api st am)
      → v.IsValid a.engine.store
      → (handle_delete_doc st am id a).0.status ≡ 200
      → IsGone id a (handle_delete_doc st am id a).1
  unfolding handle_delete_doc
  handle_delete_doc-IsGone id a c h = deleted-IsGone id a _ c refl h

  abbrev asked : String → (String → String) → List StoredOp → List OpView
  asked id query log = map to_op_view (
      limited (atoi_default (query "limit") (pos 0))
        (since (atoi_default (query "after") (pos 0)) log))

  history-views :
      (id : String) (limit : ℤ) (views : List OpView) (ops : List StoredOp)
      (r : Result StoreError (List StoredOp))
      → ((os : List StoredOp) → r ≡ ok os → os ≡ ops)
      → history_of st am id limit r ≡ write_json 200 (history id views)
      → views ≡ map to_op_view (limited limit ops)
  unfolding history_of write_error
  history-views id limit views ops (err e) k h = absurd (ground (arith, ap (λ r. r.status) h))
  history-views id limit views ops (ok os) k h =
      sym (views_of h) ∙ ap (λ l. map to_op_view (limited limit l)) (k os refl)
    where
      views_of :
          write_json 200 (history id (map to_op_view (limited limit os)))
            ≡ write_json 200 (history id views)
          → map to_op_view (limited limit os) ≡ views
      views_of e = ap (λ r. elim r.body [ history _ vs ↦ vs | _ ↦ views ]) e

  found-views :
      (id : String) (query : String → String) (views : List OpView) (a : Api st am)
      (r : Result StoreError Document)
      → v.IsValid a.engine.store
      → (st.get_document id a.engine.store).0 ≡ r
      → (found st am r
          (λ b.
            let (o, s) =
              st.get_ops_since id (atoi_default (query "after") (pos 0)) b.engine.store in
            (history_of st am id (atoi_default (query "limit") (pos 0)) o, with_store st am s b))
          (with_store st am (st.get_document id a.engine.store).1 a)).0
        ≡ write_json 200 (history id views)
      → views ≡ asked id query (v.log id a.engine.store)
  unfolding found with_store
  found-views id query views a (err e) c q h = absurd (error_status e (ap (λ x. x.status) h))
  found-views id query views a (ok d) c q h =
      let read = law.get_same id a.engine.store in
      let after = atoi_default (query "after") (pos 0) in
      history-views id _ views _ _
        (λ os e.
          law.since_ok id after (st.get_document id a.engine.store).1 os (read.valid c) e
          ∙ ap (since after) (read.logs id))
        h

  -- Over a store that keeps its contract: the operations of a history that is answered are those of
  -- the document's log after the number asked for, in order, and at most as many as the limit says,
  -- where it is positive.
  pub handle_history-asked :
      (id : String) (query : String → String) (views : List OpView) (a : Api st am)
      → v.IsValid a.engine.store
      → (handle_history st am id query a).0 ≡ write_json 200 (history id views)
      → views
        ≡ map to_op_view (
            limited
              (atoi_default (query "limit") (pos 0))
              (since (atoi_default (query "after") (pos 0)) (v.log id a.engine.store)))
  unfolding handle_history lookup_first
  handle_history-asked id query views a c h = found-views id query views a _ c refl h
