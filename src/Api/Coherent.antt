-- ===== src/Api/Coherent.antt =====
-- The document handlers of internal/api/documents.go and the coherence of the engine behind them.
use open_sync_crdt.Prelude.{
  ℕ, String, Bytes, Option, none, some, ◌==◌, ◌≡◌, refl, sym, ap, ◌∙◌, arith, Result, ok, err,
  Bool-cases, String-cases, inl, inr,
}
use open_sync_crdt.Prelude.Int.{ℤ, pos}
use open_sync_crdt.Prelude.Map.{lookup, erase, lookup-erase}
use open_sync_crdt.Storage.{StoreError, document_exists, Document}
use open_sync_crdt.Storage.Contract.{Store, Contract, Views, SameViews, Deletes, since}
use open_sync_crdt.Crdt.{Automerge, IsAutomerge}
use open_sync_crdt.Crdt.Fold.{fold_ops}
use open_sync_crdt.Sync.{Engine, Options, forget}
use open_sync_crdt.Sync.Coherent.{
  payloads, Builds, IsSnapshot, IsCoherent, IsSound-same, Builds-same,
}
use open_sync_crdt.Sync.Snapshots.{take_snapshot-Coherent, export-Coherent}
use open_sync_crdt.Api.{
  Api, Response, CreateBody, with_store, created, handle_create_doc, list_by, list_after,
  handle_list_docs, handle_get_doc, after_delete, handle_delete_doc, found, lookup_first,
  handle_history, atoi_default, handle_snapshot, handle_export,
}

module _ (st : Store) (am : Automerge) (v : Views st.State) (law : Contract st v)
    (auto : IsAutomerge am) where
  abbrev A : Type 0
  A = Api st am

  -- The engine behind the API is coherent.
  abbrev pub IsServing : A → Type 0
  IsServing a = IsCoherent st am v law auto a.engine

  with_store-IsServing :
      (a : A) (s : st.State)
      → SameViews v a.engine.store s
      → IsServing a
      → IsServing (with_store st am s a)
  unfolding with_store
  with_store-IsServing a s w h = record {
    sound = IsSound-same st am v law auto w h.sound;
    cached = λ j d q. Builds-same st am v law auto j d w (h.cached j d q);
  }

  created-IsServing :
      (id : String) (r : Result StoreError Unit) (a : A)
      → IsServing a
      → IsServing (created st am id r a).1
  unfolding created
  created-IsServing id (ok u) a h = with_store-IsServing a _ (law.get_same id a.engine.store) h
  created-IsServing id (err document_exists) a h = h
  created-IsServing id (err _) a h = h

  pub handle_create_doc-IsServing :
      (body : Option CreateBody) (a : A)
      → IsServing a
      → IsServing (handle_create_doc st am body a).1
  unfolding handle_create_doc
  handle_create_doc-IsServing none a h = h
  handle_create_doc-IsServing (some b) a h =
      let kept = with_store-IsServing a _ (law.create_same b.doc_id b.metadata a.engine.store) h in
      let after = created-IsServing b.doc_id _ _ kept in
      elim (Bool-cases (b.doc_id == "")) [ inl e ↦ rw e h | inr e ↦ rw e after ]

  pub handle_get_doc-IsServing :
      (id : String) (a : A) → IsServing a → IsServing (handle_get_doc st am id a).1
  unfolding handle_get_doc
  handle_get_doc-IsServing id a h = with_store-IsServing a _ (law.get_same id a.engine.store) h

  -- A document that the store has deleted leaves the cache with it.
  forget-IsServing :
      (id : String) (e : Engine st am) (s : st.State)
      → IsCoherent st am v law auto e
      → Deletes v id e.store s
      → IsCoherent st am v law auto (forget st am id (record e { store = s }))
  unfolding forget
  forget-IsServing id e s h w = record {
    sound = record { valid = w.valid; snapshots = own };
    cached = others;
  }
    where
      others :
          (j : String) (d : am.Doc)
          → lookup j (erase id e.docs) ≡ some d
          → Builds st am v law auto j s d
      others j d q = elim (Bool-cases (id == j)) [
        | inl t ↦ absurd (ground (arith, lookup-erase id j e.docs))
        | inr f ↦
            ap (λ l. fold_ops am am.new (payloads l)) (w.other_logs j f)
            ∙ h.cached j d (ground (arith, lookup-erase id j e.docs))
      ]

      own :
          (j : String) (b : Bytes) (n : ℕ)
          → v.snapshot j s ≡ some (b, n)
          → IsSnapshot st am v law auto (v.log j s) b n
      own j b n q = elim (String-cases id j) [
        | inl (p, t) ↦ absurd (ground (arith, ap (λ k. v.snapshot k s) p, w.no_snapshots))
        | inr (p, f) ↦
            rw (w.other_logs j f) (h.sound.snapshots j b n (sym (w.other_snapshots j f) ∙ q))
      ]

  deleted-IsServing :
      (id : String) (a : A) (r : Result StoreError Unit)
      → (st.delete_document id a.engine.store).0 ≡ r
      → IsServing a
      → IsServing
          (after_delete st am id r (with_store st am (st.delete_document id a.engine.store).1 a)).1
  unfolding after_delete with_store
  deleted-IsServing id a (err e) q h =
      with_store-IsServing a _ (law.delete_err id a.engine.store e q) h
  deleted-IsServing id a (ok u) q h =
      forget-IsServing id a.engine _ h (law.delete_ok id a.engine.store h.sound.valid q)

  pub handle_delete_doc-IsServing :
      (id : String) (a : A) → IsServing a → IsServing (handle_delete_doc st am id a).1
  unfolding handle_delete_doc
  handle_delete_doc-IsServing id a h = deleted-IsServing id a _ refl h

  list_after-IsServing :
      (limit offset : ℤ) (r : Option (Option ℕ)) (a : A)
      → IsServing a
      → IsServing (list_after st am limit offset r a).1
  unfolding list_after list_by
  list_after-IsServing limit offset none a h = h
  list_after-IsServing limit offset (some since) a h =
      with_store-IsServing a _ (law.list_same _ a.engine.store) h

  pub handle_list_docs-IsServing :
      (parse_time : String → Option (Option ℕ)) (query : String → String) (a : A)
      → IsServing a
      → IsServing (handle_list_docs st am parse_time query a).1
  unfolding handle_list_docs
  handle_list_docs-IsServing parse_time query a h = list_after-IsServing _ _ _ a h

  lookup_first-IsServing :
      (id : String) (k : A → Response × A) (a : A)
      → ((b : A) → IsServing b → IsServing (k b).1)
      → IsServing a
      → IsServing (lookup_first st am id k a).1
  unfolding lookup_first found
  lookup_first-IsServing id k a step h =
      found_then _ (st.get_document id a.engine.store).0
        (with_store-IsServing a _ (law.get_same id a.engine.store) h)
    where
      found_then :
          (b : A) (r : Result StoreError Document) → IsServing b → IsServing (found st am r k b).1
      found_then b (err x) h = h
      found_then b (ok d) h = step b h

  pub handle_history-IsServing :
      (id : String) (query : String → String) (a : A)
      → IsServing a
      → IsServing (handle_history st am id query a).1
  unfolding handle_history
  handle_history-IsServing id query a h =
      lookup_first-IsServing id _ a
        (λ b k.
          with_store-IsServing b _
            (law.since_same id (atoi_default (query "after") (pos 0)) b.engine.store) k)
        h

  module _ (opts : Options) where
    pub handle_snapshot-IsServing :
        (id : String) (a : A) → IsServing a → IsServing (handle_snapshot st am opts id a).1
    unfolding handle_snapshot
    handle_snapshot-IsServing id a h =
        lookup_first-IsServing id _ a
          (λ b k. take_snapshot-Coherent st am v law auto opts id b.engine k) h

    pub handle_export-IsServing :
        (id : String) (a : A) → IsServing a → IsServing (handle_export st am opts id a).1
    unfolding handle_export
    handle_export-IsServing id a h =
        lookup_first-IsServing id _ a (λ b k. export-Coherent st am v law auto opts id b.engine k) h
