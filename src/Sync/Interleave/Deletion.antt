-- ===== src/Sync/Interleave/Deletion.antt =====
-- The race of a load with a deletion: state() of internal/sync/engine.go reads the store without a
-- lock, and DELETE of internal/api/documents.go deletes from the store and then forgets the cached
-- document, so a load that read before the deletion can end after it.
use open_sync_crdt.Prelude.{
  ℕ, String, true, none, some, [], ◌≡◌, refl, sym, ◌∙◌, ap, subst, arith, ok, eq_refl,
}
use open_sync_crdt.Prelude.Map.{lookup, insert, erase, lookup-insert, lookup-erase}
use open_sync_crdt.Storage.Contract.{Store, Contract, Views}
use open_sync_crdt.Crdt.{Automerge, IsAutomerge}
use open_sync_crdt.Sync.{Engine, Options, state, load_doc, export, forget}
use open_sync_crdt.Sync.Coherent.{load_doc-same}
use open_sync_crdt.Sync.Interleave.{
  idle, loaded, LoadWorld, with_state, after_ops, install, installed, deleted, forgotten, Reach,
  then_, install-new,
}
use open_sync_crdt.Sync.Interleave.Alone.{load-Only}

module _ (st : Store) (am : Automerge) (v : Views st.State) (law : Contract st v)
    (auto : IsAutomerge am) (opts : Options) where
  -- The deleted document is in the cache, the store has no operation of it, and an export gives it.
  pub record IsRevived (id : String) (d : am.Doc) (e : Engine st am) : Type 0 where
    pub cached : lookup id e.docs ≡ some d
    pub gone : v.log id e.store ≡ []
    pub served : (export st am opts id e).0 ≡ ok (am.save d)

  install-IsRevived :
      (id : String) (d : am.Doc) (e : Engine st am)
      → v.log id e.store ≡ []
      → IsRevived id d (install st am id d (forget st am id e))
  unfolding forget export state
  install-IsRevived id d e g =
      subst (IsRevived id d)
        (sym (install-new st am id d _ (ground (arith, lookup-erase id id e.docs, eq_refl id))))
        (record { cached = here_now; gone = g; served = rw (here_now, state) refl })
    where
      here_now : lookup id (insert id d (erase id e.docs)) ≡ some d
      here_now = ground (arith, lookup-insert id id d (erase id e.docs), eq_refl id)

  -- Over a store that keeps its contract: if a document is not cached, loading it succeeds, and the
  -- store then deletes it, there is an order of the segments of that one load and of the two steps
  -- of the deletion after which the store has no operation of the document, but the document as it
  -- was before the deletion is in the cache, and an export gives it.
  pub deletion-revives :
      (w : LoadWorld st am) (t : ℕ) (id : String) (d : am.Doc)
      → v.IsValid w.engine.store
      → w.loads t ≡ idle
      → lookup id w.engine.docs ≡ none
      → (load_doc st am opts id w.engine.store).0 ≡ ok d
      → (st.delete_document id (load_doc st am opts id w.engine.store).1).0 ≡ ok tt
      → (w' : LoadWorld st am) × (Reach st am opts true w w') × IsRevived id d w'.engine
  unfolding with_state after_ops
  deletion-revives w t id d valid i q l del =
      let s : st.State = (load_doc st am opts id w.engine.store).1 in
      let o = load-Only st am opts true w t id i q in
      let own : o.loads t ≡ loaded id d = o.own ∙ ap (after_ops st am id) l in
      let z = (load_doc-same st am v law auto opts id w.engine.store).valid valid in
      let gone : v.log id (st.delete_document id s).1 ≡ [] = (law.delete_ok id s z del).no_log in
      (
        _,
        then_ (then_ (then_ o.reached (deleted id refl)) (forgotten id refl))
            (installed t id d own),
        install-IsRevived id d (record w.engine { store = (st.delete_document id s).1 }) gone,
      )
