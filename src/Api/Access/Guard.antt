-- ===== src/Api/Access/Guard.antt =====
-- What internal/api lets a request do to the engine.
use Prim.Native.String.{◌++◌}
use open_sync_crdt.Prelude.{
  String, Bool, true, false, ◌==◌, ◌≡◌, inl, inr, arith, Bool-cases, if◌then◌else◌,
}
use open_sync_crdt.Prelude.Text.{Text}
use open_sync_crdt.Storage.Contract.{Store, Contract, Views}
use open_sync_crdt.Crdt.{Automerge, IsAutomerge}
use open_sync_crdt.Sync.{Options}
use open_sync_crdt.Api.{Api, write_error}
use open_sync_crdt.Api.Coherent.{
  IsServing, handle_create_doc-IsServing, handle_list_docs-IsServing, handle_get_doc-IsServing,
  handle_delete_doc-IsServing, handle_history-IsServing, handle_snapshot-IsServing,
  handle_export-IsServing,
}
use open_sync_crdt.Api.Access.{
  Access, Call, create_doc, list_docs, get_doc, delete_doc, get_history, take_snapshot, get_export,
  get_metrics, get_nodes, Target, get_health, get_ready, managed, unmatched, require_key,
  management, mounted, handle, Handler,
}

module _ (st : Store) (am : Automerge) (opts : Options) (w : Access) where
  -- Without the key, where one is set, a request of the management API does nothing at all: the
  -- engine and the events stay, and the answer is 204 to a preflight, else 401, or 404 where the API
  -- is not enabled.
  pub handle-refused :
      (origin : Text) (is_options : Bool) (call : Call) (authorization : String) (a : Api st am)
      → (w.key == "") ≡ false
      → (authorization == ("Bearer " ++ w.key)) ≡ false
      → ((handle st am opts w origin is_options (managed call) authorization a).2 ≡ a)
        × ((handle st am opts w origin is_options (managed call) authorization a).1.status
            ≡ (if is_options then 204 else if w.enabled then 401 else 404))
  unfolding handle mounted require_key write_error
  handle-refused origin is_options call authorization a keyed wrong = (ground arith, ground arith)

module _ (st : Store) (am : Automerge) (v : Views st.State) (law : Contract st v)
    (auto : IsAutomerge am) (opts : Options) (w : Access) where
  management-IsServing :
      (call : Call) (a : Api st am)
      → IsServing st am v law auto a
      → IsServing st am v law auto (management st am opts w call a).1
  unfolding management
  management-IsServing (create_doc body) = handle_create_doc-IsServing st am v law auto body
  management-IsServing (list_docs query) =
      handle_list_docs-IsServing st am v law auto w.parse_time query
  management-IsServing (get_doc id) = handle_get_doc-IsServing st am v law auto id
  management-IsServing (delete_doc id) = handle_delete_doc-IsServing st am v law auto id
  management-IsServing (get_history id query) = handle_history-IsServing st am v law auto id query
  management-IsServing (take_snapshot id) = handle_snapshot-IsServing st am v law auto opts id
  management-IsServing (get_export id) = handle_export-IsServing st am v law auto opts id
  management-IsServing get_metrics = λ a h. h
  management-IsServing get_nodes = λ a h. h

  require_key-IsServing :
      (key authorization : String) (next : Handler st am opts) (a : Api st am)
      → IsServing st am v law auto a
      → IsServing st am v law auto (next a).1
      → IsServing st am v law auto (require_key st am opts key authorization next a).1
  unfolding require_key
  require_key-IsServing key authorization next a h k = elim (Bool-cases (key == "")) [
    | inl e ↦ rw e k
    | inr e ↦ elim (Bool-cases (authorization == ("Bearer " ++ key))) [
      | inl f ↦ rw (e, f) k
      | inr f ↦ rw (e, f) h
    ]
  ]

  mounted-IsServing :
      (target : Target) (authorization : String) (a : Api st am)
      → IsServing st am v law auto a
      → IsServing st am v law auto (mounted st am opts w target authorization a).1
  unfolding mounted
  mounted-IsServing get_health authorization a h = h
  mounted-IsServing get_ready authorization a h = h
  mounted-IsServing unmatched authorization a h = h
  mounted-IsServing (managed call) authorization a h =
      let k =
        require_key-IsServing w.key authorization (management st am opts w call) a h
          (management-IsServing call a h) in
      elim (Bool-cases w.enabled) [ inl e ↦ rw e k | inr e ↦ rw e h ]

  -- Over a store that keeps its contract and an Automerge that does what it documents: whatever is
  -- requested, with or without the key, and whatever the store answers, the engine stays coherent:
  -- each cached document is what its log builds, and each snapshot what a first part of it builds.
  pub handle-IsServing :
      (origin : Text) (is_options : Bool) (target : Target) (authorization : String) (a : Api st am)
      → IsServing st am v law auto a
      → IsServing st am v law auto (handle st am opts w origin is_options target authorization a).2
  unfolding handle
  handle-IsServing origin true target authorization a h = h
  handle-IsServing origin false target authorization a h =
      mounted-IsServing target authorization a h
