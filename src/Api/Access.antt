-- ===== src/Api/Access.antt =====
-- internal/api/api.go, router.go, health.go and metrics.go: which request reaches which handler, and
-- what stands before it. net/http's mux is a parameter: it has matched the method and the path.
pub mod Origin
pub mod Guard
use Prim.Native.String.{◌++◌}
use open_sync_crdt.Prelude.{
  ℕ, String, Bool, true, false, not, Option, none, some, List, [], ◌∷◌, ◌==◌, if◌then◌else◌, Result,
  ok, err,
}
use open_sync_crdt.Prelude.Text.{Text, is_word, equal_fold}
use open_sync_crdt.Storage.Contract.{Store}
use open_sync_crdt.Crdt.{Automerge}
use open_sync_crdt.Sync.{Options}
use open_sync_crdt.Api.{
  Api, Response, Body, NodeInfo, CreateBody, status_is, unavailable, exposition, nodes, empty,
  write_json, write_error, handle_create_doc, handle_list_docs, handle_get_doc, handle_delete_doc,
  handle_history, handle_snapshot, handle_export,
}

-- A request of the management API, as the mux takes it apart.
pub data Call : Type 0 where
  create_doc : Option CreateBody → Call
  list_docs : (String → String) → Call
  get_doc : String → Call
  delete_doc : String → Call
  get_history : String → (String → String) → Call
  take_snapshot : String → Call
  get_export : String → Call
  get_metrics : Call
  get_nodes : Call

-- `unmatched` is a path that nothing is mounted on.
pub data Target : Type 0 where
  get_health : Target
  get_ready : Target
  managed : Call → Target
  unmatched : Target

-- The configuration and the surroundings of an API: what HealthCheck of the store says (an error's
-- text), the metrics, this node, and the registry of a cluster.
pub record Access : Type 0 where
  pub enabled : Bool
  pub key : String
  pub allowed_origins : List Text
  pub cluster_mode : Bool
  pub parse_time : String → Option (Option ℕ)
  pub health_check : Option String
  pub render : Option String
  pub self : NodeInfo
  pub registry : Option (Option (List NodeInfo))

abbrev pub not_found : Response
not_found = write_json 404 empty

-- `handleReady`
unfoldable pub handle_ready : Option String → Response
handle_ready none = write_json 200 (status_is "ready")
handle_ready (some e) = write_json 503 (unavailable e)

unfoldable pub handle_nodes : Access → Response
unfolding write_error
handle_nodes w = elim w.registry [
  | none ↦ write_json 200 (nodes w.cluster_mode (w.self ∷ []))
  | some none ↦ write_error 503 "cluster registry unavailable"
  | some (some infos) ↦ write_json 200 (nodes true infos)
]

star_or_origin : Text → Text → List Text → Text → Text
star_or_origin one origin allowed rest =
    if is_word one "*"
    then one
    else elim origin [ [] ↦ rest | c ∷ o ↦ if equal_fold one (c ∷ o) then c ∷ o else rest ]

unfoldable pub match_origin : List Text → Text → Text
unfolding star_or_origin is_word equal_fold
match_origin [] origin = []
match_origin (one ∷ allowed) origin =
    let rest = match_origin allowed origin in star_or_origin one origin allowed rest

module _ (st : Store) (am : Automerge) (opts : Options) where
  abbrev pub Handler : Type 0
  Handler = Api st am → Response × Api st am

  unfoldable pub require_key : String → String → Handler → Handler
  unfolding write_error
  require_key key authorization next a =
      let served = next a in
      if key == ""
      then served
      else if not (authorization == ("Bearer " ++ key))
      then (write_error 401 "missing or invalid management API key", a)
      else served

  module _ (w : Access) where
    unfoldable pub management : Call → Handler
    unfolding handle_nodes
    management (create_doc body) = handle_create_doc st am body
    management (list_docs query) = handle_list_docs st am w.parse_time query
    management (get_doc id) = handle_get_doc st am id
    management (delete_doc id) = handle_delete_doc st am id
    management (get_history id query) = handle_history st am id query
    management (take_snapshot id) = handle_snapshot st am opts id
    management (get_export id) = handle_export st am opts id
    management get_metrics = λ a. (write_json 200 (exposition w.render), a)
    management get_nodes = λ a. (handle_nodes w, a)

    -- `Register`, and a request to what it mounts.
    unfoldable pub mounted : Target → String → Handler
    unfolding require_key management handle_ready
    mounted get_health authorization a = (write_json 200 (status_is "ok"), a)
    mounted get_ready authorization a = (handle_ready w.health_check, a)
    mounted unmatched authorization a = (not_found, a)
    mounted (managed call) authorization a =
        let served = require_key w.key authorization (management call) a in
        if w.enabled then served else (not_found, a)

    -- `cors`: the value of Access-Control-Allow-Origin, empty where it is not set, and the rest.
    unfoldable pub handle : Text → Bool → Target → String → Api st am → Text × Response × Api st am
    unfolding match_origin mounted
    handle origin is_options target authorization a =
        let allow = match_origin w.allowed_origins origin in
        let served = mounted target authorization a in
        if is_options then (allow, write_json 204 empty, a) else (allow, served.0, served.1)
