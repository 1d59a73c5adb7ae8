-- ===== src/Embedding.antt =====
-- pkg/engine/engine.go: the engine put together from a configuration, and closed again; with
-- storage.Open of internal/storage/open.go and auth.New of internal/auth/auth.go. Whether a driver
-- opens, a cluster is joined and they close is a parameter.
pub mod Resources
pub mod Startup
use open_sync_crdt.Prelude.{
  ℕ, ◌+◌, ◌-◌, Bool, true, false, Option, none, some, List, [], ◌∷◌, if◌then◌else◌, Result, ok, err,
}
use open_sync_crdt.Prelude.Text.{Text, codes, is_word}
use open_sync_crdt.Config.{StorageConfig, AuthConfig, ClusterConfig, Config, default_config}
use open_sync_crdt.Config.Validate.{Invalid, validate}

abbrev pub Configurator : Type 0
Configurator = Config → Config

-- `SQLiteStorage`
unfoldable pub sqlite_storage : Text → Configurator
sqlite_storage data_dir c = record c {
  storage = record c.storage { backend = codes "sqlite"; data_dir = data_dir };
}

unfoldable pub no_auth : Configurator
no_auth c = record c { auth = record c.auth { mode = codes "none" } }

unfoldable pub header_auth : Text → Configurator
header_auth [] c = record c { auth = record c.auth { mode = codes "header" } }
header_auth (x ∷ name) c = record c {
  auth = record c.auth { mode = codes "header"; header_name = x ∷ name };
}

-- `engine.Config`
pub record EngineConfig : Type 0 where
  pub storage : Option Configurator
  pub auth : Option Configurator
  pub full : Option Config
  pub node_id : Text

unfoldable pub configured : Option Configurator → Config → Config
configured none c = c
configured (some f) c = f c

unfoldable pub resolve : EngineConfig → Config
unfolding configured
resolve e =
    configured e.auth (configured e.storage (elim e.full [ none ↦ default_config | some c ↦ c ]))

-- What the outside does: which drivers open, whether Redis answers, whether the node leaves and the
-- store closes without an error, and a fresh node id.
pub record Outside : Type 0 where
  pub open_sqlite : StorageConfig → Bool
  pub open_postgres : StorageConfig → Bool
  pub open_mysql : StorageConfig → Bool
  pub join : Text → Text → Bool
  pub leave : Bool
  pub close_store : Bool
  pub generate_node_id : Text

pub data Backend : Type 0 where
  sqlite : Backend
  postgres : Backend
  mysql : Backend

pub data Authenticator : Type 0 where
  none_auth : Authenticator
  by_header : Text → Authenticator
  by_webhook : AuthConfig → Authenticator

-- Who the sync engine gives its broadcasts to.
pub data Broadcaster : Type 0 where
  hub : Broadcaster
  node : Text → Broadcaster

pub data NewError : Type 0 where
  invalid_config : Invalid → NewError
  open_storage : NewError
  configure_auth : NewError
  join_cluster : NewError

-- How many contexts, stores and cluster nodes are live.
pub record Held : Type 0 where
  pub contexts : ℕ
  pub stores : ℕ
  pub nodes : ℕ

pub record Embedded : Type 0 where
  pub cfg : Config
  pub store : Backend
  pub auth : Authenticator
  pub broadcaster : Broadcaster
  pub observed : Bool
  pub cluster : Option Text

unfoldable pub new_authenticator : AuthConfig → Option Authenticator
unfolding is_word
new_authenticator cfg =
    if is_word cfg.mode "none"
    then some none_auth
    else if is_word cfg.mode "header"
    then some (by_header cfg.header_name)
    else if is_word cfg.mode "webhook"
    then some (by_webhook cfg)
    else none

abbrev pub cancel : Held → Held
cancel h = record h { contexts = h.contexts - 1 }

abbrev pub close_one_store : Held → Held
close_one_store h = record h { stores = h.stores - 1 }

module _ (out : Outside) where
  opened : Bool → Backend → Option Backend
  opened fine b = if fine then some b else none

  -- `storage.Open`
  unfoldable pub open_store : StorageConfig → Option Backend
  unfolding opened is_word
  open_store cfg =
      if is_word cfg.backend "sqlite"
      then opened (out.open_sqlite cfg) sqlite
      else if is_word cfg.backend "postgres"
      then opened (out.open_postgres cfg) postgres
      else if is_word cfg.backend "mysql"
      then opened (out.open_mysql cfg) mysql
      else none

  unfoldable pub node_name : Text → Text
  node_name [] = out.generate_node_id
  node_name (c ∷ t) = c ∷ t

  joined : Config → Backend → Authenticator → Text → Bool → Held → Result NewError Embedded × Held
  joined cfg b auth id false h = (err join_cluster, close_one_store (cancel h))
  joined cfg b auth id true h = (
    ok (record {
      cfg = cfg;
      store = b;
      auth = auth;
      broadcaster = node id;
      observed = true;
      cluster = some id;
    }),
    record h { nodes = h.nodes + 1 },
  )

  abbrev alone : Config → Backend → Authenticator → Held → Result NewError Embedded × Held
  alone cfg b auth h = (
    ok (record {
      cfg = cfg;
      store = b;
      auth = auth;
      broadcaster = hub;
      observed = false;
      cluster = none;
    }),
    h,
  )

  wired : Config → Backend → Authenticator → Text → Held → Result NewError Embedded × Held
  unfolding joined
  wired cfg b auth id h =
      let in_cluster = joined cfg b auth id (out.join cfg.cluster.redis_url id) h in
      if cfg.cluster.mode then in_cluster else alone cfg b auth h

  with_auth :
      Config → Backend → Option Authenticator → Text → Held → Result NewError Embedded × Held
  unfolding wired node_name
  with_auth cfg b none id h = (err configure_auth, close_one_store (cancel h))
  with_auth cfg b (some auth) id h = wired cfg b auth (node_name id) h

  with_store : Config → Option Backend → Text → Held → Result NewError Embedded × Held
  unfolding with_auth new_authenticator
  with_store cfg none id h = (err open_storage, cancel h)
  with_store cfg (some b) id h =
      with_auth cfg b (new_authenticator cfg.auth) id (record h { stores = h.stores + 1 })

  unfoldable pub new_from_config : Config → Text → Held → Result NewError Embedded × Held
  unfolding with_store open_store
  new_from_config cfg id h =
      with_store cfg (open_store cfg.storage) id (record h { contexts = h.contexts + 1 })

  checked : Config → Text → Result Invalid Unit → Held → Result NewError Embedded × Held
  unfolding new_from_config
  checked cfg id (err e) h = (err (invalid_config e), h)
  checked cfg id (ok u) h = new_from_config cfg id h

  -- `New`
  unfoldable pub new_engine : EngineConfig → Held → Result NewError Embedded × Held
  unfolding checked resolve validate
  new_engine e h = checked (resolve e) e.node_id (validate (resolve e)) h

  -- `Close`: whether it returns no error.
  unfoldable pub close_engine : Embedded → Held → Bool × Held
  close_engine e h = elim e.cluster [
    | none ↦ (out.close_store, close_one_store (cancel h))
    | some id ↦
        let left : Held = record (cancel h) { nodes = h.nodes - 1 } in
        (if out.leave then out.close_store else false, close_one_store left)
  ]
