-- ===== src/Config/Overlay/Table/Laws.antt =====
-- applyEnv of internal/config/config.go and its table.
use open_sync_crdt.Prelude.{◌++◌, ◌≡◌}
use mathlib.Core.List.{append_assoc}
use open_sync_crdt.Config.{Config}
use open_sync_crdt.Config.Env.{
  Env, Overlay, env_with-config, env_with-errs, env_str-config, env_str-errs, env_int-config,
  env_int-errs, env_int64-config, env_int64-errs, env_bool-config, env_bool-errs, env_dur-config,
  env_dur-errs,
}
use open_sync_crdt.Config.Events.{returns, and_then, apply_webhook_event_env}
use open_sync_crdt.Config.Overlay.{
  server_vars, tls_vars, storage_vars, auth_vars, webhooks_vars, conflict_vars, cluster_vars,
  limits_vars, cors_vars, management_vars, log_vars, before_events, after_events, apply_env,
  verdict,
}
use open_sync_crdt.Config.Overlay.Table.{
  server_of, tls_of, storage_of, auth_of, webhooks_of, conflict_of, cluster_of, limits_of, cors_of,
  management_of, log_of, int_wrong, bool_wrong, dur_wrong, resolved, wrong,
}

ruleset overlay_laws = (
  env_with-config, env_with-errs, env_str-config, env_str-errs, env_int-config, env_int-errs,
  env_int64-config, env_int64-errs, env_bool-config, env_bool-errs, env_dur-config, env_dur-errs,
  append_assoc,
)

module _ (env : Env) (o : Overlay) where
  server_vars-config :
      (server_vars env o).config
      ≡ (let c = o.config in record c { server = server_of env c.server })
  unfolding server_vars
  server_vars-config = simp overlay_laws

  server_vars-errs : (server_vars env o).errs ≡ o.errs ++ int_wrong env "PORT"
  unfolding server_vars
  server_vars-errs = simp overlay_laws

  tls_vars-config :
      (tls_vars env o).config ≡ (let c = o.config in record c { tls = tls_of env c.tls })
  unfolding tls_vars
  tls_vars-config = simp overlay_laws

  tls_vars-errs : (tls_vars env o).errs ≡ o.errs ++ bool_wrong env "TLS_ENABLED"
  unfolding tls_vars
  tls_vars-errs = simp overlay_laws

  storage_vars-config :
      (storage_vars env o).config
      ≡ (let c = o.config in record c { storage = storage_of env c.storage })
  unfolding storage_vars
  storage_vars-config = simp overlay_laws

  storage_vars-errs :
      (storage_vars env o).errs
      ≡ o.errs
        ++ (int_wrong env "STORAGE_SNAPSHOT_INTERVAL"
            ++ (int_wrong env "STORAGE_POSTGRES_MAX_CONNS"
                ++ int_wrong env "STORAGE_MYSQL_MAX_CONNS"))
  unfolding storage_vars
  storage_vars-errs = simp overlay_laws

  auth_vars-config :
      (auth_vars env o).config ≡ (let c = o.config in record c { auth = auth_of env c.auth })
  unfolding auth_vars
  auth_vars-config = simp overlay_laws

  auth_vars-errs :
      (auth_vars env o).errs
      ≡ o.errs ++ (dur_wrong env "AUTH_WEBHOOK_TIMEOUT" ++ dur_wrong env "AUTH_WEBHOOK_CACHE_TTL")
  unfolding auth_vars
  auth_vars-errs = simp overlay_laws

  webhooks_vars-config :
      (webhooks_vars env o).config
      ≡ (let c = o.config in record c { webhooks = webhooks_of env c.webhooks })
  unfolding webhooks_vars
  webhooks_vars-config = simp overlay_laws

  webhooks_vars-errs :
      (webhooks_vars env o).errs
      ≡ o.errs ++ (dur_wrong env "WEBHOOK_TIMEOUT" ++ int_wrong env "WEBHOOK_MAX_RETRIES")
  unfolding webhooks_vars
  webhooks_vars-errs = simp overlay_laws

  conflict_vars-config :
      (conflict_vars env o).config
      ≡ (let c = o.config in record c { conflict = conflict_of env c.conflict })
  unfolding conflict_vars
  conflict_vars-config = simp overlay_laws

  conflict_vars-errs :
      (conflict_vars env o).errs ≡ o.errs ++ dur_wrong env "CONFLICT_RESOLVER_TIMEOUT"
  unfolding conflict_vars
  conflict_vars-errs = simp overlay_laws

  cluster_vars-config :
      (cluster_vars env o).config
      ≡ (let c = o.config in record c { cluster = cluster_of env c.cluster })
  unfolding cluster_vars
  cluster_vars-config = simp overlay_laws

  cluster_vars-errs : (cluster_vars env o).errs ≡ o.errs ++ bool_wrong env "CLUSTER_MODE"
  unfolding cluster_vars
  cluster_vars-errs = simp overlay_laws

  limits_vars-config :
      (limits_vars env o).config
      ≡ (let c = o.config in record c { limits = limits_of env c.limits })
  unfolding limits_vars
  limits_vars-config = simp overlay_laws

  limits_vars-errs :
      (limits_vars env o).errs
      ≡ o.errs
        ++ (int_wrong env "MAX_CONNECTIONS"
            ++ (int_wrong env "MAX_MESSAGE_SIZE_BYTES"
                ++ (dur_wrong env "PING_INTERVAL"
                    ++ (dur_wrong env "PONG_TIMEOUT"
                        ++ (dur_wrong env "WRITE_TIMEOUT" ++ dur_wrong env "READ_TIMEOUT")))))
  unfolding limits_vars
  limits_vars-errs = simp overlay_laws

  cors_vars-config :
      (cors_vars env o).config ≡ (let c = o.config in record c { cors = cors_of env c.cors })
  unfolding cors_vars
  cors_vars-config = simp overlay_laws

  cors_vars-errs : (cors_vars env o).errs ≡ o.errs
  unfolding cors_vars
  cors_vars-errs = simp overlay_laws

  management_vars-config :
      (management_vars env o).config
      ≡ (let c = o.config in record c { management = management_of env c.management })
  unfolding management_vars
  management_vars-config = simp overlay_laws

  management_vars-errs :
      (management_vars env o).errs ≡ o.errs ++ bool_wrong env "MANAGEMENT_API_ENABLED"
  unfolding management_vars
  management_vars-errs = simp overlay_laws

  log_vars-config :
      (log_vars env o).config ≡ (let c = o.config in record c { log = log_of env c.log })
  unfolding log_vars
  log_vars-config = simp overlay_laws

  log_vars-errs : (log_vars env o).errs ≡ o.errs
  unfolding log_vars
  log_vars-errs = simp overlay_laws

ruleset section_laws = (
  server_vars-config, server_vars-errs, tls_vars-config, tls_vars-errs, storage_vars-config,
  storage_vars-errs, auth_vars-config, auth_vars-errs, webhooks_vars-config, webhooks_vars-errs,
  conflict_vars-config, conflict_vars-errs, cluster_vars-config, cluster_vars-errs,
  limits_vars-config, limits_vars-errs, cors_vars-config, cors_vars-errs, management_vars-config,
  management_vars-errs, log_vars-config, log_vars-errs, append_assoc,
)

module _ (env : Env) (o : Overlay) where
  before-config : (before_events env o).config ≡ (
      let c = o.config in
      record c {
        server = server_of env c.server;
        tls = tls_of env c.tls;
        storage = storage_of env c.storage;
        auth = auth_of env c.auth;
        webhooks = webhooks_of env c.webhooks;
      })
  unfolding before_events
  before-config = simp section_laws

  before-errs :
      (before_events env o).errs
      ≡ o.errs
        ++ (int_wrong env "PORT"
            ++ (bool_wrong env "TLS_ENABLED"
                ++ (int_wrong env "STORAGE_SNAPSHOT_INTERVAL"
                    ++ (int_wrong env "STORAGE_POSTGRES_MAX_CONNS"
                        ++ (int_wrong env "STORAGE_MYSQL_MAX_CONNS"
                            ++ (dur_wrong env "AUTH_WEBHOOK_TIMEOUT"
                                ++ (dur_wrong env "AUTH_WEBHOOK_CACHE_TTL"
                                    ++ (dur_wrong env "WEBHOOK_TIMEOUT"
                                        ++ (int_wrong env "WEBHOOK_MAX_RETRIES")))))))))
  unfolding before_events
  before-errs = simp section_laws

  after-config : (after_events env o).config ≡ (
      let c = o.config in
      record c {
        conflict = conflict_of env c.conflict;
        cluster = cluster_of env c.cluster;
        limits = limits_of env c.limits;
        cors = cors_of env c.cors;
        management = management_of env c.management;
        log = log_of env c.log;
      })
  unfolding after_events
  after-config = simp section_laws

  after-errs :
      (after_events env o).errs
      ≡ o.errs
        ++ (dur_wrong env "CONFLICT_RESOLVER_TIMEOUT"
            ++ (bool_wrong env "CLUSTER_MODE"
                ++ (int_wrong env "MAX_CONNECTIONS"
                    ++ (int_wrong env "MAX_MESSAGE_SIZE_BYTES"
                        ++ (dur_wrong env "PING_INTERVAL"
                            ++ (dur_wrong env "PONG_TIMEOUT"
                                ++ (dur_wrong env "WRITE_TIMEOUT"
                                    ++ (dur_wrong env "READ_TIMEOUT"
                                        ++ (bool_wrong env "MANAGEMENT_API_ENABLED")))))))))
  unfolding after_events
  after-errs = simp section_laws

-- Whatever the environment holds, applyEnv panics where reading the event URLs does; else, if every
-- variable that is read as a number, a truth value or a duration parses, it gives the configuration
-- in which each variable that is set decides its own field and the other fields are as they were; if
-- some do not parse, it gives the complaints of all of them, in the order of the code.
pub apply_env-resolved :
    (env : Env) (c : Config)
    → apply_env env c
      ≡ and_then
          (apply_webhook_event_env env.environ c.webhooks.events)
          (λ events. returns (verdict (wrong env) (resolved env events c)))
unfolding apply_env resolved wrong
apply_env-resolved env c = simp (before-config, before-errs, after-config, after-errs, append_assoc)
