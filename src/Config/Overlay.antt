-- ===== src/Config/Overlay.antt =====
-- applyEnv of internal/config/config.go: the environment laid over the configuration.
pub mod Table
use open_sync_crdt.Prelude.{
  Bool, true, false, Option, none, some, List, [], ◌∷◌, length, if◌then◌else◌, Result, ok, err, map,
}
use open_sync_crdt.Prelude.Text.{Text, trim_space, to_lower, split}
use open_sync_crdt.Config.{Config}
use open_sync_crdt.Config.Fields.{
  server_host, server_port, tls_enabled, tls_cert_file, tls_key_file, storage_backend,
  storage_data_dir, storage_url, storage_snapshot_interval, storage_postgres_max_conns,
  storage_postgres_ssl_mode, storage_mysql_max_conns, auth_mode, auth_header_name, auth_webhook_url,
  auth_webhook_secret, auth_webhook_timeout, auth_webhook_cache_ttl,
}
use open_sync_crdt.Config.Fields.Services.{
  webhooks_secret, webhooks_timeout, webhooks_max_retries, conflict_resolver_url,
  conflict_resolver_secret, conflict_timeout, cluster_mode, cluster_backend, cluster_redis_url,
  limits_max_connections, limits_max_message_size_bytes, limits_ping_interval, limits_pong_timeout,
  limits_write_timeout, limits_read_timeout, cors_allowed_origins, management_enabled,
  management_key, log_level, log_format, webhooks_events,
}
use open_sync_crdt.Config.Env.{
  Env, Overlay, Problem, env_with, env_str, env_int, env_int64, env_bool, env_dur,
}
use open_sync_crdt.Config.Events.{
  Outcome, panics, returns, and_then, apply_webhook_event_env, EventUrls,
}

-- The parts that are not empty.
unfoldable pub keep_parts : List Text → List Text
keep_parts [] = []
keep_parts ([] ∷ parts) = keep_parts parts
keep_parts ((c ∷ t) ∷ parts) = (c ∷ t) ∷ keep_parts parts

-- `splitCSV`
unfoldable pub split_csv : Text → List Text
unfolding keep_parts
split_csv v = keep_parts (map trim_space (split b',' v))

-- `strings.ToLower(strings.TrimSpace(v))`
unfoldable pub word : Text → Text
word v = to_lower (trim_space v)

unfoldable pub verdict : List Problem → Config → Result (List Problem) Config
verdict [] c = ok c
verdict (p ∷ more) c = err (p ∷ more)

module _ (env : Env) where
  server_vars : Overlay → Overlay
  server_vars o = env_int env "PORT" server_port (env_str env "HOST" server_host o)

  tls_vars : Overlay → Overlay
  tls_vars o =
      env_str env "TLS_KEY_FILE" tls_key_file
        (env_str env "TLS_CERT_FILE" tls_cert_file (env_bool env "TLS_ENABLED" tls_enabled o))

  storage_vars : Overlay → Overlay
  storage_vars o = env_int env "STORAGE_MYSQL_MAX_CONNS" storage_mysql_max_conns (
      env_str env "STORAGE_POSTGRES_SSL_MODE" storage_postgres_ssl_mode (
        env_int env "STORAGE_POSTGRES_MAX_CONNS" storage_postgres_max_conns (
          env_int env "STORAGE_SNAPSHOT_INTERVAL" storage_snapshot_interval (
            env_str env "STORAGE_URL" storage_url (
              env_str env "DATA_DIR" storage_data_dir
                (env_with env word "STORAGE_BACKEND" storage_backend o))))))

  auth_vars : Overlay → Overlay
  auth_vars o = env_dur env "AUTH_WEBHOOK_CACHE_TTL" auth_webhook_cache_ttl (
      env_dur env "AUTH_WEBHOOK_TIMEOUT" auth_webhook_timeout (
        env_str env "AUTH_WEBHOOK_SECRET" auth_webhook_secret (
          env_str env "AUTH_WEBHOOK_URL" auth_webhook_url (
            env_str env "AUTH_HEADER_NAME" auth_header_name
              (env_with env word "AUTH_MODE" auth_mode o)))))

  webhooks_vars : Overlay → Overlay
  webhooks_vars o = env_int env "WEBHOOK_MAX_RETRIES" webhooks_max_retries (
      env_dur env "WEBHOOK_TIMEOUT" webhooks_timeout
        (env_str env "WEBHOOK_SECRET" webhooks_secret o))

  conflict_vars : Overlay → Overlay
  conflict_vars o = env_dur env "CONFLICT_RESOLVER_TIMEOUT" conflict_timeout (
      env_str env "CONFLICT_RESOLVER_SECRET" conflict_resolver_secret
        (env_str env "CONFLICT_RESOLVER_URL" conflict_resolver_url o))

  cluster_vars : Overlay → Overlay
  cluster_vars o =
      env_str env "CLUSTER_REDIS_URL" cluster_redis_url
        (env_str env "CLUSTER_BACKEND" cluster_backend (env_bool env "CLUSTER_MODE" cluster_mode o))

  limits_vars : Overlay → Overlay
  limits_vars o = env_dur env "READ_TIMEOUT" limits_read_timeout (
      env_dur env "WRITE_TIMEOUT" limits_write_timeout (
        env_dur env "PONG_TIMEOUT" limits_pong_timeout (
          env_dur env "PING_INTERVAL" limits_ping_interval (
            env_int64 env "MAX_MESSAGE_SIZE_BYTES" limits_max_message_size_bytes
              (env_int env "MAX_CONNECTIONS" limits_max_connections o)))))

  cors_vars : Overlay → Overlay
  cors_vars o = env_with env split_csv "CORS_ALLOWED_ORIGINS" cors_allowed_origins o

  management_vars : Overlay → Overlay
  management_vars o =
      env_str env "MANAGEMENT_API_KEY" management_key
        (env_bool env "MANAGEMENT_API_ENABLED" management_enabled o)

  log_vars : Overlay → Overlay
  log_vars o = env_str env "LOG_FORMAT" log_format (env_str env "LOG_LEVEL" log_level o)

  unfoldable pub before_events : Overlay → Overlay
  unfolding server_vars tls_vars storage_vars auth_vars webhooks_vars
  before_events o = webhooks_vars (auth_vars (storage_vars (tls_vars (server_vars o))))

  unfoldable pub after_events : Overlay → Overlay
  unfolding conflict_vars cluster_vars limits_vars cors_vars management_vars log_vars
  after_events o =
      log_vars (management_vars (cors_vars (limits_vars (cluster_vars (conflict_vars o)))))

  abbrev pub with_events : Overlay → EventUrls → Overlay
  with_events o events = record o { config = webhooks_events.set events o.config }

  unfoldable pub apply_env : Config → Outcome (Result (List Problem) Config)
  unfolding and_then verdict
  apply_env c =
      let o = before_events (record { config = c; errs = [] }) in
      and_then (apply_webhook_event_env env.environ o.config.webhooks.events) (λ events.
        let last = after_events (with_events o events) in returns (verdict last.errs last.config))
