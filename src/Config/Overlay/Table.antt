-- ===== src/Config/Overlay/Table.antt =====
-- The whole effect of applyEnv of internal/config/config.go, as a table: a value for each field of
-- the configuration, and the list of what is wrong with the environment.
pub mod Laws
use open_sync_crdt.Prelude.{String, Bool, some, List, [], ◌++◌}
use open_sync_crdt.Prelude.Int.{ℤ}
use open_sync_crdt.Prelude.Text.{Text, atoi, parse_bool}
use open_sync_crdt.Config.{
  ServerConfig, TlsConfig, StorageConfig, AuthConfig, WebhookConfig, ConflictConfig, ClusterConfig,
  LimitsConfig, CorsConfig, ManagementConfig, LogConfig, Config,
}
use open_sync_crdt.Config.Env.{
  Env, Problem, not_integer, not_boolean, not_duration, value, trimmed, complaints,
}
use open_sync_crdt.Config.Events.{EventUrls}
use open_sync_crdt.Config.Overlay.{split_csv, word}

module _ (env : Env) where
  abbrev pub str_of : String → Text → Text
  str_of key = value some (env.lookup_env key)

  abbrev pub word_of : String → Text → Text
  word_of key = value (λ v. some (word v)) (env.lookup_env key)

  abbrev pub csv_of : String → List Text → List Text
  csv_of key = value (λ v. some (split_csv v)) (env.lookup_env key)

  abbrev pub int_of : String → ℤ → ℤ
  int_of key = value (trimmed atoi) (env.lookup_env key)

  abbrev pub bool_of : String → Bool → Bool
  bool_of key = value (trimmed parse_bool) (env.lookup_env key)

  abbrev pub dur_of : String → ℤ → ℤ
  dur_of key = value (trimmed env.parse_duration) (env.lookup_env key)

  abbrev pub server_of : ServerConfig → ServerConfig
  server_of c = record c { host = str_of "HOST" c.host; port = int_of "PORT" c.port }

  abbrev pub tls_of : TlsConfig → TlsConfig
  tls_of c = record c {
    enabled = bool_of "TLS_ENABLED" c.enabled;
    cert_file = str_of "TLS_CERT_FILE" c.cert_file;
    key_file = str_of "TLS_KEY_FILE" c.key_file;
  }

  abbrev pub storage_of : StorageConfig → StorageConfig
  storage_of c = record c {
    backend = word_of "STORAGE_BACKEND" c.backend;
    data_dir = str_of "DATA_DIR" c.data_dir;
    url = str_of "STORAGE_URL" c.url;
    snapshot_interval = int_of "STORAGE_SNAPSHOT_INTERVAL" c.snapshot_interval;
    postgres_max_conns = int_of "STORAGE_POSTGRES_MAX_CONNS" c.postgres_max_conns;
    postgres_ssl_mode = str_of "STORAGE_POSTGRES_SSL_MODE" c.postgres_ssl_mode;
    mysql_max_conns = int_of "STORAGE_MYSQL_MAX_CONNS" c.mysql_max_conns;
  }

  abbrev pub auth_of : AuthConfig → AuthConfig
  auth_of c = record c {
    mode = word_of "AUTH_MODE" c.mode;
    header_name = str_of "AUTH_HEADER_NAME" c.header_name;
    webhook_url = str_of "AUTH_WEBHOOK_URL" c.webhook_url;
    webhook_secret = str_of "AUTH_WEBHOOK_SECRET" c.webhook_secret;
    webhook_timeout = dur_of "AUTH_WEBHOOK_TIMEOUT" c.webhook_timeout;
    webhook_cache_ttl = dur_of "AUTH_WEBHOOK_CACHE_TTL" c.webhook_cache_ttl;
  }

  abbrev pub webhooks_of : WebhookConfig → WebhookConfig
  webhooks_of c = record c {
    secret = str_of "WEBHOOK_SECRET" c.secret;
    timeout = dur_of "WEBHOOK_TIMEOUT" c.timeout;
    max_retries = int_of "WEBHOOK_MAX_RETRIES" c.max_retries;
  }

  abbrev pub conflict_of : ConflictConfig → ConflictConfig
  conflict_of c = record c {
    resolver_url = str_of "CONFLICT_RESOLVER_URL" c.resolver_url;
    resolver_secret = str_of "CONFLICT_RESOLVER_SECRET" c.resolver_secret;
    timeout = dur_of "CONFLICT_RESOLVER_TIMEOUT" c.timeout;
  }

  abbrev pub cluster_of : ClusterConfig → ClusterConfig
  cluster_of c = record c {
    mode = bool_of "CLUSTER_MODE" c.mode;
    backend = str_of "CLUSTER_BACKEND" c.backend;
    redis_url = str_of "CLUSTER_REDIS_URL" c.redis_url;
  }

  abbrev pub limits_of : LimitsConfig → LimitsConfig
  limits_of c = record c {
    max_connections = int_of "MAX_CONNECTIONS" c.max_connections;
    max_message_size_bytes = int_of "MAX_MESSAGE_SIZE_BYTES" c.max_message_size_bytes;
    ping_interval = dur_of "PING_INTERVAL" c.ping_interval;
    pong_timeout = dur_of "PONG_TIMEOUT" c.pong_timeout;
    write_timeout = dur_of "WRITE_TIMEOUT" c.write_timeout;
    read_timeout = dur_of "READ_TIMEOUT" c.read_timeout;
  }

  abbrev pub cors_of : CorsConfig → CorsConfig
  cors_of c = record c { allowed_origins = csv_of "CORS_ALLOWED_ORIGINS" c.allowed_origins }

  abbrev pub management_of : ManagementConfig → ManagementConfig
  management_of c = record c {
    enabled = bool_of "MANAGEMENT_API_ENABLED" c.enabled;
    key = str_of "MANAGEMENT_API_KEY" c.key;
  }

  abbrev pub log_of : LogConfig → LogConfig
  log_of c = record c { level = str_of "LOG_LEVEL" c.level; format = str_of "LOG_FORMAT" c.format }

  -- The configuration that the environment asks for, given the events' URLs.
  unfoldable pub resolved : EventUrls → Config → Config
  resolved events c = record {
    server = server_of c.server;
    tls = tls_of c.tls;
    storage = storage_of c.storage;
    auth = auth_of c.auth;
    webhooks = record (webhooks_of c.webhooks) { events = events };
    conflict = conflict_of c.conflict;
    cluster = cluster_of c.cluster;
    limits = limits_of c.limits;
    cors = cors_of c.cors;
    management = management_of c.management;
    log = log_of c.log;
  }

  abbrev pub int_wrong : String → List Problem
  int_wrong key = complaints (trimmed atoi) (not_integer key) (env.lookup_env key)

  abbrev pub bool_wrong : String → List Problem
  bool_wrong key = complaints (trimmed parse_bool) (not_boolean key) (env.lookup_env key)

  abbrev pub dur_wrong : String → List Problem
  dur_wrong key = complaints (trimmed env.parse_duration) (not_duration key) (env.lookup_env key)

  -- Every variable that is read as a number, a truth value or a duration, in the order of the code.
  unfoldable pub wrong : List Problem
  wrong =
      (int_wrong "PORT"
        ++ (bool_wrong "TLS_ENABLED"
            ++ (int_wrong "STORAGE_SNAPSHOT_INTERVAL"
                ++ (int_wrong "STORAGE_POSTGRES_MAX_CONNS"
                    ++ (int_wrong "STORAGE_MYSQL_MAX_CONNS"
                        ++ (dur_wrong "AUTH_WEBHOOK_TIMEOUT"
                            ++ (dur_wrong "AUTH_WEBHOOK_CACHE_TTL"
                                ++ (dur_wrong "WEBHOOK_TIMEOUT"
                                    ++ (int_wrong "WEBHOOK_MAX_RETRIES"
                                        ++ (dur_wrong "CONFLICT_RESOLVER_TIMEOUT"
                                            ++ (bool_wrong "CLUSTER_MODE"
                                                ++ (int_wrong "MAX_CONNECTIONS"
                                                    ++ (int_wrong "MAX_MESSAGE_SIZE_BYTES"
                                                        ++ (dur_wrong "PING_INTERVAL"
                                                            ++ (dur_wrong "PONG_TIMEOUT"
                                                            ++ (dur_wrong "WRITE_TIMEOUT"
                                                            ++ (dur_wrong "READ_TIMEOUT"
                                                            ++ (bool_wrong
                                                            "MANAGEMENT_API_ENABLED"))))))))))))))))))
