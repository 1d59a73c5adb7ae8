-- ===== src/Config.antt =====
-- internal/config/config.go: the configuration of a running instance and its defaults. A string is
-- the list of its code points, a duration is its number of nanoseconds.
pub mod Fields
pub mod Env
pub mod Overlay
pub mod Events
pub mod Validate
pub mod Load
use open_sync_crdt.Prelude.{ℕ, ◌*◌, ◌^◌, Bool, true, false, List, [], ◌∷◌}
use open_sync_crdt.Prelude.Int.{ℤ, pos}
use open_sync_crdt.Prelude.Text.{Text, codes}

pub record ServerConfig : Type 0 where
  pub host : Text
  pub port : ℤ
  pub shutdown_timeout : ℤ

pub record TlsConfig : Type 0 where
  pub enabled : Bool
  pub cert_file : Text
  pub key_file : Text

pub record StorageConfig : Type 0 where
  pub backend : Text
  pub data_dir : Text
  pub url : Text
  pub snapshot_interval : ℤ
  pub postgres_max_conns : ℤ
  pub postgres_ssl_mode : Text
  pub mysql_max_conns : ℤ
  pub busy_timeout : ℤ
  pub max_open_conns : ℤ

pub record AuthConfig : Type 0 where
  pub mode : Text
  pub header_name : Text
  pub webhook_url : Text
  pub webhook_secret : Text
  pub webhook_timeout : ℤ
  pub webhook_cache_ttl : ℤ

pub record WebhookConfig : Type 0 where
  pub secret : Text
  pub timeout : ℤ
  pub max_retries : ℤ
  pub events : List (Text × Text)

pub record ConflictConfig : Type 0 where
  pub resolver_url : Text
  pub resolver_secret : Text
  pub timeout : ℤ

pub record ClusterConfig : Type 0 where
  pub mode : Bool
  pub backend : Text
  pub redis_url : Text

pub record LimitsConfig : Type 0 where
  pub max_connections : ℤ
  pub max_message_size_bytes : ℤ
  pub ping_interval : ℤ
  pub pong_timeout : ℤ
  pub write_timeout : ℤ
  pub read_timeout : ℤ

pub record CorsConfig : Type 0 where
  pub allowed_origins : List Text

pub record ManagementConfig : Type 0 where
  pub enabled : Bool
  pub key : Text

pub record LogConfig : Type 0 where
  pub level : Text
  pub format : Text

pub record Config : Type 0 where
  pub server : ServerConfig
  pub tls : TlsConfig
  pub storage : StorageConfig
  pub auth : AuthConfig
  pub webhooks : WebhookConfig
  pub conflict : ConflictConfig
  pub cluster : ClusterConfig
  pub limits : LimitsConfig
  pub cors : CorsConfig
  pub management : ManagementConfig
  pub log : LogConfig

-- `n * time.Second`
abbrev pub seconds : ℕ → ℤ
seconds n = pos (n * 10 ^ 9)

-- `Default`
abbrev pub default_config : Config
default_config = record {
  server = record { host = codes "0.0.0.0"; port = pos 8080; shutdown_timeout = seconds 15 };
  tls = record { enabled = false; cert_file = []; key_file = [] };
  storage = record {
    backend = codes "sqlite";
    data_dir = codes "./data";
    url = [];
    snapshot_interval = pos 100;
    postgres_max_conns = pos 10;
    postgres_ssl_mode = codes "require";
    mysql_max_conns = pos 10;
    busy_timeout = seconds 5;
    max_open_conns = pos 1;
  };
  auth = record {
    mode = codes "none";
    header_name = codes "X-User-ID";
    webhook_url = [];
    webhook_secret = [];
    webhook_timeout = seconds 3;
    webhook_cache_ttl = seconds 60;
  };
  webhooks = record { secret = []; timeout = seconds 5; max_retries = pos 3; events = [] };
  conflict = record { resolver_url = []; resolver_secret = []; timeout = seconds 5 };
  cluster = record { mode = false; backend = codes "redis"; redis_url = [] };
  limits = record {
    max_connections = pos 10000;
    max_message_size_bytes = pos 1048576;
    ping_interval = seconds 30;
    pong_timeout = seconds 10;
    write_timeout = seconds 10;
    read_timeout = pos 0;
  };
  cors = record { allowed_origins = codes "*" ∷ [] };
  management = record { enabled = true; key = [] };
  log = record { level = codes "info"; format = codes "json" };
}
