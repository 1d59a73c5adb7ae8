-- ===== src/Config/Fields.antt =====
-- The pointers into the configuration that applyEnv of internal/config/config.go hands to its
-- helpers: a field is read and written, and writing back what it holds changes nothing.
pub mod Services
use open_sync_crdt.Prelude.{Bool, ◌≡◌, refl}
use open_sync_crdt.Prelude.Int.{ℤ}
use open_sync_crdt.Prelude.Text.{Text}
use open_sync_crdt.Config.{Config}

pub record FieldOf (A : Type 0) : Type 0 where
  pub get : Config → A
  pub set : A → Config → Config
  pub same : (c : Config) → set (get c) c ≡ c

abbrev pub server_host : FieldOf Text
server_host = record {
  get = λ c. c.server.host;
  set = λ x c. record c { server = record c.server { host = x } };
  same = λ c. refl;
}

abbrev pub server_port : FieldOf ℤ
server_port = record {
  get = λ c. c.server.port;
  set = λ x c. record c { server = record c.server { port = x } };
  same = λ c. refl;
}

abbrev pub tls_enabled : FieldOf Bool
tls_enabled = record {
  get = λ c. c.tls.enabled;
  set = λ x c. record c { tls = record c.tls { enabled = x } };
  same = λ c. refl;
}

abbrev pub tls_cert_file : FieldOf Text
tls_cert_file = record {
  get = λ c. c.tls.cert_file;
  set = λ x c. record c { tls = record c.tls { cert_file = x } };
  same = λ c. refl;
}

abbrev pub tls_key_file : FieldOf Text
tls_key_file = record {
  get = λ c. c.tls.key_file;
  set = λ x c. record c { tls = record c.tls { key_file = x } };
  same = λ c. refl;
}

abbrev pub storage_backend : FieldOf Text
storage_backend = record {
  get = λ c. c.storage.backend;
  set = λ x c. record c { storage = record c.storage { backend = x } };
  same = λ c. refl;
}

abbrev pub storage_data_dir : FieldOf Text
storage_data_dir = record {
  get = λ c. c.storage.data_dir;
  set = λ x c. record c { storage = record c.storage { data_dir = x } };
  same = λ c. refl;
}

abbrev pub storage_url : FieldOf Text
storage_url = record {
  get = λ c. c.storage.url;
  set = λ x c. record c { storage = record c.storage { url = x } };
  same = λ c. refl;
}

abbrev pub storage_snapshot_interval : FieldOf ℤ
storage_snapshot_interval = record {
  get = λ c. c.storage.snapshot_interval;
  set = λ x c. record c { storage = record c.storage { snapshot_interval = x } };
  same = λ c. refl;
}

abbrev pub storage_postgres_max_conns : FieldOf ℤ
storage_postgres_max_conns = record {
  get = λ c. c.storage.postgres_max_conns;
  set = λ x c. record c { storage = record c.storage { postgres_max_conns = x } };
  same = λ c. refl;
}

abbrev pub storage_postgres_ssl_mode : FieldOf Text
storage_postgres_ssl_mode = record {
  get = λ c. c.storage.postgres_ssl_mode;
  set = λ x c. record c { storage = record c.storage { postgres_ssl_mode = x } };
  same = λ c. refl;
}

abbrev pub storage_mysql_max_conns : FieldOf ℤ
storage_mysql_max_conns = record {
  get = λ c. c.storage.mysql_max_conns;
  set = λ x c. record c { storage = record c.storage { mysql_max_conns = x } };
  same = λ c. refl;
}

abbrev pub auth_mode : FieldOf Text
auth_mode = record {
  get = λ c. c.auth.mode;
  set = λ x c. record c { auth = record c.auth { mode = x } };
  same = λ c. refl;
}

abbrev pub auth_header_name : FieldOf Text
auth_header_name = record {
  get = λ c. c.auth.header_name;
  set = λ x c. record c { auth = record c.auth { header_name = x } };
  same = λ c. refl;
}

abbrev pub auth_webhook_url : FieldOf Text
auth_webhook_url = record {
  get = λ c. c.auth.webhook_url;
  set = λ x c. record c { auth = record c.auth { webhook_url = x } };
  same = λ c. refl;
}

abbrev pub auth_webhook_secret : FieldOf Text
auth_webhook_secret = record {
  get = λ c. c.auth.webhook_secret;
  set = λ x c. record c { auth = record c.auth { webhook_secret = x } };
  same = λ c. refl;
}

abbrev pub auth_webhook_timeout : FieldOf ℤ
auth_webhook_timeout = record {
  get = λ c. c.auth.webhook_timeout;
  set = λ x c. record c { auth = record c.auth { webhook_timeout = x } };
  same = λ c. refl;
}

abbrev pub auth_webhook_cache_ttl : FieldOf ℤ
auth_webhook_cache_ttl = record {
  get = λ c. c.auth.webhook_cache_ttl;
  set = λ x c. record c { auth = record c.auth { webhook_cache_ttl = x } };
  same = λ c. refl;
}
