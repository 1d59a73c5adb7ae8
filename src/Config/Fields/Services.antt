-- ===== src/Config/Fields/Services.antt =====
-- The pointers into the configuration of internal/config/config.go, from the webhooks to the log.
use open_sync_crdt.Prelude.{Bool, List, refl}
use open_sync_crdt.Prelude.Int.{ℤ}
use open_sync_crdt.Prelude.Text.{Text}
use open_sync_crdt.Config.Fields.{FieldOf}

abbrev pub webhooks_secret : FieldOf Text
webhooks_secret = record {
  get = λ c. c.webhooks.secret;
  set = λ x c. record c { webhooks = record c.webhooks { secret = x } };
  same = λ c. refl;
}

abbrev pub webhooks_timeout : FieldOf ℤ
webhooks_timeout = record {
  get = λ c. c.webhooks.timeout;
  set = λ x c. record c { webhooks = record c.webhooks { timeout = x } };
  same = λ c. refl;
}

abbrev pub webhooks_max_retries : FieldOf ℤ
webhooks_max_retries = record {
  get = λ c. c.webhooks.max_retries;
  set = λ x c. record c { webhooks = record c.webhooks { max_retries = x } };
  same = λ c. refl;
}

abbrev pub webhooks_events : FieldOf (List (Text × Text))
webhooks_events = record {
  get = λ c. c.webhooks.events;
  set = λ x c. record c { webhooks = record c.webhooks { events = x } };
  same = λ c. refl;
}

abbrev pub conflict_resolver_url : FieldOf Text
conflict_resolver_url = record {
  get = λ c. c.conflict.resolver_url;
  set = λ x c. record c { conflict = record c.conflict { resolver_url = x } };
  same = λ c. refl;
}

abbrev pub conflict_resolver_secret : FieldOf Text
conflict_resolver_secret = record {
  get = λ c. c.conflict.resolver_secret;
  set = λ x c. record c { conflict = record c.conflict { resolver_secret = x } };
  same = λ c. refl;
}

abbrev pub conflict_timeout : FieldOf ℤ
conflict_timeout = record {
  get = λ c. c.conflict.timeout;
  set = λ x c. record c { conflict = record c.conflict { timeout = x } };
  same = λ c. refl;
}

abbrev pub cluster_mode : FieldOf Bool
cluster_mode = record {
  get = λ c. c.cluster.mode;
  set = λ x c. record c { cluster = record c.cluster { mode = x } };
  same = λ c. refl;
}

abbrev pub cluster_backend : FieldOf Text
cluster_backend = record {
  get = λ c. c.cluster.backend;
  set = λ x c. record c { cluster = record c.cluster { backend = x } };
  same = λ c. refl;
}

abbrev pub cluster_redis_url : FieldOf Text
cluster_redis_url = record {
  get = λ c. c.cluster.redis_url;
  set = λ x c. record c { cluster = record c.cluster { redis_url = x } };
  same = λ c. refl;
}

abbrev pub limits_max_connections : FieldOf ℤ
limits_max_connections = record {
  get = λ c. c.limits.max_connections;
  set = λ x c. record c { limits = record c.limits { max_connections = x } };
  same = λ c. refl;
}

abbrev pub limits_max_message_size_bytes : FieldOf ℤ
limits_max_message_size_bytes = record {
  get = λ c. c.limits.max_message_size_bytes;
  set = λ x c. record c { limits = record c.limits { max_message_size_bytes = x } };
  same = λ c. refl;
}

abbrev pub limits_ping_interval : FieldOf ℤ
limits_ping_interval = record {
  get = λ c. c.limits.ping_interval;
  set = λ x c. record c { limits = record c.limits { ping_interval = x } };
  same = λ c. refl;
}

abbrev pub limits_pong_timeout : FieldOf ℤ
limits_pong_timeout = record {
  get = λ c. c.limits.pong_timeout;
  set = λ x c. record c { limits = record c.limits { pong_timeout = x } };
  same = λ c. refl;
}

abbrev pub limits_write_timeout : FieldOf ℤ
limits_write_timeout = record {
  get = λ c. c.limits.write_timeout;
  set = λ x c. record c { limits = record c.limits { write_timeout = x } };
  same = λ c. refl;
}

abbrev pub limits_read_timeout : FieldOf ℤ
limits_read_timeout = record {
  get = λ c. c.limits.read_timeout;
  set = λ x c. record c { limits = record c.limits { read_timeout = x } };
  same = λ c. refl;
}

abbrev pub cors_allowed_origins : FieldOf (List Text)
cors_allowed_origins = record {
  get = λ c. c.cors.allowed_origins;
  set = λ x c. record c { cors = record c.cors { allowed_origins = x } };
  same = λ c. refl;
}

abbrev pub management_enabled : FieldOf Bool
management_enabled = record {
  get = λ c. c.management.enabled;
  set = λ x c. record c { management = record c.management { enabled = x } };
  same = λ c. refl;
}

abbrev pub management_key : FieldOf Text
management_key = record {
  get = λ c. c.management.key;
  set = λ x c. record c { management = record c.management { key = x } };
  same = λ c. refl;
}

abbrev pub log_level : FieldOf Text
log_level = record {
  get = λ c. c.log.level;
  set = λ x c. record c { log = record c.log { level = x } };
  same = λ c. refl;
}

abbrev pub log_format : FieldOf Text
log_format = record {
  get = λ c. c.log.format;
  set = λ x c. record c { log = record c.log { format = x } };
  same = λ c. refl;
}
