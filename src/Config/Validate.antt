-- ===== src/Config/Validate.antt =====
-- Config.Validate of internal/config/config.go: the checks in their order, each with its error.
pub mod Usable
use open_sync_crdt.Prelude.{
  Bool, true, false, not, ◌&&◌, ◌||◌, Option, none, some, List, [], ◌∷◌, if◌then◌else◌, Result, ok,
  err,
}
use open_sync_crdt.Prelude.Int.{pos, ltb_ℤ}
use open_sync_crdt.Prelude.Text.{Text, trim_space, to_lower, is_word}
use open_sync_crdt.Config.{
  ServerConfig, TlsConfig, StorageConfig, AuthConfig, ClusterConfig, LogConfig, Config,
}

-- The errors, without the values that their texts repeat.
pub data Invalid : Type 0 where
  port_out_of_range : Invalid
  tls_files_not_set : Invalid
  data_dir_empty : Invalid
  storage_url_required : Invalid
  storage_backend_unsupported : Invalid
  snapshot_interval_low : Invalid
  header_name_empty : Invalid
  webhook_url_required : Invalid
  auth_mode_unsupported : Invalid
  max_retries_negative : Invalid
  cluster_on_sqlite : Invalid
  cluster_backend_unsupported : Invalid
  redis_url_required : Invalid
  max_connections_low : Invalid
  max_message_size_low : Invalid
  log_level_unsupported : Invalid
  log_format_unsupported : Invalid

-- `strings.TrimSpace(s) == ""`
unfoldable pub is_blank : Text → Bool
is_blank s = elim (trim_space s) [ [] ↦ true | c ∷ t ↦ false ]

-- `if test { return e }`
unfoldable pub refuse : Bool → Invalid → Option Invalid
refuse test e = if test then some e else none

unfoldable pub port_fault : ServerConfig → Option Invalid
unfolding refuse
port_fault s = refuse (ltb_ℤ s.port (pos 1) || ltb_ℤ (pos 65535) s.port) port_out_of_range

unfoldable pub tls_fault : TlsConfig → Option Invalid
unfolding refuse is_blank
tls_fault t = refuse (t.enabled && (is_blank t.cert_file || is_blank t.key_file)) tls_files_not_set

unfoldable pub storage_fault : StorageConfig → Option Invalid
unfolding refuse is_blank is_word
storage_fault s =
    if is_word s.backend "sqlite"
    then refuse (is_blank s.data_dir) data_dir_empty
    else if is_word s.backend "postgres" || is_word s.backend "mysql"
    then refuse (is_blank s.url) storage_url_required
    else some storage_backend_unsupported

unfoldable pub auth_fault : AuthConfig → Option Invalid
unfolding refuse is_blank is_word
auth_fault a =
    if is_word a.mode "none"
    then none
    else if is_word a.mode "header"
    then refuse (is_blank a.header_name) header_name_empty
    else if is_word a.mode "webhook"
    then refuse (is_blank a.webhook_url) webhook_url_required
    else some auth_mode_unsupported

unfoldable pub cluster_fault : ClusterConfig → Option Invalid
unfolding refuse is_blank is_word to_lower
cluster_fault c =
    if c.mode
    then if not (is_word (to_lower (trim_space c.backend)) "redis")
      then some cluster_backend_unsupported
      else refuse (is_blank c.redis_url) redis_url_required
    else none

unfoldable pub level_fault : LogConfig → Option Invalid
unfolding refuse is_word to_lower
level_fault l =
    let level = to_lower l.level in
    refuse
      (not (
        is_word level "debug"
        || (is_word level "info" || (is_word level "warn" || is_word level "error"))))
      log_level_unsupported

unfoldable pub format_fault : LogConfig → Option Invalid
unfolding refuse is_word to_lower
format_fault l =
    let format = to_lower l.format in
    refuse (not (is_word format "json" || is_word format "text")) log_format_unsupported

-- The first of a sequence of checks that fails.
unfoldable pub first_fault : List (Option Invalid) → Result Invalid Unit
first_fault [] = ok tt
first_fault (none ∷ more) = first_fault more
first_fault (some e ∷ more) = err e

unfoldable pub validate : Config → Result Invalid Unit
unfolding refuse is_word port_fault tls_fault storage_fault auth_fault cluster_fault level_fault
    format_fault first_fault
validate c = first_fault (
    port_fault c.server
    ∷ tls_fault c.tls
    ∷ storage_fault c.storage
    ∷ refuse (ltb_ℤ c.storage.snapshot_interval (pos 1)) snapshot_interval_low
    ∷ auth_fault c.auth
    ∷ refuse (ltb_ℤ c.webhooks.max_retries (pos 0)) max_retries_negative
    ∷ refuse (c.cluster.mode && is_word c.storage.backend "sqlite") cluster_on_sqlite
    ∷ cluster_fault c.cluster
    ∷ refuse (ltb_ℤ c.limits.max_connections (pos 1)) max_connections_low
    ∷ refuse (ltb_ℤ c.limits.max_message_size_bytes (pos 1)) max_message_size_low
    ∷ level_fault c.log
    ∷ format_fault c.log
    ∷ [])
