-- ===== src/Config/Validate/Usable.antt =====
-- What Config.Validate of internal/config/config.go lets through, said without the code's checks.
pub mod Words
pub mod Sections
pub mod Exact
use open_sync_crdt.Prelude.{
  ℕ, ◌≤◌, String, Bool, true, false, not, ◌&&◌, ◌||◌, Option, none, some, List, [], ◌∷◌, All, ◌∙◌,
  if◌then◌else◌, Result, ok, err, ◌≡◌, ◌≢◌, ◌↔◌, ◌⊎◌, inl, inr, refl, arith, Bool-cases, ap,
}
use open_sync_crdt.Prelude.Int.{ℤ, pos, negsuc, ltb_ℤ}
use open_sync_crdt.Prelude.Text.{Text, codes, trim_space, to_lower, same_text, is_word}
use open_sync_crdt.Config.{
  ServerConfig, TlsConfig, StorageConfig, AuthConfig, ClusterConfig, LogConfig, Config,
}
use open_sync_crdt.Config.Validate.{
  Invalid, is_blank, refuse, port_out_of_range, snapshot_interval_low, max_retries_negative,
  cluster_on_sqlite, max_connections_low, max_message_size_low, port_fault, tls_fault,
  storage_fault, auth_fault, cluster_fault, level_fault, format_fault, first_fault, validate,
}

-- More than white space.
abbrev pub IsGiven : Text → Type 0
IsGiven s = trim_space s ≢ []

abbrev pub AtLeast : ℕ → ℤ → Type 0
AtLeast low z = (n : ℕ) × ((z ≡ pos n) × (low ≤ n))

abbrev pub Word : Text → String → Type 0
Word s w = s ≡ codes w

abbrev pub UsablePort : ServerConfig → Type 0
UsablePort s = (n : ℕ) × ((s.port ≡ pos n) × ((1 ≤ n) × (n ≤ 65535)))

abbrev pub UsableTls : TlsConfig → Type 0
UsableTls t = (t.enabled ≡ false) ⊎ (IsGiven t.cert_file × IsGiven t.key_file)

abbrev pub UsableStorage : StorageConfig → Type 0
UsableStorage s =
    (Word s.backend "sqlite" × IsGiven s.data_dir)
    ⊎ ((Word s.backend "postgres" ⊎ Word s.backend "mysql") × IsGiven s.url)

abbrev pub UsableAuth : AuthConfig → Type 0
UsableAuth a =
    Word a.mode "none"
    ⊎ ((Word a.mode "header" × IsGiven a.header_name)
        ⊎ (Word a.mode "webhook" × IsGiven a.webhook_url))

-- A cluster runs over Redis.
abbrev pub UsableCluster : ClusterConfig → Type 0
UsableCluster c =
    (c.mode ≡ false) ⊎ (Word (to_lower (trim_space c.backend)) "redis" × IsGiven c.redis_url)

abbrev pub UsableLevel : LogConfig → Type 0
UsableLevel l =
    Word (to_lower l.level) "debug"
    ⊎ (Word (to_lower l.level) "info"
        ⊎ (Word (to_lower l.level) "warn" ⊎ Word (to_lower l.level) "error"))

abbrev pub UsableFormat : LogConfig → Type 0
UsableFormat l = Word (to_lower l.format) "json" ⊎ Word (to_lower l.format) "text"

-- A configuration that the server can run on.
pub record IsUsable (c : Config) : Type 0 where
  pub port : UsablePort c.server
  pub tls : UsableTls c.tls
  pub storage : UsableStorage c.storage
  pub interval : AtLeast 1 c.storage.snapshot_interval
  pub auth : UsableAuth c.auth
  pub retries : AtLeast 0 c.webhooks.max_retries
  pub shared : (c.cluster.mode ≡ false) ⊎ (c.storage.backend ≢ codes "sqlite")
  pub cluster : UsableCluster c.cluster
  pub connections : AtLeast 1 c.limits.max_connections
  pub message_size : AtLeast 1 c.limits.max_message_size_bytes
  pub level : UsableLevel c.log
  pub format : UsableFormat c.log
