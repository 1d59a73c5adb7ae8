-- ===== src/Embedding/Startup.antt =====
-- The start of an engine, pkg/engine/engine.go.
use open_sync_crdt.Prelude.{true, false, ◌≡◌, ◌↔◌, Result, ok}
use open_sync_crdt.Prelude.Text.{Text}
use open_sync_crdt.Config.{Config, StorageConfig}
use open_sync_crdt.Embedding.{Outside, Embedded, NewError, hub}

-- Nothing outside fails.
pub record AllUp (out : Outside) : Type 0 where
  pub sqlite_up : (cfg : StorageConfig) → out.open_sqlite cfg ≡ true
  pub postgres_up : (cfg : StorageConfig) → out.open_postgres cfg ≡ true
  pub mysql_up : (cfg : StorageConfig) → out.open_mysql cfg ≡ true
  pub joins : (url id : Text) → out.join url id ≡ true

-- A configuration as it was asked for, running; the node stands between the engine and the hub
-- exactly in a cluster.
pub record IsUp (cfg : Config) (r : Result NewError Embedded) : Type 0 where
  pub engine : Embedded
  pub result : r ≡ ok engine
  pub as_asked : engine.cfg ≡ cfg
  pub observed : engine.observed ≡ cfg.cluster.mode
  pub single : (engine.broadcaster ≡ hub) ↔ (cfg.cluster.mode ≡ false)
