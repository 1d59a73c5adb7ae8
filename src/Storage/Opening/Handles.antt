-- ===== src/Storage/Opening/Handles.antt =====
-- What openSQLite, openPostgres and openMySQL of internal/storage leave open, and the schema they leave.
use open_sync_crdt.Prelude.{
  String, Bool, true, false, Option, List, ◌∷◌, ◌≡◌, refl, Result, ok, err, ◌⊎◌, inl, inr,
  Option-cases, Bool-cases,
}
use open_sync_crdt.Prelude.Text.{Text}
use open_sync_crdt.Config.{StorageConfig}
use open_sync_crdt.Storage.{StoreError}
use open_sync_crdt.Storage.Migrations.{Schema, Step, one_fails, IsMigrated, migrate, migrate-Ends}
use open_sync_crdt.Storage.Migrations.Mysql.{mysql_migrate, AllBuilt, IsBuilt, has_run}
use open_sync_crdt.Storage.Migrations.Mysql.Restart.{mysql_migrate-Builds, run_once-runs}
use open_sync_crdt.Storage.Opening.{
  Urls, MysqlUrl, MysqlConfig, Handle, Outer, Opening, migrated, pinged, connected, open_handle,
  parsed_dsn, pg_conn_string, open_postgres, mysql_dsn, open_mysql, script_run, sqlite_migrate,
  made_dir, open_sqlite,
}

module _ (Keeps Done : Schema → Type 0) where
  -- How a start of the schema ends.
  abbrev pub Finishes : Result StoreError Unit × Schema × List Bool → Type 0
  Finishes (r, s, fs) = Keeps s × (((r ≡ ok tt) × Done s) ⊎ ((e : StoreError) × (r ≡ err e)))

  -- One more handle is open, over a schema that is done; or none is, and there is an error.
  abbrev pub Opens : List Handle → Opening → Type 0
  Opens before (r, o) =
      Keeps o.schema
      × (((h : Handle) × (r ≡ ok tt) × (o.handles ≡ h ∷ before) × Done o.schema)
          ⊎ ((e : StoreError) × (r ≡ err e) × (o.handles ≡ before)))

  migrated-Opens :
      (before : List Handle) (h : Handle) (x : Result StoreError Unit × Schema × List Bool)
      → Finishes x
      → Opens before (migrated before h x)
  unfolding open_handle
  migrated-Opens before h (ok u, s, fs) (k, inl (p, d)) = (k, inl (h, refl, refl, d))
  migrated-Opens before h (ok u, s, fs) (k, inr (e, q)) = cc
  migrated-Opens before h (err e, s, fs) (k, o) = (k, inr (_, refl, refl))

  module _ (h : Handle) (mig : Step)
      (law : (s : Schema) (fs : List Bool) → Keeps s → Finishes (mig s fs)) where
    pinged-Opens :
        (before : List Handle) (s : Schema) (x : Bool × List Bool)
        → Keeps s
        → Opens before (pinged before h mig s x)
    unfolding open_handle
    pinged-Opens before s (true, rest) k = (k, inr (_, refl, refl))
    pinged-Opens before s (false, rest) k = migrated-Opens before h (mig s rest) (law s rest k)

    connected-Opens :
        (o : Outer) (x : Bool × List Bool) → Keeps o.schema → Opens o.handles (connected h mig o x)
    unfolding open_handle
    connected-Opens o (true, rest) k = (k, inr (_, refl, refl))
    connected-Opens o (false, rest) k = pinged-Opens o.handles o.schema _ k

    open_handle-Opens : (o : Outer) → Keeps o.schema → Opens o.handles (open_handle h mig o)
    unfolding open_handle
    open_handle-Opens o k = connected-Opens o _ k

  refused-Opens : (o : Outer) (e : StoreError) → Keeps o.schema → Opens o.handles (err e, o)
  refused-Opens o e k = (k, inr (e, refl, refl))

abbrev pub AllMigrated : List String → Schema → Type 0
AllMigrated stmts s = s.ran ≡ stmts

parsed_dsn-Opens :
    (parse_config : Text → Bool) (stmts : List String) (cfg : StorageConfig) (o : Outer)
    (dsn : Text)
    → IsMigrated stmts o.schema
    → Opens
        (IsMigrated stmts)
        (AllMigrated stmts)
        o.handles
        (parsed_dsn parse_config dsn cfg.postgres_max_conns stmts o)
unfolding open_postgres
parsed_dsn-Opens parse_config stmts cfg o dsn k = elim (Bool-cases (parse_config dsn)) [
  | inl t ↦ rw t (
      open_handle-Opens (IsMigrated stmts) (AllMigrated stmts) _ (migrate stmts)
        (λ s fs h. migrate-Ends stmts s fs h) o k)
  | inr f ↦ rw f (refused-Opens (IsMigrated stmts) (AllMigrated stmts) o _ k)
]

-- On a database where the first migrations have run, whatever fails: either PostgreSQL is
-- opened, with one more handle than before and every migration run, once and in order; or there is
-- an error, the handles are those of before, and still the first migrations have run, maybe more.
pub open_postgres-Opens :
    (urls : Urls) (parse_config : Text → Bool) (stmts : List String) (cfg : StorageConfig)
    (o : Outer)
    → IsMigrated stmts o.schema
    → Opens
        (IsMigrated stmts)
        (AllMigrated stmts)
        o.handles
        (open_postgres urls parse_config stmts cfg o)
unfolding open_postgres
open_postgres-Opens urls parse_config stmts cfg o k =
    elim (Option-cases (pg_conn_string urls cfg)) [
      | inl q ↦ rw (q, open_postgres) (refused-Opens (IsMigrated stmts) (AllMigrated stmts) o _ k)
      | inr (dsn, q) ↦ rw (q, open_postgres) (parsed_dsn-Opens parse_config stmts cfg o dsn k)
    ]

-- On a database where the first migrations are recorded and have run, whatever fails: either MySQL is
-- opened, with one more handle than before, every statement run and every migration recorded; or
-- there is an error, the handles are those of before, and the database can be started on again.
pub open_mysql-Opens :
    (parse : Text → Option MysqlUrl) (format_dsn : MysqlConfig → Text) (stmts : List (List String))
    (cfg : StorageConfig) (o : Outer)
    → IsBuilt stmts o.schema
    → Opens (IsBuilt stmts) (AllBuilt stmts) o.handles (open_mysql parse format_dsn stmts cfg o)
unfolding open_mysql
open_mysql-Opens parse format_dsn stmts cfg o k =
    elim (Option-cases (mysql_dsn parse format_dsn cfg.url)) [
      | inl q ↦ rw (q, open_mysql) (refused-Opens (IsBuilt stmts) (AllBuilt stmts) o _ k)
      | inr (dsn, q) ↦
          rw (q, open_mysql)
            (open_handle-Opens (IsBuilt stmts) (AllBuilt stmts) _ (mysql_migrate stmts)
              (λ s fs h. mysql_migrate-Builds stmts s fs h) o k)
    ]

-- Anything may have run before.
abbrev pub Anything : Schema → Type 0
Anything s = Unit

abbrev pub HasSchema : String → Schema → Type 0
HasSchema script s = has_run script s.ran ≡ true

script_run-Finishes :
    (script : String) (s : Schema) (x : Bool × List Bool)
    → Finishes Anything (HasSchema script) (script_run script s x)
unfolding sqlite_migrate
script_run-Finishes script s (true, rest) = (tt, inr (_, refl))
script_run-Finishes script s (false, rest) = (tt, inl (refl, run_once-runs script s.ran))

made_dir-Opens :
    (path_of : Text → Text) (script : String) (cfg : StorageConfig) (o : Outer)
    (x : Bool × List Bool)
    → Opens Anything (HasSchema script) o.handles (made_dir path_of script cfg o x)
unfolding open_sqlite sqlite_migrate
made_dir-Opens path_of script cfg o (true, rest) = (tt, inr (_, refl, refl))
made_dir-Opens path_of script cfg o (false, rest) =
    open_handle-Opens Anything (HasSchema script) _ (sqlite_migrate script)
      (λ s fs h. script_run-Finishes script s (one_fails 1 fs)) (record o { faults = rest }) tt

-- Whatever fails: either SQLite is opened, with one more handle than before and the schema's
-- script run; or there is an error and the handles are those of before.
pub open_sqlite-Opens :
    (path_of : Text → Text) (script : String) (cfg : StorageConfig) (o : Outer)
    → Opens Anything (HasSchema script) o.handles (open_sqlite path_of script cfg o)
unfolding open_sqlite
open_sqlite-Opens path_of script cfg o = made_dir-Opens path_of script cfg o _
