-- ===== src/Storage/Opening.antt =====
-- openSQLite, openPostgres and openMySQL of internal/storage: a handle is opened, sized and pinged,
-- and the schema brought up to date; a handle that cannot be used is closed again. The drivers and
-- net/url are parameters.
pub mod Pool
pub mod Dsn
pub mod Handles
use open_sync_crdt.Prelude.{
  ℕ, zero, suc, ◌+◌, ◌-◌, ◌%◌, ◌/◌, ◌^◌, String, Bool, true, false, ◌&&◌, Option, none, some, List,
  [], ◌∷◌, ◌++◌, ◌==◌, ltb, eqb, if◌then◌else◌, Result, ok, err,
}
use open_sync_crdt.Prelude.Int.{ℤ, pos, negsuc, ltb_ℤ}
use open_sync_crdt.Prelude.Map.{Map, insert}
use open_sync_crdt.Prelude.Text.{Text, codes, is_word}
use open_sync_crdt.Prelude.Text.Decimal.{decimal}
use open_sync_crdt.Config.{StorageConfig}
use open_sync_crdt.Storage.{StoreError, failed}
use open_sync_crdt.Storage.Migrations.{Schema, Step, one_fails, migrate}
use open_sync_crdt.Storage.Migrations.Mysql.{mysql_migrate, run_once}

-- The low 32 bits of a number, as a signed number.
signed_32 : ℕ → ℤ
signed_32 m = if ltb m (2 ^ 31) then pos m else negsuc (2 ^ 32 - 1 - m)

-- `int32(n)`
unfoldable pub int32 : ℤ → ℤ
unfolding signed_32
int32 (pos n) = signed_32 (n % 2 ^ 32)
int32 (negsuc n) = signed_32 (2 ^ 32 - 1 - n % 2 ^ 32)

unfoldable pub min_conns : ℤ
min_conns = pos 2

-- `if maxConns < poolCfg.MinConns`
at_least_min : ℤ → ℤ
unfolding min_conns
at_least_min max = if ltb_ℤ max min_conns then min_conns else max

-- The pool's MaxConns.
unfoldable pub max_conns : ℤ → ℤ
unfolding int32 at_least_min
max_conns n = at_least_min (int32 n)

-- net/url as pgConnString uses it: Parse, Query().Get, and Query().Set with Encode and String.
pub record Urls : Type 1 where
  pub Url : Type 0
  pub parse : Text → Option Url
  pub get : Url → Text → Text
  pub set : Url → Text → Text → Url
  pub print : Url → Text

module _ (urls : Urls) where
  unfoldable pub is_empty : Text → Bool
  is_empty [] = true
  is_empty (c ∷ t) = false

  -- `q.Get("sslmode") == "" && cfg.PostgresSSLMode != ""`
  unfoldable pub with_sslmode : Text → urls.Url → urls.Url
  unfolding is_empty
  with_sslmode [] u = u
  with_sslmode (c ∷ mode) u =
      if is_empty (urls.get u (codes "sslmode")) then urls.set u (codes "sslmode") (c ∷ mode) else u

  unfoldable pub pg_conn_string : StorageConfig → Option Text
  unfolding with_sslmode
  pg_conn_string cfg = elim (urls.parse cfg.url) [
    | none ↦ none
    | some u ↦ some (urls.print (with_sslmode cfg.postgres_ssl_mode u))
  ]

-- What mysqlDSN reads of a URL.
pub record MysqlUrl : Type 0 where
  pub host : Text
  pub hostname : Text
  pub port : Text
  pub path : Text
  pub user : Option (Text × Option Text)
  pub query : Map (List Text)

-- `mysql.Config`, the fields that mysqlDSN sets.
pub record MysqlConfig : Type 0 where
  pub net : Text
  pub addr : Text
  pub db_name : Text
  pub user : Text
  pub passwd : Text
  pub params : Map Text

unfoldable pub mysql_addr : MysqlUrl → Text
mysql_addr u = elim u.port [ [] ↦ u.hostname ++ codes ":3306" | c ∷ port ↦ u.host ]

unfoldable pub without_slash : Text → Text
without_slash [] = []
without_slash (c ∷ t) = if eqb c b'/' then t else c ∷ t

user_of : Option (Text × Option Text) → Text × Text
user_of none = ([], [])
user_of (some (name, none)) = (name, [])
user_of (some (name, some pw)) = (name, pw)

-- The first value of each query parameter, in the order in which the range gives them.
unfoldable pub merge_params : Map (List Text) → Map Text → Map Text
merge_params [] params = params
merge_params ((k, []) ∷ query) params = merge_params query params
merge_params ((k, v ∷ vs) ∷ query) params = merge_params query (insert k v params)

unfoldable pub mysql_config : MysqlUrl → MysqlConfig
unfolding mysql_addr without_slash user_of merge_params
mysql_config u = record {
  net = codes "tcp";
  addr = mysql_addr u;
  db_name = without_slash u.path;
  user = (user_of u.user).0;
  passwd = (user_of u.user).1;
  params = merge_params u.query [];
}

-- `mysqlDSN`, with url.Parse and FormatDSN.
unfoldable pub mysql_dsn : (Text → Option MysqlUrl) → (MysqlConfig → Text) → Text → Option Text
unfolding mysql_config
mysql_dsn parse format_dsn raw = elim (parse raw) [
  | none ↦ none
  | some u ↦ some (format_dsn (mysql_config u))
]

-- `d.Milliseconds()`, which cuts toward zero.
unfoldable pub milliseconds : ℤ → ℤ
milliseconds (pos n) = pos (n / 1000000)
milliseconds (negsuc n) = negative ((n + 1) / 1000000)
  where
    negative : ℕ → ℤ
    negative zero = pos 0
    negative (suc m) = negsuc m

-- The data source name of openSQLite, for the path and the busy timeout.
unfoldable pub sqlite_dsn : Text → ℤ → Text
unfolding decimal milliseconds
sqlite_dsn path busy =
    codes "file:"
    ++ (path
        ++ (codes "?_journal_mode=WAL&_foreign_keys=on&_busy_timeout="
            ++ (decimal (milliseconds busy) ++ codes "&_synchronous=NORMAL&_txlock=immediate")))

-- An open handle: its data source name, and the limit on its connections, if it has one.
pub record Handle : Type 0 where
  pub dsn : Text
  pub max : Option ℤ

-- The handles that are open, the schema, and whether each of the next calls fails.
pub record Outer : Type 0 where
  pub handles : List Handle
  pub schema : Schema
  pub faults : List Bool

abbrev pub Opening : Type 0
Opening = Result StoreError Unit × Outer

migrated : List Handle → Handle → Result StoreError Unit × Schema × List Bool → Opening
migrated before h (ok u, s, fs) = (ok tt, record { handles = h ∷ before; schema = s; faults = fs })
migrated before h (err e, s, fs) =
    (err (failed "migrate schema"), record { handles = before; schema = s; faults = fs })

pinged : List Handle → Handle → Step → Schema → Bool × List Bool → Opening
unfolding migrated
pinged before h mig s (true, rest) =
    (err (failed "ping"), record { handles = before; schema = s; faults = rest })
pinged before h mig s (false, rest) = migrated before h (mig s rest)

connected : Handle → Step → Outer → Bool × List Bool → Opening
unfolding pinged one_fails
connected h mig o (true, rest) = (err (failed "open"), record o { faults = rest })
connected h mig o (false, rest) = pinged o.handles h mig o.schema (one_fails 1 rest)

-- The handle is opened, pinged, and its schema brought up to date; where one of the last two fails,
-- it is closed.
unfoldable pub open_handle : Handle → Step → Outer → Opening
unfolding connected one_fails
open_handle h mig o = connected h mig o (one_fails 1 o.faults)

-- `if n > 0 { db.SetMaxOpenConns(n) }`
unfoldable pub limit : ℤ → Option ℤ
limit (pos zero) = none
limit (pos (suc n)) = some (pos (suc n))
limit (negsuc n) = none

parsed_dsn : (Text → Bool) → Text → ℤ → List String → Outer → Opening
unfolding open_handle max_conns migrate
parsed_dsn parse_config dsn n stmts o =
    let opened = open_handle (record { dsn = dsn; max = some (max_conns n) }) (migrate stmts) o in
    if parse_config dsn then opened else (err (failed "parse postgres url"), o)

-- `openPostgres`, with pgxpool.ParseConfig.
unfoldable pub open_postgres : Urls → (Text → Bool) → List String → StorageConfig → Outer → Opening
unfolding parsed_dsn pg_conn_string
open_postgres urls parse_config stmts cfg o = elim (pg_conn_string urls cfg) [
  | none ↦ (err (failed "parse postgres url"), o)
  | some dsn ↦ parsed_dsn parse_config dsn cfg.postgres_max_conns stmts o
]

unfoldable pub open_mysql :
    (Text → Option MysqlUrl)
    → (MysqlConfig → Text)
    → List (List String)
    → StorageConfig
    → Outer
    → Opening
unfolding open_handle mysql_dsn limit mysql_migrate
open_mysql parse format_dsn stmts cfg o = elim (mysql_dsn parse format_dsn cfg.url) [
  | none ↦ (err (failed "parse mysql url"), o)
  | some dsn ↦
      open_handle (record { dsn = dsn; max = limit cfg.mysql_max_conns }) (mysql_migrate stmts) o
]

script_run : String → Schema → Bool × List Bool → Result StoreError Unit × Schema × List Bool
unfolding run_once
script_run script s (true, rest) = (err (failed "exec schema"), s, rest)
script_run script s (false, rest) = (ok tt, record s { ran = run_once script s.ran }, rest)

-- `migrate` of sqlite.go: one script, of CREATE ... IF NOT EXISTS.
unfoldable pub sqlite_migrate : String → Step
unfolding script_run one_fails
sqlite_migrate script s fs = script_run script s (one_fails 1 fs)

made_dir : (Text → Text) → String → StorageConfig → Outer → Bool × List Bool → Opening
unfolding open_handle sqlite_migrate sqlite_dsn limit
made_dir path_of script cfg o (true, rest) =
    (err (failed "create data dir"), record o { faults = rest })
made_dir path_of script cfg o (false, rest) =
    open_handle
      (record {
        dsn = sqlite_dsn (path_of cfg.data_dir) cfg.busy_timeout;
        max = limit cfg.max_open_conns;
      })
      (sqlite_migrate script) (record o { faults = rest })

-- `openSQLite`, with filepath.Join on the data directory.
unfoldable pub open_sqlite : (Text → Text) → String → StorageConfig → Outer → Opening
unfolding made_dir one_fails
open_sqlite path_of script cfg o = made_dir path_of script cfg o (one_fails 1 o.faults)
