-- ===== src/Tests/Starting.antt =====
-- A pool, a database that is opened, a node that joins and beats, a command that ends, a scrape.
use mathlib.Core.List.{Permᴰ}
use open_sync_crdt.Prelude.{
  ℕ, String, Bytes, true, false, none, some, List, [], ◌∷◌, ◌≡◌, refl, ok, arith, ◌==◌,
  if◌then◌else◌, ltb, ◌+◌, Result, eq_refl,
}
use open_sync_crdt.Prelude.Int.{negsuc}
use open_sync_crdt.Prelude.Text.{Text, codes, trim_space}
use open_sync_crdt.Config.{Config, default_config}
use open_sync_crdt.Config.Env.{Env, env_str, env_bool, env_dur, env_int64, env_int}
use open_sync_crdt.Config.Events.{returns, apply_webhook_event_env}
use open_sync_crdt.Config.Overlay.{before_events, after_events}
use open_sync_crdt.Config.Load.{Files, LoadError, missing, load}
use open_sync_crdt.Embedding.{Outside}
use open_sync_crdt.Storage.Migrations.{IsMigrated, up_to}
use open_sync_crdt.Storage.Migrations.Mysql.{AllRun, IsBuilt, AllBuilt}
use open_sync_crdt.Storage.Opening.{Urls, MysqlUrl, Outer, open_postgres, open_mysql}
use open_sync_crdt.Storage.Opening.Pool.{IsSize, max_conns-IsSize}
use open_sync_crdt.Storage.Opening.Handles.{
  Opens, AllMigrated, open_postgres-Opens, open_mysql-Opens,
}
use open_sync_crdt.Cluster.Registry.{Got, value, expired, NodeInfo, InfoJson, SetKey, register}
use open_sync_crdt.Cluster.Membership.{
  Redis, IsExpiring, heartbeats, missed, tick_time, heartbeat_interval, Live, Answers, new_node,
}
use open_sync_crdt.Cluster.Membership.Alive.{heartbeats-alive}
use open_sync_crdt.Cluster.Membership.Balance.{Balanced, new_node-Balanced}
use open_sync_crdt.Command.{Process, signalled, run}
use open_sync_crdt.Command.Exit.{IsClean, Ends, run-Ends}
use open_sync_crdt.Metrics.{Registry, new_registry, operation}
use open_sync_crdt.Metrics.Render.{Format, Orders, render, render-order}

max_conns-IsSize_example : (m : ℕ) × IsSize (negsuc 6) m
max_conns-IsSize_example = max_conns-IsSize (negsuc 6)

-- A URL is its text, and names an sslmode.
abbrev urls : Urls
urls = record {
  Url = Text;
  parse = λ t. some t;
  get = λ u k. codes "require";
  set = λ u k v. u;
  print = λ u. u;
}

-- The fourth call from now on fails: the first statement of the only migration.
abbrev outer : Outer
outer = record {
  handles = [];
  schema = record { versions = []; ran = [] };
  faults = false ∷ false ∷ false ∷ false ∷ true ∷ [];
}

abbrev scripts : List String
scripts = "documents" ∷ []

open_postgres-Opens_example :
    Opens
      (IsMigrated scripts)
      (AllMigrated scripts)
      []
      (open_postgres urls (λ s. true) scripts default_config.storage outer)
unfolding up_to
open_postgres-Opens_example =
    open_postgres-Opens urls (λ s. true) scripts default_config.storage outer
      (record { left = scripts; whole = refl; recorded = refl })

abbrev tables : List (List String)
tables = ("documents" ∷ "operations" ∷ []) ∷ []

abbrev mysql_url : MysqlUrl
mysql_url = record {
  host = codes "db";
  hostname = codes "db";
  port = [];
  path = codes "/sync";
  user = none;
  query = [];
}

open_mysql-Opens_example :
    Opens
      (IsBuilt tables)
      (AllBuilt tables)
      []
      (open_mysql (λ t. some mysql_url) (λ c. c.addr) tables default_config.storage outer)
unfolding up_to AllRun
open_mysql-Opens_example =
    open_mysql-Opens (λ t. some mysql_url) (λ c. c.addr) tables default_config.storage outer
      (record { applied = []; left = tables; whole = refl; versions = refl; ran = tt })

-- A Redis of one key: the key, its value and the time at which it expires.
abbrev Cell : Type 0
Cell = String × Bytes × ℕ

abbrev put : SetKey → ℕ → List Cell
put k now = (k.key, k.value, now + k.ttl) ∷ []

abbrev answer : String → ℕ → List Cell → Got
answer key t [] = expired
answer key t ((j, v, e) ∷ cells) =
    if j == key then if ltb t e then value v else expired else expired

abbrev redis : Redis
redis = record {
  State = List Cell;
  set = λ k now s. put k now;
  get = answer;
  del = λ key now s. [];
}

redis-IsExpiring : IsExpiring redis
redis-IsExpiring = record {
  fresh = λ k now t s h l. ground (arith, eq_refl k.key);
  stale = λ k now t s h. ground (arith, eq_refl k.key);
  deleted = λ key now t s h. refl;
}

abbrev info : NodeInfo
info = record { id = "a"; addr = "h:1"; started_at = "t" }

abbrev info_json : InfoJson
info_json = record { marshal = λ i. some (1 ∷ []); unmarshal = λ b. some info }

abbrev entry : SetKey
entry = record { key = "opensynccrdt:nodes:a"; value = 1 ∷ []; ttl = 30 }

-- The two latest refreshes failed; five seconds later the entry is still there.
heartbeats-alive_example :
    answer "opensynccrdt:nodes:a" 35 (heartbeats redis entry 0 (false ∷ false ∷ true ∷ []) [])
    ≡ value (1 ∷ [])
unfolding register missed tick_time heartbeat_interval
heartbeats-alive_example =
    heartbeats-alive redis redis-IsExpiring info_json info entry refl 0 (false ∷ false ∷ true ∷ [])
      [] 35 (omega arith) (omega arith) (omega arith)

-- Redis answers the ping and refuses the entry.
abbrev refusing : Answers
refusing = record { parses = true; pings = true; sets = false; deletes = true; closes = true }

abbrev no_live : Live
no_live = record { clients = 0; pubsubs = 0; contexts = 0; loops = 0 }

new_node-Balanced_example : Balanced refusing no_live (new_node refusing info_json info no_live)
new_node-Balanced_example = new_node-Balanced refusing info_json info no_live

abbrev no_env : Env
no_env = record { lookup_env = λ key. none; environ = []; parse_duration = λ s. none }

abbrev no_files : Files
no_files = record { exists = λ p. false; read_file = λ p. missing; decode = λ s c. none }

abbrev outside : Outside
outside = record {
  open_sqlite = λ c. true;
  open_postgres = λ c. false;
  open_mysql = λ c. false;
  join = λ u n. false;
  leave = true;
  close_store = true;
  generate_node_id = codes "node";
}

abbrev process : Process
process = record {
  held = record { contexts = 0; stores = 0; nodes = 0 };
  servers = 0;
  catches = false;
  cut_off = false;
}

-- A signal comes, and the connections do not drain in time.
run-Ends_example :
    (loads : Result LoadError Config) × (load no_files no_env [] ≡ returns loads)
    × IsClean process (record process { cut_off = true })
    × Ends outside process.held (signalled false) loads (ok tt)
unfolding run apply_webhook_event_env after_events env_str env_bool env_dur env_int64 env_int
    before_events trim_space
run-Ends_example =
    run-Ends outside process refl no_files no_env [] (signalled false)
      (ok tt, record process { cut_off = true }) refl

abbrev fmt : Format
fmt = record { quoted = λ s. codes s; as_seconds = λ n. codes "0" }

abbrev scraped : Registry
scraped = operation "b" (operation "a" (operation "b" new_registry))

abbrev one_order : Orders
one_order = record { operations = "b" ∷ "a" ∷ []; calls = []; errors = [] }

abbrev other_order : Orders
other_order = record { operations = "a" ∷ "b" ∷ []; calls = []; errors = [] }

render-order_example : render fmt scraped one_order ≡ render fmt scraped other_order
render-order_example =
    render-order fmt scraped one_order other_order (Permᴰ.swap refl refl) Permᴰ.nil Permᴰ.nil
