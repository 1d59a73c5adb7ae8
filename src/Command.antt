-- ===== src/Command.antt =====
-- cmd/opensynccrdt/main.go: the command around the engine, from its configuration to its exit; and
-- Addr of internal/config/config.go. What becomes of the HTTP server is a parameter.
pub mod Exit
pub mod Logger
use open_sync_crdt.Prelude.{
  ℕ, zero, suc, ◌+◌, ◌-◌, Bool, true, false, Option, none, some, List, [], ◌∷◌, ◌++◌, if◌then◌else◌,
  Result, ok, err,
}
use open_sync_crdt.Prelude.Int.{ℤ, pos, negsuc}
use open_sync_crdt.Prelude.Text.{Text, codes, to_lower, equal_fold, is_word}
use open_sync_crdt.Prelude.Text.Decimal.{decimal}
use open_sync_crdt.Config.{Config, TlsConfig, LogConfig}
use open_sync_crdt.Config.Env.{Env}
use open_sync_crdt.Config.Events.{Outcome, panics, returns, and_then}
use open_sync_crdt.Config.Load.{Files, LoadError, load}
use open_sync_crdt.Embedding.{
  Outside, Held, Embedded, EngineConfig, NewError, new_engine, close_engine,
}

-- `Config.Addr`
unfoldable pub addr : Config → Text
unfolding decimal
addr c = c.server.host ++ (b':' ∷ decimal c.server.port)

-- The http.Server that run() starts: no read timeout is none, and TLS its two files.
pub record HttpServer : Type 0 where
  pub address : Text
  pub read_timeout : Option ℤ
  pub tls : Option (Text × Text)

timeout_of : ℤ → Option ℤ
timeout_of (pos zero) = none
timeout_of (pos (suc n)) = some (pos (suc n))
timeout_of (negsuc n) = none

unfoldable pub http_server : Config → HttpServer
unfolding addr timeout_of
http_server c = record {
  address = addr c;
  read_timeout = timeout_of c.limits.read_timeout;
  tls = if c.tls.enabled then some (c.tls.cert_file, c.tls.key_file) else none;
}

-- What comes first: the server ends or fails, or a signal; then, whether it drains in time.
pub data Served : Type 0 where
  ended : Served
  failed : Served
  signalled : Bool → Served

pub data RunError : Type 0 where
  load_config : LoadError → RunError
  start : NewError → RunError
  serve : RunError

-- What is live in the process: the engines' parts, the servers, whether signals are caught, and
-- whether connections were cut off.
pub record Process : Type 0 where
  pub held : Held
  pub servers : ℕ
  pub catches : Bool
  pub cut_off : Bool

abbrev pub Run : Type 0
Run = Result RunError Unit × Process

-- The engine's configuration that run() gives.
abbrev pub full : Config → EngineConfig
full cfg = record { storage = none; auth = none; full = some cfg; node_id = [] }

-- One more server is started; ListenAndServe has returned, or the server was shut down or closed.
abbrev pub open_server : Process → Process
open_server p = record p { servers = p.servers + 1 }

abbrev pub close_server : Process → Process
close_server p = record p { servers = p.servers - 1 }

-- `stop`, which may be called again.
abbrev pub stop : Process → Process
stop p = record p { catches = false }

-- The select, and the shutdown after a signal: a drain that times out is only logged, and the
-- server is closed.
unfoldable pub wait : Served → Process → Run
wait ended p = (ok tt, close_server p)
wait failed p = (err serve, close_server p)
wait (signalled true) p = (ok tt, close_server (stop p))
wait (signalled false) p = (ok tt, record (close_server (stop p)) { cut_off = true })

module _ (out : Outside) where
  -- The deferred Close of the engine, whose error is dropped, and the deferred stop.
  deferred : Embedded → Run → Run
  unfolding close_engine
  deferred e (r, p) = (r, stop (record p { held = (close_engine out e p.held).1 }))

  with_engine : Served → Process → Result NewError Embedded × Held → Run
  unfolding deferred wait
  with_engine served p (err e, h) = (err (start e), stop (record p { held = h }))
  with_engine served p (ok e, h) = deferred e (wait served (open_server (record p { held = h })))

  loaded : Served → Process → Result LoadError Config → Run
  unfolding with_engine new_engine
  loaded served p (err e) = (err (load_config e), p)
  loaded served p (ok cfg) =
      with_engine served (record p { catches = true }) (new_engine out (full cfg) p.held)

  -- `run`
  unfoldable pub run : Files → Env → Text → Served → Process → Outcome Run
  unfolding loaded load and_then
  run files env path served p = and_then (load files env path) (λ r. returns (loaded served p r))

-- The exit code of `main`.
unfoldable pub exit_code : Result RunError Unit → ℕ
exit_code (ok u) = 0
exit_code (err e) = 1

pub data Level : Type 0 where
  debug : Level
  info : Level
  warn : Level
  error : Level

-- The level of newLogger.
unfoldable pub log_level : LogConfig → Level
unfolding is_word to_lower
log_level cfg =
    let level = to_lower cfg.level in
    if is_word level "debug"
    then debug
    else if is_word level "warn"
    then warn
    else if is_word level "error"
    then error
    else info

-- Whether newLogger writes text, not JSON.
unfoldable pub writes_text : LogConfig → Bool
unfolding equal_fold
writes_text cfg = equal_fold cfg.format (codes "text")
