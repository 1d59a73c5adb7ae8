-- ===== src/Command/Exit.antt =====
-- How run() of cmd/opensynccrdt/main.go ends.
use open_sync_crdt.Prelude.{true, false, ◌≡◌, ◌≢◌, refl, ap, subst, arith, Result, ok, err}
use open_sync_crdt.Prelude.Text.{Text}
use open_sync_crdt.Config.{Config}
use open_sync_crdt.Config.Env.{Env}
use open_sync_crdt.Config.Events.{Outcome, panics, returns, and_then}
use open_sync_crdt.Config.Load.{Files, LoadError, load}
use open_sync_crdt.Embedding.{Outside, Held, Embedded, NewError, new_engine, close_engine}
use open_sync_crdt.Embedding.Resources.{Balanced, new_engine-Balanced}
use open_sync_crdt.Command.{
  Served, ended, failed, signalled, RunError, load_config, start, serve, Process, Run, full,
  open_server, wait, deferred, with_engine, loaded, run,
}

-- Nothing more is live than before, and signals are not caught.
pub record IsClean (p p' : Process) : Type 0 where
  pub held : p'.held ≡ p.held
  pub servers : p'.servers ≡ p.servers
  pub catches : p'.catches ≡ false

-- Why the command ended: a configuration that does not load, an engine that does not start, a server
-- that fails; or else the server ended, or a signal came.
pub data Ends (out : Outside) (h : Held) (served : Served) (loads : Result LoadError Config)
    : Result RunError Unit → Type 0 where
  no_config : (e : LoadError) → loads ≡ err e → Ends out h served loads (err (load_config e))
  no_engine :
      (c : Config) (e : NewError)
      → loads ≡ ok c
      → (new_engine out (full c) h).0 ≡ err e
      → Ends out h served loads (err (start e))
  no_server :
      (c : Config) (e : Embedded)
      → loads ≡ ok c
      → (new_engine out (full c) h).0 ≡ ok e
      → served ≡ failed
      → Ends out h served loads (err serve)
  done :
      (c : Config) (e : Embedded)
      → loads ≡ ok c
      → (new_engine out (full c) h).0 ≡ ok e
      → served ≢ failed
      → Ends out h served loads (ok tt)

module _ (out : Outside) (p : Process) (quiet : p.catches ≡ false) where
  abbrev Good : Served → Result LoadError Config → Run → Type 0
  Good served loads (r, p') = IsClean p p' × Ends out p.held served loads r

  deferred-Good :
      (served : Served) (c : Config) (e : Embedded) (h : Held)
      → (new_engine out (full c) p.held).0 ≡ ok e
      → (close_engine out e h).1 ≡ p.held
      → Good served
          (ok c)
          (deferred out e (wait served (open_server (record p { held = h; catches = true }))))
  unfolding run wait
  deferred-Good ended c e h q b =
      (record { held = b; servers = omega arith; catches = refl }, done c e refl q (λ x. cc))
  deferred-Good failed c e h q b =
      (record { held = b; servers = omega arith; catches = refl }, no_server c e refl q refl)
  deferred-Good (signalled true) c e h q b =
      (record { held = b; servers = omega arith; catches = refl }, done c e refl q (λ x. cc))
  deferred-Good (signalled false) c e h q b =
      (record { held = b; servers = omega arith; catches = refl }, done c e refl q (λ x. cc))

  with_engine-Good :
      (served : Served) (c : Config) (x : Result NewError Embedded × Held)
      → new_engine out (full c) p.held ≡ x
      → Balanced out p.held x
      → Good served (ok c) (with_engine out served (record p { catches = true }) x)
  unfolding run Balanced
  with_engine-Good served c (err e, h) q b =
      (record { held = b; servers = refl; catches = refl }, no_engine c e refl (ap (λ y. y.0) q))
  with_engine-Good served c (ok e, h) q b = deferred-Good served c e h (ap (λ y. y.0) q) b

  loaded-Good :
      (served : Served) (r : Result LoadError Config) → Good served r (loaded out served p r)
  unfolding run
  loaded-Good served (err e) =
      (record { held = refl; servers = refl; catches = quiet }, no_config e refl)
  loaded-Good served (ok c) =
      with_engine-Good served c _ refl (new_engine-Balanced out (full c) p.held)

  returns-same : {a b : Run} → returns a ≡ returns b → a ≡ b
  returns-same {a} h = ap (λ (o : Outcome Run). elim o [ returns z ↦ z | panics ↦ a ]) h

  returned :
      (files : Files) (env : Env) (path : Text) (served : Served) (x : Run)
      (o : Outcome (Result LoadError Config))
      → load files env path ≡ o
      → and_then o (λ r. returns (loaded out served p r)) ≡ returns x
      → (loads : Result LoadError Config) × (load files env path ≡ returns loads)
        × IsClean p x.1
        × Ends out p.held served loads x.0
  unfolding and_then
  returned files env path served x panics q h = cc
  returned files env path served x (returns r) q h =
      let g : Good served r x = subst (Good served r) (returns-same h) (loaded-Good served r) in
      (r, q, g.0, g.1)

  -- Started with no signals caught, run() ends in one of four ways: with an error where the
  -- configuration does not load, the engine does not start or the server fails, and without one
  -- where the server ended or a signal came, also where the connections did not drain in time. On
  -- each, whatever fails of the outside, no context, store, cluster node or server is live that was
  -- not before, and signals are not caught any more.
  pub run-Ends :
      (files : Files) (env : Env) (path : Text) (served : Served) (x : Run)
      → run out files env path served p ≡ returns x
      → (loads : Result LoadError Config) × (load files env path ≡ returns loads)
        × IsClean p x.1
        × Ends out p.held served loads x.0
  unfolding run
  run-Ends files env path served x h = returned files env path served x _ refl h
