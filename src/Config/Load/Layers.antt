-- ===== src/Config/Load/Layers.antt =====
-- What a configuration that Load of internal/config/config.go returns is made of.
use open_sync_crdt.Prelude.{
  List, [], ◌∷◌, Result, ok, err, ◌≡◌, ◌↔◌, refl, sym, ap, ◌∙◌, arith, Result-cases, inl, inr,
}
use open_sync_crdt.Prelude.Text.{Text}
use open_sync_crdt.Config.{Config}
use open_sync_crdt.Config.Env.{Env, Problem}
use open_sync_crdt.Config.Events.{
  Outcome, panics, returns, and_then, apply_webhook_event_env, EventUrls,
}
use open_sync_crdt.Config.Overlay.{verdict}
use open_sync_crdt.Config.Overlay.Table.{resolved, wrong}
use open_sync_crdt.Config.Overlay.Table.Laws.{apply_env-resolved}
use open_sync_crdt.Config.Validate.{validate}
use open_sync_crdt.Config.Validate.Usable.{IsUsable}
use open_sync_crdt.Config.Validate.Usable.Exact.{validate-IsUsable}
use open_sync_crdt.Config.Load.{Files, LoadError, base_config, load, checked, after_env, overlaid}

-- The layers of a configuration: a base from the file, the URLs of the events, and the environment
-- over it, without a complaint.
pub record IsLayered (files : Files) (env : Env) (path : Text) (c : Config) : Type 0 where
  pub base : Config
  pub events : EventUrls
  pub from_file : base_config files path ≡ ok base
  pub from_events : apply_webhook_event_env env.environ base.webhooks.events ≡ returns events
  pub no_wrong : wrong env ≡ []
  pub over : resolved env events base ≡ c
  pub usable : IsUsable c

after_verdict :
    (problems : List Problem) (b c : Config)
    → after_env (verdict problems b) ≡ ok c
    → (problems ≡ []) × ((b ≡ c) × (validate b ≡ ok tt))
unfolding after_env verdict checked
after_verdict [] b c h = elim (Result-cases (validate b)) [
  | inl (u, e) ↦ (refl, (ground arith, ground arith))
  | inr (x, e) ↦ absurd (ground arith)
]
after_verdict (p ∷ more) b c h = absurd (ground arith)

abbrev finish : Env → Config → Outcome EventUrls → Outcome (Result LoadError Config)
finish env base o =
    and_then (and_then o (λ events. returns (verdict (wrong env) (resolved env events base))))
      (λ r. returns (after_env r))

overlaid-finish :
    (env : Env) (base : Config)
    → overlaid env (ok base)
      ≡ finish env base (apply_webhook_event_env env.environ base.webhooks.events)
unfolding overlaid
overlaid-finish env base =
    ap (λ o. and_then o (λ r. returns (after_env r))) (apply_env-resolved env base)

finished :
    (env : Env) (base c : Config) (o : Outcome EventUrls)
    → finish env base o ≡ returns (ok c)
    → (events : EventUrls) × ((o ≡ returns events)
        × (after_env (verdict (wrong env) (resolved env events base)) ≡ ok c))
unfolding and_then
finished env base c panics h = absurd (ground arith)
finished env base c (returns events) h = (events, (refl, ground arith))

layered :
    (files : Files) (env : Env) (path : Text) (c : Config) (r : Result LoadError Config)
    → base_config files path ≡ r
    → overlaid env r ≡ returns (ok c)
    → IsLayered files env path c
unfolding overlaid
layered files env path c (err x) e h = absurd (ground arith)
layered files env path c (ok base) e h =
    let f =
      finished env base c (apply_webhook_event_env env.environ base.webhooks.events)
        (sym (overlaid-finish env base) ∙ h) in
    let v = after_verdict (wrong env) (resolved env f.0 base) c f.1.1 in
    record {
      base = base;
      events = f.0;
      from_file = e;
      from_events = f.1.0;
      no_wrong = v.0;
      over = v.1.0;
      usable = (validate-IsUsable c).0 (sym (ap validate v.1.0) ∙ v.1.1);
    }

relayered :
    (files : Files) (env : Env) (path : Text) (c : Config)
    → IsLayered files env path c
    → overlaid env (base_config files path) ≡ returns (ok c)
unfolding and_then after_env verdict checked
relayered files env path c l =
    let valid = (validate-IsUsable c).1 l.usable in
    ap (overlaid env) l.from_file
    ∙ overlaid-finish env l.base
    ∙ ap (finish env l.base) l.from_events
    ∙ ap (λ w. returns (after_env (verdict w (resolved env l.events l.base)))) l.no_wrong
    ∙ ap (λ d. returns (checked d (validate d))) l.over
    ∙ ap (λ v. returns (checked c v)) valid

-- A load that ends with a configuration, and only such a load, lays the environment over what the
-- file gives: the events read without a panic, no variable is wrong, each field has the value of its
-- variable or else the file's or the default, and the whole is one that the server can run on.
pub load-IsLayered :
    (files : Files) (env : Env) (path : Text) (c : Config)
    → (load files env path ≡ returns (ok c)) ↔ IsLayered files env path c
unfolding load
load-IsLayered files env path c = (
  λ h. layered files env path c (base_config files path) refl h,
  λ l. relayered files env path c l,
)
