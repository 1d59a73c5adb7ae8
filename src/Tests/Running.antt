-- ===== src/Tests/Running.antt =====
-- Configurations read from environments and files.
use open_sync_crdt.Prelude.{false, none, some, [], ◌∷◌, ◌++◌, ◌≡◌, ◌==◌, ok, if◌then◌else◌, ◌↔◌}
use open_sync_crdt.Prelude.Text.{Text, codes}
use open_sync_crdt.Config.{default_config}
use open_sync_crdt.Config.Env.{Env}
use open_sync_crdt.Config.Events.{panics, returns, and_then, apply_event, apply_webhook_event_env}
use open_sync_crdt.Config.Events.Names.{apply_event-panics}
use open_sync_crdt.Config.Overlay.{apply_env, verdict}
use open_sync_crdt.Config.Overlay.Table.{resolved, wrong}
use open_sync_crdt.Config.Overlay.Table.Laws.{apply_env-resolved}
use open_sync_crdt.Config.Validate.{validate}
use open_sync_crdt.Config.Validate.Usable.{IsUsable}
use open_sync_crdt.Config.Validate.Usable.Exact.{validate-IsUsable}
use open_sync_crdt.Config.Load.{Files, missing, load}
use open_sync_crdt.Config.Load.Layers.{IsLayered, load-IsLayered}

-- PORT is set to 9090, MAX_CONNECTIONS to something else than a number.
abbrev env : Env
env = record {
  lookup_env = λ key.
      if key == "PORT"
      then some (codes " 9090")
      else if key == "MAX_CONNECTIONS"
      then some (codes "many")
      else none;
  environ = codes "WEBHOOK_ON_DOCUMENT_CREATED_URL=http://a?b=c" ∷ codes "PORT= 9090" ∷ [];
  parse_duration = λ s. none;
}

abbrev no_env : Env
no_env = record { lookup_env = λ key. none; environ = []; parse_duration = λ s. none }

abbrev no_files : Files
no_files = record { exists = λ p. false; read_file = λ p. missing; decode = λ s c. none }

apply_event-panics_example :
    (apply_event (codes "WEBHOOK_URL=http://a") [] ≡ panics)
    ↔ ((val : Text) × (codes "WEBHOOK_URL=http://a" ≡ codes "WEBHOOK_URL=" ++ val))
apply_event-panics_example = apply_event-panics (codes "WEBHOOK_URL=http://a") []

apply_env-resolved_example :
    apply_env env default_config
    ≡ and_then
        (apply_webhook_event_env env.environ default_config.webhooks.events)
        (λ events. returns (verdict (wrong env) (resolved env events default_config)))
apply_env-resolved_example = apply_env-resolved env default_config

validate-IsUsable_example : (validate default_config ≡ ok tt) ↔ IsUsable default_config
validate-IsUsable_example = validate-IsUsable default_config

load-IsLayered_example :
    (load no_files no_env [] ≡ returns (ok default_config))
    ↔ IsLayered no_files no_env [] default_config
load-IsLayered_example = load-IsLayered no_files no_env [] default_config
