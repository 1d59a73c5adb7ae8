-- ===== src/Config/Load.antt =====
-- Load of internal/config/config.go: the defaults, then a file, then the environment, then the checks.
-- The file system and the YAML decoder are parameters.
pub mod Layers
use open_sync_crdt.Prelude.{
  Bool, true, false, not, Option, none, some, List, [], ◌∷◌, if◌then◌else◌, Result, ok, err,
}
use open_sync_crdt.Prelude.Text.{Text, codes}
use open_sync_crdt.Config.{Config, default_config}
use open_sync_crdt.Config.Env.{Env, Problem}
use open_sync_crdt.Config.Events.{Outcome, returns, and_then}
use open_sync_crdt.Config.Overlay.{apply_env}
use open_sync_crdt.Config.Validate.{Invalid, is_blank, validate}

-- What `os.ReadFile` gives: a text, `os.IsNotExist`, or another error.
pub data FileRead : Type 0 where
  content : Text → FileRead
  missing : FileRead
  unreadable : FileRead

-- `os.Stat` without an error, `os.ReadFile`, and the YAML decoder with `KnownFields`, which writes
-- what the file says over a configuration.
pub record Files : Type 0 where
  pub exists : Text → Bool
  pub read_file : Text → FileRead
  pub decode : Text → Config → Option Config

pub data LoadError : Type 0 where
  read_failed : Text → LoadError
  parse_failed : Text → LoadError
  bad_environment : List Problem → LoadError
  invalid : Invalid → LoadError

abbrev pub default_config_paths : List Text
default_config_paths = codes "./opensynccrdt.yaml" ∷ codes "/etc/opensynccrdt/config.yaml" ∷ []

module _ (files : Files) where
  unfoldable pub first_existing : List Text → Text
  first_existing [] = []
  first_existing (p ∷ more) = let rest = first_existing more in if files.exists p then p else rest

  -- `findDefaultConfigFile`
  unfoldable pub find_default_config_file : Text
  unfolding first_existing
  find_default_config_file = first_existing default_config_paths

  decoded : Text → Option Config → Result LoadError Config
  decoded path none = err (parse_failed path)
  decoded path (some c) = ok c

  read_config : Bool → Text → FileRead → Result LoadError Config
  unfolding decoded is_blank
  read_config explicit path missing = if explicit then err (read_failed path) else ok default_config
  read_config explicit path unreadable = err (read_failed path)
  read_config explicit path (content t) =
      if is_blank t then ok default_config else decoded path (files.decode t default_config)

  file_config : Bool → Text → Result LoadError Config
  unfolding read_config
  file_config explicit [] = ok default_config
  file_config explicit (c ∷ p) = read_config explicit (c ∷ p) (files.read_file (c ∷ p))

  -- The defaults and the file's values over them.
  unfoldable pub base_config : Text → Result LoadError Config
  unfolding file_config find_default_config_file
  base_config [] = file_config false find_default_config_file
  base_config (c ∷ p) = file_config true (c ∷ p)

checked : Config → Result Invalid Unit → Result LoadError Config
checked c (ok u) = ok c
checked c (err e) = err (invalid e)

after_env : Result (List Problem) Config → Result LoadError Config
unfolding checked validate
after_env (err problems) = err (bad_environment problems)
after_env (ok c) = checked c (validate c)

overlaid : Env → Result LoadError Config → Outcome (Result LoadError Config)
unfolding after_env and_then apply_env
overlaid env (err e) = returns (err e)
overlaid env (ok base) = and_then (apply_env env base) (λ r. returns (after_env r))

unfoldable pub load : Files → Env → Text → Outcome (Result LoadError Config)
unfolding overlaid base_config
load files env path = overlaid env (base_config files path)
