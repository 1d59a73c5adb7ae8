-- ===== src/Config/Env.antt =====
-- The helpers of internal/config/config.go that read one environment variable into one field. What
-- does not parse is noted, and the field stays.
use open_sync_crdt.Prelude.{
  String, Bool, Option, none, some, List, [], ◌∷◌, ◌++◌, ◌≡◌, refl, sym, ap,
}
use open_sync_crdt.Prelude.Int.{ℤ}
use open_sync_crdt.Prelude.Text.{Text, trim_space, atoi, parse_bool}
use open_sync_crdt.Config.{Config}
use open_sync_crdt.Config.Fields.{FieldOf}

-- `os.LookupEnv` and `os.Environ`, and `time.ParseDuration`, in nanoseconds.
pub record Env : Type 0 where
  pub lookup_env : String → Option Text
  pub environ : List Text
  pub parse_duration : Text → Option ℤ

-- What `errf` is told.
pub data Problem : Type 0 where
  not_integer : String → Text → Problem
  not_boolean : String → Text → Problem
  not_duration : String → Text → Problem

-- The configuration and the problems so far.
pub record Overlay : Type 0 where
  pub config : Config
  pub errs : List Problem

unfoldable pub errf : Problem → Overlay → Overlay
errf p o = record o { errs = o.errs ++ p ∷ [] }

-- `*dst = x`
unfoldable pub assign : {A : Type 0} → FieldOf A → A → Overlay → Overlay
assign dst x o = record o { config = dst.set x o.config }

-- The value that parsed, or the problem.
parsed : {A : Type 0} → FieldOf A → Problem → Option A → Overlay → Overlay
unfolding errf assign
parsed dst p none o = errf p o
parsed dst p (some x) o = assign dst x o

-- What the variable, unset or read as it is, gives.
read_var :
    {A : Type 0}
    → (Text → Option A)
    → (Text → Problem)
    → FieldOf A
    → Option Text
    → Overlay
    → Overlay
unfolding parsed
read_var parse problem dst none o = o
read_var parse problem dst (some v) o = parsed dst (problem v) (parse (trim_space v)) o

module _ (env : Env) where
  plain_var : {A : Type 0} → (Text → A) → FieldOf A → Option Text → Overlay → Overlay
  unfolding assign
  plain_var f dst none o = o
  plain_var f dst (some v) o = assign dst (f v) o

  -- `if v, ok := os.LookupEnv(key); ok { *dst = f(v) }`
  unfoldable pub env_with : {A : Type 0} → (Text → A) → String → FieldOf A → Overlay → Overlay
  unfolding plain_var
  env_with f key dst o = plain_var f dst (env.lookup_env key) o

  unfoldable pub env_str : String → FieldOf Text → Overlay → Overlay
  unfolding env_with
  env_str = env_with (λ v. v)

  unfoldable pub env_int : String → FieldOf ℤ → Overlay → Overlay
  unfolding read_var
  env_int key dst o = read_var atoi (not_integer key) dst (env.lookup_env key) o

  -- `int` has 64 bits too.
  unfoldable pub env_int64 : String → FieldOf ℤ → Overlay → Overlay
  unfolding read_var
  env_int64 key dst o = read_var atoi (not_integer key) dst (env.lookup_env key) o

  unfoldable pub env_bool : String → FieldOf Bool → Overlay → Overlay
  unfolding read_var
  env_bool key dst o = read_var parse_bool (not_boolean key) dst (env.lookup_env key) o

  unfoldable pub env_dur : String → FieldOf ℤ → Overlay → Overlay
  unfolding read_var
  env_dur key dst o = read_var env.parse_duration (not_duration key) dst (env.lookup_env key) o

-- The field's value after a variable that is read with `parse`, by an independent description: the
-- last one that is good.
unfoldable pub value : {A : Type 0} → (Text → Option A) → Option Text → A → A
value parse none old = old
value parse (some v) old = elim (parse v) [ none ↦ old | some x ↦ x ]

complaint : {A : Type 0} → Problem → Option A → List Problem
complaint p none = p ∷ []
complaint p (some x) = []

-- What there is to complain of a variable.
unfoldable pub complaints :
    {A : Type 0} → (Text → Option A) → (Text → Problem) → Option Text → List Problem
unfolding complaint
complaints parse problem none = []
complaints parse problem (some v) = complaint (problem v) (parse v)

-- Text.TrimSpace before a parse.
unfoldable pub trimmed : {A : Type 0} → (Text → Option A) → Text → Option A
trimmed parse v = parse (trim_space v)

append_nil : {A : Type 0} (xs : List A) → xs ≡ xs ++ []
append_nil [] = refl
append_nil (x ∷ xs) = ap (◌∷◌ x) (append_nil xs)

read_var-config :
    {A : Type 0} (parse : Text → Option A) (problem : Text → Problem) (dst : FieldOf A)
    (v : Option Text) (o : Overlay)
    → (read_var parse problem dst v o).config
      ≡ dst.set (value (trimmed parse) v (dst.get o.config)) o.config
unfolding read_var value trimmed parsed assign errf
read_var-config parse problem dst none o = sym (dst.same o.config)
read_var-config {A = A} parse problem dst (some v) o =
    elim (parse (trim_space v))
      as (λ (r : Option A).
        (parsed dst (problem v) r o).config
        ≡ dst.set (elim r [ none ↦ dst.get o.config | some x ↦ x ]) o.config) [
          | none ↦ sym (dst.same o.config)
          | some x ↦ refl
        ]

read_var-errs :
    {A : Type 0} (parse : Text → Option A) (problem : Text → Problem) (dst : FieldOf A)
    (v : Option Text) (o : Overlay)
    → (read_var parse problem dst v o).errs ≡ o.errs ++ complaints (trimmed parse) problem v
unfolding read_var complaints complaint trimmed parsed assign errf
read_var-errs parse problem dst none o = append_nil o.errs
read_var-errs {A = A} parse problem dst (some v) o =
    elim (parse (trim_space v))
      as (λ (r : Option A). (parsed dst (problem v) r o).errs ≡ o.errs ++ complaint (problem v) r) [
        | none ↦ refl
        | some x ↦ append_nil o.errs
      ]

module _ (env : Env) (key : String) (o : Overlay) where
  pub env_with-config :
      {A : Type 0} (f : Text → A) (dst : FieldOf A)
      → (env_with env f key dst o).config
        ≡ dst.set (value (λ v. some (f v)) (env.lookup_env key) (dst.get o.config)) o.config
  unfolding env_with plain_var value assign
  env_with-config f dst =
      elim (env.lookup_env key)
        as (λ (v : Option Text).
          (plain_var env f dst v o).config
          ≡ dst.set (value (λ w. some (f w)) v (dst.get o.config)) o.config) [
            | none ↦ sym (dst.same o.config)
            | some v ↦ refl
          ]

  pub env_with-errs :
      {A : Type 0} (f : Text → A) (dst : FieldOf A) → (env_with env f key dst o).errs ≡ o.errs
  unfolding env_with plain_var assign
  env_with-errs f dst =
      elim (env.lookup_env key) as (λ (v : Option Text). (plain_var env f dst v o).errs ≡ o.errs) [
        | none ↦ refl
        | some v ↦ refl
      ]

  pub env_str-config :
      (dst : FieldOf Text)
      → (env_str env key dst o).config
        ≡ dst.set (value some (env.lookup_env key) (dst.get o.config)) o.config
  unfolding env_str
  env_str-config dst = env_with-config (λ v. v) dst

  pub env_str-errs : (dst : FieldOf Text) → (env_str env key dst o).errs ≡ o.errs
  unfolding env_str
  env_str-errs dst = env_with-errs (λ v. v) dst

  pub env_int-config :
      (dst : FieldOf ℤ)
      → (env_int env key dst o).config
        ≡ dst.set (value (trimmed atoi) (env.lookup_env key) (dst.get o.config)) o.config
  unfolding env_int
  env_int-config dst = read_var-config atoi (not_integer key) dst (env.lookup_env key) o

  pub env_int-errs :
      (dst : FieldOf ℤ)
      → (env_int env key dst o).errs
        ≡ o.errs ++ complaints (trimmed atoi) (not_integer key) (env.lookup_env key)
  unfolding env_int
  env_int-errs dst = read_var-errs atoi (not_integer key) dst (env.lookup_env key) o

  pub env_int64-config :
      (dst : FieldOf ℤ)
      → (env_int64 env key dst o).config
        ≡ dst.set (value (trimmed atoi) (env.lookup_env key) (dst.get o.config)) o.config
  unfolding env_int64
  env_int64-config dst = read_var-config atoi (not_integer key) dst (env.lookup_env key) o

  pub env_int64-errs :
      (dst : FieldOf ℤ)
      → (env_int64 env key dst o).errs
        ≡ o.errs ++ complaints (trimmed atoi) (not_integer key) (env.lookup_env key)
  unfolding env_int64
  env_int64-errs dst = read_var-errs atoi (not_integer key) dst (env.lookup_env key) o

  pub env_bool-config :
      (dst : FieldOf Bool)
      → (env_bool env key dst o).config
        ≡ dst.set (value (trimmed parse_bool) (env.lookup_env key) (dst.get o.config)) o.config
  unfolding env_bool
  env_bool-config dst = read_var-config parse_bool (not_boolean key) dst (env.lookup_env key) o

  pub env_bool-errs :
      (dst : FieldOf Bool)
      → (env_bool env key dst o).errs
        ≡ o.errs ++ complaints (trimmed parse_bool) (not_boolean key) (env.lookup_env key)
  unfolding env_bool
  env_bool-errs dst = read_var-errs parse_bool (not_boolean key) dst (env.lookup_env key) o

  pub env_dur-config :
      (dst : FieldOf ℤ)
      → (env_dur env key dst o).config
        ≡ dst.set
            (value (trimmed env.parse_duration) (env.lookup_env key) (dst.get o.config))
            o.config
  unfolding env_dur
  env_dur-config dst =
      read_var-config env.parse_duration (not_duration key) dst (env.lookup_env key) o

  pub env_dur-errs :
      (dst : FieldOf ℤ)
      → (env_dur env key dst o).errs
        ≡ o.errs ++ complaints (trimmed env.parse_duration) (not_duration key) (env.lookup_env key)
  unfolding env_dur
  env_dur-errs dst = read_var-errs env.parse_duration (not_duration key) dst (env.lookup_env key) o
