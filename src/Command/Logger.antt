-- ===== src/Command/Logger.antt =====
-- newLogger of cmd/opensynccrdt/main.go and the checks of the log section in internal/config/config.go.
use open_sync_crdt.Prelude.{
  ℕ, Bool, true, not, ◌||◌, none, [], ◌∷◌, ◌≡◌, refl, arith, eqb, if◌then◌else◌, Bool-cases, inl,
  inr, String,
}
use open_sync_crdt.Prelude.Text.{Text, codes, to_lower, lower, fold, equal_fold, is_word, same_text}
use open_sync_crdt.Config.{LogConfig}
use open_sync_crdt.Config.Validate.{log_level_unsupported, refuse, level_fault}
use open_sync_crdt.Command.{Level, debug, info, warn, error, log_level, writes_text}

abbrev pub level_name : Level → String
level_name debug = "debug"
level_name info = "info"
level_name warn = "warn"
level_name error = "error"

named :
    (w : String → Bool)
    → refuse (not (w "debug" || (w "info" || (w "warn" || w "error")))) log_level_unsupported ≡ none
    → w (
        level_name (
          if w "debug"
          then debug
          else if w "warn"
          then warn
          else if w "error"
          then error
          else info))
      ≡ true
unfolding refuse
named w h = elim (Bool-cases (w "debug")) [
  | inl t ↦ rw t t
  | inr f ↦ rw f (elim (Bool-cases (w "warn")) [
    | inl t ↦ rw t t
    | inr g ↦
        rw g (elim (Bool-cases (w "error")) [ inl t ↦ rw t t | inr e ↦ rw e (ground (arith, h)) ])
  ])
]

-- A log section that passes the check of its level is logged at the level that it names, in whatever
-- case.
pub log_level-named :
    (cfg : LogConfig)
    → level_fault cfg ≡ none
    → is_word (to_lower cfg.level) (level_name (log_level cfg)) ≡ true
unfolding level_fault log_level
log_level-named cfg h = named (is_word (to_lower cfg.level)) h

fold-lower :
    (c : ℕ)
    → (eqb (fold c) b't' ≡ eqb (lower c) b't')
      × (eqb (fold c) b'e' ≡ eqb (lower c) b'e')
      × (eqb (fold c) b'x' ≡ eqb (lower c) b'x')
unfolding fold lower
fold-lower c = (ground arith, ground arith, ground arith)

same_fold : (f : Text) → equal_fold f (codes "text") ≡ same_text (to_lower f) (codes "text")
unfolding equal_fold same_text to_lower
same_fold [] = refl
same_fold (a ∷ []) = ground (arith, fold-lower a)
same_fold (a ∷ b ∷ []) = ground (arith, fold-lower a, fold-lower b)
same_fold (a ∷ b ∷ c ∷ []) = ground (arith, fold-lower a, fold-lower b, fold-lower c)
same_fold (a ∷ b ∷ c ∷ d ∷ []) =
    ground (arith, fold-lower a, fold-lower b, fold-lower c, fold-lower d)
same_fold (a ∷ b ∷ c ∷ d ∷ e ∷ f) =
    ground (arith, fold-lower a, fold-lower b, fold-lower c, fold-lower d)

-- newLogger writes text exactly where the check of the format reads `text`: equality up to the folding
-- of cases and equality of the lower-case forms are the same for this word, whatever the format is.
pub writes_text-word : (cfg : LogConfig) → writes_text cfg ≡ is_word (to_lower cfg.format) "text"
unfolding writes_text is_word
writes_text-word cfg = same_fold cfg.format
