-- ===== src/Config/Validate/Usable/Sections.antt =====
-- The checks of Config.Validate, internal/config/config.go, one by one.
use open_sync_crdt.Prelude.{
  ℕ, ◌≤◌, String, Bool, true, false, ◌&&◌, ◌||◌, none, ◌∙◌, ◌≡◌, ◌≢◌, ◌↔◌, ◌⊎◌, inl, inr, refl,
  arith, Bool-cases, ap,
}
use open_sync_crdt.Prelude.Int.{ℤ, pos, negsuc, ltb_ℤ}
use open_sync_crdt.Prelude.Text.{Text, codes, trim_space, to_lower, same_text, is_word}
use open_sync_crdt.Config.{
  ServerConfig, TlsConfig, StorageConfig, AuthConfig, ClusterConfig, LogConfig,
}
use open_sync_crdt.Config.Validate.{
  Invalid, refuse, port_out_of_range, cluster_on_sqlite, port_fault, tls_fault, storage_fault,
  auth_fault, cluster_fault, level_fault, format_fault,
}
use open_sync_crdt.Config.Validate.Usable.{
  AtLeast, Word, UsablePort, UsableTls, UsableStorage, UsableAuth, UsableCluster, UsableLevel,
  UsableFormat,
}
use open_sync_crdt.Config.Validate.Usable.Words.{
  is_word-Word, is_blank-IsGiven, refuse-none, low_AtLeast,
}

pub port_ok : (s : ServerConfig) → (port_fault s ≡ none) ↔ UsablePort s
unfolding port_fault refuse
port_ok s =
    elim s.port
      as (λ (p : ℤ).
        (refuse (ltb_ℤ p (pos 1) || ltb_ℤ (pos 65535) p) port_out_of_range ≡ none)
        ↔ ((n : ℕ) × ((p ≡ pos n) × ((1 ≤ n) × (n ≤ 65535))))) [
          | pos n ↦ (λ h. (n, (refl, ground arith)), λ h. ground (arith, h.1.0, h.1.1.0, h.1.1.1))
          | negsuc n ↦ (λ h. absurd (ground arith), λ h. absurd (ground (arith, h.1.0)))
        ]

pub tls_ok : (t : TlsConfig) → (tls_fault t ≡ none) ↔ UsableTls t
unfolding tls_fault refuse
tls_ok t = (
  λ h. elim (Bool-cases t.enabled) [
    | inr e ↦ inl e
    | inl e ↦ inr (
      (is_blank-IsGiven t.cert_file).0 (ground arith),
      (is_blank-IsGiven t.key_file).0 (ground arith),
    )
  ],
  λ u. elim u [
    | inl e ↦ ground arith
    | inr g ↦
        ground (arith, (is_blank-IsGiven t.cert_file).1 g.0, (is_blank-IsGiven t.key_file).1 g.1)
  ],
)

pub Word-only :
    (s : Text) (w other : String)
    → is_word (codes w) other ≡ false
    → Word s w
    → is_word s other ≡ false
Word-only s w other e g = ap (λ t. is_word t other) g ∙ e

pub on_server :
    (s : Text)
    → Word s "postgres" ⊎ Word s "mysql"
    → (is_word s "postgres" || is_word s "mysql") ≡ true
on_server s (inl e) = ground (arith, (is_word-Word s "postgres").1 e)
on_server s (inr e) = ground (arith, (is_word-Word s "mysql").1 e)

pub storage_ok : (s : StorageConfig) → (storage_fault s ≡ none) ↔ UsableStorage s
unfolding storage_fault refuse is_word same_text
storage_ok s = (
  λ h. elim (Bool-cases (is_word s.backend "sqlite")) [
    | inl e ↦
        inl ((is_word-Word s.backend "sqlite").0 e, (is_blank-IsGiven s.data_dir).0 (ground arith))
    | inr e ↦ inr (
      elim (Bool-cases (is_word s.backend "postgres")) [
        | inl f ↦ inl ((is_word-Word s.backend "postgres").0 f)
        | inr f ↦ inr ((is_word-Word s.backend "mysql").0 (ground arith))
      ],
      (is_blank-IsGiven s.url).0 (ground arith),
    )
  ],
  λ u. elim u [
    | inl g ↦
        ground (arith, (is_word-Word s.backend "sqlite").1 g.0, (is_blank-IsGiven s.data_dir).1 g.1)
    | inr g ↦ ground (
      arith,
      elim g.0
          as (λ (_ : Word s.backend "postgres" ⊎ Word s.backend "mysql").
            (is_word s.backend "sqlite" ≡ false)) [
              | inl e ↦ Word-only s.backend "postgres" "sqlite" refl e
              | inr e ↦ Word-only s.backend "mysql" "sqlite" refl e
            ],
      on_server s.backend g.0,
      (is_blank-IsGiven s.url).1 g.1,
    )
  ],
)

pub auth_ok : (a : AuthConfig) → (auth_fault a ≡ none) ↔ UsableAuth a
unfolding auth_fault refuse is_word same_text
auth_ok a = (
  λ h. elim (Bool-cases (is_word a.mode "none")) [
    | inl e ↦ inl ((is_word-Word a.mode "none").0 e)
    | inr e ↦ inr (elim (Bool-cases (is_word a.mode "header")) [
      | inl f ↦
          inl
            ((is_word-Word a.mode "header").0 f, (is_blank-IsGiven a.header_name).0 (ground arith))
      | inr f ↦ inr (
        (is_word-Word a.mode "webhook").0 (ground arith),
        (is_blank-IsGiven a.webhook_url).0 (ground arith),
      )
    ])
  ],
  λ u. elim u [
    | inl e ↦ ground (arith, (is_word-Word a.mode "none").1 e)
    | inr (inl g) ↦ ground (
      arith,
      Word-only a.mode "header" "none" refl g.0,
      (is_word-Word a.mode "header").1 g.0,
      (is_blank-IsGiven a.header_name).1 g.1,
    )
    | inr (inr g) ↦ ground (
      arith,
      Word-only a.mode "webhook" "none" refl g.0,
      Word-only a.mode "webhook" "header" refl g.0,
      (is_word-Word a.mode "webhook").1 g.0,
      (is_blank-IsGiven a.webhook_url).1 g.1,
    )
  ],
)

pub cluster_ok : (c : ClusterConfig) → (cluster_fault c ≡ none) ↔ UsableCluster c
unfolding cluster_fault refuse
cluster_ok c =
    let name = to_lower (trim_space c.backend) in
    (
      λ h. elim (Bool-cases c.mode) [
        | inr e ↦ inl e
        | inl e ↦ inr (
          (is_word-Word name "redis").0 (ground arith),
          (is_blank-IsGiven c.redis_url).0 (ground arith),
        )
      ],
      λ u. elim u [
        | inl e ↦ ground arith
        | inr g ↦
            ground (arith, (is_word-Word name "redis").1 g.0, (is_blank-IsGiven c.redis_url).1 g.1)
      ],
    )

pub level_ok : (l : LogConfig) → (level_fault l ≡ none) ↔ UsableLevel l
unfolding level_fault refuse
level_ok l =
    let level = to_lower l.level in
    (
      λ h. elim (Bool-cases (is_word level "debug")) [
        | inl e ↦ inl ((is_word-Word level "debug").0 e)
        | inr e ↦ inr (elim (Bool-cases (is_word level "info")) [
          | inl f ↦ inl ((is_word-Word level "info").0 f)
          | inr f ↦ inr (elim (Bool-cases (is_word level "warn")) [
            | inl g ↦ inl ((is_word-Word level "warn").0 g)
            | inr g ↦ inr ((is_word-Word level "error").0 (ground arith))
          ])
        ])
      ],
      λ u. elim u [
        | inl e ↦ ground (arith, (is_word-Word level "debug").1 e)
        | inr (inl e) ↦ ground (arith, (is_word-Word level "info").1 e)
        | inr (inr (inl e)) ↦ ground (arith, (is_word-Word level "warn").1 e)
        | inr (inr (inr e)) ↦ ground (arith, (is_word-Word level "error").1 e)
      ],
    )

pub format_ok : (l : LogConfig) → (format_fault l ≡ none) ↔ UsableFormat l
unfolding format_fault refuse
format_ok l =
    let format = to_lower l.format in
    (
      λ h. elim (Bool-cases (is_word format "json")) [
        | inl e ↦ inl ((is_word-Word format "json").0 e)
        | inr e ↦ inr ((is_word-Word format "text").0 (ground arith))
      ],
      λ u. elim u [
        | inl e ↦ ground (arith, (is_word-Word format "json").1 e)
        | inr e ↦ ground (arith, (is_word-Word format "text").1 e)
      ],
    )

pub AtLeast-ok :
    (low : ℕ) (z : ℤ) (e : Invalid) → (refuse (ltb_ℤ z (pos low)) e ≡ none) ↔ AtLeast low z
AtLeast-ok low z e = (
  λ h. (low_AtLeast low z).0 ((refuse-none (ltb_ℤ z (pos low)) e).0 h),
  λ h. (refuse-none (ltb_ℤ z (pos low)) e).1 ((low_AtLeast low z).1 h),
)

pub shared_ok :
    (mode : Bool) (backend : Text)
    → (refuse (mode && is_word backend "sqlite") cluster_on_sqlite ≡ none)
      ↔ ((mode ≡ false) ⊎ (backend ≢ codes "sqlite"))
unfolding refuse
shared_ok mode backend = (
  λ h. elim (Bool-cases mode) [
    | inr e ↦ inl e
    | inl e ↦ inr (λ w. ground (arith, (is_word-Word backend "sqlite").1 w))
  ],
  λ u. elim u [
    | inl e ↦ ground arith
    | inr n ↦ elim (Bool-cases (is_word backend "sqlite")) [
      | inl e ↦ absurd (n ((is_word-Word backend "sqlite").0 e))
      | inr e ↦ ground arith
    ]
  ],
)
