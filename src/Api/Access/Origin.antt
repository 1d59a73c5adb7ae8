-- ===== src/Api/Access/Origin.antt =====
-- matchOrigin of internal/api/router.go.
use open_sync_crdt.Prelude.{
  Bool, true, false, List, [], ◌∷◌, ◌≡◌, ◌≢◌, ◌⊎◌, inl, inr, refl, arith, ◌∙◌, any_of, ◌||◌,
  Bool-cases,
}
use open_sync_crdt.Prelude.Text.{Text, codes, is_word, same_text, equal_fold}
use open_sync_crdt.Api.Access.{match_origin, star_or_origin}

-- An entry that lets the origin in: the star, or the origin itself, up to case.
unfoldable pub lets_in : Text → Text → Bool
lets_in origin one = is_word one "*" || elim origin [ [] ↦ false | c ∷ o ↦ equal_fold one (c ∷ o) ]

same_text-eq : (s t : Text) → same_text s t ≡ true → s ≡ t
unfolding same_text
same_text-eq [] [] h = refl
same_text-eq [] (d ∷ t) h = absurd (ground arith)
same_text-eq (c ∷ s) [] h = absurd (ground arith)
same_text-eq (c ∷ s) (d ∷ t) h = ground (arith, same_text-eq s t)

-- What one answer of matchOrigin can be.
abbrev pub Answers : List Text → Text → Text → Type 0
Answers allowed origin r =
    ((r ≡ []) × (any_of (lets_in origin) allowed ≡ false))
    ⊎ ((any_of (lets_in origin) allowed ≡ true)
        × ((r ≡ codes "*") ⊎ ((r ≡ origin) × (origin ≢ []))))

skip-Answers :
    (one o : Text) (allowed : List Text) (rest : Text)
    → star_or_origin one o allowed rest ≡ rest
    → lets_in o one ≡ false
    → Answers allowed o rest
    → Answers (one ∷ allowed) o (star_or_origin one o allowed rest)
skip-Answers one o allowed rest e f (inl (r, n)) = inl (e ∙ r, ground arith)
skip-Answers one o allowed rest e f (inr (t, inl r)) = inr (ground arith, inl (e ∙ r))
skip-Answers one o allowed rest e f (inr (t, inr (r, n))) = inr (ground arith, inr (e ∙ r, n))

entry-Answers :
    (one origin : Text) (allowed : List Text) (rest : Text)
    → (is_word one "*" ≡ true) ⊎ (is_word one "*" ≡ false)
    → Answers allowed origin rest
    → Answers (one ∷ allowed) origin (star_or_origin one origin allowed rest)
unfolding lets_in star_or_origin is_word
entry-Answers one origin allowed rest (inl e) h =
    inr (ground arith, inl (ground (arith, same_text-eq one (codes "*"))))
entry-Answers one [] allowed rest (inr e) h =
    skip-Answers one [] allowed rest (ground arith) (ground arith) h
entry-Answers one (c ∷ o) allowed rest (inr e) h = elim (Bool-cases (equal_fold one (c ∷ o))) [
  | inr f ↦ skip-Answers one (c ∷ o) allowed rest (ground arith) (ground arith) h
  | inl f ↦ inr (ground arith, inr (ground arith, λ n. ground arith))
]

-- matchOrigin answers nothing just where no entry of the list is a star or the origin up to case;
-- else it answers a star or the origin itself, never another entry.
pub match_origin-Answers :
    (allowed : List Text) (origin : Text) → Answers allowed origin (match_origin allowed origin)
unfolding match_origin
match_origin-Answers [] origin = inl (refl, refl)
match_origin-Answers (one ∷ allowed) origin =
    entry-Answers one origin allowed _ (Bool-cases (is_word one "*"))
      (match_origin-Answers allowed origin)
