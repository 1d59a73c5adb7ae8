-- ===== src/Config/Validate/Usable/Words.antt =====
-- The tests of Config.Validate, internal/config/config.go, against what they test.
use open_sync_crdt.Prelude.{
  ℕ, String, Bool, true, false, Option, none, some, List, [], ◌∷◌, All, ◌∙◌, ok, ◌≡◌, ◌≢◌, ◌↔◌,
  refl, arith, ap,
}
use open_sync_crdt.Prelude.Int.{ℤ, pos, negsuc, ltb_ℤ}
use open_sync_crdt.Prelude.Text.{Text, codes, trim_space, same_text, is_word}
use open_sync_crdt.Config.Validate.{Invalid, is_blank, refuse, first_fault}
use open_sync_crdt.Config.Validate.Usable.{IsGiven, AtLeast, Word}

pub same_text_refl : (s : Text) → same_text s s ≡ true
unfolding same_text
same_text_refl [] = refl
same_text_refl (c ∷ s) = ground (arith, same_text_refl s)

pub same_text-eq : (s t : Text) → same_text s t ≡ true → s ≡ t
unfolding same_text
same_text-eq [] [] h = refl
same_text-eq [] (d ∷ t) h = absurd (ground arith)
same_text-eq (c ∷ s) [] h = absurd (ground arith)
same_text-eq (c ∷ s) (d ∷ t) h = ground (arith, same_text-eq s t)

pub is_word-Word : (s : Text) (w : String) → (is_word s w ≡ true) ↔ Word s w
unfolding is_word
is_word-Word s w =
    (same_text-eq s (codes w), λ e. ap (λ t. same_text t (codes w)) e ∙ same_text_refl (codes w))

pub is_blank-IsGiven : (s : Text) → (is_blank s ≡ false) ↔ IsGiven s
unfolding is_blank
is_blank-IsGiven s =
    elim (trim_space s)
      as (λ (t : Text). ((elim t [ [] ↦ true | c ∷ rest ↦ false ]) ≡ false) ↔ (t ≢ [])) [
        | [] ↦ (λ h. absurd (ground arith), λ h. absurd (h refl))
        | c ∷ rest ↦ (λ h e. ground arith, λ h. refl)
      ]

pub refuse-none : (test : Bool) (e : Invalid) → (refuse test e ≡ none) ↔ (test ≡ false)
unfolding refuse
refuse-none true e = (λ h. absurd (ground arith), λ h. absurd (ground arith))
refuse-none false e = (λ h. refl, λ h. refl)

pub low_AtLeast : (low : ℕ) (z : ℤ) → (ltb_ℤ z (pos low) ≡ false) ↔ AtLeast low z
low_AtLeast low (pos n) = (λ h. (n, (refl, ground arith)), λ h. ground (arith, h.1.0, h.1.1))
low_AtLeast low (negsuc n) = (λ h. absurd (ground arith), λ h. absurd (ground (arith, h.1.0)))

pub first_fault-ok :
    (faults : List (Option Invalid)) → (first_fault faults ≡ ok tt) ↔ All (λ f. f ≡ none) faults
unfolding first_fault
first_fault-ok [] = (λ h. tt, λ h. refl)
first_fault-ok (none ∷ more) =
    (λ h. (refl, (first_fault-ok more).0 h), λ h. (first_fault-ok more).1 h.1)
first_fault-ok (some e ∷ more) = (λ h. absurd (ground arith), λ h. absurd (ground (arith, h.0)))
