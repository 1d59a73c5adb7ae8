-- ===== src/Metrics/Order.antt =====
-- `sort.Strings` as internal/metrics/metrics.go uses it: the order of strings, and what sorting the
-- keys of a map makes of the order in which they come.
use Prim.Native.Char.{Char, code}
use text.Mathlib.TextEquality.{Char-path}
use mathlib.Core.List.{Permᴰ}
use open_sync_crdt.Prelude.{
  String, Bool, true, false, List, [], ◌∷◌, ◌≡◌, ◌≢◌, ◌==◌, refl, ap, ◌∙◌, subst, arith, eqb, ltb,
  ◌&&◌, if◌then◌else◌, Bool-cases, String-cases, inl, inr,
}

-- Whether `s` is not after `t`: Go compares bytes, which is the order of the code points.
unfoldable pub not_after : String → String → Bool
not_after String.[] t = true
not_after (String.◌∷◌ c s) String.[] = false
not_after (String.◌∷◌ c s) (String.◌∷◌ d t) =
    let rest = not_after s t in
    if ltb (code c) (code d) then true else if eqb (code c) (code d) then rest else false

unfoldable pub insert_string : String → List String → List String
unfolding not_after
insert_string k [] = k ∷ []
insert_string k (j ∷ js) =
    let rest = insert_string k js in if not_after k j then k ∷ j ∷ js else j ∷ rest

-- `sort.Strings`
unfoldable pub sort_strings : List String → List String
unfolding insert_string
sort_strings [] = []
sort_strings (k ∷ ks) = insert_string k (sort_strings ks)

not_after-total : (s t : String) → not_after s t ≡ false → not_after t s ≡ true
unfolding not_after
not_after-total String.[] t h = ground (arith, h)
not_after-total (String.◌∷◌ c s) String.[] h = refl
not_after-total (String.◌∷◌ c s) (String.◌∷◌ d t) h = ground (arith, h, not_after-total s t)

cons_same : (c d : Char) (s t : String) → code c ≡ code d → s ≡ t → String.◌∷◌ c s ≡ String.◌∷◌ d t
cons_same c d s t p q = λ i. String.◌∷◌ (Char-path c d p i) (q i)

not_after-antisym : (s t : String) → not_after s t ≡ true → not_after t s ≡ true → s ≡ t
unfolding not_after
not_after-antisym String.[] String.[] h k = refl
not_after-antisym String.[] (String.◌∷◌ d t) h k = cc
not_after-antisym (String.◌∷◌ c s) String.[] h k = cc
not_after-antisym (String.◌∷◌ c s) (String.◌∷◌ d t) h k =
    cons_same c d s t (ground (arith, h, k))
      (not_after-antisym s t (ground (arith, h, k)) (ground (arith, h, k)))

not_after_trans :
    (s t u : String) → not_after s t ≡ true → not_after t u ≡ true → not_after s u ≡ true
unfolding not_after
not_after_trans String.[] t u h k = refl
not_after_trans (String.◌∷◌ c s) String.[] u h k = cc
not_after_trans (String.◌∷◌ c s) (String.◌∷◌ d t) String.[] h k = cc
not_after_trans (String.◌∷◌ c s) (String.◌∷◌ d t) (String.◌∷◌ e u) h k =
    ground (arith, h, k, not_after_trans s t u)

-- Which of two different strings comes first.
either_first : (a b : String) → (a == b) ≡ false → a ≢ b → (not_after a b && not_after b a) ≡ false
either_first a b f n = elim (Bool-cases (not_after a b)) [
  | inr x ↦ ground (arith, x)
  | inl x ↦ elim (Bool-cases (not_after b a)) [
    | inr y ↦ ground (arith, y)
    | inl y ↦ absurd (n (not_after-antisym a b x y))
  ]
]

swap_different :
    (a b : String) (ks : List String)
    → (not_after a b && not_after b a) ≡ false
    → insert_string a (insert_string b ks) ≡ insert_string b (insert_string a ks)
unfolding insert_string
swap_different a b [] o = ground (arith, o, not_after-total a b, not_after-total b a)
swap_different a b (k ∷ ks) o = ground (
  arith,
  o,
  swap_different a b ks o,
  not_after-total a b,
  not_after-total a k,
  not_after-total b k,
  not_after_trans a b k,
  not_after_trans b a k,
  not_after_trans a k b,
  not_after_trans b k a,
)

insert_string-swap :
    (a b : String) (ks : List String)
    → insert_string a (insert_string b ks) ≡ insert_string b (insert_string a ks)
insert_string-swap a b ks = elim (String-cases a b) [
  | inl (p, t) ↦
      subst (λ c. insert_string a (insert_string c ks) ≡ insert_string c (insert_string a ks)) p
        refl
  | inr (n, f) ↦ swap_different a b ks (either_first a b f n)
]

-- The order in which the keys come does not matter.
pub sort_strings-Permᴰ : {ks ls : List String} → Permᴰ ks ls → sort_strings ks ≡ sort_strings ls
unfolding sort_strings
sort_strings-Permᴰ Permᴰ.nil = refl
sort_strings-Permᴰ (Permᴰ.cons {a} {b} {l₁} {l₂} e d) =
    ap (λ k. insert_string k (sort_strings l₁)) e ∙ ap (insert_string b) (sort_strings-Permᴰ d)
sort_strings-Permᴰ (Permᴰ.swap {a} {b} {a'} {b'} {l} p q) =
    insert_string-swap a b (sort_strings l)
    ∙ ap (λ k. insert_string k (insert_string a (sort_strings l))) q
    ∙ ap (λ k. insert_string a' (insert_string k (sort_strings l))) p
sort_strings-Permᴰ (Permᴰ.trans d e) = sort_strings-Permᴰ d ∙ sort_strings-Permᴰ e
