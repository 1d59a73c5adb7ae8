-- ===== src/Prelude/Text.antt =====
-- What the code uses of Go's `strings` and `strconv`, over the code points of a text.
pub mod Decimal
use Prim.Native.Char.{code}
use Prim.Native.Nat.{ℕ, zero, suc, ◌+◌, ◌-◌, ◌*◌, ◌^◌}
use Prim.Native.String.{String}
use mathlib.Core.Bool.{Bool, true, false, ◌&&◌, ◌||◌}
use mathlib.Core.List.{List, [], ◌∷◌, ◌++◌, reverse}
use mathlib.Core.Option.{Option, none, some}
use open_sync_crdt.Prelude.Int.{ℤ, pos, negsuc}
use open_sync_crdt.Prelude.Tests.{leb, ltb, eqb, if◌then◌else◌}

abbrev pub Text : Type 0
Text = List ℕ

abbrev pub codes : String → Text
codes String.[] = []
codes (String.◌∷◌ c s) = code c ∷ codes s

unfoldable pub same_text : Text → Text → Bool
same_text [] [] = true
same_text [] (d ∷ t) = false
same_text (c ∷ s) [] = false
same_text (c ∷ s) (d ∷ t) = let rest = same_text s t in if eqb c d then rest else false

-- `unicode.IsSpace`
unfoldable pub is_space : ℕ → Bool
is_space c =
    (leb 9 c && leb c 13)
    || (eqb c 32
        || (eqb c 0x85
            || (eqb c 0xa0
                || (eqb c 0x1680
                    || ((leb 0x2000 c && leb c 0x200a)
                        || (eqb c 0x2028
                            || (eqb c 0x2029
                                || (eqb c 0x202f || (eqb c 0x205f || eqb c 0x3000)))))))))

unfoldable pub trim_left : Text → Text
unfolding is_space
trim_left [] = []
trim_left (c ∷ s) = let rest = trim_left s in if is_space c then rest else c ∷ s

-- `strings.TrimSpace`
unfoldable pub trim_space : Text → Text
unfolding trim_left
trim_space s = reverse (trim_left (reverse (trim_left s)))

-- `unicode.ToLower` as far as ASCII results go: the letters, and the two other code points that have
-- a lower case in ASCII. The rest is left as it is.
unfoldable pub lower : ℕ → ℕ
lower c =
    if leb b'A' c && leb c b'Z'
    then c + 32
    else if eqb c 0x130
    then b'i'
    else if eqb c 0x212a
    then b'k'
    else c

-- `strings.ToLower`
unfoldable pub to_lower : Text → Text
unfolding lower
to_lower [] = []
to_lower (c ∷ s) = lower c ∷ to_lower s

-- Simple case folding as far as ASCII goes: the long s folds with s, the Kelvin sign with k.
unfoldable pub fold : ℕ → ℕ
fold c =
    if leb b'A' c && leb c b'Z'
    then c + 32
    else if eqb c 0x17f
    then b's'
    else if eqb c 0x212a
    then b'k'
    else c

-- `strings.EqualFold`
unfoldable pub equal_fold : Text → Text → Bool
unfolding fold
equal_fold [] [] = true
equal_fold [] (d ∷ t) = false
equal_fold (c ∷ s) [] = false
equal_fold (c ∷ s) (d ∷ t) =
    let rest = equal_fold s t in if eqb (fold c) (fold d) then rest else false

-- `strings.HasPrefix`
unfoldable pub has_prefix : Text → Text → Bool
has_prefix s [] = true
has_prefix [] (c ∷ p) = false
has_prefix (d ∷ s) (c ∷ p) = let rest = has_prefix s p in if eqb d c then rest else false

-- `strings.HasSuffix`
unfoldable pub has_suffix : Text → Text → Bool
unfolding has_prefix
has_suffix s p = has_prefix (reverse s) (reverse p)

unfoldable pub before_with : ℕ → Option (Text × Text) → Option (Text × Text)
before_with c none = none
before_with c (some (before, after)) = some (c ∷ before, after)

-- `s[:i]` and `s[i+1:]` at the first `sep`, none where there is none.
unfoldable pub cut_at : ℕ → Text → Option (Text × Text)
unfolding before_with
cut_at sep [] = none
cut_at sep (c ∷ s) =
    let rest = before_with c (cut_at sep s) in if eqb c sep then some ([], s) else rest

-- `strings.Split` by one character.
unfoldable pub split_from : ℕ → Text → Text → List Text
split_from sep cur [] = cur ∷ []
split_from sep cur (c ∷ s) =
    let here = cur ∷ split_from sep [] s in
    let more = split_from sep (cur ++ c ∷ []) s in if eqb c sep then here else more

unfoldable pub split : ℕ → Text → List Text
unfolding split_from
split sep s = split_from sep [] s

-- Decimal digits, most significant first.
unfoldable pub digits : ℕ → Text → Option ℕ
digits acc [] = some acc
digits acc (c ∷ s) =
    let rest = digits (acc * 10 + (c - b'0')) s in if leb b'0' c && leb c b'9' then rest else none

unsigned : Text → Option ℕ
unfolding digits
unsigned [] = none
unsigned (c ∷ s) = digits 0 (c ∷ s)

negate : ℕ → ℤ
negate zero = pos 0
negate (suc n) = negsuc n

in_range : Bool → Option ℕ → Option ℤ
unfolding negate
in_range minus none = none
in_range false (some n) = if ltb n (2 ^ 63) then some (pos n) else none
in_range true (some n) = if leb n (2 ^ 63) then some (negate n) else none

-- `strconv.Atoi`, `strconv.ParseInt(s, 10, 64)`
unfoldable pub atoi : Text → Option ℤ
unfolding unsigned in_range
atoi [] = none
atoi (c ∷ s) =
    if eqb c b'-'
    then in_range true (unsigned s)
    else if eqb c b'+'
    then in_range false (unsigned s)
    else in_range false (unsigned (c ∷ s))

-- A `string` of the model as its code points, tested for equality.
unfoldable pub is_word : Text → String → Bool
unfolding same_text
is_word s w = same_text s (codes w)

-- `strconv.ParseBool`
unfoldable pub parse_bool : Text → Option Bool
unfolding is_word
parse_bool s =
    if is_word s "1"
      || (is_word s "t"
          || (is_word s "T" || (is_word s "true" || (is_word s "TRUE" || is_word s "True"))))
    then some true
    else if is_word s "0"
        || (is_word s "f"
            || (is_word s "F" || (is_word s "false" || (is_word s "FALSE" || is_word s "False"))))
    then some false
    else none
