-- ===== src/Config/Events/Sets.antt =====
-- The variable WEBHOOK_<EVENT>_URL and the event that it sets, in internal/config/config.go.
use mathlib.Core.List.{reverse, append_assoc, reverse-append}
use open_sync_crdt.Prelude.{
  ℕ, ◌+◌, ◌-◌, true, false, some, [], ◌∷◌, ◌++◌, length, take, All, ltb, eqb, ◌≡◌, refl, ap, sym,
  arith, length-append, ◌∙◌,
}
use open_sync_crdt.Prelude.Text.{Text, codes, cut_at, before_with, has_prefix, has_suffix, to_lower}
use open_sync_crdt.Config.Events.{
  returns, and_then, EventUrls, set_event, slice, is_reserved, named_event, event_entry, cut_entry,
  apply_event,
}

-- No `=` among the code points.
unfoldable pub IsKey : Text → Type 0
IsKey = All (λ c. eqb c b'=' ≡ false)

cut_at-append :
    (before after : Text)
    → IsKey before
    → cut_at b'=' (before ++ b'=' ∷ after) ≡ some (before, after)
unfolding cut_at before_with IsKey
cut_at-append [] after h = refl
cut_at-append (c ∷ before) after h = ground (arith, cut_at-append before after h.1)

has_prefix-append : (p s : Text) → has_prefix (p ++ s) p ≡ true
unfolding has_prefix
has_prefix-append [] s = refl
has_prefix-append (c ∷ p) s = ground (arith, has_prefix-append p s)

take-append : (xs ys : Text) → take (length xs) (xs ++ ys) ≡ xs
take-append [] ys = refl
take-append (x ∷ xs) ys = ap (◌∷◌ x) (take-append xs ys)

-- `WEBHOOK_`, the name and `_URL`
unfoldable pub variable : Text → Text
variable name = codes "WEBHOOK_" ++ (name ++ codes "_URL")

suffix_found : (name : Text) → has_suffix (variable name) (codes "_URL") ≡ true
unfolding has_suffix variable has_prefix
suffix_found name =
    let text : variable name ≡ (codes "WEBHOOK_" ++ name) ++ codes "_URL" =
      sym (append_assoc (codes "WEBHOOK_") name (codes "_URL")) in
    let back = ap reverse text ∙ reverse-append (codes "WEBHOOK_" ++ name) (codes "_URL") in
    ap (λ s. has_prefix s (reverse (codes "_URL"))) back
    ∙ has_prefix-append (reverse (codes "_URL")) (reverse (codes "WEBHOOK_" ++ name))

slice_all :
    (rest name : Text) (k : ℕ)
    → length rest ≡ length name + k
    → take (length name) rest ≡ name
    → slice (codes "WEBHOOK_" ++ rest) 8 (length (codes "WEBHOOK_" ++ rest) - k) ≡ returns name
unfolding slice
slice_all rest name k l t =
    let n : length (codes "WEBHOOK_" ++ rest) - k ≡ 8 + length name = omega (arith, l) in
    let inside : ltb (length (codes "WEBHOOK_" ++ rest)) (8 + length name) ≡ false =
      ground (arith, l) in
    let above : ltb (8 + length name) 8 ≡ false = ground arith in
    let less : 8 + length name - 8 ≡ length name = omega arith in
    ground (arith, n, inside, above, less, t)

name_cut : (name : Text) → slice (variable name) 8 (length (variable name) - 4) ≡ returns name
unfolding slice variable
name_cut name =
    let l : length (name ++ codes "_URL") ≡ length name + 4 = length-append name (codes "_URL") in
    let t = take-append name (codes "_URL") in slice_all (name ++ codes "_URL") name 4 l t

All-append : (name after : Text) → IsKey name → IsKey after → IsKey (name ++ after)
unfolding IsKey
All-append [] after h k = k
All-append (c ∷ name) after h k = (h.0, All-append name after h.1 k)

variable-IsKey : (name : Text) → IsKey name → IsKey (variable name)
unfolding IsKey variable
variable-IsKey name h = (
  refl,
  (
    refl,
    (
      refl,
      (
        refl,
        (
          refl,
          (
            refl,
            (refl, (refl, All-append name (codes "_URL") h (refl, (refl, (refl, (refl, tt)))))),
          ),
        ),
      ),
    ),
  ),
)

prefix_found : (name : Text) → has_prefix (variable name) (codes "WEBHOOK_") ≡ true
unfolding variable
prefix_found name = has_prefix-append (codes "WEBHOOK_") (name ++ codes "_URL")

event_entry-set :
    (key name val : Text) (events : EventUrls)
    → has_prefix key (codes "WEBHOOK_") ≡ true
    → has_suffix key (codes "_URL") ≡ true
    → slice key 8 (length key - 4) ≡ returns name
    → is_reserved name ≡ false
    → event_entry key val events ≡ returns (set_event (to_lower name) val events)
unfolding event_entry named_event and_then
event_entry-set key name val events p q cut r = ground (arith, cut)

-- A variable WEBHOOK_<EVENT>_URL, where the name is not empty and no reserved one, sets the URL of
-- the event of that name in lower case, whatever follows the first equals sign.
pub apply_event-set :
    (name val : Text) (events : EventUrls)
    → IsKey name
    → is_reserved name ≡ false
    → apply_event (variable name ++ b'=' ∷ val) events
      ≡ returns (set_event (to_lower name) val events)
unfolding apply_event cut_entry
apply_event-set name val events h r =
    ap (λ cut. cut_entry cut events) (cut_at-append (variable name) val (variable-IsKey name h))
    ∙ event_entry-set (variable name) name val events (prefix_found name) (suffix_found name)
        (name_cut name) r
