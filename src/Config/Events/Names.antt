-- ===== src/Config/Events/Names.antt =====
-- Which variables of applyWebhookEventEnv, internal/config/config.go, set an event, and which panic.
use open_sync_crdt.Prelude.{
  ℕ, ◌-◌, ◌<◌, true, Option, none, some, [], ◌∷◌, ◌++◌, length, take, drop, ltb, eqb, ◌≡◌, ◌↔◌,
  refl, ap, arith, Bool-cases, inl, inr, subst, length-append, ◌∙◌,
}
use open_sync_crdt.Prelude.Text.{Text, codes, cut_at, before_with, has_prefix, has_suffix}
use open_sync_crdt.Config.Events.{
  panics, and_then, EventUrls, slice, named_event, event_entry, cut_entry, apply_event,
}

has_prefix-split : (s p : Text) → has_prefix s p ≡ true → (rest : Text) × (s ≡ p ++ rest)
unfolding has_prefix
has_prefix-split s [] h = (s, refl)
has_prefix-split [] (c ∷ p) h = absurd (ground arith)
has_prefix-split (d ∷ s) (c ∷ p) h =
    let e : d ≡ c = ground arith in
    let r = has_prefix-split s p (ground arith) in (r.0, ground (arith, r.1))

abbrev parts : Text → Text → Option (Text × Text)
parts before after = some (before, after)

before_with-some :
    (c : ℕ) (o : Option (Text × Text)) (before after : Text)
    → before_with c o ≡ some (before, after)
    → (start : Text) × ((before ≡ c ∷ start) × (o ≡ some (start, after)))
unfolding before_with
before_with-some c none before after h = absurd (ground arith)
before_with-some c (some (start, rest)) before after h = (start, (ground arith, ground arith))

cut_at-split :
    (sep : ℕ) (s before after : Text)
    → cut_at sep s ≡ some (before, after)
    → s ≡ before ++ sep ∷ after
unfolding cut_at
cut_at-split sep [] before after h = absurd (ground arith)
cut_at-split sep (c ∷ s) before after h = elim (Bool-cases (eqb c sep)) [
  | inl e ↦
      let q : parts [] s ≡ parts before after = ground arith in
      let same : c ≡ sep = ground arith in ground arith
  | inr e ↦
      let q : before_with c (cut_at sep s) ≡ parts before after = ground arith in
      let r = before_with-some c (cut_at sep s) before after q in
      ground (arith, r.1.0, cut_at-split sep s r.0 after r.1.1)
]

panics_key :
    (rest : Text)
    → has_suffix (codes "WEBHOOK_" ++ rest) (codes "_URL") ≡ true
    → length rest < 4
    → rest ≡ codes "URL"
unfolding has_suffix has_prefix
panics_key [] h k = absurd (ground arith)
panics_key (a ∷ []) h k = absurd (ground arith)
panics_key (a ∷ b ∷ []) h k = absurd (ground arith)
panics_key (a ∷ b ∷ c ∷ []) h k = ground arith
panics_key (a ∷ b ∷ c ∷ d ∷ rest) h k = absurd (omega arith)

named_event-returns :
    (val name : Text) (events : EventUrls) → ¬ (named_event val events name ≡ panics)
unfolding named_event
named_event-returns val name events h = absurd (ground arith)

slice_panics :
    (key val : Text) (events : EventUrls)
    → and_then (slice key 8 (length key - 4)) (named_event val events) ≡ panics
    → length key < 12
unfolding and_then slice
slice_panics key val events h = elim (Bool-cases (ltb (length key) 12)) [
  | inl e ↦ ground arith
  | inr e ↦
      absurd
        (named_event-returns val (take (length key - 4 - 8) (drop 8 key)) events (ground arith))
]

event_entry-panics :
    (key val : Text) (events : EventUrls)
    → event_entry key val events ≡ panics
    → (has_prefix key (codes "WEBHOOK_") ≡ true)
      × ((has_suffix key (codes "_URL") ≡ true) × (length key < 12))
unfolding event_entry
event_entry-panics key val events h = elim (Bool-cases (has_prefix key (codes "WEBHOOK_"))) [
  | inr e ↦ absurd (ground arith)
  | inl e ↦ elim (Bool-cases (has_suffix key (codes "_URL"))) [
    | inr f ↦ absurd (ground arith)
    | inl f ↦ (e, (f, slice_panics key val events (ground arith)))
  ]
]

short_key :
    (key : Text)
    → (has_prefix key (codes "WEBHOOK_") ≡ true)
    → (has_suffix key (codes "_URL") ≡ true)
    → length key < 12
    → key ≡ codes "WEBHOOK_URL"
short_key key p q h =
    let r = has_prefix-split key (codes "WEBHOOK_") p in
    let l : length r.0 < 4 = omega (arith, ap length r.1, length-append (codes "WEBHOOK_") r.0) in
    let e = panics_key r.0 (subst (λ k. has_suffix k (codes "_URL") ≡ true) r.1 q) l in
    r.1 ∙ ap (λ rest. codes "WEBHOOK_" ++ rest) e

panics-only :
    (kv : Text) (events : EventUrls) (cut : Option (Text × Text))
    → cut_at b'=' kv ≡ cut
    → cut_entry cut events ≡ panics
    → (val : Text) × (kv ≡ codes "WEBHOOK_URL=" ++ val)
unfolding cut_entry
panics-only kv events none e h = absurd (ground arith)
panics-only kv events (some (key, val)) e h =
    let facts = event_entry-panics key val events h in
    let named = short_key key facts.0 facts.1.0 facts.1.1 in
    (val, cut_at-split b'=' kv key val e ∙ ap (λ k. k ++ b'=' ∷ val) named)

url_panics :
    (val : Text) (events : EventUrls) → apply_event (codes "WEBHOOK_URL=" ++ val) events ≡ panics
unfolding apply_event cut_entry cut_at before_with event_entry has_prefix has_suffix slice and_then
url_panics val events = refl

-- The variable WEBHOOK_URL, whatever its value, makes the call panic, and no other line of the
-- environment does.
pub apply_event-panics :
    (kv : Text) (events : EventUrls)
    → (apply_event kv events ≡ panics) ↔ ((val : Text) × (kv ≡ codes "WEBHOOK_URL=" ++ val))
unfolding apply_event
apply_event-panics kv events = (
  λ h. panics-only kv events (cut_at b'=' kv) refl h,
  λ r. ap (λ k. apply_event k events) r.1 ∙ url_panics r.0 events,
)
