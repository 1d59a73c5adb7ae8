-- ===== src/Webhook/Requests/Signed.antt =====
-- The signatures and bodies of the requests that internal/webhook sends.
use open_sync_crdt.Prelude.{
  ℕ, ◌/◌, ◌%◌, ◌<◌, String, Bytes, true, List, [], ◌∷◌, subst, ◌≡◌, refl, ap, arith, ◌↔◌,
}
use open_sync_crdt.Prelude.Map.{Map}
use open_sync_crdt.Prelude.Text.{Text, same_text}
use open_sync_crdt.Webhook.Requests.{hex_digit, hex, Crypto, AreBytes, WebhookRequest, sign, verify}

same_text_refl : (s : Text) → same_text s s ≡ true
unfolding same_text
same_text_refl [] = refl
same_text_refl (c ∷ s) = ground (arith, same_text_refl s)

same_text-path : (s t : Text) → same_text s t ≡ true → s ≡ t
unfolding same_text
same_text-path [] [] h = refl
same_text-path [] (d ∷ t) h = cc
same_text-path (c ∷ s) [] h = cc
same_text-path (c ∷ s) (d ∷ t) h =
    let head : c ≡ d = ground (arith, h) in
    let tail : s ≡ t = same_text-path s t (ground (arith, h)) in λ i. head i ∷ tail i

hex_digit-same : (m n : ℕ) → m < 16 → n < 16 → hex_digit m ≡ hex_digit n → m ≡ n
unfolding hex_digit
hex_digit-same m n h k e = ground (arith, e)

head_of : Text → ℕ
head_of [] = 0
head_of (c ∷ s) = c

tail_of : Text → Text
tail_of [] = []
tail_of (c ∷ s) = s

hex-same : (xs ys : Bytes) → AreBytes xs → AreBytes ys → hex xs ≡ hex ys → xs ≡ ys
unfolding hex AreBytes head_of tail_of
hex-same [] [] h k e = refl
hex-same [] (y ∷ ys) h k e = cc
hex-same (x ∷ xs) [] h k e = cc
hex-same (x ∷ xs) (y ∷ ys) (hx, h) (hy, k) e =
    let high : x / 16 ≡ y / 16 =
      hex_digit-same (x / 16) (y / 16) (omega arith) (omega arith) (ap head_of e) in
    let low : x % 16 ≡ y % 16 =
      hex_digit-same (x % 16) (y % 16) (omega arith) (omega arith)
        (ap (λ s. head_of (tail_of s)) e) in
    let head : x ≡ y = omega (arith, high, low) in
    let tail : xs ≡ ys = hex-same xs ys h k (ap (λ s. tail_of (tail_of s)) e) in
    λ i. head i ∷ tail i

module _ (crypto : Crypto) where
  -- Where HMAC gives bytes: the signature of one body passes for another, under the same secret,
  -- exactly where HMAC gives the same for the two; so a body passes with its own signature.
  pub verify-sign :
      (secret : Text) (body other : Bytes)
      → AreBytes (crypto.mac secret body)
      → AreBytes (crypto.mac secret other)
      → (verify crypto secret other (sign crypto secret body) ≡ true)
        ↔ (crypto.mac secret other ≡ crypto.mac secret body)
  unfolding verify sign
  verify-sign secret body other h k = (
    λ e. hex-same _ _ k h (same_text-path (hex (crypto.mac secret other)) _ e),
    λ p.
        subst (λ m. same_text (hex (crypto.mac secret other)) (hex m) ≡ true) p
          (same_text_refl (hex (crypto.mac secret other))),
  )

  -- What holds of a list of requests: all are to the URL, for the event, and signed for their body.
  unfoldable pub AllSigned : Text → String → String → Bytes → List WebhookRequest → Type 0
  AllSigned secret url event payload [] = Unit
  AllSigned secret url event payload (r ∷ rs) =
      ((r.url ≡ url)
        × (r.event ≡ event)
        × (r.payload ≡ payload)
        × (verify crypto secret payload r.signature ≡ true))
      × AllSigned secret url event payload rs
