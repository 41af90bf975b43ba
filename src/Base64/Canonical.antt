-- ===== src/Base64/Canonical.antt =====
-- Base64::fromBase64 accepts no two texts of whole segments for the same bytes.
use cppgraphqlgen.Base.{
  ℕ, ◌+◌, ◌%◌, ◌≡◌, [], ◌∷◌, arith, length, ◌==◌, false, ◌∙◌, Bool-cases, inl, inr,
}
use cppgraphqlgen.Base.Text.{Bytes}
use cppgraphqlgen.Base.Outcome.{ok, >>=-eq-ok, ok-injective}
use cppgraphqlgen.Base64.{
  padding, verify_from_base64, end_of_encoded, decode_pair, decode_triplet, decode_partial,
  decode_segments, from_base64, encode_segments, to_base64,
}
use cppgraphqlgen.Base64.RoundTrip.{from_base64-eq, to_base64-eq}
use cppgraphqlgen.Base64.Segments.{
  verify_from_base64-inverse, two_padding, one_padding, pair_inverse, triplet_inverse, encode_pair,
  encode_triplet, encode_segment,
}

reencodes_pair :
    (a b : ℕ) (encoded : Bytes) {bytes : Bytes}
    → decode_pair a b encoded ≡ ok bytes
    → (2 + length encoded) % 4 ≡ 0
    → encode_segments bytes ≡ ok (a ∷ b ∷ encoded)
unfolding decode_pair
reencodes_pair a b encoded h size =
    let (x, ex, h₁) = >>=-eq-ok (verify_from_base64 a) _ h in
    let (y, ey, h₂) = >>=-eq-ok (verify_from_base64 b) _ h₁ in
    let (low, pad, e) = pair_inverse x y encoded h₂ in
    encode_pair a b x y (verify_from_base64-inverse a ex) (verify_from_base64-inverse b ey) low e
      (two_padding encoded pad size)

reencodes_triplet :
    (a b c : ℕ) (encoded : Bytes) {bytes : Bytes}
    → decode_triplet a b c encoded ≡ ok bytes
    → (3 + length encoded) % 4 ≡ 0
    → encode_segments bytes ≡ ok (a ∷ b ∷ c ∷ encoded)
unfolding decode_triplet
reencodes_triplet a b c encoded h size =
    let (z, ez, h₁) = >>=-eq-ok (verify_from_base64 c) _ h in
    let (x, ex, h₂) = >>=-eq-ok (verify_from_base64 a) _ h₁ in
    let (y, ey, h₃) = >>=-eq-ok (verify_from_base64 b) _ h₂ in
    let (low, pad, e) = triplet_inverse x y z encoded h₃ in
    encode_triplet a b c x y z (verify_from_base64-inverse a ex) (verify_from_base64-inverse b ey)
      (verify_from_base64-inverse c ez) low e (one_padding encoded pad size)

reencodes_partial :
    (text : Bytes) {bytes : Bytes}
    → decode_partial text ≡ ok bytes
    → length text % 4 ≡ 0
    → encode_segments bytes ≡ ok text
unfolding decode_partial end_of_encoded encode_segments
reencodes_partial [] h size = rw (← ok-injective h)
reencodes_partial (a ∷ []) h size = absurd (omega arith)
reencodes_partial (a ∷ b ∷ []) h size = absurd (omega arith)
reencodes_partial (a ∷ b ∷ c ∷ text) h size = elim (Bool-cases (c == padding)) [
  | inl pair ↦ reencodes_pair a b (c ∷ text) (rw pair at h) (omega arith)
  | inr triplet ↦ reencodes_triplet a b c text (rw triplet at h) (omega arith)
]

reencodes_segment :
    (a b c d : ℕ) (text : Bytes) {bytes : Bytes}
    → (d == padding) ≡ false
    → decode_segments (a ∷ b ∷ c ∷ d ∷ text) ≡ ok bytes
    → ((rest : Bytes) → decode_segments text ≡ ok rest → encode_segments rest ≡ ok text)
    → encode_segments bytes ≡ ok (a ∷ b ∷ c ∷ d ∷ text)
unfolding decode_segments
reencodes_segment a b c d text full h again =
    let (w, ew, h₁) = >>=-eq-ok (verify_from_base64 a) _ (rw full at h) in
    let (x, ex, h₂) = >>=-eq-ok (verify_from_base64 b) _ h₁ in
    let (y, ey, h₃) = >>=-eq-ok (verify_from_base64 c) _ h₂ in
    let (z, ez, h₄) = >>=-eq-ok (verify_from_base64 d) _ h₃ in
    let (rest, er, h₅) = >>=-eq-ok (decode_segments text) _ h₄ in
    encode_segment a b c d w x y z (verify_from_base64-inverse a ew)
      (verify_from_base64-inverse b ex) (verify_from_base64-inverse c ey)
      (verify_from_base64-inverse d ez) (again rest er) (ok-injective h₅)

decode_segments-reencodes :
    (text : Bytes) {bytes : Bytes}
    → decode_segments text ≡ ok bytes
    → length text % 4 ≡ 0
    → encode_segments bytes ≡ ok text
unfolding decode_segments
decode_segments-reencodes [] h size = reencodes_partial [] h size
decode_segments-reencodes (a ∷ []) h size = absurd (omega arith)
decode_segments-reencodes (a ∷ b ∷ []) h size = absurd (omega arith)
decode_segments-reencodes (a ∷ b ∷ c ∷ []) h size = absurd (omega arith)
decode_segments-reencodes (a ∷ b ∷ c ∷ d ∷ text) h size = elim (Bool-cases (d == padding)) [
  | inl pad ↦ reencodes_partial (a ∷ b ∷ c ∷ d ∷ text) (rw pad at h) size
  | inr full ↦
      reencodes_segment a b c d text full h
        (λ rest e. decode_segments-reencodes text e (omega arith))
]

-- A text of whole segments that decodes is the text that encoding the decoded bytes returns.
pub to_base64-from_base64 :
    (text : Bytes) {bytes : Bytes}
    → from_base64 text ≡ ok bytes
    → length text % 4 ≡ 0
    → to_base64 bytes ≡ ok text
to_base64-from_base64 text {bytes} h size =
    to_base64-eq bytes ∙ decode_segments-reencodes text (rw from_base64-eq at h) size
