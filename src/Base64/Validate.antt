-- ===== src/Base64/Validate.antt =====
-- Base64::validateBase64 of src/Base64.cpp.
use cppgraphqlgen.Base.{
  ℕ, ◌+◌, ◌*◌, ◌%◌, ◌^◌, ◌≡◌, refl, Bool, true, false, not, ◌||◌, [], ◌∷◌, arith, ◌==◌,
  if◌then◌else◌, Bool-cases, inl, inr,
}
use cppgraphqlgen.Base.Text.{Bytes}
use cppgraphqlgen.Base.Outcome.{is_ok}
use cppgraphqlgen.Base64.{
  padding, from_base64_char, has_high_bits, is_padding, verify_from_base64, end_of_encoded,
  decode_pair, decode_triplet, decode_partial, decode_segments, from_base64,
}
use cppgraphqlgen.Base64.RoundTrip.{from_base64-eq}

validate_triplet : ℕ → ℕ → ℕ → Bytes → Bool
validate_triplet a b c encoded =
    let x = from_base64_char a in
    let y = from_base64_char b in
    let z = from_base64_char c in
    if (has_high_bits x || has_high_bits y || has_high_bits z) || not (z % 4 == 0)
    then false
    else is_padding encoded

validate_pair : ℕ → ℕ → Bytes → Bool
validate_pair a b encoded =
    let x = from_base64_char a in
    let y = from_base64_char b in
    let segment = x * 2 ^ 10 + y * 2 ^ 4 in
    if has_high_bits x || has_high_bits y
    then false
    else if not (segment % 2 ^ 8 == 0)
    then false
    else is_padding encoded

validate_partial : Bytes → Bool
unfolding validate_pair validate_triplet
validate_partial (a ∷ b ∷ []) = validate_pair a b []
validate_partial (a ∷ b ∷ c ∷ encoded) =
    if c == padding then validate_pair a b (c ∷ encoded) else validate_triplet a b c encoded
validate_partial encoded = is_padding encoded

pub validate_segments : Bytes → Bool
unfolding validate_partial
validate_segments (a ∷ b ∷ c ∷ d ∷ encoded) =
    let w = from_base64_char a in
    let x = from_base64_char b in
    let y = from_base64_char c in
    let z = from_base64_char d in
    let more = validate_segments encoded in
    let full =
      if has_high_bits w || has_high_bits x || has_high_bits y || has_high_bits z
      then false
      else more in
    if d == padding then validate_partial (a ∷ b ∷ c ∷ d ∷ encoded) else full
validate_segments encoded = validate_partial encoded

unfoldable pub validate_base64 : Bytes → Bool
unfolding validate_segments
validate_base64 [] = true
validate_base64 encoded = validate_segments encoded

validate_pair-is_ok :
    (a b : ℕ) (encoded : Bytes) → validate_pair a b encoded ≡ is_ok (decode_pair a b encoded)
unfolding validate_pair decode_pair verify_from_base64 end_of_encoded
validate_pair-is_ok a b encoded = ground arith

validate_triplet-is_ok :
    (a b c : ℕ) (encoded : Bytes)
    → validate_triplet a b c encoded ≡ is_ok (decode_triplet a b c encoded)
unfolding validate_triplet decode_triplet verify_from_base64 end_of_encoded
validate_triplet-is_ok a b c encoded = ground arith

validate_partial-is_ok : (text : Bytes) → validate_partial text ≡ is_ok (decode_partial text)
unfolding validate_partial decode_partial end_of_encoded
validate_partial-is_ok [] = refl
validate_partial-is_ok (a ∷ []) = ground arith
validate_partial-is_ok (a ∷ b ∷ []) = validate_pair-is_ok a b []
validate_partial-is_ok (a ∷ b ∷ c ∷ text) = elim (Bool-cases (c == padding)) [
  | inl pair ↦ rw (pair) (validate_pair-is_ok a b (c ∷ text))
  | inr triplet ↦ rw (triplet) (validate_triplet-is_ok a b c text)
]

validate_segments-is_ok : (text : Bytes) → validate_segments text ≡ is_ok (decode_segments text)
unfolding validate_segments decode_segments verify_from_base64
validate_segments-is_ok [] = validate_partial-is_ok []
validate_segments-is_ok (a ∷ []) = validate_partial-is_ok (a ∷ [])
validate_segments-is_ok (a ∷ b ∷ []) = validate_partial-is_ok (a ∷ b ∷ [])
validate_segments-is_ok (a ∷ b ∷ c ∷ []) = validate_partial-is_ok (a ∷ b ∷ c ∷ [])
validate_segments-is_ok (a ∷ b ∷ c ∷ d ∷ text) = elim (Bool-cases (d == padding)) [
  | inl pad ↦ rw pad (validate_partial-is_ok (a ∷ b ∷ c ∷ d ∷ text))
  | inr full ↦ rw full (ground (arith, validate_segments-is_ok text))
]

-- A text passes the validator exactly when fromBase64 returns for it and does not throw.
pub validate_base64-is_ok : (text : Bytes) → validate_base64 text ≡ is_ok (from_base64 text)
unfolding validate_base64
validate_base64-is_ok [] = rw from_base64-eq (validate_segments-is_ok [])
validate_base64-is_ok (a ∷ text) = rw from_base64-eq (validate_segments-is_ok (a ∷ text))
