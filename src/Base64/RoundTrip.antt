-- ===== src/Base64/RoundTrip.antt =====
-- Encoding by Base64::toBase64 and decoding by Base64::fromBase64 are inverse.
use cppgraphqlgen.Base.{
  ◌∙◌, ℕ, ◌+◌, ◌*◌, ◌/◌, ◌%◌, ◌^◌, ◌<◌, ◌≡◌, refl, [], ◌∷◌, arith, All, length,
}
use cppgraphqlgen.Base.Text.{Bytes}
use cppgraphqlgen.Base.Outcome.{ok, ◌>>=◌}
use cppgraphqlgen.Base64.{
  padding, to_base64_char, end_of_encoded, decode_pair, decode_triplet, decode_partial,
  decode_segments, from_base64, encode_segments, to_base64,
}
use cppgraphqlgen.Base64.Alphabet.{
  verify_to_base64-ok, verify_from_base64-to_base64_char, to_base64_char-ne-padding,
}

abbrev pub AreBytes : Bytes → Type 0
AreBytes = All (λ b. b < 2 ^ 8)

-- Four characters for three bytes, or for the one or two that are left.
pub encoded_length : ℕ → ℕ
encoded_length n = (n + 2) / 3 * 4

-- Four sextets of a segment, put together again.
join_sextets :
    (segment : ℕ)
    → segment < 2 ^ 24
    → segment / 2 ^ 18 % 2 ^ 6 * 2 ^ 18
        + segment / 2 ^ 12 % 2 ^ 6 * 2 ^ 12
        + segment / 2 ^ 6 % 2 ^ 6 * 2 ^ 6
        + segment % 2 ^ 6
      ≡ segment
join_sextets segment h = omega arith

abbrev Encodes : Bytes → Type 0
Encodes bytes =
    (text : Bytes) × (encode_segments bytes ≡ ok text)
    × (decode_segments text ≡ ok bytes)
    × (length text ≡ encoded_length (length bytes))

Encodes-one : (x : ℕ) → x < 2 ^ 8 → Encodes (x ∷ [])
unfolding encode_segments decode_segments decode_partial decode_pair end_of_encoded encoded_length
Encodes-one x hx =
    let segment : ℕ = x * 2 ^ 8 in
    let a : ℕ = segment / 2 ^ 10 % 2 ^ 6 in
    let b : ℕ = segment / 2 ^ 4 % 2 ^ 6 in
    let ha : a < 64 = omega arith in
    let hb : b < 64 = omega arith in
    (
      to_base64_char a ∷ to_base64_char b ∷ padding ∷ padding ∷ [],
      rw (verify_to_base64-ok a ha, verify_to_base64-ok b hb),
      rw (verify_from_base64-to_base64_char a ha, verify_from_base64-to_base64_char b hb)
          (ground arith),
      refl,
    )

Encodes-two : (x y : ℕ) → x < 2 ^ 8 → y < 2 ^ 8 → Encodes (x ∷ y ∷ [])
unfolding encode_segments decode_segments decode_partial decode_triplet end_of_encoded
    encoded_length
Encodes-two x y hx hy =
    let segment : ℕ = x * 2 ^ 8 + y in
    let a : ℕ = segment / 2 ^ 10 % 2 ^ 6 in
    let b : ℕ = segment / 2 ^ 4 % 2 ^ 6 in
    let c : ℕ = segment % 2 ^ 4 * 2 ^ 2 in
    let ha : a < 64 = omega arith in
    let hb : b < 64 = omega arith in
    let hc : c < 64 = omega arith in
    (
      to_base64_char a ∷ to_base64_char b ∷ to_base64_char c ∷ padding ∷ [],
      rw (verify_to_base64-ok a ha, verify_to_base64-ok b hb, verify_to_base64-ok c hc),
      rw
          (
            to_base64_char-ne-padding c hc,
            verify_from_base64-to_base64_char c hc,
            verify_from_base64-to_base64_char a ha,
            verify_from_base64-to_base64_char b hb,
          )
          (ground arith),
      refl,
    )

Encodes-more :
    (x y z : ℕ) (bytes : Bytes)
    → x < 2 ^ 8
    → y < 2 ^ 8
    → z < 2 ^ 8
    → Encodes bytes
    → Encodes (x ∷ y ∷ z ∷ bytes)
unfolding encode_segments decode_segments encoded_length
Encodes-more x y z bytes hx hy hz (text, encoded, decoded, size) =
    let segment : ℕ = x * 2 ^ 16 + y * 2 ^ 8 + z in
    let a : ℕ = segment / 2 ^ 18 % 2 ^ 6 in
    let b : ℕ = segment / 2 ^ 12 % 2 ^ 6 in
    let c : ℕ = segment / 2 ^ 6 % 2 ^ 6 in
    let d : ℕ = segment % 2 ^ 6 in
    let ha : a < 64 = omega arith in
    let hb : b < 64 = omega arith in
    let hc : c < 64 = omega arith in
    let hd : d < 64 = omega arith in
    (
      to_base64_char a ∷ to_base64_char b ∷ to_base64_char c ∷ to_base64_char d ∷ text,
      rw (
        verify_to_base64-ok a ha,
        verify_to_base64-ok b hb,
        verify_to_base64-ok c hc,
        verify_to_base64-ok d hd,
        encoded,
      ),
      rw
          (
            to_base64_char-ne-padding d hd,
            verify_from_base64-to_base64_char a ha,
            verify_from_base64-to_base64_char b hb,
            verify_from_base64-to_base64_char c hc,
            verify_from_base64-to_base64_char d hd,
            decoded,
            join_sextets segment (omega arith),
          )
          (ground arith),
      omega arith,
    )

encode_segments-Encodes : (bytes : Bytes) → AreBytes bytes → Encodes bytes
unfolding encode_segments decode_segments decode_partial end_of_encoded encoded_length
encode_segments-Encodes [] h = ([], refl, refl, refl)
encode_segments-Encodes (x ∷ []) h = Encodes-one x h.0
encode_segments-Encodes (x ∷ y ∷ []) h = Encodes-two x y h.0 h.1.0
encode_segments-Encodes (x ∷ y ∷ z ∷ bytes) h =
    Encodes-more x y z bytes h.0 h.1.0 h.1.1.0 (encode_segments-Encodes bytes h.1.1.1)

pub from_base64-eq : (text : Bytes) → from_base64 text ≡ decode_segments text
unfolding from_base64 decode_segments decode_partial end_of_encoded
from_base64-eq [] = refl
from_base64-eq (x ∷ text) = refl

pub to_base64-eq : (bytes : Bytes) → to_base64 bytes ≡ encode_segments bytes
unfolding to_base64 encode_segments
to_base64-eq [] = refl
to_base64-eq (x ∷ bytes) = refl

-- Encoding a vector of bytes never throws, and decoding what it returns gives the bytes back.
pub from_base64-to_base64 :
    (bytes : Bytes) → AreBytes bytes → (to_base64 bytes >>= from_base64) ≡ ok bytes
from_base64-to_base64 bytes h =
    let (text, encoded, decoded, size) = encode_segments-Encodes bytes h in
    rw (to_base64-eq bytes, encoded) (from_base64-eq text ∙ decoded)

-- The text that toBase64 returns for n bytes has 4 * ceil(n / 3) characters.
pub length-to_base64 :
    (bytes : Bytes)
    → AreBytes bytes
    → (text : Bytes) × (to_base64 bytes ≡ ok text) × (length text ≡ encoded_length (length bytes))
length-to_base64 bytes h =
    let (text, encoded, decoded, size) = encode_segments-Encodes bytes h in
    (text, to_base64-eq bytes ∙ encoded, size)
