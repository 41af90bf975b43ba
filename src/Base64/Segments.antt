-- ===== src/Base64/Segments.antt =====
-- One segment of a text, decoded by src/Base64.cpp and encoded again.
use cppgraphqlgen.Base.{
  ℕ, ◌+◌, ◌*◌, ◌/◌, ◌%◌, ◌^◌, ◌<◌, ◌≡◌, [], ◌∷◌, arith, length, ◌==◌, true, if◌then◌else◌,
}
use cppgraphqlgen.Base.Text.{Bytes}
use cppgraphqlgen.Base.Outcome.{ok}
use cppgraphqlgen.Base64.{
  is_padding, invalid_padding, padding, from_base64_char, verify_from_base64, verify_to_base64,
  end_of_encoded, encode_segments,
}
use cppgraphqlgen.Base64.Alphabet.{
  verify_to_base64-ok, from_base64_char_range, to_base64_char-from_base64_char,
}

pub verify_from_base64-inverse :
    (ch : ℕ) {v : ℕ} → verify_from_base64 ch ≡ ok v → (v < 64) × (verify_to_base64 v ≡ ok ch)
unfolding verify_from_base64
verify_from_base64-inverse ch h = ground (
  arith,
  from_base64_char_range ch,
  to_base64_char-from_base64_char ch,
  verify_to_base64-ok (from_base64_char ch),
)

-- A segment of sextets splits into the same sextets.
split_segment :
    (w x y z : ℕ)
    → w < 64
    → x < 64
    → y < 64
    → z < 64
    → let segment = w * 2 ^ 18 + x * 2 ^ 12 + y * 2 ^ 6 + z in
      let segment' =
        segment / 2 ^ 16 % 2 ^ 8 * 2 ^ 16 + segment / 2 ^ 8 % 2 ^ 8 * 2 ^ 8 + segment % 2 ^ 8 in
      (segment' / 2 ^ 18 % 2 ^ 6 ≡ w)
      × (segment' / 2 ^ 12 % 2 ^ 6 ≡ x)
      × (segment' / 2 ^ 6 % 2 ^ 6 ≡ y)
      × (segment' % 2 ^ 6 ≡ z)
split_segment w x y z hw hx hy hz = omega arith

pub two_padding :
    (encoded : Bytes)
    → is_padding encoded ≡ true
    → (2 + length encoded) % 4 ≡ 0
    → encoded ≡ padding ∷ padding ∷ []
two_padding [] h size = absurd (omega arith)
two_padding (x ∷ []) h size = absurd (omega arith)
two_padding (x ∷ y ∷ []) h size = ground arith
two_padding (x ∷ y ∷ z ∷ encoded) h size = cc

pub one_padding :
    (encoded : Bytes)
    → is_padding encoded ≡ true
    → (3 + length encoded) % 4 ≡ 0
    → encoded ≡ padding ∷ []
one_padding [] h size = absurd (omega arith)
one_padding (x ∷ []) h size = ground arith
one_padding (x ∷ y ∷ []) h size = absurd (omega arith)
one_padding (x ∷ y ∷ z ∷ encoded) h size = cc

pub pair_inverse :
    (x y : ℕ) (encoded : Bytes) {bytes : Bytes}
    → let segment = x * 2 ^ 10 + y * 2 ^ 4 in
      (if segment % 2 ^ 8 == 0
          then end_of_encoded ((segment / 2 ^ 8) ∷ []) encoded
          else invalid_padding)
        ≡ ok bytes
      → (segment % 2 ^ 8 ≡ 0) × (is_padding encoded ≡ true) × (bytes ≡ (segment / 2 ^ 8) ∷ [])
unfolding end_of_encoded
pair_inverse x y encoded h = ground arith

pub triplet_inverse :
    (x y z : ℕ) (encoded : Bytes) {bytes : Bytes}
    → let segment = x * 2 ^ 10 + y * 2 ^ 4 + z / 2 ^ 2 in
      (if z % 4 == 0
          then end_of_encoded ((segment / 2 ^ 8) ∷ (segment % 2 ^ 8) ∷ []) encoded
          else invalid_padding)
        ≡ ok bytes
      → (z % 4 ≡ 0)
        × (is_padding encoded ≡ true)
        × (bytes ≡ (segment / 2 ^ 8) ∷ (segment % 2 ^ 8) ∷ [])
unfolding end_of_encoded
triplet_inverse x y z encoded h = ground arith

pub encode_pair :
    (a b x y : ℕ) {bytes encoded : Bytes}
    → (x < 64) × (verify_to_base64 x ≡ ok a)
    → (y < 64) × (verify_to_base64 y ≡ ok b)
    → (x * 2 ^ 10 + y * 2 ^ 4) % 2 ^ 8 ≡ 0
    → bytes ≡ ((x * 2 ^ 10 + y * 2 ^ 4) / 2 ^ 8) ∷ []
    → encoded ≡ padding ∷ padding ∷ []
    → encode_segments bytes ≡ ok (a ∷ b ∷ encoded)
unfolding encode_segments
encode_pair a b x y (lx, vx) (ly, vy) low e pad =
    let segment : ℕ = (x * 2 ^ 10 + y * 2 ^ 4) / 2 ^ 8 * 2 ^ 8 in
    let ea : segment / 2 ^ 10 % 2 ^ 6 ≡ x = omega arith in
    let eb : segment / 2 ^ 4 % 2 ^ 6 ≡ y = omega arith in rw (e, pad, ea, eb, vx, vy)

pub encode_triplet :
    (a b c x y z : ℕ) {bytes encoded : Bytes}
    → (x < 64) × (verify_to_base64 x ≡ ok a)
    → (y < 64) × (verify_to_base64 y ≡ ok b)
    → (z < 64) × (verify_to_base64 z ≡ ok c)
    → z % 4 ≡ 0
    → let segment = x * 2 ^ 10 + y * 2 ^ 4 + z / 2 ^ 2 in
      bytes ≡ (segment / 2 ^ 8) ∷ (segment % 2 ^ 8) ∷ []
      → encoded ≡ padding ∷ []
      → encode_segments bytes ≡ ok (a ∷ b ∷ c ∷ encoded)
unfolding encode_segments
encode_triplet a b c x y z (lx, vx) (ly, vy) (lz, vz) low e pad =
    let decoded : ℕ = x * 2 ^ 10 + y * 2 ^ 4 + z / 2 ^ 2 in
    let segment : ℕ = decoded / 2 ^ 8 * 2 ^ 8 + decoded % 2 ^ 8 in
    let ea : segment / 2 ^ 10 % 2 ^ 6 ≡ x = omega arith in
    let eb : segment / 2 ^ 4 % 2 ^ 6 ≡ y = omega arith in
    let ec : segment % 2 ^ 4 * 2 ^ 2 ≡ z = omega arith in rw (e, pad, ea, eb, ec, vx, vy, vz)

pub encode_segment :
    (a b c d w x y z : ℕ) {bytes rest text : Bytes}
    → (w < 64) × (verify_to_base64 w ≡ ok a)
    → (x < 64) × (verify_to_base64 x ≡ ok b)
    → (y < 64) × (verify_to_base64 y ≡ ok c)
    → (z < 64) × (verify_to_base64 z ≡ ok d)
    → encode_segments rest ≡ ok text
    → let segment = w * 2 ^ 18 + x * 2 ^ 12 + y * 2 ^ 6 + z in
      (segment / 2 ^ 16 % 2 ^ 8) ∷ (segment / 2 ^ 8 % 2 ^ 8) ∷ (segment % 2 ^ 8) ∷ rest ≡ bytes
      → encode_segments bytes ≡ ok (a ∷ b ∷ c ∷ d ∷ text)
unfolding encode_segments
encode_segment a b c d w x y z (lw, vw) (lx, vx) (ly, vy) (lz, vz) er e =
    let (sw, sx, sy, sz) = split_segment w x y z lw lx ly lz in
    rw (← e, sw, sx, sy, sz, vw, vx, vy, vz, er)
