-- ===== src/Base64.antt =====
-- src/Base64.cpp and include/graphqlservice/internal/Base64.h: the codec between byte vectors and
-- Base64 text, the comparison that decodes on the fly, and the validator.
-- A shift is written as a product or a quotient by a power of two, and a mask of consecutive bits
-- as a remainder. The operands of each `|` occupy different bits, so `|` is `+`. The overloads of
-- fromBase64 and toBase64 for one character are from_base64_char and to_base64_char.
pub mod Alphabet
pub mod RoundTrip
pub mod Segments
pub mod Canonical
pub mod Validate
pub mod Compare
pub mod Samples
mod Examples
use cppgraphqlgen.Base.{
  ℕ, ◌+◌, ◌-◌, ◌*◌, ◌/◌, ◌%◌, ◌^◌, Bool, true, false, not, ◌&&◌, ◌||◌, List, [], ◌∷◌, ltb, leb,
  ◌==◌, if◌then◌else◌,
}
use cppgraphqlgen.Base.Text.{Bytes}
use cppgraphqlgen.Base.Outcome.{Outcome, ok, throw, logic_error, ◌>>=◌}

abbrev pub padding : ℕ
padding = b'='

-- The value of one character, and 0xFF for a character outside the alphabet.
pub from_base64_char : ℕ → ℕ
from_base64_char ch =
    if leb b'A' ch && leb ch b'Z'
    then ch - b'A'
    else if leb b'a' ch && leb ch b'z'
    then ch - b'a' + 26
    else if leb b'0' ch && leb ch b'9'
    then ch - b'0' + 52
    else if ch == b'+'
    then 62
    else if ch == b'/'
    then 63
    else 0xFF

pub to_base64_char : ℕ → ℕ
to_base64_char i =
    if ltb i 26
    then i + b'A'
    else if ltb i 52
    then i - 26 + b'a'
    else if ltb i 62
    then i - 52 + b'0'
    else if i == 62
    then b'+'
    else if i == 63
    then b'/'
    else padding

-- `(value & 0xC0) != 0` for a std::uint8_t
abbrev pub has_high_bits : ℕ → Bool
has_high_bits value = not (value / 64 % 4 == 0)

pub verify_from_base64 : ℕ → Outcome ℕ
verify_from_base64 ch =
    let result = from_base64_char ch in
    if has_high_bits result
    then throw (logic_error "invalid character in base64 encoded string")
    else ok result

pub verify_to_base64 : ℕ → Outcome ℕ
verify_to_base64 i =
    let result = to_base64_char i in
    if result == padding then throw (logic_error "invalid 6-bit value") else ok result

-- What may follow the encoded characters: no more than two characters of padding.
abbrev pub is_padding : Bytes → Bool
is_padding [] = true
is_padding (x ∷ []) = x == padding
is_padding (x ∷ y ∷ []) = x == padding && y == padding
is_padding _ = false

abbrev invalid_padding : {A : Type 0} → Outcome A
invalid_padding = throw (logic_error "invalid padding at the end of a base64 encoded string")

-- The last check of fromBase64, with the bytes that the partial segment has given.
pub end_of_encoded : Bytes → Bytes → Outcome Bytes
end_of_encoded decoded encoded = if is_padding encoded then ok decoded else invalid_padding

-- Three characters that are not padding hold two bytes.
pub decode_triplet : ℕ → ℕ → ℕ → Bytes → Outcome Bytes
decode_triplet a b c encoded = do
  tail ← verify_from_base64 c
  x ← verify_from_base64 a
  y ← verify_from_base64 b
  let segment = x * 2 ^ 10 + y * 2 ^ 4 + tail / 2 ^ 2
  if tail % 4 == 0
      then end_of_encoded ((segment / 2 ^ 8) ∷ (segment % 2 ^ 8) ∷ []) encoded
      else invalid_padding

-- Two characters hold one byte.
pub decode_pair : ℕ → ℕ → Bytes → Outcome Bytes
decode_pair a b encoded = do
  x ← verify_from_base64 a
  y ← verify_from_base64 b
  let segment = x * 2 ^ 10 + y * 2 ^ 4
  if segment % 2 ^ 8 == 0 then end_of_encoded ((segment / 2 ^ 8) ∷ []) encoded else invalid_padding

-- The part of fromBase64 below its loop.
pub decode_partial : Bytes → Outcome Bytes
decode_partial (a ∷ b ∷ []) = decode_pair a b []
decode_partial (a ∷ b ∷ c ∷ encoded) =
    if c == padding then decode_pair a b (c ∷ encoded) else decode_triplet a b c encoded
decode_partial encoded = end_of_encoded [] encoded

-- The loop over the full segments of four characters, which hold three bytes each.
pub decode_segments : Bytes → Outcome Bytes
decode_segments (a ∷ b ∷ c ∷ d ∷ encoded) =
    let more = decode_segments encoded in
    let full = do
      w ← verify_from_base64 a
      x ← verify_from_base64 b
      y ← verify_from_base64 c
      z ← verify_from_base64 d
      let segment = w * 2 ^ 18 + x * 2 ^ 12 + y * 2 ^ 6 + z
      rest ← more
      ok ((segment / 2 ^ 16 % 2 ^ 8) ∷ (segment / 2 ^ 8 % 2 ^ 8) ∷ (segment % 2 ^ 8) ∷ rest)
    in if d == padding then decode_partial (a ∷ b ∷ c ∷ d ∷ encoded) else full
decode_segments encoded = decode_partial encoded

unfoldable pub from_base64 : Bytes → Outcome Bytes
from_base64 [] = ok []
from_base64 encoded = decode_segments encoded

-- The loop of toBase64 over three bytes at a time, and the one or two bytes that are left.
pub encode_segments : Bytes → Outcome Bytes
encode_segments [] = ok []
encode_segments (x ∷ []) = do
  let segment = x * 2 ^ 8
  a ← verify_to_base64 (segment / 2 ^ 10 % 2 ^ 6)
  b ← verify_to_base64 (segment / 2 ^ 4 % 2 ^ 6)
  ok (a ∷ b ∷ padding ∷ padding ∷ [])
encode_segments (x ∷ y ∷ []) = do
  let segment = x * 2 ^ 8 + y
  a ← verify_to_base64 (segment / 2 ^ 10 % 2 ^ 6)
  b ← verify_to_base64 (segment / 2 ^ 4 % 2 ^ 6)
  c ← verify_to_base64 (segment % 2 ^ 4 * 2 ^ 2)
  ok (a ∷ b ∷ c ∷ padding ∷ [])
encode_segments (x ∷ y ∷ z ∷ bytes) =
    let more = encode_segments bytes in
    do
      let segment = x * 2 ^ 16 + y * 2 ^ 8 + z
      a ← verify_to_base64 (segment / 2 ^ 18 % 2 ^ 6)
      b ← verify_to_base64 (segment / 2 ^ 12 % 2 ^ 6)
      c ← verify_to_base64 (segment / 2 ^ 6 % 2 ^ 6)
      d ← verify_to_base64 (segment % 2 ^ 6)
      rest ← more
      ok (a ∷ b ∷ c ∷ d ∷ rest)

pub to_base64 : Bytes → Outcome Bytes
to_base64 [] = ok []
to_base64 bytes = encode_segments bytes
