-- ===== src/Base64/Compare/RunsPast.antt =====
-- Where compareBase64 moves its iterator past the end of the bytes: in the `++itr` for a pair, which
-- it reaches with all bytes compared.
use cppgraphqlgen.Base.{
  ℕ, ◌+◌, ◌*◌, ◌/◌, ◌%◌, ◌^◌, ◌≡◌, ◌≢◌, refl, [], ◌∷◌, arith, ◌==◌, Bool-cases, inl, inr, Bool,
  true, false, ◌&&◌, ◌||◌, Option, none, some, if◌then◌else◌,
}
use cppgraphqlgen.Base.Text.{Bytes}
use cppgraphqlgen.Base.Outcome.{ok, is_ok, Outcome-cases}
use cppgraphqlgen.Base64.{
  padding, from_base64_char, has_high_bits, verify_from_base64, end_of_encoded, decode_pair,
  decode_partial, decode_segments, from_base64,
}

abbrev pub is_empty : Bytes → Bool
is_empty [] = true
is_empty (x ∷ bytes) = false

-- What follows the first bytes, if they are `decoded`.
abbrev pub strip : Bytes → Bytes → Option Bytes
strip [] bytes = some bytes
strip (v ∷ decoded) [] = none
strip (v ∷ decoded) (x ∷ bytes) = let rest = strip decoded bytes in if x == v then rest else none

-- Whether the rest of a text begins with two characters that stand for one byte.
abbrev pub ends_in_pair : Bytes → Bool
ends_in_pair (a ∷ b ∷ []) = is_ok (decode_pair a b [])
ends_in_pair (a ∷ b ∷ c ∷ text) = (c == padding) && is_ok (decode_pair a b [])
ends_in_pair text = false

-- Whether the whole segments of a text spell the bytes, and a pair that stands for one byte follows.
unfoldable pub runs_past : Bytes → Bytes → Bool
runs_past bytes (a ∷ b ∷ c ∷ d ∷ text) =
    let w = from_base64_char a in
    let x = from_base64_char b in
    let y = from_base64_char c in
    let z = from_base64_char d in
    let segment = w * 2 ^ 18 + x * 2 ^ 12 + y * 2 ^ 6 + z in
    let decoded = (segment / 2 ^ 16 % 2 ^ 8) ∷ (segment / 2 ^ 8 % 2 ^ 8) ∷ (segment % 2 ^ 8) ∷ [] in
    let more : Bool = elim (strip decoded bytes) [
      | none ↦ false
      | some rest ↦ runs_past rest text
    ] in
    if d == padding
    then is_empty bytes && ends_in_pair (a ∷ b ∷ c ∷ d ∷ text)
    else if has_high_bits w || has_high_bits x || has_high_bits y || has_high_bits z
    then false
    else more
runs_past bytes text = is_empty bytes && ends_in_pair text

pair_not_empty : (a b : ℕ) (encoded : Bytes) → decode_pair a b encoded ≢ ok []
unfolding decode_pair verify_from_base64 end_of_encoded
pair_not_empty a b encoded h = ground arith

not_empty_pair :
    (a b : ℕ) (bytes encoded : Bytes) → decode_pair a b encoded ≡ ok bytes → is_empty bytes ≡ false
not_empty_pair a b [] encoded h = absurd (pair_not_empty a b encoded h)
not_empty_pair a b (x ∷ bytes) encoded h = refl

pub and_false : (a : Bool) → (a && false) ≡ false
and_false true = refl
and_false false = refl

decode_partial-ends :
    (bytes text : Bytes)
    → decode_partial text ≡ ok bytes
    → (is_empty bytes && ends_in_pair text) ≡ false
unfolding decode_partial
decode_partial-ends bytes [] h = and_false (is_empty bytes)
decode_partial-ends bytes (a ∷ []) h = and_false (is_empty bytes)
decode_partial-ends bytes (a ∷ b ∷ []) h = rw (not_empty_pair a b bytes [] h) refl
decode_partial-ends bytes (a ∷ b ∷ c ∷ text) h = elim (Bool-cases (c == padding)) [
  | inl e ↦ rw (not_empty_pair a b bytes (c ∷ text) (rw e at h)) refl
  | inr e ↦ rw e (and_false (is_empty bytes))
]

strip_self : (x y z : ℕ) (rest : Bytes) → strip (x ∷ y ∷ z ∷ []) (x ∷ y ∷ z ∷ rest) ≡ some rest
strip_self x y z rest = ground arith

-- A text that decodes to the bytes does not go on past them.
pub decode_segments-runs_past :
    (bytes text : Bytes) → decode_segments text ≡ ok bytes → runs_past bytes text ≡ false
unfolding decode_segments runs_past verify_from_base64
decode_segments-runs_past bytes [] h = decode_partial-ends bytes [] h
decode_segments-runs_past bytes (a ∷ []) h = decode_partial-ends bytes (a ∷ []) h
decode_segments-runs_past bytes (a ∷ b ∷ []) h = decode_partial-ends bytes (a ∷ b ∷ []) h
decode_segments-runs_past bytes (a ∷ b ∷ c ∷ []) h = decode_partial-ends bytes (a ∷ b ∷ c ∷ []) h
decode_segments-runs_past bytes (a ∷ b ∷ c ∷ d ∷ text) h = elim (Bool-cases (d == padding)) [
  | inl e ↦ rw e (decode_partial-ends bytes (a ∷ b ∷ c ∷ d ∷ text) (rw e at h))
  | inr e ↦ elim (Outcome-cases (decode_segments text)) [
    | inl (rest, more) ↦ ground (arith, decode_segments-runs_past rest text more, h)
    | inr (x, stop) ↦ ground arith
  ]
]

pub from_base64-runs_past :
    (bytes text : Bytes) → from_base64 text ≡ ok bytes → runs_past bytes text ≡ false
unfolding from_base64 runs_past
from_base64-runs_past bytes [] h = and_false (is_empty bytes)
from_base64-runs_past bytes (c ∷ text) h = decode_segments-runs_past bytes (c ∷ text) h
