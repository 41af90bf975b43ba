-- ===== src/Base64/Compare.antt =====
-- Base64::compareBase64 of src/Base64.cpp: bytes against text that may be Base64, decoded segment
-- by segment beside the bytes. `result` and `itr` are the function's variables; an iterator is the
-- list of bytes from where it stands.
pub mod Partial
pub mod Reference
pub mod RunsPast
use cppgraphqlgen.Base.{
  ℕ, ◌+◌, ◌*◌, ◌/◌, ◌%◌, ◌^◌, Bool, not, ◌||◌, [], ◌∷◌, ltb, ◌==◌, if◌then◌else◌,
}
use cppgraphqlgen.Base.Text.{Bytes}
use cppgraphqlgen.Base.Outcome.{Outcome, ok, throw, undefined_behaviour, ◌>>=◌}
use cppgraphqlgen.Base64.{padding, from_base64_char, has_high_bits, is_padding}

pub data Comparison : Type 0 where
  invalid_base64 less_than equal_to greater_than : Comparison

-- The inner loop of compareBase64: the outcome, and the bytes from where `itr` stands.
pub compare_decoded : Bytes → Bytes → Comparison × Bytes
compare_decoded [] itr = (equal_to, itr)
compare_decoded (value ∷ decoded) [] = (less_than, [])
compare_decoded (value ∷ decoded) (x ∷ itr) =
    let next = compare_decoded decoded itr in
    if x == value then next else (if ltb x value then less_than else greater_than, x ∷ itr)

-- `if (Comparison::EqualTo == result)` around that loop
pub compare_more : Comparison → Bytes → Bytes → Comparison × Bytes
compare_more equal_to decoded itr = compare_decoded decoded itr
compare_more result decoded itr = (result, itr)

-- An equal result stands only if `itr` has reached the end of the byte vector.
compare_rest : Comparison → Bytes → Comparison
compare_rest equal_to (x ∷ itr) = greater_than
compare_rest result itr = result

-- What compareBase64 does with its result below the partial segment.
pub compare_end : Comparison → Bytes → Bytes → Comparison
unfolding compare_rest
compare_end result itr encoded =
    if is_padding encoded then compare_rest result itr else invalid_base64

pub compare_triplet : Comparison → Bytes → ℕ → ℕ → ℕ → Bytes → Comparison
compare_triplet result itr a b c encoded =
    let x = from_base64_char a in
    let y = from_base64_char b in
    let z = from_base64_char c in
    let segment = x * 2 ^ 10 + y * 2 ^ 4 + z / 2 ^ 2 in
    let (result', itr') = compare_more result ((segment / 2 ^ 8) ∷ (segment % 2 ^ 8) ∷ []) itr in
    if (has_high_bits x || has_high_bits y || has_high_bits z) || not (z % 4 == 0)
    then invalid_base64
    else compare_end result' itr' encoded

-- The comparison with the one byte of a pair. It moves `itr` on whatever the outcome is, also where
-- `itr` is at the end of the vector.
pub compare_one : Comparison → ℕ → Bytes → Outcome (Comparison × Bytes)
compare_one equal_to value [] = throw undefined_behaviour
compare_one equal_to value (x ∷ itr) =
    if x == value
    then ok (equal_to, itr)
    else ok (if ltb x value then less_than else greater_than, itr)
compare_one result value itr = ok (result, itr)

pub compare_pair : Comparison → Bytes → ℕ → ℕ → Bytes → Outcome Comparison
compare_pair result itr a b encoded =
    let x = from_base64_char a in
    let y = from_base64_char b in
    let segment = x * 2 ^ 10 + y * 2 ^ 4 in
    if (has_high_bits x || has_high_bits y) || not (segment % 2 ^ 8 == 0)
    then ok invalid_base64
    else (compare_one result (segment / 2 ^ 8) itr >>= λ p. ok (compare_end p.0 p.1 encoded))

pub compare_partial : Comparison → Bytes → Bytes → Outcome Comparison
compare_partial result itr (a ∷ b ∷ []) = compare_pair result itr a b []
compare_partial result itr (a ∷ b ∷ c ∷ encoded) =
    if c == padding
    then compare_pair result itr a b (c ∷ encoded)
    else ok (compare_triplet result itr a b c encoded)
compare_partial result itr encoded = ok (compare_end result itr encoded)

pub compare_segments : Comparison → Bytes → Bytes → Outcome Comparison
compare_segments result itr (a ∷ b ∷ c ∷ d ∷ encoded) =
    let w = from_base64_char a in
    let x = from_base64_char b in
    let y = from_base64_char c in
    let z = from_base64_char d in
    let segment = w * 2 ^ 18 + x * 2 ^ 12 + y * 2 ^ 6 + z in
    let decoded = (segment / 2 ^ 16 % 2 ^ 8) ∷ (segment / 2 ^ 8 % 2 ^ 8) ∷ (segment % 2 ^ 8) ∷ [] in
    let (result', itr') = compare_more result decoded itr in
    let more = compare_segments result' itr' encoded in
    let full =
      if has_high_bits w || has_high_bits x || has_high_bits y || has_high_bits z
      then ok invalid_base64
      else more in
    if d == padding then compare_partial result itr (a ∷ b ∷ c ∷ d ∷ encoded) else full
compare_segments result itr encoded = compare_partial result itr encoded

pub compare_base64 : Bytes → Bytes → Outcome Comparison
compare_base64 [] [] = ok equal_to
compare_base64 (x ∷ bytes) [] = ok greater_than
compare_base64 bytes encoded = compare_segments equal_to bytes encoded
