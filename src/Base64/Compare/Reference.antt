-- ===== src/Base64/Compare/Reference.antt =====
-- compareBase64 decides the lexicographic order of the bytes and the decoded text, but where it moves
-- its iterator past the end of the bytes.
use cppgraphqlgen.Base.{
  ℕ, ◌+◌, ◌*◌, ◌/◌, ◌%◌, ◌^◌, ◌≡◌, refl, [], ◌∷◌, ◌++◌, arith, ◌==◌, Bool-cases, inl, inr, Bool,
  true, false, ◌&&◌, ◌||◌, Option, none, some, if◌then◌else◌,
}
use cppgraphqlgen.Base.Text.{Bytes, lex_compare}
use cppgraphqlgen.Base.Outcome.{Outcome, ok, throw, undefined_behaviour, ◌>>=◌}
use cppgraphqlgen.Base64.{
  padding, from_base64_char, has_high_bits, verify_from_base64, decode_partial, decode_segments,
  from_base64,
}
use cppgraphqlgen.Base64.Compare.{
  Comparison, invalid_base64, less_than, equal_to, greater_than, compare_decoded, compare_more,
  compare_partial, compare_segments, compare_base64,
}
use cppgraphqlgen.Base64.Compare.RunsPast.{is_empty, strip, ends_in_pair, runs_past}
use cppgraphqlgen.Base64.Compare.Partial.{
  decided, decode_and_compare, answer, at_end, compare_more-append, compare_partial_lem,
}

-- The iterator moves only while the bytes so far are equal.
abbrev past : Comparison → Bytes → Bytes → Bool
past equal_to itr text = runs_past itr text
past result itr text = false

abbrev past_after : Comparison → Option Bytes → Bytes → Bool
past_after equal_to rest text = elim rest [ none ↦ false | some itr ↦ runs_past itr text ]
past_after result rest text = false

-- Where the iterator stands after whole segments.
past_decoded :
    (decoded itr text : Bytes)
    → let p = compare_decoded decoded itr in
      past p.0 p.1 text ≡ past_after equal_to (strip decoded itr) text
unfolding compare_decoded
past_decoded [] itr text = refl
past_decoded (v ∷ decoded) [] text = refl
past_decoded (v ∷ decoded) (x ∷ itr) text = ground (arith, past_decoded decoded itr text)

past_more :
    (result : Comparison) (decoded itr text : Bytes)
    → let p = compare_more result decoded itr in
      past p.0 p.1 text ≡ past_after result (strip decoded itr) text
unfolding compare_more
past_more equal_to decoded itr text = past_decoded decoded itr text
past_more invalid_base64 decoded itr text = refl
past_more less_than decoded itr text = refl
past_more greater_than decoded itr text = refl

decided_step :
    (result : Comparison) (decoded itr : Bytes) (more : Outcome Bytes)
    → let p = compare_more result decoded itr in
      decided p.0 p.1 more ≡ decided result itr (more >>= λ rest. ok (decoded ++ rest))
decided_step result decoded itr (ok rest) = compare_more-append result decoded rest itr
decided_step result decoded itr (throw e) = refl

past_short :
    (result : Comparison) (itr text : Bytes)
    → (runs_past itr text ≡ (is_empty itr && ends_in_pair text))
    → past result itr text ≡ (at_end result itr && ends_in_pair text)
past_short equal_to [] text e = e
past_short equal_to (x ∷ itr) text e = e
past_short invalid_base64 itr text e = refl
past_short less_than itr text e = refl
past_short greater_than itr text e = refl

compare_short :
    (result : Comparison) (itr text : Bytes)
    → (runs_past itr text ≡ (is_empty itr && ends_in_pair text))
    → compare_partial result itr text
      ≡ answer (past result itr text) (decided result itr (decode_partial text))
compare_short result itr text e =
    rw (past_short result itr text e) (compare_partial_lem result itr text)

module _ (itr : Bytes) (a b c d : ℕ) (text : Bytes) where
  runs_past-padded :
      (d == padding) ≡ true
      → runs_past itr (a ∷ b ∷ c ∷ d ∷ text) ≡ (is_empty itr && ends_in_pair (a ∷ b ∷ c ∷ d ∷ text))
  unfolding runs_past
  runs_past-padded e = rw e refl

  abbrev bad_characters : Bool
  bad_characters =
      has_high_bits (from_base64_char a)
      || has_high_bits (from_base64_char b)
      || has_high_bits (from_base64_char c)
      || has_high_bits (from_base64_char d)

  abbrev whole_segment : Bytes
  whole_segment =
      let segment =
        from_base64_char a * 2 ^ 18
        + from_base64_char b * 2 ^ 12
        + from_base64_char c * 2 ^ 6
        + from_base64_char d in
      (segment / 2 ^ 16 % 2 ^ 8) ∷ (segment / 2 ^ 8 % 2 ^ 8) ∷ (segment % 2 ^ 8) ∷ []

  past-segment :
      (result : Comparison)
      → (d == padding) ≡ false
      → past result itr (a ∷ b ∷ c ∷ d ∷ text)
        ≡ (if bad_characters then false else past_after result (strip whole_segment itr) text)
  unfolding runs_past
  past-segment equal_to e = rw e refl
  past-segment invalid_base64 e = ground arith
  past-segment less_than e = ground arith
  past-segment greater_than e = ground arith

compare_segments_lem :
    (result : Comparison) (itr text : Bytes)
    → compare_segments result itr text
      ≡ answer (past result itr text) (decided result itr (decode_segments text))
unfolding compare_segments decode_segments verify_from_base64 runs_past
compare_segments_lem result itr [] = compare_short result itr [] refl
compare_segments_lem result itr (a ∷ []) = compare_short result itr (a ∷ []) refl
compare_segments_lem result itr (a ∷ b ∷ []) = compare_short result itr (a ∷ b ∷ []) refl
compare_segments_lem result itr (a ∷ b ∷ c ∷ []) = compare_short result itr (a ∷ b ∷ c ∷ []) refl
compare_segments_lem result itr (a ∷ b ∷ c ∷ d ∷ text) = elim (Bool-cases (d == padding)) [
  | inl pad ↦
      rw pad
        (compare_short result itr (a ∷ b ∷ c ∷ d ∷ text) (runs_past-padded itr a b c d text pad))
  | inr full ↦
      let decoded = whole_segment itr a b c d text in
      let (result', itr') = compare_more result decoded itr in
      rw (full, past-segment itr a b c d text result full)
        (ground (
          arith,
          compare_segments_lem result' itr' text,
          past_more result decoded itr text,
          decided_step result decoded itr (decode_segments text),
        ))
]

-- Where the whole segments of the text spell the bytes and two characters that stand for one more
-- byte follow, the comparison moves its iterator past the end of the bytes, which is undefined.
-- Otherwise the comparison without allocation agrees with decoding the text by fromBase64 and
-- comparing the two byte vectors; a text that fromBase64 refuses compares as InvalidBase64.
pub compare_base64-eq-decode_and_compare :
    (bytes text : Bytes)
    → compare_base64 bytes text ≡ (
        if runs_past bytes text
        then throw undefined_behaviour
        else ok (decode_and_compare bytes text))
unfolding compare_base64 from_base64 lex_compare runs_past
compare_base64-eq-decode_and_compare [] [] = refl
compare_base64-eq-decode_and_compare (x ∷ bytes) [] = refl
compare_base64-eq-decode_and_compare [] (c ∷ text) = compare_segments_lem equal_to [] (c ∷ text)
compare_base64-eq-decode_and_compare (x ∷ bytes) (c ∷ text) =
    compare_segments_lem equal_to (x ∷ bytes) (c ∷ text)
