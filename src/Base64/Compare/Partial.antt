-- ===== src/Base64/Compare/Partial.antt =====
-- The partial segment at the end of compareBase64, against decoding it and comparing the bytes.
use cppgraphqlgen.Base.{
  ℕ, ◌+◌, ◌*◌, ◌/◌, ◌%◌, ◌^◌, ◌≡◌, ◌≢◌, refl, [], ◌∷◌, ◌++◌, ◌∙◌, append-nil, arith, ◌==◌,
  Bool-cases, inl, inr, Bool, true, false, ◌&&◌, if◌then◌else◌,
}
use cppgraphqlgen.Base.Text.{Bytes, ThreeWay, less, equal, greater, lex_compare}
use cppgraphqlgen.Base.Outcome.{Outcome, ok, throw, undefined_behaviour, is_ok, ◌>>=◌}
use cppgraphqlgen.Base64.{
  padding, from_base64_char, is_padding, verify_from_base64, end_of_encoded, decode_pair,
  decode_triplet, decode_partial, from_base64,
}
use cppgraphqlgen.Base64.Compare.{
  Comparison, invalid_base64, less_than, equal_to, greater_than, compare_decoded, compare_more,
  compare_one, compare_rest, compare_end, compare_pair, compare_triplet, compare_partial,
}
use cppgraphqlgen.Base64.Compare.RunsPast.{ends_in_pair, and_false}

abbrev pub of_order : ThreeWay → Comparison
of_order less = less_than
of_order equal = equal_to
of_order greater = greater_than

-- What is left to find out when the comparison so far has given `result`.
abbrev pub remaining : Comparison → Bytes → Bytes → Comparison
remaining equal_to itr decoded = of_order (lex_compare itr decoded)
remaining result itr decoded = result

abbrev pub decided : Comparison → Bytes → Outcome Bytes → Comparison
decided result itr (ok decoded) = remaining result itr decoded
decided result itr (throw e) = invalid_base64

-- The reference: decode the text, and compare the vectors.
abbrev pub decode_and_compare : Bytes → Bytes → Comparison
decode_and_compare bytes text = decided equal_to bytes (from_base64 text)

abbrev pub answer : Bool → Comparison → Outcome Comparison
answer past comparison = if past then throw undefined_behaviour else ok comparison

abbrev pub after : Comparison × Bytes → Bytes → Comparison
after p decoded = remaining p.0 p.1 decoded

pub compare_decoded-append :
    (decoded more itr : Bytes)
    → after (compare_decoded decoded itr) more ≡ of_order (lex_compare itr (decoded ++ more))
unfolding compare_decoded lex_compare
compare_decoded-append [] more itr = refl
compare_decoded-append (v ∷ decoded) more [] = refl
compare_decoded-append (v ∷ decoded) more (x ∷ itr) =
    ground (arith, compare_decoded-append decoded more itr)

pub compare_more-append :
    (result : Comparison) (decoded more itr : Bytes)
    → after (compare_more result decoded itr) more ≡ remaining result itr (decoded ++ more)
unfolding compare_more
compare_more-append equal_to decoded more itr = compare_decoded-append decoded more itr
compare_more-append invalid_base64 decoded more itr = refl
compare_more-append less_than decoded more itr = refl
compare_more-append greater_than decoded more itr = refl

compare_rest_lem :
    (result : Comparison) (itr : Bytes) → compare_rest result itr ≡ remaining result itr []
unfolding compare_rest lex_compare
compare_rest_lem equal_to [] = refl
compare_rest_lem equal_to (x ∷ itr) = refl
compare_rest_lem invalid_base64 itr = refl
compare_rest_lem less_than itr = refl
compare_rest_lem greater_than itr = refl

-- The end of the comparison after `decoded`, the last bytes of the text.
compare_end_lem :
    (result : Comparison) (decoded itr encoded : Bytes)
    → let p = compare_more result decoded itr in
      compare_end p.0 p.1 encoded ≡ decided result itr (end_of_encoded decoded encoded)
unfolding compare_end end_of_encoded
compare_end_lem result decoded itr encoded =
    let (result', itr') = compare_more result decoded itr in
    elim (Bool-cases (is_padding encoded)) [
      | inl pad ↦ rw pad (
          compare_rest_lem result' itr' ∙ compare_more-append result decoded [] itr ∙ rw append-nil)
      | inr bad ↦ rw bad
    ]

compare_one-more :
    (value x : ℕ) (itr encoded : Bytes)
    → (compare_one equal_to value (x ∷ itr) >>= λ p. ok (compare_end p.0 p.1 encoded))
      ≡ ok (let p = compare_more equal_to (value ∷ []) (x ∷ itr) in compare_end p.0 p.1 encoded)
unfolding compare_one compare_more compare_decoded compare_end compare_rest
compare_one-more value x itr encoded = ground arith

module _ (a b : ℕ) (encoded : Bytes) where
  -- The iterator stands at the end of the bytes.
  pair_past :
      compare_pair equal_to [] a b encoded
      ≡ answer (is_ok (decode_pair a b [])) (decided equal_to [] (decode_pair a b encoded))
  unfolding compare_pair compare_one decode_pair verify_from_base64 end_of_encoded
  pair_past = ground arith

  pair_within :
      (x : ℕ) (itr : Bytes)
      → compare_pair equal_to (x ∷ itr) a b encoded
        ≡ ok (decided equal_to (x ∷ itr) (decode_pair a b encoded))
  unfolding compare_pair decode_pair verify_from_base64
  pair_within x itr =
      let segment = from_base64_char a * 2 ^ 10 + from_base64_char b * 2 ^ 4 in
      ground (
        arith,
        compare_one-more (segment / 2 ^ 8) x itr encoded,
        compare_end_lem equal_to ((segment / 2 ^ 8) ∷ []) (x ∷ itr) encoded,
      )

-- Where the comparison has ended before, the pair does not move the iterator.
pair_ended :
    (result : Comparison) (itr : Bytes) (a b : ℕ) (encoded : Bytes)
    → result ≢ equal_to
    → compare_pair result itr a b encoded ≡ ok (decided result itr (decode_pair a b encoded))
unfolding compare_pair compare_one compare_more decode_pair verify_from_base64
pair_ended equal_to itr a b encoded n = absurd (n refl)
pair_ended invalid_base64 itr a b encoded n =
    let value = (from_base64_char a * 2 ^ 10 + from_base64_char b * 2 ^ 4) / 2 ^ 8 in
    ground (arith, compare_end_lem invalid_base64 (value ∷ []) itr encoded)
pair_ended less_than itr a b encoded n =
    let value = (from_base64_char a * 2 ^ 10 + from_base64_char b * 2 ^ 4) / 2 ^ 8 in
    ground (arith, compare_end_lem less_than (value ∷ []) itr encoded)
pair_ended greater_than itr a b encoded n =
    let value = (from_base64_char a * 2 ^ 10 + from_base64_char b * 2 ^ 4) / 2 ^ 8 in
    ground (arith, compare_end_lem greater_than (value ∷ []) itr encoded)

abbrev pub at_end : Comparison → Bytes → Bool
at_end equal_to [] = true
at_end result itr = false

module _ (result : Comparison) (itr : Bytes) where
  compare_triplet_lem :
      (a b c : ℕ) (encoded : Bytes)
      → compare_triplet result itr a b c encoded ≡ decided result itr (decode_triplet a b c encoded)
  unfolding compare_triplet decode_triplet verify_from_base64
  compare_triplet_lem a b c encoded =
      let segment =
        from_base64_char a * 2 ^ 10 + from_base64_char b * 2 ^ 4 + from_base64_char c / 2 ^ 2 in
      ground
        (arith, compare_end_lem result ((segment / 2 ^ 8) ∷ (segment % 2 ^ 8) ∷ []) itr encoded)

  compare_nothing :
      (encoded : Bytes)
      → compare_end result itr encoded ≡ decided result itr (end_of_encoded [] encoded)
  unfolding compare_end end_of_encoded
  compare_nothing encoded = elim (Bool-cases (is_padding encoded)) [
    | inl pad ↦ rw pad (compare_rest_lem result itr)
    | inr bad ↦ rw bad
  ]

compare_pair_lem :
    (result : Comparison) (itr : Bytes) (a b : ℕ) (encoded : Bytes)
    → compare_pair result itr a b encoded
      ≡ answer
          (at_end result itr && is_ok (decode_pair a b []))
          (decided result itr (decode_pair a b encoded))
compare_pair_lem equal_to [] a b encoded = pair_past a b encoded
compare_pair_lem equal_to (x ∷ itr) a b encoded = pair_within a b encoded x itr
compare_pair_lem invalid_base64 itr a b encoded =
    pair_ended invalid_base64 itr a b encoded (λ e. cc)
compare_pair_lem less_than itr a b encoded = pair_ended less_than itr a b encoded (λ e. cc)
compare_pair_lem greater_than itr a b encoded = pair_ended greater_than itr a b encoded (λ e. cc)

pub compare_partial_lem :
    (result : Comparison) (itr text : Bytes)
    → compare_partial result itr text
      ≡ answer (at_end result itr && ends_in_pair text) (decided result itr (decode_partial text))
unfolding compare_partial decode_partial
compare_partial_lem result itr [] = rw (and_false, compare_nothing result itr [])
compare_partial_lem result itr (a ∷ []) = rw (and_false, compare_nothing result itr (a ∷ []))
compare_partial_lem result itr (a ∷ b ∷ []) = compare_pair_lem result itr a b []
compare_partial_lem result itr (a ∷ b ∷ c ∷ text) = elim (Bool-cases (c == padding)) [
  | inl pair ↦ rw pair (compare_pair_lem result itr a b (c ∷ text))
  | inr triplet ↦ rw (triplet, and_false, compare_triplet_lem result itr a b c text)
]
