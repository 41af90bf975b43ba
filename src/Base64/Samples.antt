-- ===== src/Base64/Samples.antt =====
-- Texts with what src/Base64.cpp decodes them to.
use cppgraphqlgen.Base.{◌≡◌, refl, false, [], ◌∷◌, arith}
use cppgraphqlgen.Base.Text.{Bytes}
use cppgraphqlgen.Base.Outcome.{ok, is_ok}
use cppgraphqlgen.Base64.{
  from_base64, verify_from_base64, from_base64_char, decode_segments, decode_pair, decode_triplet,
  decode_partial, end_of_encoded,
}
use cppgraphqlgen.Base64.RoundTrip.{AreBytes}

-- "Many" in ASCII
abbrev pub many : Bytes
many = 77 ∷ 97 ∷ 110 ∷ 121 ∷ []

pub many-AreBytes : AreBytes many
many-AreBytes = (omega arith, (omega arith, (omega arith, (omega arith, tt))))

-- "TWFueQ=="
abbrev pub many_text : Bytes
many_text = 84 ∷ 87 ∷ 70 ∷ 117 ∷ 101 ∷ 81 ∷ 61 ∷ 61 ∷ []

-- "TWFueR==", whose last character has bits that no byte takes
abbrev pub stray_bits : Bytes
stray_bits = 84 ∷ 87 ∷ 70 ∷ 117 ∷ 101 ∷ 82 ∷ 61 ∷ 61 ∷ []

-- "TQ==" and "TQ", which both decode to 77
abbrev pub tq_padded : Bytes
tq_padded = 84 ∷ 81 ∷ 61 ∷ 61 ∷ []

abbrev pub tq : Bytes
tq = 84 ∷ 81 ∷ []

-- "/w==" and "AA==", which decode to 255 and 0
abbrev pub slash_w : Bytes
slash_w = 47 ∷ 119 ∷ 61 ∷ 61 ∷ []

abbrev pub a_a : Bytes
a_a = 65 ∷ 65 ∷ 61 ∷ 61 ∷ []

pub many_decodes : from_base64 many_text ≡ ok many
unfolding from_base64 verify_from_base64 from_base64_char decode_segments decode_pair decode_triplet
    decode_partial end_of_encoded
many_decodes = refl

pub stray_bits_refused : is_ok (from_base64 stray_bits) ≡ false
unfolding from_base64 verify_from_base64 from_base64_char decode_segments decode_pair decode_triplet
    decode_partial end_of_encoded
stray_bits_refused = refl

pub tq_padded_decodes : from_base64 tq_padded ≡ ok (77 ∷ [])
unfolding from_base64 verify_from_base64 from_base64_char decode_segments decode_pair decode_triplet
    decode_partial end_of_encoded
tq_padded_decodes = refl

pub tq_decodes : from_base64 tq ≡ ok (77 ∷ [])
unfolding from_base64 verify_from_base64 from_base64_char decode_segments decode_pair decode_triplet
    decode_partial end_of_encoded
tq_decodes = refl

pub slash_w_decodes : from_base64 slash_w ≡ ok (255 ∷ [])
unfolding from_base64 verify_from_base64 from_base64_char decode_segments decode_pair decode_triplet
    decode_partial end_of_encoded
slash_w_decodes = refl

pub a_a_decodes : from_base64 a_a ≡ ok (0 ∷ [])
unfolding from_base64 verify_from_base64 from_base64_char decode_segments decode_pair decode_triplet
    decode_partial end_of_encoded
a_a_decodes = refl
