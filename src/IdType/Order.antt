-- ===== src/IdType/Order.antt =====
-- operator< of IdType.
use cppgraphqlgen.Base.{
  ◌≡◌, refl, Bool, true, false, arith, ap, ◌∙◌, Bool-cases, inl, inr, if◌then◌else◌,
}
use cppgraphqlgen.Base.Text.{Bytes, bytes_lt, lex_compare-opposite}
use cppgraphqlgen.Base.Outcome.{Outcome, ok, throw, undefined_behaviour}
use cppgraphqlgen.Base64.{from_base64}
use cppgraphqlgen.Base64.Compare.{equal_to}
use cppgraphqlgen.Base64.Compare.RunsPast.{runs_past}
use cppgraphqlgen.Base64.Compare.Partial.{decided}
use cppgraphqlgen.IdType.{byte_data, opaque_string, id_eq, id_lt, below_equal, above_equal}
use cppgraphqlgen.IdType.Equality.{compared-past, compared-within, compared-decodes}

-- Bytes against the outcome of decoding a text: less than each text that does not decode.
abbrev pub less_than_decoded : Bytes → Outcome Bytes → Bool
less_than_decoded a (ok c) = bytes_lt a c
less_than_decoded a (throw e) = true

abbrev pub decoded_less_than : Outcome Bytes → Bytes → Bool
decoded_less_than (ok c) a = bytes_lt c a
decoded_less_than (throw e) a = false

below-decided :
    (a : Bytes) (r : Outcome Bytes) → below_equal (decided equal_to a r) ≡ less_than_decoded a r
unfolding bytes_lt
below-decided a (ok c) = ground arith
below-decided a (throw e) = refl

above-decided :
    (a : Bytes) (r : Outcome Bytes) → above_equal (decided equal_to a r) ≡ decoded_less_than r a
unfolding bytes_lt
above-decided a (ok c) = ground (arith, lex_compare-opposite a c)
above-decided a (throw e) = refl

-- An identifier of bytes is less than one of text exactly where the bytes are below those that the
-- text decodes to, or the text does not decode, and greater exactly where they are above them; where
-- the comparison of the two runs past the end of the bytes, both calls are undefined.
pub id_lt-decoded :
    (a b : Bytes)
    → (id_lt (byte_data a) (opaque_string b) ≡ (
        if runs_past a b
        then throw undefined_behaviour
        else ok (less_than_decoded a (from_base64 b))))
      × (id_lt (opaque_string b) (byte_data a) ≡ (
          if runs_past a b
          then throw undefined_behaviour
          else ok (decoded_less_than (from_base64 b) a)))
unfolding id_lt
id_lt-decoded a b = elim (Bool-cases (runs_past a b)) [
  | inl e ↦ rw e (compared-past below_equal a b e, compared-past above_equal a b e)
  | inr e ↦ rw e (
    compared-within below_equal a b e ∙ ap ok (below-decided a (from_base64 b)),
    compared-within above_equal a b e ∙ ap ok (above-decided a (from_base64 b)),
  )
]

-- operator< is not transitive over operator==: where the order of two texts is not that of the
-- bytes that they decode to, bytes are less than a text that is less than a text equal to them.
pub id_lt_not_trans :
    (a b c d : Bytes)
    → from_base64 c ≡ ok a
    → from_base64 d ≡ ok b
    → runs_past a d ≡ false
    → bytes_lt a b ≡ true
    → bytes_lt d c ≡ true
    → (id_lt (byte_data a) (opaque_string d) ≡ ok true)
      × (id_lt (opaque_string d) (opaque_string c) ≡ ok true)
      × (id_eq (byte_data a) (opaque_string c) ≡ ok true)
unfolding id_lt id_eq
id_lt_not_trans a b c d hc hd within l m = (
  compared-within below_equal a d within
      ∙ ap ok (below-decided a (from_base64 d) ∙ ap (less_than_decoded a) hd ∙ l),
  ap ok m,
  (compared-decodes a c).1 hc,
)
