-- ===== src/IdType/Release.antt =====
-- What the release methods of IdType return.
use cppgraphqlgen.Base.{◌≡◌, refl, ap, true}
use cppgraphqlgen.Base.Text.{Bytes, bytes_eq_refl}
use cppgraphqlgen.Base.Outcome.{ok, is_ok, ok-injective}
use cppgraphqlgen.Base64.RoundTrip.{AreBytes, from_base64-to_base64, length-to_base64}
use cppgraphqlgen.Base64.Validate.{validate_base64-is_ok}
use cppgraphqlgen.IdType.{
  IdType, byte_data, opaque_string, id_eq, is_base64, release_byte_data, release_opaque_string,
}
use cppgraphqlgen.IdType.Equality.{compared-decodes}

-- The bytes that an identifier holds are std::uint8_t.
abbrev pub HoldsBytes : IdType → Type 0
HoldsBytes (byte_data a) = AreBytes a
HoldsBytes (opaque_string a) = Unit

-- isBase64 says whether releasing the bytes returns and does not throw.
pub is_base64-release : (x : IdType) → is_base64 x ≡ is_ok (release_byte_data x)
unfolding is_base64 release_byte_data
is_base64-release (byte_data a) = refl
is_base64-release (opaque_string a) = validate_base64-is_ok a

-- Releasing the text of an identifier never throws, and the text as an identifier equals it.
pub release_opaque_string-eq :
    (x : IdType)
    → HoldsBytes x
    → (text : Bytes) × (release_opaque_string x ≡ ok text)
      × (id_eq x (opaque_string text) ≡ ok true)
unfolding release_opaque_string id_eq
release_opaque_string-eq (opaque_string a) h = (a, refl, ap ok (bytes_eq_refl a))
release_opaque_string-eq (byte_data a) h =
    let (text, encoded, size) = length-to_base64 a h in
    (text, encoded, (compared-decodes a text).1 (rw encoded at (from_base64-to_base64 a h)))

-- Bytes that releasing an identifier returns are equal to it as an identifier.
pub release_byte_data-eq :
    (x : IdType) {bytes : Bytes}
    → release_byte_data x ≡ ok bytes
    → id_eq x (byte_data bytes) ≡ ok true
unfolding release_byte_data id_eq
release_byte_data-eq (byte_data a) h = rw (ok-injective h) (ap ok (bytes_eq_refl _))
release_byte_data-eq (opaque_string a) {bytes} h = (compared-decodes bytes a).1 h
