-- ===== src/IdType.antt =====
-- response::IdType of src/GraphQLResponse.cpp: a global object identifier that holds bytes, or text
-- that may be the Base64 encoding of bytes. An IdType is a value: a call that changes it returns
-- the new one, and `release` is modelled by what it returns, since it leaves the object moved-from.
pub mod Equality
pub mod Order
pub mod Release
mod Examples
use cppgraphqlgen.Base.{
  ℕ, zero, suc, Bool, true, false, not, ◌||◌, Option, none, some, [], ◌∷◌, get_elem?, length,
  String, if◌then◌else◌,
}
use cppgraphqlgen.Base.Text.{Bytes, bytes_eq, bytes_lt}
use cppgraphqlgen.Base.Outcome.{Outcome, ok, throw, logic_error, out_of_range, ◌>>=◌}
use cppgraphqlgen.Base64.{from_base64, to_base64}
use cppgraphqlgen.Base64.Validate.{validate_base64}
use cppgraphqlgen.Base64.Compare.{
  Comparison, invalid_base64, less_than, equal_to, greater_than, compare_base64,
}

-- std::variant<ByteData, OpaqueString>
pub data IdType : Type 0 where
  byte_data : Bytes → IdType
  opaque_string : Bytes → IdType

-- The default argument of the move constructor.
abbrev pub empty_id : IdType
empty_id = byte_data []

abbrev pub is_equal_to : Comparison → Bool
is_equal_to equal_to = true
is_equal_to _ = false

-- `< Comparison::EqualTo` and `> Comparison::EqualTo` on the values of the enumeration
abbrev pub below_equal : Comparison → Bool
below_equal invalid_base64 = true
below_equal less_than = true
below_equal _ = false

abbrev pub above_equal : Comparison → Bool
above_equal greater_than = true
above_equal _ = false

-- A test of what compareBase64 returns.
abbrev pub compared : (Comparison → Bool) → Bytes → Bytes → Outcome Bool
compared test bytes text = compare_base64 bytes text >>= λ comparison. ok (test comparison)

unfoldable pub id_eq : IdType → IdType → Outcome Bool
id_eq (byte_data a) (byte_data b) = ok (bytes_eq a b)
id_eq (opaque_string a) (opaque_string b) = ok (bytes_eq a b)
id_eq (byte_data a) (opaque_string b) = compared is_equal_to a b
id_eq (opaque_string a) (byte_data b) = compared is_equal_to b a

unfoldable pub id_eq_bytes : IdType → Bytes → Outcome Bool
id_eq_bytes (byte_data a) rhs = ok (bytes_eq a rhs)
id_eq_bytes (opaque_string a) rhs = compared is_equal_to rhs a

unfoldable pub id_eq_string : IdType → Bytes → Outcome Bool
id_eq_string (opaque_string a) rhs = ok (bytes_eq a rhs)
id_eq_string (byte_data a) rhs = compared is_equal_to a rhs

unfoldable pub id_lt : IdType → IdType → Outcome Bool
id_lt (byte_data a) (byte_data b) = ok (bytes_lt a b)
id_lt (opaque_string a) (opaque_string b) = ok (bytes_lt a b)
id_lt (byte_data a) (opaque_string b) = compared below_equal a b
id_lt (opaque_string a) (byte_data b) = compared above_equal b a

unfoldable pub is_base64 : IdType → Bool
is_base64 (byte_data a) = true
is_base64 (opaque_string a) = validate_base64 a

unfoldable pub id_empty : IdType → Bool
id_empty (byte_data []) = true
id_empty (opaque_string []) = true
id_empty _ = false

unfoldable pub id_size : IdType → ℕ
id_size (byte_data a) = length a
id_size (opaque_string a) = length a

unfoldable pub id_clear : IdType → IdType
id_clear (byte_data a) = byte_data []
id_clear (opaque_string a) = opaque_string []

-- The accessors of the bytes, which throw for text. `std::vector::at` throws out of range.
unfoldable pub id_at : IdType → ℕ → Outcome ℕ
id_at (byte_data a) i = elim (get_elem? a i) [
  | some b ↦ ok b
  | none ↦ throw (out_of_range "vector::at")
]
id_at (opaque_string a) i = throw (logic_error "Invalid call to IdType::at for ByteData")

unfoldable pub get_byte_data : IdType → Outcome Bytes
get_byte_data (byte_data a) = ok a
get_byte_data (opaque_string a) = throw (logic_error "Invalid call to IdType::get for ByteData")

unfoldable pub get_opaque_string : IdType → Outcome Bytes
get_opaque_string (opaque_string a) = ok a
get_opaque_string (byte_data a) = throw (logic_error "Invalid call to IdType::get for OpaqueString")

unfoldable pub release_byte_data : IdType → Outcome Bytes
release_byte_data (byte_data a) = ok a
release_byte_data (opaque_string a) = from_base64 a

unfoldable pub release_opaque_string : IdType → Outcome Bytes
release_opaque_string (opaque_string a) = ok a
release_opaque_string (byte_data a) = to_base64 a
