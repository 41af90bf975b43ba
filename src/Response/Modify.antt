-- ===== src/Response/Modify.antt =====
-- The calls that change a Value: set for each type, release, reserve and both emplace_back. Each
-- returns the new `_data`; release returns the value that is taken, and what it leaves of a map.
use cppgraphqlgen.Base.{ℕ, Bool, true, false, ◌||◌, List, [], ◌∷◌, length, if◌then◌else◌}
use cppgraphqlgen.Base.Text.{Bytes, bytes_lt}
use cppgraphqlgen.Base.EqualRange.{insert_unique}
use cppgraphqlgen.Base.Int.{ℤ}
use cppgraphqlgen.Base.Double.{Double, double_of_int}
use cppgraphqlgen.Base.Outcome.{Outcome, ok, throw, bad_variant_access, ◌>>=◌}
use cppgraphqlgen.IdType.{IdType, opaque_string, release_opaque_string}
use cppgraphqlgen.Response.{
  Value, Members, Items, map_data, list_data, string_data, boolean, int, float, enum_data, id,
  scalar_data, null_scalar, shared_data, no_members, push_member, push_item, type_of, map_type,
  list_type,
}
use cppgraphqlgen.Response.Access.{invalid_call}
use cppgraphqlgen.Response.Vectors.{name_at}
use cppgraphqlgen.Response.Copy.{unshare}

unfoldable pub set_string : Bytes → Value → Outcome Value
set_string value this = do
  v ← unshare this
  elim v [
    | enum_data s ↦ ok (enum_data value)
    | id x ↦ ok (id (opaque_string value))
    | string_data s json input ↦ ok (string_data value json input)
    | _ ↦ invalid_call "Invalid call to Value::set for StringType"
  ]

unfoldable pub set_boolean : Bool → Value → Outcome Value
set_boolean value this = do
  v ← unshare this
  elim v [
    | boolean b ↦ ok (boolean value)
    | _ ↦ invalid_call "Invalid call to Value::set for BooleanType"
  ]

-- An int is coerced where the value is a double.
unfoldable pub set_int : ℤ → Value → Outcome Value
set_int value this = do
  v ← unshare this
  elim v [
    | float d ↦ ok (float (double_of_int value))
    | int i ↦ ok (int value)
    | _ ↦ invalid_call "Invalid call to Value::set for IntType"
  ]

unfoldable pub set_float : Double → Value → Outcome Value
set_float value this = do
  v ← unshare this
  elim v [
    | float d ↦ ok (float value)
    | _ ↦ invalid_call "Invalid call to Value::set for FloatType"
  ]

unfoldable pub set_scalar : Value → Value → Outcome Value
set_scalar value this = do
  v ← unshare this
  elim v [
    | scalar_data s ↦ ok (scalar_data value)
    | null_scalar ↦ ok (scalar_data value)
    | _ ↦ invalid_call "Invalid call to Value::set for ScalarType"
  ]

unfoldable pub set_id : IdType → Value → Outcome Value
set_id value this = do
  v ← unshare this
  elim v [ id x ↦ ok (id value) | _ ↦ invalid_call "Invalid call to Value::set for IdType" ]

-- The members, and the empty map that is left.
unfoldable pub release_map : Value → Outcome (Members × Value)
release_map this = do
  v ← unshare this
  elim v [
    | map_data ms members ↦ ok (ms, map_data no_members [])
    | _ ↦ invalid_call "Invalid call to Value::release for MapType"
  ]

unfoldable pub release_list : Value → Outcome Items
release_list this = do
  v ← unshare this
  elim v [ list_data xs ↦ ok xs | _ ↦ invalid_call "Invalid call to Value::release for ListType" ]

unfoldable pub release_string : Value → Outcome Bytes
release_string this = do
  v ← unshare this
  elim v [
    | enum_data s ↦ ok s
    | id x ↦ release_opaque_string x
    | string_data s json input ↦ ok s
    | _ ↦ invalid_call "Invalid call to Value::release for StringType"
  ]

unfoldable pub release_scalar : Value → Outcome Value
release_scalar this = do
  v ← unshare this
  elim v [ scalar_data s ↦ ok s | _ ↦ invalid_call "Invalid call to Value::release for ScalarType" ]

-- A string from JSON or from an input literal may be an identifier.
unfoldable pub release_id : Value → Outcome IdType
release_id this = do
  v ← unshare this
  elim v [
    | id x ↦ ok x
    | string_data s json input ↦
        if json || input
        then ok (opaque_string s)
        else invalid_call "Invalid call to Value::release for IdType"
    | _ ↦ invalid_call "Invalid call to Value::release for IdType"
  ]

-- Value::emplace_back for a list.
unfoldable pub emplace_back_item : Value → Value → Outcome Value
emplace_back_item value this = do
  v ← unshare this
  elim v [
    | list_data xs ↦ ok (list_data (push_item xs value))
    | _ ↦ invalid_call "Invalid call to Value::emplace_back for ListType"
  ]

-- The insertion into a map: `members` keeps the indices of the map in the order of their names.
-- The comparison reads the names in the map, and the new name for std::nullopt.
unfoldable pub insert_member : Bytes → Value → Members → List ℕ → Value × Bool
insert_member name value ms members =
    let (members', done) = insert_unique bytes_lt (name_at ms) name (length members) members in
    if done
    then (map_data (push_member ms name value) members', true)
    else (map_data ms members, false)

-- Value::emplace_back for a map; false, and no change, if the name is there.
unfoldable pub emplace_back : Bytes → Value → Value → Outcome (Value × Bool)
unfolding insert_member
emplace_back name value this = do
  v ← unshare this
  elim v [
    | map_data ms members ↦ ok (insert_member name value ms members)
    | _ ↦ invalid_call "Invalid call to Value::emplace_back for MapType"
  ]

-- Value::reserve changes no more than the sharing. On a value shared twice, std::get fails, since
-- type() looks through both levels.
unfoldable pub reserve : Value → Outcome Value
reserve this = do
  v ← unshare this
  elim v [
    | map_data ms members ↦ ok (map_data ms members)
    | list_data xs ↦ ok (list_data xs)
    | shared_data w ↦ elim (type_of w) [
      | map_type ↦ throw bad_variant_access
      | list_type ↦ throw bad_variant_access
      | _ ↦ invalid_call "Invalid call to Value::reserve"
    ]
    | _ ↦ invalid_call "Invalid call to Value::reserve"
  ]

-- A loop that appends a value for each element to a list.
unfoldable pub append_each {ℓ} : {A : Type ℓ} → (A → Outcome Value) → List A → Value → Outcome Value
append_each build [] list = ok list
append_each build (a ∷ rest) list = do
  value ← build a
  next ← emplace_back_item value list
  append_each build rest next
