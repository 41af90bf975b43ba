-- ===== src/Response/Access.antt =====
-- The const accessors of Value: Value::get for each type, maybe_enum, maybe_id and size.
use cppgraphqlgen.Base.{ℕ, Bool, true, false, ◌||◌, String, none, some}
use cppgraphqlgen.Base.Text.{Bytes}
use cppgraphqlgen.Base.Int.{ℤ}
use cppgraphqlgen.Base.Double.{Double, double_of_int}
use cppgraphqlgen.Base.Outcome.{Outcome, ok, throw, logic_error, out_of_range}
use cppgraphqlgen.IdType.{IdType, get_opaque_string}
use cppgraphqlgen.Response.{
  Value, Members, Items, map_data, list_data, string_data, boolean, int, float, enum_data, id,
  scalar_data, resolve,
}
use cppgraphqlgen.Response.Vectors.{count, count_items, item_at}

abbrev pub invalid_call {ℓ} : {A : Type ℓ} → String → Outcome A
invalid_call message = throw (logic_error message)

unfoldable pub get_map : Value → Outcome Members
unfolding resolve
get_map v = elim (resolve v) [
  | map_data ms members ↦ ok ms
  | _ ↦ invalid_call "Invalid call to Value::get for MapType"
]

unfoldable pub get_list : Value → Outcome Items
unfolding resolve
get_list v = elim (resolve v) [
  | list_data xs ↦ ok xs
  | _ ↦ invalid_call "Invalid call to Value::get for ListType"
]

unfoldable pub get_string : Value → Outcome Bytes
unfolding resolve get_opaque_string
get_string v = elim (resolve v) [
  | enum_data s ↦ ok s
  | id x ↦ get_opaque_string x
  | string_data s json input ↦ ok s
  | _ ↦ invalid_call "Invalid call to Value::get for StringType"
]

unfoldable pub get_boolean : Value → Outcome Bool
unfolding resolve
get_boolean v = elim (resolve v) [
  | boolean b ↦ ok b
  | _ ↦ invalid_call "Invalid call to Value::get for BooleanType"
]

unfoldable pub get_int : Value → Outcome ℤ
unfolding resolve
get_int v = elim (resolve v) [
  | int i ↦ ok i
  | _ ↦ invalid_call "Invalid call to Value::get for IntType"
]

-- An int is coerced to a double.
unfoldable pub get_float : Value → Outcome Double
unfolding resolve
get_float v = elim (resolve v) [
  | int i ↦ ok (double_of_int i)
  | float d ↦ ok d
  | _ ↦ invalid_call "Invalid call to Value::get for FloatType"
]

unfoldable pub get_scalar : Value → Outcome Value
unfolding resolve
get_scalar v = elim (resolve v) [
  | scalar_data s ↦ ok s
  | _ ↦ invalid_call "Invalid call to Value::get for ScalarType"
]

unfoldable pub get_id : Value → Outcome IdType
unfolding resolve
get_id v = elim (resolve v) [
  | id x ↦ ok x
  | _ ↦ invalid_call "Invalid call to Value::get for IdType"
]

unfoldable pub maybe_enum : Value → Bool
unfolding resolve
maybe_enum v = elim (resolve v) [ enum_data s ↦ true | string_data s json input ↦ json | _ ↦ false ]

unfoldable pub maybe_id : Value → Bool
unfolding resolve
maybe_id v = elim (resolve v) [ id x ↦ true | string_data s json input ↦ json || input | _ ↦ false ]

-- Value::size switches on type(), and reads data().
unfoldable pub size : Value → Outcome ℕ
unfolding resolve
size v = elim (resolve v) [
  | map_data ms members ↦ ok (count ms)
  | list_data xs ↦ ok (count_items xs)
  | _ ↦ invalid_call "Invalid call to Value::size"
]

-- Value::operator[](size_t), where std::vector::at throws past the end
unfoldable pub subscript_index : Value → ℕ → Outcome Value
unfolding resolve
subscript_index v i = elim (resolve v) [
  | list_data xs ↦ elim (item_at xs i) [ some x ↦ ok x | none ↦ throw (out_of_range "vector::at") ]
  | _ ↦ invalid_call "Invalid call to Value::operator[] for ListType"
]
