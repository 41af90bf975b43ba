-- ===== src/Json/Machine.antt =====
-- The calls that Writer::write makes for a value, read back by ResponseHandler, set that value on
-- the stack, whatever stands below it and whatever callbacks follow: the callbacks of a value, and the range of its ints.
pub mod Agreement
pub mod Induction
use cppgraphqlgen.Base.{
  ℕ, zero, suc, ◌<◌, ◌^◌, Bool, true, false, List, [], ◌∷◌, ◌++◌, append_assoc, map, ◌≡◌, refl, ◌∙◌,
  ap, sym, arith,
}
use cppgraphqlgen.Base.Text.{Bytes}
use cppgraphqlgen.Base.Int.{ℤ, pos, negsuc, IsInt32}
use cppgraphqlgen.Base.Outcome.{Outcome, Exception, ok, throw, ◌>>=◌}
use cppgraphqlgen.IdType.{release_opaque_string}
use cppgraphqlgen.Response.{
  Value, Members, Items, map_data, list_data, string_data, null_data, boolean, int, float,
  enum_data, id, scalar_data, null_scalar, shared_data, no_members, push_member, no_items,
  push_item, resolve, make_value, type_of, from_json, string_value, map_type, list_type,
}
use cppgraphqlgen.Response.Access.{invalid_call}
use cppgraphqlgen.Response.Copy.{copy, unshare}
use cppgraphqlgen.Response.Modify.{
  insert_member, emplace_back, emplace_back_item, set_int, set_float,
}
use cppgraphqlgen.Response.Writer.{
  WriterCall, start_object, end_object, start_array, end_array, write_null, add_member,
  write_string, write_bool, write_int, write_float, write, write_members, write_items,
  write_shared_twice,
}
use cppgraphqlgen.Json
use cppgraphqlgen.Json.{
  c_string, string_writer, Callback, json_null, json_start_object, json_end_object,
  json_start_array, json_end_array, json_bool, json_int, json_uint, json_double, json_string,
  json_key, Handler, get_response, set_member, set_value, step, run, int_max,
}
use cppgraphqlgen.Json.Meaning.{
  as_json, as_json_members, as_json_items, shared_twice, json_text, add_to,
}

-- What RapidJSON's reader calls back for what its writer was told: the same, where an integer that
-- is not negative is unsigned.
abbrev pub callback : WriterCall → Callback
callback start_object = json_start_object
callback end_object = json_end_object
callback start_array = json_start_array
callback end_array = json_end_array
callback write_null = json_null
callback (add_member key) = json_key key
callback (write_string s) = json_string s
callback (write_bool b) = json_bool b
callback (write_int (pos n)) = json_uint n
callback (write_int (negsuc n)) = json_int (negsuc n)
callback (write_float d) = json_double d

abbrev pub callbacks : List WriterCall → List Callback
callbacks calls = map callback (map string_writer calls)

-- Every int in the value is a 32-bit int, as in the program.
unfoldable mutual
  pub HasInts : Value → Type 0
  HasInts (map_data ms members) = MembersHaveInts ms
  HasInts (list_data xs) = ItemsHaveInts xs
  HasInts (scalar_data v) = HasInts v
  HasInts (shared_data v) = HasInts v
  HasInts (int i) = IsInt32 i
  HasInts v = Unit

  pub MembersHaveInts : Members → Type 0
  MembersHaveInts no_members = Unit
  MembersHaveInts (push_member ms k v) = MembersHaveInts ms × HasInts v

  pub ItemsHaveInts : Items → Type 0
  ItemsHaveInts no_items = Unit
  ItemsHaveInts (push_item xs v) = ItemsHaveInts xs × HasInts v
