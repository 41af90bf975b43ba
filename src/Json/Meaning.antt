-- ===== src/Json/Meaning.antt =====
-- What a value reads as after it has passed through JSON, without the calls, the callbacks and the
-- stacks in between: strings, enumerators and identifiers become strings that are marked to come
-- from JSON, scalars and shared values are what they hold, and a map is built member by member.
use cppgraphqlgen.Base.{true, false, []}
use cppgraphqlgen.Base.Text.{Bytes}
use cppgraphqlgen.Base.Outcome.{Outcome, ok, ◌>>=◌}
use cppgraphqlgen.IdType.{release_opaque_string}
use cppgraphqlgen.Response.{
  Value, Members, Items, map_data, list_data, string_data, null_data, boolean, int, float,
  enum_data, id, scalar_data, null_scalar, shared_data, no_members, push_member, no_items,
  push_item, resolve,
}
use cppgraphqlgen.Response.Access.{invalid_call}
use cppgraphqlgen.Response.Copy.{copy}
use cppgraphqlgen.Response.Modify.{emplace_back}
use cppgraphqlgen.Json.{c_string}

-- A text as ResponseHandler stores it.
abbrev pub json_text : Bytes → Value
json_text s = string_data (c_string (c_string s)) true false

-- Of a value that is shared twice only what is read by `get` can be written.
unfoldable pub shared_twice : Value → Outcome Value
shared_twice null_data = ok null_data
shared_twice (boolean b) = ok (boolean b)
shared_twice (int i) = ok (int i)
shared_twice (float d) = ok (float d)
shared_twice (map_data ms members) = invalid_call "Invalid call to Value::release for MapType"
shared_twice (list_data xs) = invalid_call "Invalid call to Value::release for ListType"
shared_twice (scalar_data v) = invalid_call "Invalid call to Value::release for ScalarType"
shared_twice null_scalar = invalid_call "Invalid call to Value::release for ScalarType"
shared_twice v = invalid_call "Invalid call to Value::release for StringType"

-- A member that is read into a map; of two members with one name the first stays.
abbrev pub add_to : Bytes → Value → Value → Outcome Value
add_to key w m = do grown ← emplace_back (c_string (c_string key)) w m; ok grown.0

unfoldable mutual
  pub as_json : Value → Outcome Value
  as_json (map_data ms members) = as_json_members ms
  as_json (list_data xs) = do ys ← as_json_items xs; ok (list_data ys)
  as_json (string_data s json input) = ok (json_text s)
  as_json (enum_data s) = ok (json_text s)
  as_json (id x) = do s ← release_opaque_string x; ok (json_text s)
  as_json null_data = ok null_data
  as_json (boolean b) = ok (boolean b)
  as_json (int i) = ok (int i)
  as_json (float d) = ok (float d)
  as_json (scalar_data v) = as_json v
  as_json null_scalar = invalid_call "Invalid call to Value::release for ScalarType"
  as_json (shared_data (shared_data v)) = shared_twice (resolve v)
  as_json (shared_data v) = let w = as_json v in do _ ← copy v; w

  pub as_json_members : Members → Outcome Value
  as_json_members no_members = ok (map_data no_members [])
  as_json_members (push_member ms k v) = do m ← as_json_members ms; w ← as_json v; add_to k w m

  pub as_json_items : Items → Outcome Items
  as_json_items no_items = ok no_items
  as_json_items (push_item xs v) = do ys ← as_json_items xs; w ← as_json v; ok (push_item ys w)
