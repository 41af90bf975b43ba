-- ===== src/Response/Writer.antt =====
-- Writer::write: the calls that it makes to the writer behind `Concept`, in their order. Where it
-- throws, the exception is the result, and the calls made before it are not kept.
use cppgraphqlgen.Base.{Bool, List, [], ◌∷◌, ◌++◌}
use cppgraphqlgen.Base.Text.{Bytes}
use cppgraphqlgen.Base.Int.{ℤ}
use cppgraphqlgen.Base.Double.{Double}
use cppgraphqlgen.Base.Outcome.{Outcome, ok, ◌>>=◌}
use cppgraphqlgen.IdType.{release_opaque_string}
use cppgraphqlgen.Response.{
  Value, Members, Items, map_data, list_data, string_data, null_data, boolean, int, float,
  enum_data, id, scalar_data, null_scalar, shared_data, no_members, push_member, no_items,
  push_item, resolve,
}
use cppgraphqlgen.Response.Access.{invalid_call}
use cppgraphqlgen.Response.Copy.{copy}

-- The virtual methods of Writer::Concept.
pub data WriterCall : Type 0 where
  start_object end_object start_array end_array write_null : WriterCall
  add_member write_string : Bytes → WriterCall
  write_bool : Bool → WriterCall
  write_int : ℤ → WriterCall
  write_float : Double → WriterCall

-- A value that is shared twice: `get` sees through both levels, and `release`, which undoes one,
-- throws.
unfoldable pub write_shared_twice : Value → Outcome (List WriterCall)
write_shared_twice null_data = ok (write_null ∷ [])
write_shared_twice (boolean b) = ok (write_bool b ∷ [])
write_shared_twice (int i) = ok (write_int i ∷ [])
write_shared_twice (float d) = ok (write_float d ∷ [])
write_shared_twice (map_data ms members) = invalid_call "Invalid call to Value::release for MapType"
write_shared_twice (list_data xs) = invalid_call "Invalid call to Value::release for ListType"
write_shared_twice (scalar_data v) = invalid_call "Invalid call to Value::release for ScalarType"
write_shared_twice null_scalar = invalid_call "Invalid call to Value::release for ScalarType"
write_shared_twice v = invalid_call "Invalid call to Value::release for StringType"

-- A value that is shared once is copied by `release`. The copy may differ from the value in the
-- order of the names of a map, which is not read, so the recursion goes on with the value.
unfoldable mutual
  pub write : Value → Outcome (List WriterCall)
  write (map_data ms members) = do
    calls ← write_members ms
    ok ((start_object ∷ calls) ++ end_object ∷ [])
  write (list_data xs) = do calls ← write_items xs; ok ((start_array ∷ calls) ++ end_array ∷ [])
  write (string_data s json input) = ok (write_string s ∷ [])
  write (enum_data s) = ok (write_string s ∷ [])
  write (id x) = do s ← release_opaque_string x; ok (write_string s ∷ [])
  write null_data = ok (write_null ∷ [])
  write (boolean b) = ok (write_bool b ∷ [])
  write (int i) = ok (write_int i ∷ [])
  write (float d) = ok (write_float d ∷ [])
  write (scalar_data v) = write v
  write null_scalar = invalid_call "Invalid call to Value::release for ScalarType"
  write (shared_data (shared_data v)) = write_shared_twice (resolve v)
  write (shared_data v) = let calls = write v in do _ ← copy v; calls

  pub write_members : Members → Outcome (List WriterCall)
  write_members no_members = ok []
  write_members (push_member ms k v) = do
    calls ← write_members ms
    more ← write v
    ok (calls ++ add_member k ∷ more)

  pub write_items : Items → Outcome (List WriterCall)
  write_items no_items = ok []
  write_items (push_item xs v) = do calls ← write_items xs; more ← write v; ok (calls ++ more)
