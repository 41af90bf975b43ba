-- ===== src/Json/Machine/Induction.antt =====
-- The calls for a value and what it reads as agree, for every value.
use cppgraphqlgen.Base.{ℕ, ◌<◌, ◌^◌, false, [], ◌∷◌, ◌≡◌, refl, arith, ltb}
use cppgraphqlgen.Base.Int.{ℤ, pos, negsuc, IsInt32}
use cppgraphqlgen.IdType.{release_opaque_string}
use cppgraphqlgen.Response.{
  Value, Members, Items, map_data, list_data, string_data, null_data, boolean, int, float,
  enum_data, id, scalar_data, null_scalar, shared_data, no_members, push_member, no_items,
  push_item, resolve, make_value, from_json,
}
use cppgraphqlgen.Response.Copy.{copy, unshare}
use cppgraphqlgen.Response.Modify.{set_int, set_float}
use cppgraphqlgen.Response.Writer.{write, write_members, write_items, write_shared_twice, write_int}
use cppgraphqlgen.Json.{string_writer, step, run, int_max}
use cppgraphqlgen.Json.Meaning.{as_json, as_json_members, as_json_items, shared_twice}
use cppgraphqlgen.Json.Machine.{HasInts, MembersHaveInts, ItemsHaveInts}
use cppgraphqlgen.Json.Machine.Agreement.{
  Agree, AgreeMembers, AgreeItems, Sets, Agree-map, Agree-list, Agree-push_item, Agree-push_member,
  Agree-text, Agree-after,
}

in_range : (n : ℕ) → n < 2 ^ 31 → ltb int_max n ≡ false
in_range n h = ground arith

Sets-int : (i : ℤ) → IsInt32 i → Sets (write_int i ∷ []) (int i)
unfolding run step string_writer set_int unshare make_value
Sets-int (pos n) h rest handler = rw (in_range n h)
Sets-int (negsuc n) h rest handler = refl

Agree-shared_twice : (v : Value) → HasInts v → Agree (write_shared_twice v) (shared_twice v)
unfolding write_shared_twice shared_twice run step string_writer set_float unshare make_value
    HasInts
Agree-shared_twice (map_data ms members) h = refl
Agree-shared_twice (boolean b) h = λ rest handler. refl
Agree-shared_twice null_data h = λ rest handler. refl
Agree-shared_twice (int i) h = Sets-int i h
Agree-shared_twice (float d) h = λ rest handler. refl
Agree-shared_twice _ h = refl

HasInts-resolve : (v : Value) → HasInts v → HasInts (resolve v)
unfolding HasInts resolve
HasInts-resolve (shared_data v) h = HasInts-resolve v h
HasInts-resolve (map_data ms members) h = h
HasInts-resolve _ h = h

mutual
  unfolding write as_json HasInts run step string_writer set_float unshare make_value from_json

  agree : (v : Value) → HasInts v → Agree (write v) (as_json v)
  agree (map_data ms members) h =
      Agree-map (write_members ms) (as_json_members ms) (agree_members ms h)
  agree (list_data xs) h = Agree-list (write_items xs) (as_json_items xs) (agree_items xs h)
  agree (string_data s json input) h = λ rest handler. refl
  agree (enum_data s) h = λ rest handler. refl
  agree (id x) h = Agree-text (release_opaque_string x)
  agree null_data h = λ rest handler. refl
  agree (boolean b) h = λ rest handler. refl
  agree (int i) h = Sets-int i h
  agree (float d) h = λ rest handler. refl
  agree (scalar_data v) h = agree v h
  agree null_scalar h = refl
  agree (shared_data (shared_data v)) h = Agree-shared_twice (resolve v) (HasInts-resolve v h)
  agree (shared_data v) h = Agree-after (copy v) (write v) (as_json v) (agree v h)

  agree_members :
      (ms : Members) → MembersHaveInts ms → AgreeMembers (write_members ms) (as_json_members ms)
  agree_members no_members h = ((no_members, [], refl), λ rest keys stack. refl)
  agree_members (push_member ms k v) h =
      Agree-push_member k (write_members ms) (write v) (as_json_members ms) (as_json v)
        (agree_members ms h.0) (agree v h.1)

  agree_items : (xs : Items) → ItemsHaveInts xs → AgreeItems (write_items xs) (as_json_items xs)
  agree_items no_items h = λ rest keys stack. refl
  agree_items (push_item xs v) h =
      Agree-push_item (write_items xs) (write v) (as_json_items xs) (as_json v) (agree_items xs h.0)
        (agree v h.1)

-- For every value the calls that Writer::write makes and what the value reads as through JSON
-- agree: both are the same exception, or running the callbacks sets the value that it reads as.
pub Agree-write : (v : Value) → HasInts v → Agree (write v) (as_json v)
Agree-write v h = agree v h
