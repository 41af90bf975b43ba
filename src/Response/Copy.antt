-- ===== src/Response/Copy.antt =====
-- Value::Value(const Value&), the deep copy: sharing stops it, and the order of a map's names is
-- made anew, by a std::map.
pub mod Unchanged
use cppgraphqlgen.Base.{ℕ, ◌+◌, List, [], ◌∷◌, ◌++◌, map, length}
use cppgraphqlgen.Base.Text.{Bytes, bytes_lt}
use cppgraphqlgen.Base.EqualRange.{equal_range}
use cppgraphqlgen.Base.Outcome.{Outcome, ok, throw, ◌>>=◌}
use cppgraphqlgen.Response.{
  Value, Members, Items, map_data, list_data, scalar_data, null_scalar, shared_data, no_members,
  push_member, no_items, push_item,
}
use cppgraphqlgen.Response.Access.{invalid_call}

-- A std::map from names to numbers, as its entries in order.
abbrev pub NameMap : Type 0
NameMap = List (Bytes × ℕ)

abbrev pub entry_name : Bytes × ℕ → Bytes
entry_name e = e.0

abbrev pub entry_index : Bytes × ℕ → ℕ
entry_index e = e.1

-- `members[name] = index`
unfoldable pub assign : Bytes → ℕ → NameMap → NameMap
assign name index m =
    let (before, range, after) = equal_range bytes_lt entry_name name m in
    before ++ (name, index) ∷ after

-- The loop `members[entry.first] = members.size()`, where the size is read first.
unfoldable pub name_map : Members → NameMap
name_map no_members = []
name_map (push_member ms k v) = let m = name_map ms in assign k (length m) m

unfoldable mutual
  pub copy : Value → Outcome Value
  copy (map_data ms members) = do
    c ← copy_members ms
    ok (map_data c (map entry_index (name_map c)))
  copy (list_data xs) = do c ← copy_items xs; ok (list_data c)
  copy (scalar_data v) = do c ← copy v; ok (scalar_data c)
  copy null_scalar = invalid_call "Invalid call to Value::get for ScalarType"
  copy v = ok v

  pub copy_members : Members → Outcome Members
  copy_members no_members = ok no_members
  copy_members (push_member ms k v) = do c ← copy_members ms; d ← copy v; ok (push_member c k d)

  pub copy_items : Items → Outcome Items
  copy_items no_items = ok no_items
  copy_items (push_item xs v) = do c ← copy_items xs; d ← copy v; ok (push_item c d)

-- `*this = Value { *std::get<SharedData>(_data) }`, ahead of a write to a shared value. It copies
-- one level: what was shared twice is still shared.
unfoldable pub unshare : Value → Outcome Value
unshare (shared_data v) = copy v
unshare v = ok v
