-- ===== src/Response/MapIndex.antt =====
-- Value::find and Value::operator[](std::string_view), and what keeps them right: `members` lists
-- the indices of the map in the order of the names, which are distinct.
pub mod NameMap
pub mod Find
pub mod Insert
use cppgraphqlgen.Base.{ℕ, List, [], ◌∷◌, map, Option, none, some, ◌≡◌}
use cppgraphqlgen.Base.Text.{Bytes, bytes_lt}
use cppgraphqlgen.Base.EqualRange.{search}
use cppgraphqlgen.Base.Outcome.{Outcome, ok, throw, runtime_error, ◌>>=◌}
use cppgraphqlgen.Response.{Value, Members, map_data, no_members, push_member, resolve}
use cppgraphqlgen.Response.Access.{invalid_call}
use cppgraphqlgen.Response.Vectors.{name_at, value_at, position}
use cppgraphqlgen.Response.Copy.{name_map, entry_index}

-- The index that the iterator stands at, and `none` for cend().
unfoldable pub find : Bytes → Value → Outcome (Option ℕ)
unfolding resolve
find name v = elim (resolve v) [
  | map_data ms members ↦ ok (search bytes_lt (name_at ms) name members)
  | _ ↦ invalid_call "Invalid call to Value::find for MapType"
]

abbrev missing_member : Outcome Value
missing_member = throw (runtime_error "Missing Map member")

-- `itr->second`
abbrev pub member_at : Value → ℕ → Outcome Value
member_at v i = elim (resolve v) [
  | map_data ms members ↦ elim (value_at ms i) [ some x ↦ ok x | none ↦ missing_member ]
  | _ ↦ missing_member
]

unfoldable pub subscript_name : Bytes → Value → Outcome Value
subscript_name name v = do
  found ← find name v
  elim found [ none ↦ missing_member | some i ↦ member_at v i ]

-- No name stands twice in a map.
abbrev pub Distinct : Members → Type 0
Distinct no_members = Unit
Distinct (push_member ms k v) = Distinct ms × (position k ms ≡ none)

-- The invariant of MapData.
pub record IsIndexed (ms : Members) (members : List ℕ) : Type 0 where
  pub distinct : Distinct ms
  pub sorted : members ≡ map entry_index (name_map ms)
