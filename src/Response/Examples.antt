-- ===== src/Response/Examples.antt =====
-- Response values: a map of two members, and values that hold it.
use cppgraphqlgen.Base.{ℕ, ◌≡◌, refl, true, false, List, [], ◌∷◌, none, some}
use cppgraphqlgen.Base.Text.{codes, bytes_eq, bytes_lt, lex_compare}
use cppgraphqlgen.Base.EqualRange.{equal_range, partition_point}
use cppgraphqlgen.Base.Int.{pos}
use cppgraphqlgen.Base.Outcome.{ok, throw, runtime_error}
use cppgraphqlgen.Response.{
  Value, Members, map_data, list_data, string_data, null_data, int, shared_data, no_members,
  push_member, no_items, push_item,
}
use cppgraphqlgen.Response.Vectors.{position, lookup}
use cppgraphqlgen.Response.Copy.{copy, assign, name_map}
use cppgraphqlgen.Response.Copy.Unchanged.{IsCopyable, copy-same}
use cppgraphqlgen.Response.Modify.{emplace_back}
use cppgraphqlgen.Response.MapIndex.{find, subscript_name, IsIndexed}
use cppgraphqlgen.Response.MapIndex.Find.{find-subscript}
use cppgraphqlgen.Response.MapIndex.Insert.{append_member, emplace_back-append}
use cppgraphqlgen.Response.Equality.{value_eq}
use cppgraphqlgen.Response.Equality.Reflexive.{HasNoNan, value_eq_refl}
use cppgraphqlgen.Response.{enum_data}

-- { "name": "a", "id": 1 }, with the index in the order of the names
abbrev members : Members
members =
    push_member (push_member no_members (codes "name") (string_data (codes "a") false false))
      (codes "id") (int (pos 1))

abbrev index : List ℕ
index = 1 ∷ 0 ∷ []

abbrev object : Value
object = map_data members index

-- [object, shared null]
abbrev listed : Value
listed = list_data (push_item (push_item no_items object) (shared_data null_data))

members-IsIndexed : IsIndexed members index
unfolding position name_map bytes_eq assign equal_range bytes_lt lex_compare partition_point
members-IsIndexed = record { distinct = ((tt, refl), refl); sorted = refl }

listed-IsCopyable : IsCopyable listed
unfolding IsCopyable name_map assign equal_range bytes_lt lex_compare partition_point
listed-IsCopyable = ((tt, (refl, ((tt, tt), tt))), tt)

listed-HasNoNan : HasNoNan listed
unfolding HasNoNan
listed-HasNoNan = ((tt, ((tt, tt), tt)), tt)

copy-same_example : copy listed ≡ ok listed
copy-same_example = copy-same listed listed-IsCopyable

find-subscript_example :
    (find (codes "id") object ≡ ok (position (codes "id") members))
    × (subscript_name (codes "id") object ≡ elim (lookup (codes "id") members) [
      | none ↦ throw (runtime_error "Missing Map member")
      | some v ↦ ok v
    ])
find-subscript_example = find-subscript members index (codes "id") members-IsIndexed

emplace_back-append_example :
    (members' : List ℕ) × (emplace_back (codes "id") null_data object
      ≡ ok (
        map_data (append_member (codes "id") null_data members).0 members',
        (append_member (codes "id") null_data members).1,
      ))
    × IsIndexed (append_member (codes "id") null_data members).0 members'
emplace_back-append_example =
    emplace_back-append (codes "id") null_data members index members-IsIndexed

value_eq_refl_example : value_eq listed listed ≡ ok true
value_eq_refl_example = value_eq_refl listed listed-HasNoNan

-- An enumerator is set; the other calls of `set` throw on it.
abbrev red : Value
red = enum_data (codes "RED")
