-- ===== src/Response/MapIndex/Insert.antt =====
-- emplace_back keeps the invariant of a map, and adds a name that is new.
use cppgraphqlgen.Base.{
  ℕ, List, map, none, some, ◌≡◌, ◌∙◌, ap, Bool, true, false, length, length-map, Option-cases, inl,
  inr,
}
use cppgraphqlgen.Base.Text.{Bytes, bytes_lt}
use cppgraphqlgen.Base.EqualRange.{insert_unique, is_none}
use cppgraphqlgen.Base.EqualRange.Renaming.{insert_unique-map}
use cppgraphqlgen.Base.EqualRange.Laws
use cppgraphqlgen.Base.Outcome.{ok}
use cppgraphqlgen.Response.{Value, Members, push_member, map_data}
use cppgraphqlgen.Response.Vectors.{name_at, position}
use cppgraphqlgen.Response.Copy.{name_map, entry_name, entry_index, unshare}
use cppgraphqlgen.Response.Modify.{emplace_back}
use cppgraphqlgen.Response.MapIndex.{IsIndexed}
use cppgraphqlgen.Response.MapIndex.NameMap.{IsNameMap, Distinct-IsNameMap, name_map-push}
use cppgraphqlgen.Response.MapIndex.Find.{search-position, names-index}

abbrev insertion : Members → List ℕ → Bytes → List ℕ × Bool
insertion ms members name = insert_unique bytes_lt (name_at ms) name (length members) members

-- What emplace_back is to do: append a new name, and refuse one that is there.
abbrev pub append_member : Bytes → Value → Members → Members × Bool
append_member name v ms = elim (position name ms) [
  | none ↦ (push_member ms name v, true)
  | some i ↦ (ms, false)
]

module _ (ms : Members) (members : List ℕ) (name : Bytes) (value : Value)
    (h : IsIndexed ms members) where
  names : IsNameMap ms
  names = Distinct-IsNameMap ms h.distinct

  insertion_flag : (insertion ms members name).1 ≡ is_none (position name ms)
  insertion_flag =
      Laws.search-is_none bytes_lt (name_at ms) name (length members) members
      ∙ ap is_none (search-position ms name h)

  length-members : length members ≡ length (name_map ms)
  length-members = ap length h.sorted ∙ length-map entry_index (name_map ms)

  -- The new index goes where the std::map of the new map has it.
  insertion_new :
      position name ms ≡ none
      → (insertion ms members name).0 ≡ map entry_index (name_map (push_member ms name value))
  insertion_new new =
      let m = name_map ms in
      let entry : Bytes × ℕ = (name, length m) in
      let renamed =
        insert_unique-map bytes_lt (name_at ms) entry_name entry_index name entry m
          (names-index ms m names.entries) in
      let pushed = name_map-push ms name value (names.answers name ∙ rw new) in
      rw (length-members, h.sorted, renamed, pushed.0)

-- A new name appended to a map with its invariant.
pub emplace_back_new :
    (name : Bytes) (value : Value) (ms : Members) (members : List ℕ)
    → IsIndexed ms members
    → position name ms ≡ none
    → let ms' = push_member ms name value in
      emplace_back name value (map_data ms members)
      ≡ ok (map_data ms' (map entry_index (name_map ms')), true)
unfolding emplace_back unshare
emplace_back_new name value ms members h new = rw (
  insertion_flag ms members name value h ∙ ap is_none new,
  insertion_new ms members name value h new,
)

-- On a map with its invariant, emplace_back appends a member with a new name and returns true; it
-- changes nothing and returns false if the name is there. The invariant holds after it.
pub emplace_back-append :
    (name : Bytes) (value : Value) (ms : Members) (members : List ℕ)
    → IsIndexed ms members
    → (members' : List ℕ) × (emplace_back name value (map_data ms members)
        ≡ ok (map_data (append_member name value ms).0 members', (append_member name value ms).1))
      × IsIndexed (append_member name value ms).0 members'
unfolding emplace_back unshare
emplace_back-append name value ms members h = elim (Option-cases (position name ms)) [
  | inl new ↦
      rw (new, append_member)
        (
          (insertion ms members name).0,
          rw (insertion_flag ms members name value h ∙ ap is_none new),
          record {
            distinct = (h.distinct, new);
            sorted = insertion_new ms members name value h new;
          },
        )
  | inr (i, old) ↦
      rw (old, append_member)
        (members, rw (insertion_flag ms members name value h ∙ ap is_none old), h)
]
