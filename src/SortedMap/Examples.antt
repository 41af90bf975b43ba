-- ===== src/SortedMap/Examples.antt =====
-- SortedMap.h with the comparison of the maps that have std::string_view keys.
use cppgraphqlgen.Base.{ℕ, ◌≡◌, refl, ◌↔◌, List, [], ◌∷◌, Option, none, some, In}
use cppgraphqlgen.Base.Text.{Bytes, codes}
use cppgraphqlgen.Base.EqualRange.{search}
use cppgraphqlgen.Base.EqualRange.Laws.{Ascending}
use cppgraphqlgen.Base.Outcome.{ok, throw, out_of_range}
use cppgraphqlgen.SortedMap.{sorted_map_key, sorted_map_lookup, find, at, shorter_or_less}
use cppgraphqlgen.SortedMap.History.{
  Call, emplacing, erasing, subscripting, after, described, Refines, after-Refines,
}
use cppgraphqlgen.SortedMap.Lookup.{find-at}
use cppgraphqlgen.SortedMap.ShorterOrLess.{shorter_or_less-StrictOrder}
use cppgraphqlgen.SortedMap.{set_key}

abbrev calls : List (Call Bytes ℕ)
calls =
    emplacing (codes "abc") 1
    ∷ emplacing (codes "z") 2
    ∷ subscripting 0 (codes "b")
    ∷ emplacing (codes "abc") 5
    ∷ erasing (codes "z")
    ∷ []

abbrev nothing : Bytes → Option ℕ
nothing k = none

empty-Refines : Refines shorter_or_less [] nothing
unfolding sorted_map_lookup search
empty-Refines = record { ascending = tt; lookup = λ k. refl }

after-Refines_example :
    Refines shorter_or_less
      (after shorter_or_less [] calls)
      (described shorter_or_less nothing calls)
after-Refines_example =
    after-Refines shorter_or_less shorter_or_less-StrictOrder calls [] nothing empty-Refines

abbrev entries : List (Bytes × ℕ)
entries = (codes "b", 0) ∷ (codes "abc", 1) ∷ []

entries-Ascending : Ascending shorter_or_less sorted_map_key entries
unfolding shorter_or_less
entries-Ascending = ((refl, tt), (tt, tt))

find-at_example :
    ((find shorter_or_less (codes "abc") entries ≡ some (codes "abc", 1))
      ↔ In (codes "abc", 1) entries)
    × ((at shorter_or_less (codes "abc") entries ≡ ok 1) ↔ In (codes "abc", 1) entries)
    × ((find shorter_or_less (codes "abc") entries ≡ none)
        ↔ (at shorter_or_less (codes "abc") entries ≡ throw (out_of_range "key not found")))
find-at_example =
    find-at shorter_or_less shorter_or_less-StrictOrder (codes "abc") 1 entries entries-Ascending

abbrev keys : List Bytes
keys = codes "b" ∷ codes "abc" ∷ []

keys-Ascending : Ascending shorter_or_less (set_key shorter_or_less) keys
unfolding shorter_or_less
keys-Ascending = ((refl, tt), (tt, tt))
