-- ===== src/SortedMap.antt =====
-- include/graphqlservice/internal/SortedMap.h: the flat map and the flat set, a vector kept in
-- order by `Compare`, and the comparison of the maps with std::string_view keys.
-- The vector `_data` is a list. An iterator that an operation returns is the element that it points
-- at, and `none` is the end iterator.
pub mod History
pub mod Lookup
pub mod Sets
pub mod ShorterOrLess
mod Examples
use cppgraphqlgen.Base.{
  ℕ, ◌≡◌, Bool, true, false, List, [], ◌∷◌, Option, none, some, length, ltb, ◌==◌, if◌then◌else◌,
}
use cppgraphqlgen.Base.Text.{Bytes, bytes_lt}
use cppgraphqlgen.Base.Outcome.{Outcome, ok, throw, out_of_range}
use cppgraphqlgen.Base.EqualRange
use cppgraphqlgen.Base.EqualRange.{search, insert_unique, erase_first, first_of_range, equal_range}

-- sorted_map_key: what the comparison sees of an entry
abbrev pub sorted_map_key {ℓ κ} : {K : Type ℓ} {V : Type κ} → K × V → K
sorted_map_key entry = entry.0

module _ {ℓ κ} {K : Type ℓ} {V : Type κ} (compare : K → K → Bool) where
  unfoldable pub sorted_map_equal_range :
      K → List (K × V) → List (K × V) × List (K × V) × List (K × V)
  sorted_map_equal_range key entries = equal_range compare sorted_map_key key entries

  unfoldable pub sorted_map_lookup : List (K × V) → K → Option V
  sorted_map_lookup container key = elim (search compare sorted_map_key key container) [
    | none ↦ none
    | some entry ↦ some entry.1
  ]

  unfoldable pub find : K → List (K × V) → Option (K × V)
  find key entries = search compare sorted_map_key key entries

  -- An entry for a key that is there already is dropped, and the flag is false.
  unfoldable pub emplace : K → V → List (K × V) → List (K × V) × Bool
  emplace key value entries = insert_unique compare sorted_map_key key (key, value) entries

  unfoldable pub erase : K → List (K × V) → List (K × V)
  erase key entries = erase_first compare sorted_map_key key entries

  -- operator[]: the value of the key, which is `V {}` in a new entry.
  unfoldable pub subscript : V → K → List (K × V) → List (K × V) × V
  subscript default key entries = elim (find key entries) [
    | some entry ↦ (entries, entry.1)
    | none ↦ ((emplace key default entries).0, default)
  ]

  unfoldable pub at : K → List (K × V) → Outcome V
  at key entries = elim (find key entries) [
    | some entry ↦ ok entry.1
    | none ↦ throw (out_of_range "key not found")
  ]

module _ {ℓ} {K : Type ℓ} (compare : K → K → Bool) where
  abbrev pub set_key : K → K
  set_key key = key

  unfoldable pub set_find : K → List K → Option K
  set_find key keys = search compare set_key key keys

  unfoldable pub set_emplace : K → List K → List K × Bool
  set_emplace key keys = insert_unique compare set_key key key keys

  unfoldable pub set_erase : K → List K → List K
  set_erase key keys = erase_first compare set_key key keys

-- The comparison of string_view_map and string_view_set.
unfoldable pub shorter_or_less : Bytes → Bytes → Bool
shorter_or_less lhs rhs =
    if length lhs == length rhs then bytes_lt lhs rhs else ltb (length lhs) (length rhs)
