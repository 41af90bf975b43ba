-- ===== src/SortedMap/Sets.antt =====
-- A sorted_set stays in order, and finds what was put into it and not erased.
use cppgraphqlgen.Base.{◌≡◌, Bool, ◌&&◌, List, none, some, if◌then◌else◌}
use cppgraphqlgen.Base.Order.{StrictOrder, same}
use cppgraphqlgen.Base.EqualRange.{is_none}
use cppgraphqlgen.Base.EqualRange.Laws
use cppgraphqlgen.Base.EqualRange.Laws.{Ascending}
use cppgraphqlgen.SortedMap.{set_key, set_find, set_emplace, set_erase}

module _ {ℓ} {K : Type ℓ} (compare : K → K → Bool) (order : StrictOrder compare) where
  -- On a set in order, emplace and erase keep the order, emplace says whether the key is new, and
  -- afterwards find answers as before for each key but the one of the call: that one is found after
  -- emplace, and not after erase.
  pub set_find-set_emplace :
      (j k : K) (keys : List K)
      → Ascending compare (set_key compare) keys
      → Ascending compare (set_key compare) (set_emplace compare k keys).0
        × Ascending compare (set_key compare) (set_erase compare k keys)
        × ((set_emplace compare k keys).1 ≡ is_none (set_find compare k keys))
        × (set_find compare j (set_emplace compare k keys).0 ≡ (
            if is_none (set_find compare k keys) && same compare j k
            then some k
            else set_find compare j keys))
        × (set_find compare j (set_erase compare k keys)
            ≡ (if same compare j k then none else set_find compare j keys))
  unfolding set_find set_emplace set_erase
  set_find-set_emplace j k keys h = (
    Laws.insert_unique-Ascending compare (set_key compare) order k keys h,
    Laws.erase_first-Ascending compare (set_key compare) order k keys h,
    Laws.search-is_none compare (set_key compare) k k keys,
    Laws.search-insert_unique compare (set_key compare) order j k keys,
    Laws.search-erase_first compare (set_key compare) order j k keys h,
  )
