-- ===== src/SortedMap/Lookup.antt =====
-- What the lookups of a sorted_map return.
use cppgraphqlgen.Base.{◌≡◌, Bool, ◌↔◌, List, none, some, arith, Option-cases, inl, inr, In}
use cppgraphqlgen.Base.Order.{StrictOrder}
use cppgraphqlgen.Base.EqualRange.{search}
use cppgraphqlgen.Base.EqualRange.Laws
use cppgraphqlgen.Base.EqualRange.Laws.{Ascending}
use cppgraphqlgen.Base.Outcome.{ok, throw, out_of_range}
use cppgraphqlgen.SortedMap.{sorted_map_key, find, at}

module _ {ℓ κ} {K : Type ℓ} {V : Type κ} (compare : K → K → Bool) where
  at-none :
      (k : K) (m : List (K × V))
      → (find compare k m ≡ none) ↔ (at compare k m ≡ throw (out_of_range "key not found"))
  unfolding at
  at-none k m = ground arith

  module _ (order : StrictOrder compare) where
    find-In : (k : K) (v : V) (m : List (K × V)) → find compare k m ≡ some (k, v) → In (k, v) m
    unfolding find
    find-In k v m h = (Laws.search_found compare sorted_map_key order k m h).1

    In-find :
        (k : K) (v : V) (m : List (K × V))
        → Ascending compare sorted_map_key m
        → In (k, v) m
        → find compare k m ≡ some (k, v)
    unfolding find
    In-find k v m h i = Laws.search_complete compare sorted_map_key order h i

    find-of-at :
        (k : K) (v : V) (m : List (K × V)) → at compare k m ≡ ok v → find compare k m ≡ some (k, v)
    unfolding at find
    find-of-at k v m h = elim (Option-cases (search compare sorted_map_key k m)) [
      | inl e ↦ ground arith
      | inr (entry, e) ↦
          let same_key = (Laws.search_found compare sorted_map_key order k m e).0 in
          ground (arith, same_key)
    ]

    at-of-find :
        (k : K) (v : V) (m : List (K × V)) → find compare k m ≡ some (k, v) → at compare k m ≡ ok v
    unfolding at
    at-of-find k v m h = rw (h, at)

    -- On a map that is in order, find returns an entry exactly if it is in the vector and has the
    -- key; at returns its value, and throws out_of_range where there is no such entry.
    pub find-at :
        (k : K) (v : V) (m : List (K × V))
        → Ascending compare sorted_map_key m
        → ((find compare k m ≡ some (k, v)) ↔ In (k, v) m)
          × ((at compare k m ≡ ok v) ↔ In (k, v) m)
          × ((find compare k m ≡ none) ↔ (at compare k m ≡ throw (out_of_range "key not found")))
    find-at k v m h = (
      (find-In k v m, In-find k v m h),
      (λ e. find-In k v m (find-of-at k v m e), λ i. at-of-find k v m (In-find k v m h i)),
      at-none k m,
    )
