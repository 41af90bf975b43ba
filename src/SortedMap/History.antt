-- ===== src/SortedMap/History.antt =====
-- Whatever the calls, a sorted_map is in order and answers as a finite map does.
use cppgraphqlgen.Base.{
  ◌≡◌, refl, Bool, ◌&&◌, List, [], ◌∷◌, Option, none, some, arith, if◌then◌else◌,
}
use cppgraphqlgen.Base.Order.{StrictOrder, same}
use cppgraphqlgen.Base.EqualRange.{search, is_none}
use cppgraphqlgen.Base.EqualRange.Laws
use cppgraphqlgen.Base.EqualRange.Laws.{Ascending}
use cppgraphqlgen.SortedMap.{sorted_map_key, sorted_map_lookup, find, emplace, erase, subscript}

-- A call that changes the map. `subscript` gives the value that `V {}` is.
pub data Call {ℓ κ} (K : Type ℓ) (V : Type κ) : Type (ℓ ⊔ κ) where
  emplacing : K → V → Call K V
  erasing : K → Call K V
  subscripting : V → K → Call K V
  clearing : Call K V

module _ {ℓ κ} {K : Type ℓ} {V : Type κ} (compare : K → K → Bool) where
  abbrev pub apply : List (K × V) → Call K V → List (K × V)
  apply m (emplacing k v) = (emplace compare k v m).0
  apply m (erasing k) = erase compare k m
  apply m (subscripting v k) = (subscript compare v k m).0
  apply m clearing = []

  pub after : List (K × V) → List (Call K V) → List (K × V)
  after m [] = m
  after m (c ∷ calls) = after (apply m c) calls

  -- The finite map that the calls describe.
  abbrev pub put_if_absent : K → V → (K → Option V) → K → Option V
  put_if_absent k v f j = if is_none (f k) && same compare j k then some v else f j

  abbrev pub describe : (K → Option V) → Call K V → K → Option V
  describe f (emplacing k v) j = put_if_absent k v f j
  describe f (erasing k) j = if same compare j k then none else f j
  describe f (subscripting v k) j = put_if_absent k v f j
  describe f clearing j = none

  pub described : (K → Option V) → List (Call K V) → K → Option V
  described f [] = f
  described f (c ∷ calls) = described (describe f c) calls

  -- The vector is in order, and a lookup answers as the finite map does.
  pub record Refines (m : List (K × V)) (f : K → Option V) : Type (ℓ ⊔ κ) where
    pub ascending : Ascending compare sorted_map_key m
    pub lookup : (k : K) → sorted_map_lookup compare m k ≡ f k

  module _ (order : StrictOrder compare) where
    emplace-Refines :
        (k : K) (v : V) (m : List (K × V)) (f : K → Option V)
        → Refines m f
        → Refines (emplace compare k v m).0 (put_if_absent k v f)
    unfolding emplace sorted_map_lookup
    emplace-Refines k v m f h = record {
      ascending = Laws.insert_unique-Ascending compare sorted_map_key order (k, v) m h.ascending;
      lookup = λ j. ground (
        arith,
        h.lookup j,
        h.lookup k,
        Laws.search-insert_unique compare sorted_map_key order j (k, v) m,
      );
    }

    erase-Refines :
        (k : K) (m : List (K × V)) (f : K → Option V)
        → Refines m f
        → Refines (erase compare k m) (λ j. if same compare j k then none else f j)
    unfolding erase sorted_map_lookup
    erase-Refines k m f h = record {
      ascending = Laws.erase_first-Ascending compare sorted_map_key order k m h.ascending;
      lookup = λ j. ground (
        arith,
        h.lookup j,
        Laws.search-erase_first compare sorted_map_key order j k m h.ascending,
      );
    }

    -- operator[] leaves the vector that emplace with a default value leaves.
    pub subscript-emplace :
        (v : V) (k : K) (m : List (K × V)) → (subscript compare v k m).0 ≡ (emplace compare k v m).0
    unfolding subscript find emplace
    subscript-emplace v k m = ground (
      arith,
      Laws.search-is_none compare sorted_map_key k (k, v) m,
      Laws.insert_unique_unchanged compare sorted_map_key k (k, v) m,
    )

    apply-Refines :
        (m : List (K × V)) (f : K → Option V) (c : Call K V)
        → Refines m f
        → Refines (apply m c) (describe f c)
    unfolding sorted_map_lookup search
    apply-Refines m f (emplacing k v) h = emplace-Refines k v m f h
    apply-Refines m f (erasing k) h = erase-Refines k m f h
    apply-Refines m f (subscripting v k) h = rw subscript-emplace (emplace-Refines k v m f h)
    apply-Refines m f clearing h = record { ascending = tt; lookup = λ k. refl }

    -- After any calls on a map that is in order, it is in order, and sorted_map_lookup answers for
    -- every key as the finite map that the calls describe.
    pub after-Refines :
        (calls : List (Call K V)) (m : List (K × V)) (f : K → Option V)
        → Refines m f
        → Refines (after m calls) (described f calls)
    unfolding after described
    after-Refines [] m f h = h
    after-Refines (c ∷ calls) m f h =
        after-Refines calls (apply m c) (describe f c) (apply-Refines m f c h)
