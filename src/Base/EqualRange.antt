-- ===== src/Base/EqualRange.antt =====
-- std::equal_range over a range that is ordered by `lt` on its keys: the elements before the
-- bounds, those between them and those after them. On an ordered range the lower bound is the end
-- of the longest prefix of smaller elements, and the upper bound that of elements not greater.
mod Steps
pub mod Laws
pub mod Renaming
pub mod Update
use mathlib.Core.Bool.{Bool, true, false, not}
use mathlib.Core.List.{List, [], ◌∷◌, ◌++◌}
use mathlib.Core.Option.{Option, none, some}
use cppgraphqlgen.Base.Tests.{if◌then◌else◌}

abbrev pub is_none {ℓ} : {A : Type ℓ} → Option A → Bool
is_none none = true
is_none (some a) = false

-- The longest prefix that satisfies a test, and the rest.
unfoldable pub partition_point {ℓ} : {A : Type ℓ} → (A → Bool) → List A → List A × List A
partition_point test [] = ([], [])
partition_point test (x ∷ xs) =
    let (front, back) = partition_point test xs in
    if test x then (x ∷ front, back) else ([], x ∷ xs)

module _ {ℓ κ} {A : Type ℓ} {K : Type κ} (lt : K → K → Bool) (key : A → K) where
  unfoldable pub equal_range : K → List A → List A × List A × List A
  unfolding partition_point
  equal_range k xs =
      let (before, rest) = partition_point (λ x. lt (key x) k) xs in
      let (range, after) = partition_point (λ x. not (lt k (key x))) rest in (before, range, after)

  -- Whether the range is empty, `itr == itrEnd`.
  abbrev pub first_of_range : List A → Option A
  first_of_range [] = none
  first_of_range (x ∷ xs) = some x

  -- The element at `itr`, if the range is not empty.
  unfoldable pub search : K → List A → Option A
  unfolding equal_range
  search k xs = let (before, range, after) = equal_range k xs in first_of_range range

  -- Insertion at the upper bound where the range is empty; else nothing changes.
  unfoldable pub insert_unique : K → A → List A → List A × Bool
  unfolding equal_range
  insert_unique k a xs =
      let (before, range, after) = equal_range k xs in
      elim range [ [] ↦ (before ++ a ∷ after, true) | x ∷ r ↦ (xs, false) ]

  -- Removal of the element at `itr`, if the range is not empty.
  unfoldable pub erase_first : K → List A → List A
  unfolding equal_range
  erase_first k xs =
      let (before, range, after) = equal_range k xs in
      elim range [ [] ↦ xs | x ∷ r ↦ before ++ (r ++ after) ]

  -- A write through the reference to the element at `itr`, if the range is not empty.
  unfoldable pub update_first : K → (A → A) → List A → List A
  unfolding equal_range
  update_first k write xs =
      let (before, range, after) = equal_range k xs in
      elim range [ [] ↦ xs | x ∷ r ↦ before ++ write x ∷ (r ++ after) ]
