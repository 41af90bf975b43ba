-- ===== src/Base/EqualRange/Laws.antt =====
-- On a range in strictly ascending order these operations are those of a finite map.
use mathlib.Core.Path.{◌≡◌, refl}
use mathlib.Core.Bool.{Bool, true, false, ◌&&◌}
use mathlib.Core.List.{List, [], ◌∷◌}
use mathlib.Core.Option.{none, some}
use Prim.Native.Nat.{suc}
use cppgraphqlgen.Base.Tests.{if◌then◌else◌}
use cppgraphqlgen.Base.Lists.{length, All, In}
use cppgraphqlgen.Base.Order.{StrictOrder, same}
use cppgraphqlgen.Base.EqualRange.{is_none, search, insert_unique, erase_first}
use cppgraphqlgen.Base.EqualRange.Steps
pub use cppgraphqlgen.Base.EqualRange.Steps.{Ascending}

module _ {ℓ κ} {A : Type ℓ} {K : Type κ} (lt : K → K → Bool) (key : A → K) where
  pub search-is_none :
      (k : K) (a : A) (xs : List A) → (insert_unique lt key k a xs).1 ≡ is_none (search lt key k xs)
  search-is_none k a xs =
      rw (Steps.insert_unique-eq-step, Steps.search-eq-step) (Steps.insert_step_flag lt key k a xs)

  pub search-nil : (k : K) → search lt key k [] ≡ none
  unfolding Steps.search_step
  search-nil k = rw Steps.search-eq-step refl

  pub search-cons :
      (k : K) (x : A) (xs : List A)
      → search lt key k (x ∷ xs)
        ≡ (if lt (key x) k then search lt key k xs else if lt k (key x) then none else some x)
  unfolding Steps.search_step
  search-cons k x xs = simp Steps.search-eq-step refl

  pub insert_unique_unchanged :
      (k : K) (a : A) (xs : List A)
      → (insert_unique lt key k a xs).1 ≡ false
      → (insert_unique lt key k a xs).0 ≡ xs
  insert_unique_unchanged k a xs =
      rw Steps.insert_unique-eq-step (Steps.insert_step_unchanged lt key k a xs)

  pub insert_unique-All {κ'} :
      (P : A → Type κ') (k : K) (a : A) (xs : List A)
      → P a
      → All P xs
      → All P (insert_unique lt key k a xs).0
  insert_unique-All P k a xs h hs =
      rw Steps.insert_unique-eq-step (Steps.insert_step-All lt key P k a xs h hs)

  pub length-insert_unique :
      (k : K) (a : A) (xs : List A)
      → length (insert_unique lt key k a xs).0
        ≡ (if (insert_unique lt key k a xs).1 then suc (length xs) else length xs)
  length-insert_unique k a xs =
      rw Steps.insert_unique-eq-step (Steps.length-insert_step lt key k a xs)

  module _ (order : StrictOrder lt) where
    pub insert_unique-Ascending :
        (a : A) (xs : List A)
        → Ascending lt key xs
        → Ascending lt key (insert_unique lt key (key a) a xs).0
    insert_unique-Ascending a xs =
        rw Steps.insert_unique-eq-step (Steps.insert_step-Ascending lt key order a xs)

    pub erase_first-Ascending :
        (k : K) (xs : List A) → Ascending lt key xs → Ascending lt key (erase_first lt key k xs)
    erase_first-Ascending k xs =
        rw Steps.erase_first-eq-step (Steps.erase_step-Ascending lt key order k xs)

    -- Where every key is greater than `k` there is none that is `k`.
    pub search_above :
        (k : K) (xs : List A) → All (λ y. lt k (key y) ≡ true) xs → search lt key k xs ≡ none
    search_above k xs h = rw Steps.search-eq-step (Steps.search_step_above lt key order k xs h)

    -- Behind an element whose key is not less than `j` there is no key `j`.
    pub search_behind :
        (j : K) (x : A) (xs : List A)
        → Ascending lt key (x ∷ xs)
        → lt (key x) j ≡ false
        → search lt key j xs ≡ none
    search_behind j x xs h l =
        rw Steps.search-eq-step (Steps.search_step_behind lt key order j x xs h l)

    pub erase_first-All {κ'} :
        (P : A → Type κ') (k : K) (xs : List A) → All P xs → All P (erase_first lt key k xs)
    erase_first-All P k xs h =
        rw Steps.erase_first-eq-step (Steps.erase_step-All lt key order P k xs h)

    -- A search after an insertion: the new element for its own key, if it was inserted.
    pub search-insert_unique :
        (j : K) (a : A) (xs : List A)
        → search lt key j (insert_unique lt key (key a) a xs).0 ≡ (
            if is_none (search lt key (key a) xs) && same lt j (key a)
            then some a
            else search lt key j xs)
    search-insert_unique j a xs =
        simp (Steps.insert_unique-eq-step, Steps.search-eq-step)
          (rw (← Steps.insert_step_flag lt key (key a) a xs)
            (Steps.search-insert_step lt key order j a xs))

    pub search-erase_first :
        (j k : K) (xs : List A)
        → Ascending lt key xs
        → search lt key j (erase_first lt key k xs)
          ≡ (if same lt j k then none else search lt key j xs)
    search-erase_first j k xs h =
        simp (Steps.erase_first-eq-step, Steps.search-eq-step)
          (Steps.search-erase_step lt key order j k xs h)

    -- What a search returns has the key and stands in the range.
    pub search_found :
        (k : K) {a : A} (xs : List A) → search lt key k xs ≡ some a → (key a ≡ k) × In a xs
    search_found k {a} xs h =
        Steps.search_step_found lt key order k a xs (rw Steps.search-eq-step at h)

    -- Each element of the range is found by its key.
    pub search_complete :
        {a : A} {xs : List A} → Ascending lt key xs → In a xs → search lt key (key a) xs ≡ some a
    search_complete h m = rw Steps.search-eq-step (Steps.search_step_complete lt key order h m)
