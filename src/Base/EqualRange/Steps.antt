-- ===== src/Base/EqualRange/Steps.antt =====
-- The operations over equal ranges by one recursion each, and their laws in that form.
use mathlib.Core.Path.{◌≡◌, refl, subst}
use mathlib.Core.Bool.{Bool, true, false, not, ◌&&◌}
use mathlib.Core.List.{List, [], ◌∷◌, ◌++◌}
use mathlib.Core.Option.{Option, none, some}
use Prim.Native.Nat.{suc}
use native.Mathlib.Omega.{arith}
use cppgraphqlgen.Base.Tests.{if◌then◌else◌, Bool-cases}
use cppgraphqlgen.Base.Lists.{length, All, All_map, In, here, there, All-In}
use cppgraphqlgen.Base.Order.{StrictOrder, same}
use cppgraphqlgen.Base.EqualRange.{is_none, partition_point, search, insert_unique, erase_first}
use mathlib.Core.Logic.{inl, inr}

pub none-ne-some {ℓ} : {A : Type ℓ} {a : A} → none ≡ some a → ⊥
none-ne-some e = cc

pub some_inj {ℓ} : {A : Type ℓ} {a b : A} → some a ≡ some b → a ≡ b
some_inj e = cc

module _ {ℓ κ} {A : Type ℓ} {K : Type κ} (lt : K → K → Bool) (key : A → K) where
  -- Each key is less than the keys behind it.
  abbrev pub Ascending : List A → Type ℓ
  Ascending [] = Unit
  Ascending (x ∷ xs) = All (λ y. lt (key x) (key y) ≡ true) xs × Ascending xs

  -- The same operations by one recursion.
  unfoldable pub search_step : K → List A → Option A
  search_step k [] = none
  search_step k (x ∷ xs) =
      if lt (key x) k then search_step k xs else if lt k (key x) then none else some x

  unfoldable pub insert_step : K → A → List A → List A × Bool
  insert_step k a [] = (a ∷ [], true)
  insert_step k a (x ∷ xs) =
      let (ys, done) = insert_step k a xs in
      if lt (key x) k
      then (x ∷ ys, done)
      else if lt k (key x)
      then (a ∷ x ∷ xs, true)
      else (x ∷ xs, false)

  pub search-eq-step : (k : K) (xs : List A) → search lt key k xs ≡ search_step k xs
  unfolding search search_step
  search-eq-step k [] = refl
  search-eq-step k (x ∷ xs) = ground (arith, search-eq-step k xs)

  pub insert_unique-eq-step :
      (k : K) (a : A) (xs : List A) → insert_unique lt key k a xs ≡ insert_step k a xs
  unfolding insert_unique insert_step
  insert_unique-eq-step k a [] = refl
  insert_unique-eq-step k a (x ∷ xs) = ground (arith, insert_unique-eq-step k a xs)

  unfoldable pub erase_step : K → List A → List A
  erase_step k [] = []
  erase_step k (x ∷ xs) =
      let ys = erase_step k xs in
      if lt (key x) k then x ∷ ys else if lt k (key x) then x ∷ xs else xs

  pub insert_step-All {κ'} :
      (P : A → Type κ') (k : K) (a : A) (xs : List A)
      → P a
      → All P xs
      → All P (insert_step k a xs).0
  unfolding insert_step
  insert_step-All P k a [] h hs = (h, tt)
  insert_step-All P k a (x ∷ xs) h hs = elim (Bool-cases (lt (key x) k)) [
    | inl behind ↦ rw behind (hs.0, insert_step-All P k a xs h hs.1)
    | inr e ↦ elim (Bool-cases (lt k (key x))) [
      | inl front ↦ rw (e, front) (h, hs)
      | inr found ↦ rw (e, found) hs
    ]
  ]

  pub length-insert_step :
      (k : K) (a : A) (xs : List A)
      → length (insert_step k a xs).0
        ≡ (if (insert_step k a xs).1 then suc (length xs) else length xs)
  unfolding insert_step
  length-insert_step k a [] = refl
  length-insert_step k a (x ∷ xs) = ground (arith, length-insert_step k a xs)

  pub partition_point-append :
      (test : A → Bool) (xs : List A)
      → (partition_point test xs).0 ++ (partition_point test xs).1 ≡ xs
  unfolding partition_point
  partition_point-append test [] = refl
  partition_point-append test (x ∷ xs) = ground (arith, partition_point-append test xs)

  pub erase_first-eq-step : (k : K) (xs : List A) → erase_first lt key k xs ≡ erase_step k xs
  unfolding erase_first erase_step
  erase_first-eq-step k [] = refl
  erase_first-eq-step k (x ∷ xs) =
      ground (arith, erase_first-eq-step k xs, partition_point-append (λ y. not (lt k (key y))) xs)

  pub insert_step_flag :
      (k : K) (a : A) (xs : List A) → (insert_step k a xs).1 ≡ is_none (search_step k xs)
  unfolding insert_step search_step
  insert_step_flag k a [] = refl
  insert_step_flag k a (x ∷ xs) = ground (arith, insert_step_flag k a xs)

  -- An insertion that finds its key changes nothing.
  pub insert_step_unchanged :
      (k : K) (a : A) (xs : List A) → (insert_step k a xs).1 ≡ false → (insert_step k a xs).0 ≡ xs
  unfolding insert_step
  insert_step_unchanged k a [] h = cc
  insert_step_unchanged k a (x ∷ xs) h = ground (arith, insert_step_unchanged k a xs)

  module _ (order : StrictOrder lt) where
    pub above :
        (k : K) (x : A) (xs : List A)
        → lt k (key x) ≡ true
        → All (λ y. lt (key x) (key y) ≡ true) xs
        → All (λ y. lt k (key y) ≡ true) xs
    above k x xs h = All_map (λ y hy. order.transitive k (key x) (key y) h hy) xs

    -- Where every key is greater than `k` there is none that is `k`.
    pub search_step_above :
        (k : K) (xs : List A) → All (λ y. lt k (key y) ≡ true) xs → search_step k xs ≡ none
    unfolding search_step
    search_step_above k [] h = refl
    search_step_above k (x ∷ xs) h = ground (arith, search_step_above k xs, h.0)

    pub insert_step-Ascending :
        (a : A) (xs : List A) → Ascending xs → Ascending (insert_step (key a) a xs).0
    unfolding insert_step
    insert_step-Ascending a [] h = (tt, tt)
    insert_step-Ascending a (x ∷ xs) h = elim (Bool-cases (lt (key x) (key a))) [
      | inl behind ↦ rw behind (
        insert_step-All (λ y. lt (key x) (key y) ≡ true) (key a) a xs behind h.0,
        insert_step-Ascending a xs h.1,
      )
      | inr e ↦ elim (Bool-cases (lt (key a) (key x))) [
        | inl front ↦ rw (e, front) ((front, above (key a) x xs front h.0), h)
        | inr found ↦ rw (e, found) h
      ]
    ]

    pub search-insert_step :
        (j : K) (a : A) (xs : List A)
        → search_step j (insert_step (key a) a xs).0
          ≡ (if (insert_step (key a) a xs).1 && same lt j (key a) then some a else search_step j xs)
    unfolding insert_step search_step
    search-insert_step j a [] = ground arith
    search-insert_step j a (x ∷ xs) = ground (
      arith,
      search-insert_step j a xs,
      order.transitive (key a) (key x) j,
      order.transitive (key x) (key a) j,
      order.transitive j (key a) (key x),
      order.transitive j (key a) j,
      order.transitive (key a) j (key x),
      order.irreflexive j,
      order.connected j (key a),
    )

    pub erase_step-All {κ'} :
        (P : A → Type κ') (k : K) (xs : List A) → All P xs → All P (erase_step k xs)
    unfolding erase_step
    erase_step-All P k [] h = tt
    erase_step-All P k (x ∷ xs) h = elim (Bool-cases (lt (key x) k)) [
      | inl behind ↦ rw behind (h.0, erase_step-All P k xs h.1)
      | inr e ↦ elim (Bool-cases (lt k (key x))) [
        | inl front ↦ rw (e, front) h
        | inr found ↦ rw (e, found) h.1
      ]
    ]

    pub erase_step-Ascending : (k : K) (xs : List A) → Ascending xs → Ascending (erase_step k xs)
    unfolding erase_step
    erase_step-Ascending k [] h = tt
    erase_step-Ascending k (x ∷ xs) h = elim (Bool-cases (lt (key x) k)) [
      | inl behind ↦
          rw behind (
            erase_step-All (λ y. lt (key x) (key y) ≡ true) k xs h.0,
            erase_step-Ascending k xs h.1,
          )
      | inr e ↦ elim (Bool-cases (lt k (key x))) [
        | inl front ↦ rw (e, front) h
        | inr found ↦ rw (e, found) h.1
      ]
    ]

    -- Behind an element whose key is not less than `j` there is no key `j`.
    pub search_step_behind :
        (j : K) (x : A) (xs : List A)
        → Ascending (x ∷ xs)
        → lt (key x) j ≡ false
        → search_step j xs ≡ none
    search_step_behind j x xs h l = elim (Bool-cases (lt j (key x))) [
      | inl less ↦ search_step_above j xs (above j x xs less h.0)
      | inr e ↦ search_step_above j xs (rw (order.connected j (key x) e l) h.0)
    ]

    pub search-erase_step :
        (j k : K) (xs : List A)
        → Ascending xs
        → search_step j (erase_step k xs) ≡ (if same lt j k then none else search_step j xs)
    unfolding erase_step search_step
    search-erase_step j k [] h = ground arith
    search-erase_step j k (x ∷ xs) h = ground (
      arith,
      search-erase_step j k xs h.1,
      search_step_behind j x xs h,
      order.transitive k (key x) j,
      order.transitive (key x) k j,
      order.transitive j k (key x),
      order.transitive j (key x) k,
      order.transitive (key x) j k,
      order.transitive k j (key x),
      order.transitive j k j,
      order.irreflexive j,
      order.irreflexive k,
      order.connected j k,
      order.connected k (key x),
      order.connected j (key x),
    )

    pub search_step_found :
        (k : K) (a : A) (xs : List A) → search_step k xs ≡ some a → (key a ≡ k) × In a xs
    unfolding search_step
    search_step_found k a [] h = absurd (none-ne-some h)
    search_step_found k a (x ∷ xs) h = elim (Bool-cases (lt (key x) k)) [
      | inl behind ↦ let (e, m) = search_step_found k a xs (rw behind at h) in (e, there m)
      | inr e ↦ elim (Bool-cases (lt k (key x))) [
        | inl less ↦ absurd (none-ne-some (rw (e, less) at h))
        | inr l ↦
            let found : x ≡ a = some_inj (rw (e, l) at h) in
            (subst (λ y. key y ≡ k) found (order.connected (key x) k e l), here found)
      ]
    ]

    pub search_step_complete :
        {a : A} {xs : List A} → Ascending xs → In a xs → search_step (key a) xs ≡ some a
    unfolding search_step
    search_step_complete {a} h (here {x} e) = rw (e, order.irreflexive (key a))
    search_step_complete {a} h (there {x} m) =
        rw (All-In (λ y. lt (key x) (key y) ≡ true) h.0 m) (search_step_complete h.1 m)
