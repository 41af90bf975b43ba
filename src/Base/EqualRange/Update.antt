-- ===== src/Base/EqualRange/Update.antt =====
-- A write through a reference into an ordered range, and ordered ranges that answer alike.
use mathlib.Core.Path.{◌≡◌, refl, sym, ap, ◌∙◌, subst}
use mathlib.Core.Bool.{Bool, true, not}
use mathlib.Core.List.{List, [], ◌∷◌}
use mathlib.Core.Logic.{inl, inr}
use native.Mathlib.Omega.{arith}
use cppgraphqlgen.Base.Tests.{if◌then◌else◌, Bool-cases}
use cppgraphqlgen.Base.Lists.{All}
use cppgraphqlgen.Base.Order.{StrictOrder, same}
use cppgraphqlgen.Base.EqualRange.{search, update_first}
use cppgraphqlgen.Base.EqualRange.Renaming.{map_option}
use cppgraphqlgen.Base.EqualRange.Steps.{
  Ascending, search_step, search-eq-step, search_step_behind, partition_point-append, none-ne-some,
}

module _ {ℓ κ} {A : Type ℓ} {K : Type κ} (lt : K → K → Bool) (key : A → K) where
  unfoldable update_step : K → (A → A) → List A → List A
  update_step k write [] = []
  update_step k write (x ∷ xs) =
      let ys = update_step k write xs in
      if lt (key x) k then x ∷ ys else if lt k (key x) then x ∷ xs else write x ∷ xs

  update_first-eq-step :
      (k : K) (write : A → A) (xs : List A)
      → update_first lt key k write xs ≡ update_step k write xs
  unfolding update_first update_step
  update_first-eq-step k write [] = refl
  update_first-eq-step k write (x ∷ xs) = ground (
    arith,
    update_first-eq-step k write xs,
    partition_point-append lt key (λ y. not (lt k (key y))) xs,
  )

  module _ (order : StrictOrder lt) (write : A → A) (keeps : (a : A) → key (write a) ≡ key a) where
    update_step-All :
        (p k : K) (xs : List A)
        → All (λ y. lt p (key y) ≡ true) xs
        → All (λ y. lt p (key y) ≡ true) (update_step k write xs)
    unfolding update_step
    update_step-All p k [] h = tt
    update_step-All p k (x ∷ xs) h = elim (Bool-cases (lt (key x) k)) [
      | inl behind ↦ rw behind (h.0, update_step-All p k xs h.1)
      | inr e ↦ elim (Bool-cases (lt k (key x))) [
        | inl front ↦ rw (e, front) h
        | inr found ↦ rw (e, found, keeps x) h
      ]
    ]

    update_step-Ascending :
        (k : K) (xs : List A) → Ascending lt key xs → Ascending lt key (update_step k write xs)
    unfolding update_step
    update_step-Ascending k [] h = tt
    update_step-Ascending k (x ∷ xs) h = elim (Bool-cases (lt (key x) k)) [
      | inl behind ↦ rw behind (update_step-All (key x) k xs h.0, update_step-Ascending k xs h.1)
      | inr e ↦ elim (Bool-cases (lt k (key x))) [
        | inl front ↦ rw (e, front) h
        | inr found ↦ rw (e, found, keeps x) h
      ]
    ]

    search-update_step :
        (j k : K) (xs : List A)
        → search_step lt key j (update_step k write xs) ≡ (
            if same lt j k
            then map_option write (search_step lt key j xs)
            else search_step lt key j xs)
    unfolding update_step search_step
    search-update_step j k [] = ground arith
    search-update_step j k (x ∷ xs) = ground (
      arith,
      search-update_step j k xs,
      keeps x,
      order.transitive j k (key x),
      order.transitive k j (key x),
      order.transitive (key x) k j,
      order.transitive (key x) j k,
      order.connected j k,
      order.connected k (key x),
      order.connected j (key x),
      order.irreflexive j,
      order.irreflexive k,
    )

    pub update_first-Ascending :
        (k : K) (xs : List A)
        → Ascending lt key xs
        → Ascending lt key (update_first lt key k write xs)
    update_first-Ascending k xs = rw update_first-eq-step (update_step-Ascending k xs)

    -- A search after a write: the written element for its own key.
    pub search-update_first :
        (j k : K) (xs : List A)
        → search lt key j (update_first lt key k write xs)
          ≡ (if same lt j k then map_option write (search lt key j xs) else search lt key j xs)
    search-update_first j k xs =
        simp (update_first-eq-step, search-eq-step) (search-update_step j k xs)

  module _ (order : StrictOrder lt) where
    -- Two first elements, neither of which the other's range has below it.
    heads-eq :
        (x y : A) (xs ys : List A)
        → Ascending lt key (x ∷ xs)
        → Ascending lt key (y ∷ ys)
        → search_step lt key (key x) (x ∷ xs) ≡ search_step lt key (key x) (y ∷ ys)
        → search_step lt key (key y) (x ∷ xs) ≡ search_step lt key (key y) (y ∷ ys)
        → x ≡ y
    unfolding search_step
    heads-eq x y xs ys h k ex ey = ground (
      arith,
      order.irreflexive (key x),
      order.irreflexive (key y),
      order.transitive (key x) (key y) (key x),
    )

    tails-eq :
        (j : K) (x : A) (xs ys : List A)
        → Ascending lt key (x ∷ xs)
        → Ascending lt key (x ∷ ys)
        → search_step lt key j (x ∷ xs) ≡ search_step lt key j (x ∷ ys)
        → search_step lt key j xs ≡ search_step lt key j ys
    unfolding search_step
    tails-eq j x xs ys h k e = elim (Bool-cases (lt (key x) j)) [
      | inl behind ↦ rw behind at e
      | inr l ↦
          search_step_behind lt key order j x xs h l
          ∙ sym (search_step_behind lt key order j x ys k l)
    ]

    search_step-ext :
        (xs ys : List A)
        → Ascending lt key xs
        → Ascending lt key ys
        → ((j : K) → search_step lt key j xs ≡ search_step lt key j ys)
        → xs ≡ ys
    unfolding search_step
    search_step-ext [] [] h k e = refl
    search_step-ext [] (y ∷ ys) h k e =
        absurd (none-ne-some (rw (order.irreflexive (key y)) at (e (key y))))
    search_step-ext (x ∷ xs) [] h k e =
        absurd (none-ne-some (sym (rw (order.irreflexive (key x)) at (e (key x)))))
    search_step-ext (x ∷ xs) (y ∷ ys) h k e =
        let same_head = heads-eq x y xs ys h k (e (key x)) (e (key y)) in
        let k' = subst (λ z. Ascending lt key (z ∷ ys)) (sym same_head) k in
        let e' =
          subst (λ z. (j : K) → search_step lt key j (x ∷ xs) ≡ search_step lt key j (z ∷ ys))
            (sym same_head) e in
        ap (λ zs. x ∷ zs) (search_step-ext xs ys h.1 k'.1 (λ j. tails-eq j x xs ys h k' (e' j)))
        ∙ ap (λ z. z ∷ ys) same_head

    -- Ordered ranges in which every search finds the same are the same.
    pub search-ext :
        (xs ys : List A)
        → Ascending lt key xs
        → Ascending lt key ys
        → ((j : K) → search lt key j xs ≡ search lt key j ys)
        → xs ≡ ys
    search-ext xs ys h k e =
        search_step-ext xs ys h k
          (λ j. sym (search-eq-step lt key j xs) ∙ e j ∙ search-eq-step lt key j ys)
