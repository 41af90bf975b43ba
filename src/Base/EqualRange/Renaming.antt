-- ===== src/Base/EqualRange/Renaming.antt =====
-- A range whose elements stand for those of another one with the same keys.
use mathlib.Core.Path.{◌≡◌, refl}
use mathlib.Core.Bool.{Bool}
use mathlib.Core.List.{List, [], ◌∷◌, map}
use mathlib.Core.Option.{Option, none, some}
use mathlib.Core.Logic.{inl, inr}
use cppgraphqlgen.Base.Tests.{Bool-cases}
use cppgraphqlgen.Base.Lists.{All}
use cppgraphqlgen.Base.EqualRange.{search, insert_unique}
use cppgraphqlgen.Base.EqualRange.Steps.{
  search_step, insert_step, search-eq-step, insert_unique-eq-step,
}

abbrev pub map_option {ℓ κ} : {A : Type ℓ} {B : Type κ} → (A → B) → Option A → Option B
map_option f none = none
map_option f (some a) = some (f a)

abbrev pub map_first {ℓ κ} : {A : Type ℓ} {B : Type κ} → (A → B) → List A × Bool → List B × Bool
map_first f p = (map f p.0, p.1)

module _ {ℓ κ μ} {A : Type ℓ} {B : Type μ} {K : Type κ} (lt : K → K → Bool) (key : A → K)
    (key' : B → K) (f : B → A) where
  search_step-map :
      (k : K) (ys : List B)
      → All (λ b. key (f b) ≡ key' b) ys
      → search_step lt key k (map f ys) ≡ map_option f (search_step lt key' k ys)
  unfolding search_step
  search_step-map k [] h = refl
  search_step-map k (y ∷ ys) h = rw h.0 (elim (Bool-cases (lt (key' y) k)) [
    | inl b ↦ rw b (search_step-map k ys h.1)
    | inr b ↦ rw b (elim (Bool-cases (lt k (key' y))) [ inl c ↦ rw c | inr c ↦ rw c ])
  ])

  insert_step-map :
      (k : K) (b : B) (ys : List B)
      → All (λ b. key (f b) ≡ key' b) ys
      → insert_step lt key k (f b) (map f ys) ≡ map_first f (insert_step lt key' k b ys)
  unfolding insert_step
  insert_step-map k b [] h = refl
  insert_step-map k b (y ∷ ys) h = rw h.0 (elim (Bool-cases (lt (key' y) k)) [
    | inl d ↦ rw (d, insert_step-map k b ys h.1)
    | inr d ↦ rw d (elim (Bool-cases (lt k (key' y))) [ inl c ↦ rw c | inr c ↦ rw c ])
  ])

  pub search-map :
      (k : K) (ys : List B)
      → All (λ b. key (f b) ≡ key' b) ys
      → search lt key k (map f ys) ≡ map_option f (search lt key' k ys)
  search-map k ys h = simp search-eq-step (search_step-map k ys h)

  pub insert_unique-map :
      (k : K) (b : B) (ys : List B)
      → All (λ b. key (f b) ≡ key' b) ys
      → insert_unique lt key k (f b) (map f ys) ≡ map_first f (insert_unique lt key' k b ys)
  insert_unique-map k b ys h = simp insert_unique-eq-step (insert_step-map k b ys h)
