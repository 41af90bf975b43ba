-- ===== src/Subscriptions/Collect/Subscribed.antt =====
-- The listeners of a field are the keys of the subscriptions to it.
use cppgraphqlgen.Base.{
  ℕ, true, List, [], ◌∷◌, map, none, some, ◌≡◌, refl, arith, ltb, if◌then◌else◌, Bool-cases,
  Option-cases, inl, inr, All, In, here, there,
}
use cppgraphqlgen.Base.Text.{Bytes, bytes_eq}
use cppgraphqlgen.Base.Order.{ltb-StrictOrder}
use cppgraphqlgen.Base.EqualRange.{search}
use cppgraphqlgen.Base.EqualRange.Laws
use cppgraphqlgen.Base.EqualRange.Laws.{Ascending}
use cppgraphqlgen.Base.EqualRange.Update
use cppgraphqlgen.SortedMap.{sorted_map_key, set_key, find, set_find}
use cppgraphqlgen.Subscriptions.{SubscriptionData, Subscriptions, Registry}
use cppgraphqlgen.Subscriptions.Keys.{keys_of}
use cppgraphqlgen.Subscriptions.Invariant.{Consistent, listens, subscribes}

In-All {ℓ κ} : {A : Type ℓ} (P : A → Type κ) (xs : List A) → ((x : A) → In x xs → P x) → All P xs
In-All P [] h = tt
In-All P (x ∷ xs) h = (h x (here refl), In-All P xs (λ y m. h y (there m)))

search-listens :
    (j : ℕ) (keys : List ℕ)
    → search ltb (set_key ltb) j keys ≡ (if listens keys j then some j else none)
unfolding listens set_find
search-listens j keys = elim (Option-cases (search ltb (set_key ltb) j keys)) [
  | inl e ↦ ground arith
  | inr (k, e) ↦ ground (arith, (Laws.search_found ltb (set_key ltb) ltb-StrictOrder j keys e).0)
]

module _ {ℓ} {R : Type ℓ} where
  -- The subscriptions to a field, in the order of their keys.
  unfoldable pub subscribed_to : Bytes → Subscriptions R → Subscriptions R
  subscribed_to field [] = []
  subscribed_to field (entry ∷ entries) =
      let rest = subscribed_to field entries in
      if bytes_eq entry.1.field field then entry ∷ rest else rest

  abbrev pub keys : Subscriptions R → List ℕ
  keys entries = map (λ e. e.0) entries

  subscribed_to-All {κ} :
      (P : ℕ × SubscriptionData R → Type κ) (f : Bytes) (entries : Subscriptions R)
      → All P entries
      → All P (subscribed_to f entries)
  unfolding subscribed_to
  subscribed_to-All P f [] h = tt
  subscribed_to-All P f (e ∷ entries) h = elim (Bool-cases (bytes_eq e.1.field f)) [
    | inl s ↦ rw s (h.0, subscribed_to-All P f entries h.1)
    | inr s ↦ rw s (subscribed_to-All P f entries h.1)
  ]

  keys-All {κ} :
      (P : ℕ → Type κ) (entries : Subscriptions R) → All (λ e. P e.0) entries → All P (keys entries)
  keys-All P [] h = tt
  keys-All P (e ∷ entries) h = (h.0, keys-All P entries h.1)

  keys-Ascending :
      (f : Bytes) (entries : Subscriptions R)
      → Ascending ltb sorted_map_key entries
      → Ascending ltb (set_key ltb) (keys (subscribed_to f entries))
  unfolding subscribed_to
  keys-Ascending f [] h = tt
  keys-Ascending f (e ∷ entries) h = elim (Bool-cases (bytes_eq e.1.field f)) [
    | inl s ↦ rw s (
      keys-All (λ k. ltb e.0 k ≡ true) (subscribed_to f entries)
          (subscribed_to-All (λ x. ltb e.0 x.0 ≡ true) f entries h.0),
      keys-Ascending f entries h.1,
    )
    | inr s ↦ rw s (keys-Ascending f entries h.1)
  ]

  -- A key is one of the subscriptions to a field exactly if it is found with that field.
  search-keys :
      (j : ℕ) (f : Bytes) (entries : Subscriptions R)
      → Ascending ltb sorted_map_key entries
      → search ltb (set_key ltb) j (keys (subscribed_to f entries))
        ≡ (if subscribes entries f j then some j else none)
  unfolding subscribed_to subscribes find
  search-keys j f [] h = ground (
    arith,
    Laws.search-nil ltb (set_key ltb) j,
    Laws.search-nil ltb (sorted_map_key {V = SubscriptionData R}) j,
  )
  search-keys j f (e ∷ entries) h = ground (
    arith,
    search-keys j f entries h.1,
    Laws.search-cons ltb sorted_map_key j e entries,
    Laws.search-cons ltb (set_key ltb) j e.0 (keys (subscribed_to f entries)),
    Laws.search_behind ltb sorted_map_key ltb-StrictOrder j e entries h,
  )

  pub keys_of-subscribed_to :
      (f : Bytes) (r : Registry R)
      → Consistent r
      → keys_of f r.listeners ≡ keys (subscribed_to f r.subscriptions)
  keys_of-subscribed_to f r h =
      Update.search-ext ltb (set_key ltb) ltb-StrictOrder (keys_of f r.listeners)
        (keys (subscribed_to f r.subscriptions)) (h.keys_ascending f)
        (keys-Ascending f r.subscriptions h.subscriptions_ascending)
        (λ j. ground (
          arith,
          h.agree f j,
          search-keys j f r.subscriptions h.subscriptions_ascending,
          search-listens j (keys_of f r.listeners),
        ))

  found-All :
      (entries : Subscriptions R)
      → Ascending ltb sorted_map_key entries
      → All (λ e. find ltb e.0 entries ≡ some e) entries
  unfolding find
  found-All entries h =
      In-All (λ e. find ltb e.0 entries ≡ some e) entries
        (λ e m. Laws.search_complete ltb sorted_map_key ltb-StrictOrder h m)

  pub found-subscribed_to :
      (f : Bytes) (r : Registry R)
      → Consistent r
      → All (λ e. find ltb e.0 r.subscriptions ≡ some e) (subscribed_to f r.subscriptions)
  found-subscribed_to f r h =
      subscribed_to-All (λ y. find ltb y.0 r.subscriptions ≡ some y) f r.subscriptions
        (found-All r.subscriptions h.subscriptions_ascending)
