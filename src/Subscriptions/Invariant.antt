-- ===== src/Subscriptions/Invariant.antt =====
-- When the two maps of a Request and its next key agree.
pub mod Adding
pub mod Removing
use cppgraphqlgen.Base.{
  ℕ, ◌+◌, ◌%◌, Bool, true, false, not, ◌&&◌, List, [], ◌∷◌, Option, none, some, ◌≡◌, refl, sym,
  arith, ltb, leb, ◌==◌, if◌then◌else◌, Bool-cases, Option-cases, inl, inr, All, All-In, All_map,
  subst, false≢true, ◌∙◌,
}
use cppgraphqlgen.Base.Text.{Bytes, bytes_lt, bytes_eq, bytes_eq→eq, bytes_eq_refl}
use cppgraphqlgen.Base.Outcome.{Outcome, ok, ◌>>=◌}
use cppgraphqlgen.Base.Order.{bytes_lt-StrictOrder, ltb-StrictOrder, same}
use cppgraphqlgen.Base.EqualRange.{is_none, search, equal_range, partition_point}
use cppgraphqlgen.Base.EqualRange.Laws
use cppgraphqlgen.Base.EqualRange.Laws.{Ascending}
use cppgraphqlgen.SortedMap.{
  sorted_map_key, set_key, find, emplace, erase, set_find, set_emplace, set_erase,
}
use cppgraphqlgen.Subscriptions.{
  SubscriptionData, Subscriptions, Registry, empty_registry, key_limit, add_registration,
  remove_subscription, add_listener, next_key_after, last_key,
}
use cppgraphqlgen.Subscriptions.Keys.{
  is_empty→nil, keys_of, keys_of-add_listener, without_listener, remove_listener-ok,
  keys_of-without_listener, bytes_eq_comm, Listed, add_listener-Listed, without_listener-Listed,
  add_listener-Ascending, without_listener-Ascending,
}

-- Whether the key listens to the field.
unfoldable pub listens : List ℕ → ℕ → Bool
listens keys key = not (is_none (set_find ltb key keys))

pub same-== : (j k : ℕ) → same ltb j k ≡ (j == k)
same-== j k = ground arith

pub listens-set_emplace :
    (j k : ℕ) (keys : List ℕ)
    → listens (set_emplace ltb k keys).0 j ≡ (if j == k then true else listens keys j)
unfolding listens set_find set_emplace
listens-set_emplace j k keys =
    ground
      (arith, Laws.search-insert_unique ltb (set_key ltb) ltb-StrictOrder j k keys, same-== j k)

pub listens-set_erase :
    (j k : ℕ) (keys : List ℕ)
    → Ascending ltb (set_key ltb) keys
    → listens (set_erase ltb k keys) j ≡ (if j == k then false else listens keys j)
unfolding listens set_find set_erase
listens-set_erase j k keys h =
    ground
      (arith, Laws.search-erase_first ltb (set_key ltb) ltb-StrictOrder j k keys h, same-== j k)

module _ {ℓ} {R : Type ℓ} where
  -- Whether the key is one of a subscription to the field.
  unfoldable pub subscribes : Subscriptions R → Bytes → ℕ → Bool
  subscribes entries field key = elim (find ltb key entries) [
    | none ↦ false
    | some entry ↦ bytes_eq entry.1.field field
  ]

  -- Each subscription listens to its own field and to no other, and the next key is above the keys
  -- in use.
  pub record Consistent (registry : Registry R) : Type ℓ where
    pub subscriptions_ascending : Ascending ltb sorted_map_key registry.subscriptions
    pub listeners_ascending : Ascending bytes_lt sorted_map_key registry.listeners
    pub keys_ascending : (f : Bytes) → Ascending ltb (set_key ltb) (keys_of f registry.listeners)
    pub listed : Listed registry.listeners
    pub agree :
        (f : Bytes) (k : ℕ)
        → listens (keys_of f registry.listeners) k ≡ subscribes registry.subscriptions f k
    pub below : All (λ e. ltb e.0 registry.next_key ≡ true) registry.subscriptions
    pub bounded : ltb registry.next_key key_limit ≡ true

  pub find-emplace :
      (j k : ℕ) (d : SubscriptionData R) (entries : Subscriptions R)
      → find ltb j (emplace ltb k d entries).0
        ≡ (if is_none (find ltb k entries) && (j == k) then some (k, d) else find ltb j entries)
  unfolding find emplace
  find-emplace j k d entries =
      subst
        (λ b.
          find ltb j (emplace ltb k d entries).0
          ≡ (if is_none (find ltb k entries) && b then some (k, d) else find ltb j entries))
        (same-== j k)
        (Laws.search-insert_unique ltb sorted_map_key ltb-StrictOrder j (k, d) entries)

  pub find-erase_key :
      (j k : ℕ) (entries : Subscriptions R)
      → Ascending ltb sorted_map_key entries
      → find ltb j (erase ltb k entries) ≡ (if j == k then none else find ltb j entries)
  unfolding find erase
  find-erase_key j k entries h =
      subst (λ b. find ltb j (erase ltb k entries) ≡ (if b then none else find ltb j entries))
        (same-== j k) (Laws.search-erase_first ltb sorted_map_key ltb-StrictOrder j k entries h)

  pub empty_registry-Consistent : Consistent empty_registry
  unfolding keys_of listens subscribes find set_find search equal_range partition_point
  empty_registry-Consistent = record {
    subscriptions_ascending = tt;
    listeners_ascending = tt;
    keys_ascending = λ f. tt;
    listed = λ f. refl;
    agree = λ f k. refl;
    below = tt;
    bounded = refl;
  }

  -- `_subscriptions.rbegin()` has the greatest key.
  last_key-greatest :
      (j k : ℕ) (entries : Subscriptions R)
      → All (λ e. ltb k e.0 ≡ true) entries
      → Ascending ltb sorted_map_key entries
      → ltb (last_key k entries) j ≡ true
      → All (λ e. ltb e.0 j ≡ true) entries × (ltb k j ≡ true)
  last_key-greatest j k [] h a l = (tt, l)
  last_key-greatest j k (e ∷ entries) h a l =
      let (above, front) = last_key-greatest j e.0 entries a.0 a.1 l in
      ((front, above), ltb-StrictOrder.transitive k e.0 j h.0 front)

  find-above :
      (k n : ℕ) (entries : Subscriptions R)
      → All (λ e. ltb e.0 n ≡ true) entries
      → ltb k n ≡ false
      → find ltb k entries ≡ none
  unfolding find
  find-above k n entries h l = elim (Option-cases (find ltb k entries)) [
    | inl e ↦ e
    | inr (x, e) ↦
        let (same_key, found) = Laws.search_found ltb sorted_map_key ltb-StrictOrder k entries e in
        absurd (
          false≢true
            (sym l ∙ subst (λ j. ltb j n ≡ true) same_key (All-In (λ e. ltb e.0 n ≡ true) h found)))
  ]

  last_key-below :
      (n k : ℕ) (entries : Subscriptions R)
      → All (λ e. ltb e.0 n ≡ true) entries
      → ltb k n ≡ true
      → ltb (last_key k entries) n ≡ true
  last_key-below n k [] h l = l
  last_key-below n k (e ∷ entries) h l = last_key-below n e.0 entries h.1 h.0

  -- Where every key is below a limit, so are the keys and the next key after them.
  pub next_key_after-below :
      (n : ℕ) (entries : Subscriptions R)
      → Ascending ltb sorted_map_key entries
      → All (λ e. ltb e.0 n ≡ true) entries
      → ltb n key_limit ≡ true
      → All (λ e. ltb e.0 (next_key_after entries) ≡ true) entries
        × (leb (next_key_after entries) n ≡ true)
  unfolding next_key_after
  next_key_after-below n [] a h b = (tt, ground arith)
  next_key_after-below n (e ∷ entries) a h b =
      let last = last_key-below n e.0 entries h.1 h.0 in
      let top : (last_key e.0 entries + 1) % key_limit ≡ last_key e.0 entries + 1 = ground arith in
      let (above, front) =
        last_key-greatest (last_key e.0 entries + 1) e.0 entries a.0 a.1 (ground arith) in
      subst (λ t. All (λ x. ltb x.0 t ≡ true) (e ∷ entries) × (leb t n ≡ true)) (sym top)
        ((front, above), ground arith)

  -- The next key of a registry is not in use.
  pub next_key-fresh : (r : Registry R) → Consistent r → find ltb r.next_key r.subscriptions ≡ none
  next_key-fresh r h = find-above r.next_key r.next_key r.subscriptions h.below (ground arith)
