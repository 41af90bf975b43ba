-- ===== src/Subscriptions/Invariant/Removing.antt =====
-- Removing a key keeps the maps of a Request in agreement.
use cppgraphqlgen.Base.{
  ℕ, true, false, [], none, some, ◌≡◌, refl, sym, arith, ltb, ◌==◌, if◌then◌else◌, Bool-cases,
  Option-cases, inl, inr, subst,
}
use cppgraphqlgen.Base.Text.{Bytes, bytes_lt, bytes_eq, bytes_eq→eq, bytes_eq_refl}
use cppgraphqlgen.Base.Outcome.{ok}
use cppgraphqlgen.Base.Order.{ltb-StrictOrder}
use cppgraphqlgen.Base.EqualRange.{is_none, search, equal_range, partition_point}
use cppgraphqlgen.Base.EqualRange.Laws
use cppgraphqlgen.Base.EqualRange.Laws.{Ascending}
use cppgraphqlgen.SortedMap.{sorted_map_key, set_key, find, erase, set_find, set_erase}
use cppgraphqlgen.Subscriptions.{
  SubscriptionData, Subscriptions, Registry, remove_subscription, next_key_after,
}
use cppgraphqlgen.Subscriptions.Keys.{
  is_empty→nil, keys_of, without_listener, remove_listener-ok, keys_of-without_listener,
  bytes_eq_comm, without_listener-Listed, without_listener-Ascending,
}
use cppgraphqlgen.Subscriptions.Invariant.{
  subscribes, listens, Consistent, find-erase_key, listens-set_erase, next_key_after-below,
}

listens-nil : (k : ℕ) → listens [] k ≡ false
unfolding listens set_find search equal_range partition_point
listens-nil k = refl

module _ {ℓ} {R : Type ℓ} where
  -- The registry without a key that is in use.
  unfoldable pub without_subscription : ℕ → ℕ × SubscriptionData R → Registry R → Registry R
  without_subscription key entry r = record {
    subscriptions = erase ltb key r.subscriptions;
    listeners = without_listener key entry.1.field r.listeners;
    next_key = next_key_after (erase ltb key r.subscriptions);
  }

  agree-remove :
      (j k : ℕ) (f : Bytes) (e : ℕ × SubscriptionData R) (r : Registry R)
      → Consistent r
      → find ltb k r.subscriptions ≡ some e
      → listens (keys_of f (without_listener k e.1.field r.listeners)) j
        ≡ subscribes (erase ltb k r.subscriptions) f j
  unfolding subscribes
  agree-remove j k f e r h found = ground (
    arith,
    keys_of-without_listener f k e.1.field r.listeners h.listeners_ascending,
    listens-set_erase j k (keys_of e.1.field r.listeners) (h.keys_ascending e.1.field),
    h.agree f j,
    bytes_eq→eq f e.1.field,
    bytes_eq_comm f e.1.field,
    find-erase_key j k r.subscriptions h.subscriptions_ascending,
  )

  keys-Ascending-remove :
      (k : ℕ) (g f : Bytes) (r : Registry R)
      → Consistent r
      → Ascending ltb (set_key ltb) (keys_of f (without_listener k g r.listeners))
  unfolding set_erase
  keys-Ascending-remove k g f r h =
      subst (Ascending ltb (set_key ltb))
        (sym (keys_of-without_listener f k g r.listeners h.listeners_ascending))
        (elim (Bool-cases (bytes_eq f g)) [
          | inl e ↦ rw e (
              Laws.erase_first-Ascending ltb (set_key ltb) ltb-StrictOrder k (keys_of g r.listeners)
                (h.keys_ascending g))
          | inr e ↦ rw e (h.keys_ascending f)
        ])

  pub without_subscription-Consistent :
      (k : ℕ) (e : ℕ × SubscriptionData R) (r : Registry R)
      → Consistent r
      → find ltb k r.subscriptions ≡ some e
      → Consistent (without_subscription k e r)
  unfolding without_subscription erase
  without_subscription-Consistent k e r h found =
      let ascending =
        Laws.erase_first-Ascending ltb sorted_map_key ltb-StrictOrder k r.subscriptions
          h.subscriptions_ascending in
      let (below, bounded) =
        next_key_after-below r.next_key (erase ltb k r.subscriptions) ascending
          (Laws.erase_first-All ltb sorted_map_key ltb-StrictOrder (λ x. ltb x.0 r.next_key ≡ true)
            k r.subscriptions h.below)
          h.bounded in
      record {
        subscriptions_ascending = ascending;
        listeners_ascending =
            without_listener-Ascending k e.1.field r.listeners h.listeners_ascending;
        keys_ascending = λ f. keys-Ascending-remove k e.1.field f r h;
        listed = without_listener-Listed k e.1.field r.listeners h.listeners_ascending h.listed;
        agree = λ f j. agree-remove j k f e r h found;
        below = below;
        bounded = ground (arith, h.bounded);
      }

  subscribes-found :
      (k : ℕ) (e : ℕ × SubscriptionData R) (entries : Subscriptions R)
      → find ltb k entries ≡ some e
      → subscribes entries e.1.field k ≡ true
  unfolding subscribes
  subscribes-found k e entries h = ground (arith, bytes_eq_refl e.1.field)

  -- A key in use has listeners for its field.
  has_listeners :
      (k : ℕ) (e : ℕ × SubscriptionData R) (r : Registry R)
      → Consistent r
      → find ltb k r.subscriptions ≡ some e
      → is_none (find bytes_lt e.1.field r.listeners) ≡ false
  has_listeners k e r h found = ground (
    arith,
    subscribes-found k e r.subscriptions found,
    h.agree e.1.field k,
    h.listed e.1.field,
    is_empty→nil (keys_of e.1.field r.listeners),
    listens-nil k,
  )

  pub remove_subscription-found :
      (k : ℕ) (e : ℕ × SubscriptionData R) (r : Registry R)
      → Consistent r
      → find ltb k r.subscriptions ≡ some e
      → remove_subscription k r ≡ ok (without_subscription k e r)
  unfolding remove_subscription without_subscription
  remove_subscription-found k e r h found =
      ground (arith, remove_listener-ok k e.1.field r.listeners (has_listeners k e r h found))

  remove_subscription-none :
      (k : ℕ) (r : Registry R) → find ltb k r.subscriptions ≡ none → remove_subscription k r ≡ ok r
  unfolding remove_subscription
  remove_subscription-none k r h = ground arith

  -- Removing a key from consistent maps never throws, keeps them consistent, and takes out the
  -- subscription of that key and no other; a key that is not in use is let be.
  pub remove_subscription-Consistent :
      (k : ℕ) (r : Registry R)
      → Consistent r
      → (r' : Registry R) × (remove_subscription k r ≡ ok r')
        × Consistent r'
        × ((j : ℕ)
            → find ltb j r'.subscriptions ≡ (if j == k then none else find ltb j r.subscriptions))
  unfolding without_subscription
  remove_subscription-Consistent k r h = elim (Option-cases (find ltb k r.subscriptions)) [
    | inl e ↦ (r, remove_subscription-none k r e, h, λ j. ground arith)
    | inr (x, e) ↦ (
      without_subscription k x r,
      remove_subscription-found k x r h e,
      without_subscription-Consistent k x r h e,
      λ j. find-erase_key j k r.subscriptions h.subscriptions_ascending,
    )
  ]
