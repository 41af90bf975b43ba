-- ===== src/Subscriptions/Invariant/Adding.antt =====
-- A registration keeps the maps of a Request in agreement.
use cppgraphqlgen.Base.{
  ℕ, ◌+◌, ◌%◌, true, ◌≡◌, sym, arith, ltb, Bool-cases, inl, inr, All, All_map, subst,
}
use cppgraphqlgen.Base.Text.{Bytes, bytes_eq, bytes_eq→eq}
use cppgraphqlgen.Base.Order.{ltb-StrictOrder}
use cppgraphqlgen.Base.EqualRange.Laws
use cppgraphqlgen.Base.EqualRange.Laws.{Ascending}
use cppgraphqlgen.SortedMap.{sorted_map_key, set_key, emplace, set_emplace}
use cppgraphqlgen.Subscriptions.{
  SubscriptionData, Registry, key_limit, add_registration, add_listener,
}
use cppgraphqlgen.Subscriptions.Keys.{
  keys_of, keys_of-add_listener, bytes_eq_comm, add_listener-Listed, add_listener-Ascending,
}
use cppgraphqlgen.Subscriptions.Invariant.{
  subscribes, listens, Consistent, find-emplace, listens-set_emplace, next_key-fresh,
}

module _ {ℓ} {R : Type ℓ} where
  agree-add :
      (k n : ℕ) (f : Bytes) (d : SubscriptionData R) (r : Registry R)
      → Consistent r
      → listens (keys_of f (add_listener r.next_key d.field r.listeners)) k
        ≡ subscribes (emplace ltb r.next_key d r.subscriptions).0 f k
  unfolding subscribes
  agree-add k n f d r h = ground (
    arith,
    keys_of-add_listener f r.next_key d.field r.listeners,
    listens-set_emplace k r.next_key (keys_of d.field r.listeners),
    h.agree f k,
    bytes_eq→eq f d.field,
    bytes_eq_comm f d.field,
    next_key-fresh r h,
    find-emplace k r.next_key d r.subscriptions,
  )

  add-below :
      (d : SubscriptionData R) (r : Registry R)
      → Consistent r
      → All (λ e. ltb e.0 (r.next_key + 1) ≡ true) (emplace ltb r.next_key d r.subscriptions).0
  unfolding emplace
  add-below d r h =
      Laws.insert_unique-All ltb sorted_map_key (λ e. ltb e.0 (r.next_key + 1) ≡ true) r.next_key
        (r.next_key, d) r.subscriptions (ground arith)
        (All_map (λ e below. ground arith) r.subscriptions h.below)

  keys-Ascending-add :
      (k : ℕ) (g f : Bytes) (r : Registry R)
      → Consistent r
      → Ascending ltb (set_key ltb) (keys_of f (add_listener k g r.listeners))
  unfolding set_emplace
  keys-Ascending-add k g f r h =
      subst (Ascending ltb (set_key ltb)) (sym (keys_of-add_listener f k g r.listeners))
        (elim (Bool-cases (bytes_eq f g)) [
          | inl e ↦ rw e (
              Laws.insert_unique-Ascending ltb (set_key ltb) ltb-StrictOrder k
                (keys_of g r.listeners) (h.keys_ascending g))
          | inr e ↦ rw e (h.keys_ascending f)
        ])

  -- A registration keeps the maps consistent as long as keys are left.
  pub add_registration-Consistent :
      (d : SubscriptionData R) (r : Registry R)
      → Consistent r
      → ltb (r.next_key + 1) key_limit ≡ true
      → Consistent (add_registration d r).0
  unfolding add_registration emplace
  add_registration-Consistent d r h room =
      let next : (r.next_key + 1) % key_limit ≡ r.next_key + 1 = ground arith in
      record {
        subscriptions_ascending =
            Laws.insert_unique-Ascending ltb sorted_map_key ltb-StrictOrder (r.next_key, d)
              r.subscriptions h.subscriptions_ascending;
        listeners_ascending =
            add_listener-Ascending r.next_key d.field r.listeners h.listeners_ascending;
        keys_ascending = λ f. keys-Ascending-add r.next_key d.field f r h;
        listed = add_listener-Listed r.next_key d.field r.listeners h.listed;
        agree = λ f k. agree-add k r.next_key f d r h;
        below =
            subst (λ n. All (λ e. ltb e.0 n ≡ true) (emplace ltb r.next_key d r.subscriptions).0)
              (sym next) (add-below d r h);
        bounded = subst (λ n. ltb n key_limit ≡ true) (sym next) room;
      }
