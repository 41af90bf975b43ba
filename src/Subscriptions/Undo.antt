-- ===== src/Subscriptions/Undo.antt =====
-- Taking out a key that was just registered, as Request::subscribe does when resolving fails.
use cppgraphqlgen.Base.{ℕ, ◌+◌, true, false, List, none, some, ◌≡◌, ◌∙◌, arith, ltb, refl}
use cppgraphqlgen.Base.Text.{Bytes, bytes_lt, bytes_eq→eq, bytes_eq_refl}
use cppgraphqlgen.Base.Outcome.{ok}
use cppgraphqlgen.Base.Order.{ltb-StrictOrder}
use cppgraphqlgen.Base.EqualRange.Laws
use cppgraphqlgen.Base.EqualRange.Laws.{Ascending}
use cppgraphqlgen.Base.EqualRange.Update
use cppgraphqlgen.SortedMap.{
  sorted_map_key, set_key, find, emplace, erase, set_find, set_emplace, set_erase,
}
use cppgraphqlgen.Subscriptions.{
  SubscriptionData, Subscriptions, Listeners, Registry, key_limit, add_registration,
  remove_subscription, add_listener, next_key_after,
}
use cppgraphqlgen.Subscriptions.Keys.{
  keys_of, keys_of-add_listener, without_listener, keys_of-without_listener, Listed,
  add_listener-Listed, without_listener-Listed, add_listener-Ascending, without_listener-Ascending,
  listeners-ext,
}
use cppgraphqlgen.Subscriptions.Invariant.{
  Consistent, listens, subscribes, find-emplace, find-erase_key, next_key-fresh, same-==,
}
use cppgraphqlgen.Subscriptions.Invariant.Adding.{add_registration-Consistent}
use cppgraphqlgen.Subscriptions.Invariant.Removing.{without_subscription, remove_subscription-found}

set_erase-set_emplace :
    (k : ℕ) (keys : List ℕ)
    → Ascending ltb (set_key ltb) keys
    → listens keys k ≡ false
    → set_erase ltb k (set_emplace ltb k keys).0 ≡ keys
unfolding set_erase set_emplace listens set_find
set_erase-set_emplace k keys h absent =
    let longer = Laws.insert_unique-Ascending ltb (set_key ltb) ltb-StrictOrder k keys h in
    Update.search-ext ltb (set_key ltb) ltb-StrictOrder (set_erase ltb k (set_emplace ltb k keys).0)
      keys
      (Laws.erase_first-Ascending ltb (set_key ltb) ltb-StrictOrder k (set_emplace ltb k keys).0
        longer)
      h
      (λ j. ground (
        arith,
        Laws.search-erase_first ltb (set_key ltb) ltb-StrictOrder j k (set_emplace ltb k keys).0
            longer,
        Laws.search-insert_unique ltb (set_key ltb) ltb-StrictOrder j k keys,
        same-== j k,
      ))

without_listener-add_listener :
    (k : ℕ) (f : Bytes) (ls : Listeners)
    → Ascending bytes_lt sorted_map_key ls
    → Listed ls
    → Ascending ltb (set_key ltb) (keys_of f ls)
    → listens (keys_of f ls) k ≡ false
    → without_listener k f (add_listener k f ls) ≡ ls
without_listener-add_listener k f ls a h o absent =
    let a' = add_listener-Ascending k f ls a in
    listeners-ext (without_listener k f (add_listener k f ls)) ls
      (without_listener-Ascending k f (add_listener k f ls) a') a
      (without_listener-Listed k f (add_listener k f ls) a' (add_listener-Listed k f ls h)) h
      (λ g. ground (
        arith,
        keys_of-without_listener g k f (add_listener k f ls) a',
        keys_of-add_listener f k f ls,
        keys_of-add_listener g k f ls,
        set_erase-set_emplace k (keys_of f ls) o absent,
        bytes_eq→eq g f,
        bytes_eq_refl f,
      ))

module _ {ℓ} {R : Type ℓ} where
  erase-emplace :
      (k : ℕ) (d : SubscriptionData R) (entries : Subscriptions R)
      → Ascending ltb sorted_map_key entries
      → find ltb k entries ≡ none
      → erase ltb k (emplace ltb k d entries).0 ≡ entries
  unfolding erase emplace find
  erase-emplace k d entries h absent =
      let longer =
        Laws.insert_unique-Ascending ltb sorted_map_key ltb-StrictOrder (k, d) entries h in
      Update.search-ext ltb sorted_map_key ltb-StrictOrder (erase ltb k (emplace ltb k d entries).0)
        entries
        (Laws.erase_first-Ascending ltb sorted_map_key ltb-StrictOrder k (emplace ltb k d entries).0
          longer)
        h
        (λ j. ground (
          arith,
          find-erase_key j k (emplace ltb k d entries).0 longer,
          find-emplace j k d entries,
        ))

  fresh-listens :
      (f : Bytes) (r : Registry R)
      → Consistent r
      → listens (keys_of f r.listeners) r.next_key ≡ false
  unfolding subscribes
  fresh-listens f r h = ground (arith, h.agree f r.next_key, next_key-fresh r h)

  registered :
      (d : SubscriptionData R) (r : Registry R)
      → Consistent r
      → find ltb r.next_key (add_registration d r).0.subscriptions ≡ some (r.next_key, d)
  unfolding add_registration
  registered d r h =
      ground (arith, find-emplace r.next_key r.next_key d r.subscriptions, next_key-fresh r h)

  -- On a consistent registry whose next key is not the last of 64 bits, the key that a registration
  -- returns is new, its data is found under it, and removing the key leaves both maps as they were
  -- and sets the next key behind the keys in use.
  pub remove_subscription-add_registration :
      (d : SubscriptionData R) (r : Registry R)
      → Consistent r
      → ltb (r.next_key + 1) key_limit ≡ true
      → (find ltb (add_registration d r).1 r.subscriptions ≡ none)
        × (find ltb (add_registration d r).1 (add_registration d r).0.subscriptions
            ≡ some ((add_registration d r).1, d))
        × (remove_subscription (add_registration d r).1 (add_registration d r).0
            ≡ ok (record {
              subscriptions = r.subscriptions;
              listeners = r.listeners;
              next_key = next_key_after r.subscriptions;
            }))
  unfolding add_registration without_subscription
  remove_subscription-add_registration d r h room =
      let after = add_registration-Consistent d r h room in
      let entries =
        erase-emplace r.next_key d r.subscriptions h.subscriptions_ascending (next_key-fresh r h) in
      let keys =
        without_listener-add_listener r.next_key d.field r.listeners h.listeners_ascending h.listed
          (h.keys_ascending d.field) (fresh-listens d.field r h) in
      (
        next_key-fresh r h,
        registered d r h,
        remove_subscription-found r.next_key (r.next_key, d) (add_registration d r).0 after
              (registered d r h)
            ∙ rw (entries, keys) refl,
      )
