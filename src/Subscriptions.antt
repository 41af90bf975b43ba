-- ===== src/Subscriptions.antt =====
-- The subscriptions of a Request in src/GraphQLService.cpp and
-- include/graphqlservice/GraphQLService.h: the maps `_subscriptions` and `_listeners` and the key
-- `_nextKey`, as addSubscription registers in them and removeSubscription takes out of them.
-- A caller holds `_subscriptionMutex` through each of the functions here.
pub mod Keys
pub mod Invariant
pub mod Undo
pub mod Collect
pub mod Requests
pub mod Subscribing
pub mod Undisturbed
pub mod Delivered
pub mod Deliver
mod Examples
use cppgraphqlgen.Base.{
  ℕ, ◌+◌, ◌%◌, ◌^◌, Bool, true, false, List, [], ◌∷◌, Option, none, some, ltb, if◌then◌else◌,
}
use cppgraphqlgen.Base.Text.{Bytes, bytes_lt}
use cppgraphqlgen.Base.Outcome.{Outcome, ok, ◌>>=◌}
use cppgraphqlgen.Base.EqualRange.{update_first}
use cppgraphqlgen.Response.{Value}
use cppgraphqlgen.Service.Directives.{Directives}
use cppgraphqlgen.SortedMap.{
  sorted_map_key, find, emplace, erase, subscript, at, set_emplace, set_erase,
}

-- `operation` stands for what only the resolver and the callback read: the operation data, the
-- query, the name of the operation, the callback and the selection.
pub record SubscriptionData {ℓ} (R : Type ℓ) : Type ℓ where
  pub field : Bytes
  pub arguments : Value
  pub field_directives : Directives
  pub operation : R

abbrev pub Subscriptions {ℓ} : Type ℓ → Type ℓ
Subscriptions R = List (ℕ × SubscriptionData R)

-- The keys that listen to each field.
abbrev pub Listeners : Type 0
Listeners = List (Bytes × List ℕ)

pub record Registry {ℓ} (R : Type ℓ) : Type ℓ where
  pub subscriptions : Subscriptions R
  pub listeners : Listeners
  pub next_key : ℕ

-- The limit of std::size_t.
abbrev pub key_limit : ℕ
key_limit = 2 ^ 64

abbrev pub is_empty {ℓ} : {A : Type ℓ} → List A → Bool
is_empty [] = true
is_empty (x ∷ xs) = false

-- A call on the set of a field, through the reference to it.
unfoldable pub change_listener : (List ℕ → List ℕ) → Bytes → Listeners → Listeners
change_listener change field listeners =
    update_first bytes_lt sorted_map_key field (λ entry. (entry.0, change entry.1)) listeners

-- `_listeners[field].emplace(key)`
unfoldable pub add_listener : ℕ → Bytes → Listeners → Listeners
add_listener key field listeners =
    change_listener (λ keys. (set_emplace ltb key keys).0) field
      (subscript bytes_lt [] field listeners).0

-- The set of the field loses the key, and goes when it is empty.
unfoldable pub remove_listener : ℕ → Bytes → Listeners → Outcome Listeners
remove_listener key field listeners = do
  listener ← at bytes_lt field listeners
  ok (
      if is_empty (set_erase ltb key listener)
      then erase bytes_lt field listeners
      else change_listener (set_erase ltb key) field listeners)

-- The key of the last subscription, `rbegin()->first`.
abbrev pub last_key {ℓ} : {R : Type ℓ} → ℕ → Subscriptions R → ℕ
last_key key [] = key
last_key key (entry ∷ entries) = last_key entry.0 entries

unfoldable pub next_key_after {ℓ} : {R : Type ℓ} → Subscriptions R → ℕ
next_key_after [] = 0
next_key_after (entry ∷ entries) = (last_key entry.0 entries + 1) % key_limit

module _ {ℓ} {R : Type ℓ} where
  abbrev pub empty_registry : Registry R
  empty_registry = record { subscriptions = []; listeners = []; next_key = 0 }

  -- The end of addSubscription.
  unfoldable pub add_registration : SubscriptionData R → Registry R → Registry R × ℕ
  add_registration registration registry = (
    record {
      subscriptions = (emplace ltb registry.next_key registration registry.subscriptions).0;
      listeners = add_listener registry.next_key registration.field registry.listeners;
      next_key = (registry.next_key + 1) % key_limit;
    },
    registry.next_key,
  )

  unfoldable pub remove_subscription : ℕ → Registry R → Outcome (Registry R)
  remove_subscription key registry = elim (find ltb key registry.subscriptions) [
    | none ↦ ok registry
    | some entry ↦ do
      listeners ← remove_listener key entry.1.field registry.listeners
      let subscriptions = erase ltb key registry.subscriptions
      ok (record {
        subscriptions = subscriptions;
        listeners = listeners;
        next_key = next_key_after subscriptions;
      })
  ]
