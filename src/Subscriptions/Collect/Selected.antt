-- ===== src/Subscriptions/Collect/Selected.antt =====
-- Which subscriptions an event goes to, described without the listeners.
use cppgraphqlgen.Base.{
  ℕ, Bool, true, List, [], ◌∷◌, Option, none, some, ◌≡◌, refl, arith, ltb, ◌==◌, if◌then◌else◌,
  Option-cases, inl, inr, All,
}
use cppgraphqlgen.Base.Text.{Bytes, bytes_lt}
use cppgraphqlgen.Base.Outcome.{Outcome, ok, ◌>>=◌}
use cppgraphqlgen.Base.Order.{ltb-StrictOrder}
use cppgraphqlgen.Base.EqualRange.Laws
use cppgraphqlgen.Base.EqualRange.Laws.{Ascending}
use cppgraphqlgen.SortedMap.{sorted_map_key, find}
use cppgraphqlgen.Subscriptions.{SubscriptionData, Subscriptions, Registry}
use cppgraphqlgen.Subscriptions.Keys.{keys_of}
use cppgraphqlgen.Subscriptions.Invariant.{Consistent}
use cppgraphqlgen.Subscriptions.Collect.{
  DeliverFilter, key_filter, subscription_filter, accepts, noexcept, collect_all, collect_key,
  collect_filtered, collect_registrations,
}
use cppgraphqlgen.Subscriptions.Collect.Subscribed.{
  keys, keys_of-subscribed_to, found-subscribed_to,
}
pub use cppgraphqlgen.Subscriptions.Collect.Subscribed.{subscribed_to}

module _ {ℓ} {R : Type ℓ} where
  -- What the filter asks of a subscription.
  unfoldable pub chosen : Option DeliverFilter → ℕ × SubscriptionData R → Outcome Bool
  chosen none entry = ok true
  chosen (some (key_filter key)) entry = ok (entry.0 == key)
  chosen (some (subscription_filter arguments directives)) entry =
      accepts arguments directives entry.1

  unfoldable pub select :
      (ℕ × SubscriptionData R → Outcome Bool)
      → Subscriptions R
      → Outcome (List (Option (SubscriptionData R)))
  select test [] = ok []
  select test (entry ∷ entries) =
      let rest = select test entries in
      do
        accepted ← test entry
        registrations ← rest
        ok (if accepted then some entry.1 ∷ registrations else registrations)

  collect_all-found :
      (all entries : Subscriptions R)
      → All (λ e. find ltb e.0 all ≡ some e) entries
      → ok (collect_all all (keys entries)) ≡ select (chosen none) entries
  unfolding collect_all select chosen
  collect_all-found all [] h = refl
  collect_all-found all (e ∷ entries) h = ground (arith, collect_all-found all entries h.1, h.0)

  collect_filtered-found :
      (test : SubscriptionData R → Outcome Bool) (all entries : Subscriptions R)
      → All (λ e. find ltb e.0 all ≡ some e) entries
      → collect_filtered test all (keys entries) ≡ select (λ e. test e.1) entries
  unfolding collect_filtered select
  collect_filtered-found test all [] h = refl
  collect_filtered-found test all (e ∷ entries) h =
      ground (arith, collect_filtered-found test all entries h.1, h.0)

  select-above :
      (k : ℕ) (f : Bytes) (entries : Subscriptions R)
      → All (λ e. ltb k e.0 ≡ true) entries
      → select (chosen (some (key_filter k))) (subscribed_to f entries) ≡ ok []
  unfolding select chosen subscribed_to
  select-above k f [] h = refl
  select-above k f (e ∷ entries) h = ground (arith, select-above k f entries h.1, h.0)

  collect_key-select :
      (k : ℕ) (f : Bytes) (entries : Subscriptions R)
      → Ascending ltb sorted_map_key entries
      → ok (collect_key f k entries)
        ≡ select (chosen (some (key_filter k))) (subscribed_to f entries)
  unfolding collect_key select chosen subscribed_to find
  collect_key-select k f [] h =
      ground (arith, Laws.search-nil ltb (sorted_map_key {V = SubscriptionData R}) k)
  collect_key-select k f (e ∷ entries) h = ground (
    arith,
    collect_key-select k f entries h.1,
    Laws.search-cons ltb sorted_map_key k e entries,
    Laws.search_behind ltb sorted_map_key ltb-StrictOrder k e entries h,
    select-above e.0 f entries h.0,
  )

  keys-nil : (entries : Subscriptions R) → [] ≡ keys entries → entries ≡ []
  keys-nil [] h = refl
  keys-nil (e ∷ entries) h = cc

  collect-listed :
      (f : Bytes) (filter : Option DeliverFilter) (r : Registry R) (x : Bytes × List ℕ)
      → Consistent r
      → find bytes_lt f r.listeners ≡ some x
      → collect_registrations f filter r
        ≡ noexcept (select (chosen filter) (subscribed_to f r.subscriptions))
  unfolding collect_registrations keys_of chosen
  collect-listed f none r x h e = ground (
    arith,
    keys_of-subscribed_to f r h,
    collect_all-found r.subscriptions (subscribed_to f r.subscriptions) (found-subscribed_to f r h),
  )
  collect-listed f (some (key_filter k)) r x h e =
      ground (arith, collect_key-select k f r.subscriptions h.subscriptions_ascending)
  collect-listed f (some (subscription_filter a d)) r x h e = ground (
    arith,
    keys_of-subscribed_to f r h,
    collect_filtered-found (accepts a d) r.subscriptions (subscribed_to f r.subscriptions)
        (found-subscribed_to f r h),
  )

  unlisted :
      (f : Bytes) (r : Registry R)
      → Consistent r
      → find bytes_lt f r.listeners ≡ none
      → subscribed_to f r.subscriptions ≡ []
  unfolding keys_of
  unlisted f r h e =
      ground (arith, keys_of-subscribed_to f r h, keys-nil (subscribed_to f r.subscriptions))

  select-nil : (test : ℕ × SubscriptionData R → Outcome Bool) → select test [] ≡ ok []
  unfolding select
  select-nil test = refl

  -- On consistent maps an event goes to the subscriptions to its field that the filter chooses, in
  -- the order of their keys. None of them is missing, so that no pointer is null; where a
  -- comparison or a callback throws the program ends.
  pub collect_registrations-select :
      (f : Bytes) (filter : Option DeliverFilter) (r : Registry R)
      → Consistent r
      → collect_registrations f filter r
        ≡ noexcept (select (chosen filter) (subscribed_to f r.subscriptions))
  unfolding collect_registrations
  collect_registrations-select f filter r h = elim (Option-cases (find bytes_lt f r.listeners)) [
    | inl e ↦ ground (arith, unlisted f r h e, select-nil (chosen filter))
    | inr (x, e) ↦ collect-listed f filter r x h e
  ]
