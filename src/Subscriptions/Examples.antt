-- ===== src/Subscriptions/Examples.antt =====
-- A Request with two subscriptions to one field and one to another.
use cppgraphqlgen.Base.{
  ℕ, ◌+◌, Bool-cases, inl, inr, subst, sym, ap, List, [], ◌∷◌, Option, none, some, ◌≡◌, refl, ltb,
  ◌==◌, if◌then◌else◌,
}
use cppgraphqlgen.Base.Text.{Bytes, codes, bytes_eq, bytes_lt, lex_compare}
use cppgraphqlgen.Base.Outcome.{Outcome, ok, throw}
use cppgraphqlgen.Response.{map_data, no_members, null_data}
use cppgraphqlgen.Service.Errors.{default_location}
use cppgraphqlgen.SortedMap.{find, emplace, shorter_or_less}
use cppgraphqlgen.Base.EqualRange.{search, equal_range, partition_point, insert_unique}
use cppgraphqlgen.Subscriptions.{
  SubscriptionData, Registry, key_limit, empty_registry, add_registration, remove_subscription,
  next_key_after,
}
use cppgraphqlgen.Subscriptions.Invariant.{Consistent, empty_registry-Consistent}
use cppgraphqlgen.Subscriptions.Invariant.Adding.{add_registration-Consistent}
use cppgraphqlgen.Subscriptions.Invariant.Removing.{remove_subscription-Consistent}
use cppgraphqlgen.Subscriptions.Undo.{remove_subscription-add_registration}
use cppgraphqlgen.Subscriptions.Collect.{key_filter, collect_registrations, noexcept}
use cppgraphqlgen.Subscriptions.Collect.Subscribed.{subscribed_to}
use cppgraphqlgen.Subscriptions.Collect.Selected.{chosen, select, collect_registrations-select}
use cppgraphqlgen.Subscriptions.Requests.{
  Reply, returned, failed, schema_failure, Resolved, ResolverContext, SubscribeParams,
  str_subscription, subscribe, object_or_default,
}
use cppgraphqlgen.Subscriptions.Subscribing.{subscribe-Consistent}
use cppgraphqlgen.Subscriptions.Deliver.{deliver}
use cppgraphqlgen.Subscriptions.Delivered.{answered, CallsBack, deliver-CallsBack}

abbrev appointment : SubscriptionData ℕ
appointment = record {
  field = codes "nextAppointment";
  arguments = map_data no_members [];
  field_directives = [];
  operation = 7;
}

abbrev node : SubscriptionData ℕ
node = record {
  field = codes "nodeChange";
  arguments = map_data no_members [];
  field_directives = [];
  operation = 8;
}

abbrev one : Registry ℕ
one = (add_registration appointment empty_registry).0

abbrev two : Registry ℕ
two = (add_registration node one).0

abbrev three : Registry ℕ
three = (add_registration appointment two).0

one-Consistent : Consistent one
one-Consistent =
    add_registration-Consistent appointment empty_registry empty_registry-Consistent refl

two-Consistent : Consistent two
unfolding add_registration
two-Consistent = add_registration-Consistent node one one-Consistent refl

three-Consistent : Consistent three
unfolding add_registration
three-Consistent = add_registration-Consistent appointment two two-Consistent refl

add_registration-Consistent_example : Consistent (add_registration appointment two).0
unfolding add_registration
add_registration-Consistent_example =
    add_registration-Consistent appointment two two-Consistent refl

remove_subscription-Consistent_example :
    (r : Registry ℕ) × (remove_subscription 1 three ≡ ok r)
    × Consistent r
    × ((j : ℕ)
        → find ltb j r.subscriptions ≡ (if j == 1 then none else find ltb j three.subscriptions))
remove_subscription-Consistent_example = remove_subscription-Consistent 1 three three-Consistent

remove_subscription-add_registration_example :
    (find ltb (add_registration node three).1 three.subscriptions ≡ none)
    × (find ltb (add_registration node three).1 (add_registration node three).0.subscriptions
        ≡ some ((add_registration node three).1, node))
    × (remove_subscription (add_registration node three).1 (add_registration node three).0
        ≡ ok (record {
          subscriptions = three.subscriptions;
          listeners = three.listeners;
          next_key = next_key_after three.subscriptions;
        }))
unfolding add_registration
remove_subscription-add_registration_example =
    remove_subscription-add_registration node three three-Consistent refl

collect_registrations-select_example :
    collect_registrations (codes "nextAppointment") (some (key_filter 2)) three
    ≡ noexcept (
        select
          (chosen (some (key_filter 2)))
          (subscribed_to (codes "nextAppointment") three.subscriptions))
collect_registrations-select_example =
    collect_registrations-select (codes "nextAppointment") (some (key_filter 2)) three
      three-Consistent

-- An object that resolves to an error when it is told of a subscription, and to null otherwise.
abbrev refusing : ℕ → ResolverContext → SubscriptionData ℕ → Reply Resolved
refusing object ResolverContext.notify_subscribe d =
    failed (
      schema_failure (record { message = codes "no"; location = default_location; path = [] } ∷ []))
refusing object context d = returned (record { data_value = null_data; errors = [] })

abbrev operation_types : List (Bytes × Option ℕ)
operation_types = (str_subscription, some 0) ∷ []

abbrev subscribe_params : SubscribeParams ℕ ℕ
subscribe_params = record {
  operation_name = [];
  subscription_object = none;
  validation = [];
  fragments = returned tt;
  operation = some (str_subscription, default_location);
  registration = returned node;
}

-- Another thread subscribes, if a key is left for it, and a third one unsubscribes the key 1.
abbrev with_another : Registry ℕ → Registry ℕ
with_another r = if ltb (r.next_key + 1) key_limit then (add_registration appointment r).0 else r

with_another-Consistent : (r : Registry ℕ) → Consistent r → Consistent (with_another r)
with_another-Consistent r h = elim (Bool-cases (ltb (r.next_key + 1) key_limit)) [
  | inl e ↦ rw e (add_registration-Consistent appointment r h e)
  | inr e ↦ rw e h
]

abbrev or_kept : Registry ℕ → Outcome (Registry ℕ) → Registry ℕ
or_kept r (ok removed) = removed
or_kept r (throw e) = r

abbrev others : Registry ℕ → Registry ℕ
others r = or_kept (with_another r) (remove_subscription 1 (with_another r))

others-Consistent : (r : Registry ℕ) → Consistent r → Consistent (others r)
others-Consistent r h =
    let (r', done, h', rest) =
      remove_subscription-Consistent 1 (with_another r) (with_another-Consistent r h) in
    subst Consistent (sym (ap (or_kept (with_another r)) done)) h'

subscribe-Consistent_example :
    Consistent (subscribe operation_types refusing others subscribe_params three).0
unfolding add_registration
subscribe-Consistent_example =
    subscribe-Consistent operation_types refusing others others-Consistent subscribe_params three
      three-Consistent refl

abbrev null_answer : SubscriptionData ℕ → Resolved
null_answer d = record { data_value = null_data; errors = [] }

supported : find shorter_or_less str_subscription operation_types ≡ some (str_subscription, some 0)
unfolding find search equal_range partition_point shorter_or_less lex_compare bytes_lt bytes_eq
supported = refl

both :
    select (chosen none) (subscribed_to (codes "nextAppointment") three.subscriptions)
    ≡ ok (some appointment ∷ some appointment ∷ [])
unfolding select chosen subscribed_to add_registration bytes_eq emplace insert_unique
both = refl

deliver-CallsBack_example :
    CallsBack refusing 0 null_answer
      (λ d. answered)
      (appointment ∷ appointment ∷ [])
      (deliver refusing operation_types none (codes "nextAppointment") none three)
unfolding object_or_default
deliver-CallsBack_example =
    deliver-CallsBack refusing 0 null_answer (λ d. answered) operation_types
      (str_subscription, some 0) none (codes "nextAppointment") none three
      (appointment ∷ appointment ∷ []) three-Consistent supported refl both
