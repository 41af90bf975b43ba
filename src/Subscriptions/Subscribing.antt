-- ===== src/Subscriptions/Subscribing.antt =====
-- What subscribe and unsubscribe leave in the registry.
use cppgraphqlgen.Base.{
  ℕ, ◌+◌, true, List, [], ◌∷◌, Option, none, some, ◌≡◌, refl, ltb, Option-cases, inl, inr,
}
use cppgraphqlgen.Base.Text.{Bytes}
use cppgraphqlgen.Base.Outcome.{Outcome-cases}
use cppgraphqlgen.Service.Errors.{SchemaError}
use cppgraphqlgen.SortedMap.{find, at, shorter_or_less}
use cppgraphqlgen.Subscriptions.{SubscriptionData, Registry, key_limit, add_registration}
use cppgraphqlgen.Subscriptions.Invariant.{Consistent}
use cppgraphqlgen.Subscriptions.Invariant.Adding.{add_registration-Consistent}
use cppgraphqlgen.Subscriptions.Invariant.Removing.{remove_subscription-Consistent}
use cppgraphqlgen.Subscriptions.Requests.{
  Failure, Reply, returned, failed, schema_failure, Resolved, ResolverContext, notify_subscribe,
  SubscribeParams, str_subscription, ◌>>=◌, check_errors, after_add, add_subscription,
  object_or_default, leave_unsubscribed, after_notify, notified, notify, subscribe, check_operation,
}

-- What a call returns, if it does, satisfies `P`.
abbrev pub Holds {ℓ κ} : {A : Type ℓ} → (A → Type κ) → Reply A → Type κ
Holds P (failed failure) = Unit
Holds P (returned value) = P value

Holds-bind {ℓ κ μ} :
    {A : Type ℓ} {B : Type κ} (P : B → Type μ) (first : Reply A) (next : A → Reply B)
    → ((a : A) → Holds P (next a))
    → Holds P (first >>= next)
Holds-bind P (failed failure) next h = tt
Holds-bind P (returned value) next h = h value

module _ {ℓ} {R : Type ℓ} where
  leave_unsubscribed-Consistent :
      (key : ℕ) (failure : Failure) (r : Registry R)
      → Consistent r
      → Consistent (leave_unsubscribed key failure r).0
  unfolding leave_unsubscribed
  leave_unsubscribed-Consistent key failure r h =
      let (r', done, h', rest) = remove_subscription-Consistent key r h in
      rw (done, leave_unsubscribed) h'

  notified-Consistent :
      (key : ℕ) (r : Registry R) (errors : List SchemaError)
      → Consistent r
      → Consistent (notified key r errors).0
  unfolding notified
  notified-Consistent key r [] h = h
  notified-Consistent key r (error ∷ errors) h =
      leave_unsubscribed-Consistent key (schema_failure (error ∷ errors)) r h

  after_notify-Consistent :
      (key : ℕ) (r : Registry R) (reply : Reply Resolved)
      → Consistent r
      → Consistent (after_notify key r reply).0
  unfolding after_notify
  after_notify-Consistent key r (failed failure) h = leave_unsubscribed-Consistent key failure r h
  after_notify-Consistent key r (returned resolved) h = notified-Consistent key r resolved.errors h

  pub add_subscription-Holds {κ} :
      {O : Type κ} (params : SubscribeParams O R) (r : Registry R)
      → Holds
          (λ added. (d : SubscriptionData R) × (added ≡ add_registration d r))
          (add_subscription params r)
  unfolding add_subscription
  add_subscription-Holds params r = Holds-bind _ (check_errors params.validation) _ (λ valid.
      Holds-bind _ params.fragments _ (λ visited.
        Holds-bind _ (check_operation params.operation_name params.operation) _
          (λ checked. Holds-bind _ params.registration _ (λ d. (d, refl)))))

  module _ {κ} {O : Type κ} (operations : List (Bytes × Option O))
      (resolve : O → ResolverContext → SubscriptionData R → Reply Resolved)
      (between : Registry R → Registry R)
      (keeps : (r : Registry R) → Consistent r → Consistent (between r)) where
    notify-Consistent :
        (object : O) (key : ℕ) (r : Registry R)
        → Consistent r
        → Consistent (notify operations resolve between object key r).0
    unfolding notify
    notify-Consistent object key r h = elim (Outcome-cases (at ltb key r.subscriptions)) [
      | inl (d, e) ↦
          rw (e, notify)
            (after_notify-Consistent key (between r) (resolve object notify_subscribe d)
              (keeps r h))
      | inr (x, e) ↦ rw (e, notify) h
    ]

    after_add-Consistent :
        (object : Option O) (r : Registry R) (added : Reply (Registry R × ℕ))
        → Consistent r
        → ltb (r.next_key + 1) key_limit ≡ true
        → Holds (λ a. (d : SubscriptionData R) × (a ≡ add_registration d r)) added
        → Consistent (after_add operations resolve between object r added).0
    unfolding after_add
    after_add-Consistent object r (failed failure) h room from = h
    after_add-Consistent none r (returned added) h room (d, from) =
        rw from (add_registration-Consistent d r h room)
    after_add-Consistent (some object) r (returned added) h room (d, from) =
        notify-Consistent object added.1 added.0 (rw from (add_registration-Consistent d r h room))

    -- Whatever the query is and whatever the object resolves to, subscribe leaves a consistent
    -- registry consistent, if its next key is not the last of 64 bits, and if what other threads do
    -- to the registry meanwhile leaves a consistent registry consistent.
    pub subscribe-Consistent :
        (params : SubscribeParams O R) (r : Registry R)
        → Consistent r
        → ltb (r.next_key + 1) key_limit ≡ true
        → Consistent (subscribe operations resolve between params r).0
    unfolding subscribe
    subscribe-Consistent params r h room =
        elim (Option-cases (find shorter_or_less str_subscription operations)) [
          | inl e ↦ rw (e, subscribe) h
          | inr (x, e) ↦
              rw (e, subscribe)
                (after_add-Consistent (object_or_default params.subscription_object x.1) r
                  (add_subscription params r) h room (add_subscription-Holds params r))
        ]
