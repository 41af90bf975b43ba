-- ===== src/Subscriptions/Deliver.antt =====
-- Request::deliver: the callbacks that an event calls, each with its document. A callback is taken
-- to return.
use cppgraphqlgen.Base.{List, [], ◌∷◌, Option, none, some}
use cppgraphqlgen.Base.Text.{Bytes}
use cppgraphqlgen.Base.Outcome.{
  Outcome, ok, throw, logic_error, invalid_argument, undefined_behaviour,
}
use cppgraphqlgen.Response.{Value}
use cppgraphqlgen.Service.Errors.{resolved_document, failed_document}
use cppgraphqlgen.SortedMap.{find, shorter_or_less}
use cppgraphqlgen.Subscriptions.{SubscriptionData, Registry}
use cppgraphqlgen.Subscriptions.Collect.{DeliverFilter, collect_registrations}
use cppgraphqlgen.Subscriptions.Requests.{
  Reply, returned, failed, schema_failure, other_failure, Completed, Resolved, ResolverContext,
  subscription, str_subscription, object_or_default,
}

-- The body of the try block and of its handler.
unfoldable pub document_of : Reply Resolved → Outcome Value
document_of (returned resolved) = resolved_document resolved.data_value resolved.errors
document_of (failed (schema_failure errors)) = failed_document errors
document_of (failed (other_failure exception)) = throw exception

module _ {ℓ κ} {O : Type κ} {R : Type ℓ}
    (resolve : O → ResolverContext → SubscriptionData R → Reply Resolved) where
  -- The document that a callback receives, unless an exception goes on.
  unfoldable pub delivered_document : O → SubscriptionData R → Reply Value
  delivered_document object registration =
      elim (document_of (resolve object subscription registration)) [
        | ok document ↦ returned document
        | throw exception ↦ failed (other_failure exception)
      ]

  -- The loop over the registrations: the calls of the callbacks, and how it ends.
  unfoldable pub deliver_each :
      O → List (Option (SubscriptionData R)) → List (SubscriptionData R × Value) × Reply Completed
  deliver_each object [] = ([], returned tt)
  deliver_each object (none ∷ registrations) = ([], failed (other_failure undefined_behaviour))
  deliver_each object (some registration ∷ registrations) =
      let rest = deliver_each object registrations in
      elim (delivered_document object registration) [
        | failed failure ↦ ([], failed failure)
        | returned document ↦ ((registration, document) ∷ rest.0, rest.1)
      ]

  unfoldable pub deliver :
      List (Bytes × Option O)
      → Option O
      → Bytes
      → Option DeliverFilter
      → Registry R
      → List (SubscriptionData R × Value) × Reply Completed
  deliver operations subscription_object field filter registry =
      elim (find shorter_or_less str_subscription operations) [
        | none ↦ ([], failed (other_failure (logic_error "Subscriptions not supported")))
        | some operation ↦ elim (object_or_default subscription_object operation.1) [
          | none ↦ ([], failed (other_failure (invalid_argument "Missing subscriptionObject")))
          | some object ↦ elim (collect_registrations field filter registry) [
            | throw exception ↦ ([], failed (other_failure exception))
            | ok registrations ↦ deliver_each object registrations
          ]
        ]
      ]
