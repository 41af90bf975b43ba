-- ===== src/Subscriptions/Requests.antt =====
-- Request::subscribe, unsubscribe and deliver. `_subscriptionMutex` is not held while an object
-- resolves, and `between` is what other threads make of the registry in that time. The query is
-- validated, searched and visited by other components: what they come to is given. So is what
-- an object resolves to, with the await of `launch` before it.
use cppgraphqlgen.Base.{ℕ, List, [], ◌∷◌, ◌++◌, Option, none, some, ltb, if◌then◌else◌}
use cppgraphqlgen.Base.Text.{Bytes, codes, bytes_eq}
use cppgraphqlgen.Base.Outcome.{Exception, ok, throw, logic_error}
use cppgraphqlgen.Response.{Value}
use cppgraphqlgen.Service.Errors.{SchemaLocation, SchemaError, convert_messages}
use cppgraphqlgen.SortedMap.{find, at, shorter_or_less}
use cppgraphqlgen.Subscriptions.{SubscriptionData, Registry, add_registration, remove_subscription}

-- What was thrown: a schema_exception with its errors, or another exception.
pub data Failure : Type 0 where
  schema_failure : List SchemaError → Failure
  other_failure : Exception → Failure

pub data Reply {ℓ} (A : Type ℓ) : Type ℓ where
  returned : A → Reply A
  failed : Failure → Reply A

infixl 5 ◌>>=◌
-- A call after a call, which a failure of the first leaves out.
abbrev pub ◌>>=◌ {ℓ κ} :
    {A : Type ℓ} → {B : Type κ} → (first : Reply A) → (next : A → Reply B) → Reply B
failed failure >>= next = failed failure
returned value >>= next = next value

-- What a call without a result comes to.
abbrev pub Completed : Type 0
Completed = Unit

-- ResolverResult
pub record Resolved : Type 0 where
  pub data_value : Value
  pub errors : List SchemaError

-- enum class ResolverContext
pub data ResolverContext : Type 0 where
  query mutation notify_subscribe subscription notify_unsubscribe : ResolverContext

-- The type and the position of an operation definition.
abbrev pub Operation : Type 0
Operation = Bytes × SchemaLocation

-- RequestSubscribeParams, with what validate, the fragment visitor, findOperationDefinition and
-- the subscription visitor make of it.
pub record SubscribeParams {ℓ κ} (O : Type κ) (R : Type ℓ) : Type (ℓ ⊔ κ) where
  pub operation_name : Bytes
  pub subscription_object : Option O
  pub validation : List SchemaError
  pub fragments : Reply Completed
  pub operation : Option Operation
  pub registration : Reply (SubscriptionData R)

abbrev pub str_subscription : Bytes
str_subscription = codes "subscription"

-- `name` in a message, if there is one.
unfoldable pub named : Bytes → Bytes
named [] = []
named (c ∷ name) = codes " name: " ++ c ∷ name

abbrev pub schema_throw {ℓ} : {A : Type ℓ} → List SchemaError → Reply A
schema_throw errors = failed (schema_failure errors)

unfoldable pub check_errors : List SchemaError → Reply Completed
check_errors [] = returned tt
check_errors (error ∷ errors) = schema_throw (error ∷ errors)

unfoldable pub check_operation : Bytes → Option Operation → Reply Completed
check_operation name none =
    schema_throw (convert_messages ((codes "Missing subscription" ++ named name) ∷ []))
check_operation name (some operation) =
    if bytes_eq operation.0 str_subscription
    then returned tt
    else schema_throw (
        record {
          message = codes "Unexpected operation type: " ++ operation.0 ++ named name;
          location = operation.1;
          path = [];
        }
        ∷ [])

-- The object of the call, or the default one of `_operations`.
unfoldable pub object_or_default {ℓ} : {O : Type ℓ} → Option O → Option O → Option O
object_or_default (some object) default = some object
object_or_default none default = default

-- The handler of subscribe: it removes the key and throws again.
unfoldable pub leave_unsubscribed {ℓ} :
    {R : Type ℓ} → ℕ → Failure → Registry R → Registry R × Reply ℕ
leave_unsubscribed key failure registry = elim (remove_subscription key registry) [
  | ok removed ↦ (removed, failed failure)
  | throw exception ↦ (registry, failed (other_failure exception))
]

-- The try block of subscribe, with the errors that the object resolves to.
unfoldable pub notified {ℓ} :
    {R : Type ℓ} → ℕ → Registry R → List SchemaError → Registry R × Reply ℕ
notified key registry [] = (registry, returned key)
notified key registry (error ∷ errors) =
    leave_unsubscribed key (schema_failure (error ∷ errors)) registry

unfoldable pub after_notify {ℓ} :
    {R : Type ℓ} → ℕ → Registry R → Reply Resolved → Registry R × Reply ℕ
after_notify key registry (failed failure) = leave_unsubscribed key failure registry
after_notify key registry (returned resolved) = notified key registry resolved.errors

-- The end of unsubscribe: the key is removed, and the errors are thrown.
unfoldable pub finish_unsubscribe {ℓ} :
    {R : Type ℓ} → ℕ → List SchemaError → Registry R → Registry R × Reply Completed
finish_unsubscribe key errors registry = elim (remove_subscription key registry) [
  | throw exception ↦ (registry, failed (other_failure exception))
  | ok removed ↦ elim errors [
    | [] ↦ (removed, returned tt)
    | error ∷ more ↦ (removed, schema_throw (error ∷ more))
  ]
]

unfoldable pub after_notify_unsubscribe {ℓ} :
    {R : Type ℓ} → ℕ → Registry R → Reply Resolved → Registry R × Reply Completed
after_notify_unsubscribe key registry (failed failure) = (registry, failed failure)
after_notify_unsubscribe key registry (returned resolved) =
    finish_unsubscribe key resolved.errors registry

module _ {ℓ κ} {O : Type κ} {R : Type ℓ} where
  unfoldable pub add_subscription : SubscribeParams O R → Registry R → Reply (Registry R × ℕ)
  add_subscription params registry = do
    valid ← check_errors params.validation
    visited ← params.fragments
    checked ← check_operation params.operation_name params.operation
    registration ← params.registration
    returned (add_registration registration registry)

  module _ (operations : List (Bytes × Option O))
      (resolve : O → ResolverContext → SubscriptionData R → Reply Resolved)
      (between : Registry R → Registry R) where
    -- Resolving the subscription that was just added.
    unfoldable pub notify : O → ℕ → Registry R → Registry R × Reply ℕ
    notify object key registry = elim (at ltb key registry.subscriptions) [
      | throw exception ↦ (registry, failed (other_failure exception))
      | ok registration ↦
          after_notify key (between registry) (resolve object notify_subscribe registration)
    ]

    unfoldable pub after_add : Option O → Registry R → Reply (Registry R × ℕ) → Registry R × Reply ℕ
    after_add object registry (failed failure) = (registry, failed failure)
    after_add none registry (returned added) = (added.0, returned added.1)
    after_add (some object) registry (returned added) = notify object added.1 added.0

    unfoldable pub subscribe : SubscribeParams O R → Registry R → Registry R × Reply ℕ
    subscribe params registry = elim (find shorter_or_less str_subscription operations) [
      | none ↦ (registry, failed (other_failure (logic_error "Subscriptions not supported")))
      | some operation ↦
          after_add (object_or_default params.subscription_object operation.1) registry
            (add_subscription params registry)
    ]

    unfoldable pub unsubscribe_with : Option O → ℕ → Registry R → Registry R × Reply Completed
    unsubscribe_with none key registry = finish_unsubscribe key [] registry
    unsubscribe_with (some object) key registry = elim (at ltb key registry.subscriptions) [
      | throw exception ↦ (registry, failed (other_failure exception))
      | ok registration ↦
          after_notify_unsubscribe key (between registry)
            (resolve object notify_unsubscribe registration)
    ]

    unfoldable pub unsubscribe : Option O → ℕ → Registry R → Registry R × Reply Completed
    unsubscribe subscription_object key registry =
        elim (find shorter_or_less str_subscription operations) [
          | none ↦ (registry, failed (other_failure (logic_error "Subscriptions not supported")))
          | some operation ↦
              unsubscribe_with (object_or_default subscription_object operation.1) key registry
        ]
