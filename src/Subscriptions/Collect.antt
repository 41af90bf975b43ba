-- ===== src/Subscriptions/Collect.antt =====
-- Request::collectRegistrations: the subscriptions that an event on a field goes to. The filter's
-- std::map of arguments is a list in the order of its names. A callback may throw, which ends the
-- program, as does a comparison that throws: the function is noexcept.
pub mod Subscribed
pub mod Selected
use cppgraphqlgen.Base.{
  ℕ, Bool, true, false, ◌&&◌, List, [], ◌∷◌, ◌++◌, Option, none, some, ltb, ◌==◌, if◌then◌else◌,
}
use cppgraphqlgen.Base.Text.{Bytes, bytes_lt, bytes_eq}
use cppgraphqlgen.Base.Outcome.{Outcome, ok, throw, terminated, undefined_behaviour, ◌>>=◌}
use cppgraphqlgen.Response.{Value, Members, no_members, push_member}
use cppgraphqlgen.Response.Access.{get_map}
use cppgraphqlgen.Response.Equality.{value_eq}
use cppgraphqlgen.Service.Directives.{Directives, find_directive}
use cppgraphqlgen.SortedMap.{find}
use cppgraphqlgen.Subscriptions.{SubscriptionData, Subscriptions, Registry}

-- A test on a required argument or directive.
abbrev pub Required : Type 0
Required = Bytes × Value → Outcome Bool

-- std::variant<SubscriptionArguments, SubscriptionArgumentFilterCallback>
pub data ArgumentFilter : Type 0 where
  arguments_given : List (Bytes × Value) → ArgumentFilter
  arguments_callback : Required → ArgumentFilter

pub data DirectiveFilter : Type 0 where
  directives_given : Directives → DirectiveFilter
  directives_callback : Required → DirectiveFilter

-- std::variant<SubscriptionKey, SubscriptionFilter>
pub data DeliverFilter : Type 0 where
  key_filter : ℕ → DeliverFilter
  subscription_filter : Option ArgumentFilter → Option DirectiveFilter → DeliverFilter

unfoldable pub arguments_match : ArgumentFilter → Required
arguments_match (arguments_given arguments) required = elim (find bytes_lt required.0 arguments) [
  | none ↦ ok false
  | some argument ↦ value_eq argument.1 required.1
]
arguments_match (arguments_callback callback) required = callback required

unfoldable pub directives_match : DirectiveFilter → Required
directives_match (directives_given directives) required =
    elim (find_directive required.0 directives) [
      | none ↦ ok false
      | some arguments ↦ value_eq arguments required.1
    ]
directives_match (directives_callback callback) required = callback required

-- The loop that breaks at the first that does not match.
unfoldable pub all_match : Required → List (Bytes × Value) → Outcome Bool
all_match test [] = ok true
all_match test (required ∷ more) =
    let rest = all_match test more in do matched ← test required; if matched then rest else ok false

-- The members from begin() to end().
abbrev pub from_begin : Members → List (Bytes × Value) → List (Bytes × Value)
from_begin no_members rest = rest
from_begin (push_member members name value) rest = from_begin members ((name, value) ∷ rest)

-- An exception that would leave a noexcept function.
abbrev pub noexcept {ℓ} : {A : Type ℓ} → Outcome A → Outcome A
noexcept (ok a) = ok a
noexcept (throw undefined_behaviour) = throw undefined_behaviour
noexcept (throw e) = throw terminated

module _ {ℓ} {R : Type ℓ} where
  unfoldable pub matched_arguments : Option ArgumentFilter → SubscriptionData R → Outcome Bool
  matched_arguments none registration = ok true
  matched_arguments (some filter) registration = do
    members ← get_map registration.arguments
    all_match (arguments_match filter) (from_begin members [])

  unfoldable pub matched_directives : Option DirectiveFilter → SubscriptionData R → Outcome Bool
  matched_directives none registration = ok true
  matched_directives (some filter) registration =
      all_match (directives_match filter) registration.field_directives

  -- The tests in the body of the loop over the listeners.
  unfoldable pub accepts :
      Option ArgumentFilter → Option DirectiveFilter → SubscriptionData R → Outcome Bool
  accepts arguments directives registration = do
    matched ← matched_arguments arguments registration
    elim matched [ true ↦ matched_directives directives registration | false ↦ ok false ]

  -- No filter: a key without a subscription would give a null pointer.
  unfoldable pub collect_all : Subscriptions R → List ℕ → List (Option (SubscriptionData R))
  collect_all subscriptions [] = []
  collect_all subscriptions (key ∷ keys) =
      (elim (find ltb key subscriptions) [ none ↦ none | some entry ↦ some entry.1 ])
      ∷ collect_all subscriptions keys

  unfoldable pub collect_key : Bytes → ℕ → Subscriptions R → List (Option (SubscriptionData R))
  collect_key field key subscriptions = elim (find ltb key subscriptions) [
    | none ↦ []
    | some entry ↦ if bytes_eq entry.1.field field then some entry.1 ∷ [] else []
  ]

  unfoldable pub collect_filtered :
      (SubscriptionData R → Outcome Bool)
      → Subscriptions R
      → List ℕ
      → Outcome (List (Option (SubscriptionData R)))
  collect_filtered test subscriptions [] = ok []
  collect_filtered test subscriptions (key ∷ keys) =
      let rest = collect_filtered test subscriptions keys in
      elim (find ltb key subscriptions) [
        | none ↦ throw undefined_behaviour
        | some entry ↦ do
          accepted ← test entry.1
          registrations ← rest
          ok (if accepted then some entry.1 ∷ registrations else registrations)
      ]

  unfoldable pub collect_registrations :
      Bytes → Option DeliverFilter → Registry R → Outcome (List (Option (SubscriptionData R)))
  collect_registrations field filter registry = elim (find bytes_lt field registry.listeners) [
    | none ↦ ok []
    | some listeners ↦ elim filter [
      | none ↦ ok (collect_all registry.subscriptions listeners.1)
      | some (key_filter key) ↦ ok (collect_key field key registry.subscriptions)
      | some (subscription_filter arguments directives) ↦
          noexcept
            (collect_filtered (accepts arguments directives) registry.subscriptions listeners.1)
    ]
  ]
