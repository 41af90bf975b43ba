-- ===== src/Subscriptions/Delivered.antt =====
-- What the callbacks of an event receive, as the client reads it.
use cppgraphqlgen.Base.{List, [], ◌∷◌, map, Option, some, ◌≡◌, refl, ◌∙◌, ap, All}
use cppgraphqlgen.Base.Text.{Bytes}
use cppgraphqlgen.Base.Outcome.{ok, >>=-eq-ok}
use cppgraphqlgen.Response.{Value, null_data}
use cppgraphqlgen.Service.Errors.{resolved_document, failed_document}
use cppgraphqlgen.SortedMap.{find, shorter_or_less}
use cppgraphqlgen.Client.{parse_service_response}
use cppgraphqlgen.Client.ServiceErrors.{client_error}
use cppgraphqlgen.Client.Documents.{
  parse_service_response-resolved_document, parse_service_response-failed_document,
}
use cppgraphqlgen.Subscriptions.{SubscriptionData, Registry}
use cppgraphqlgen.Subscriptions.Invariant.{Consistent}
use cppgraphqlgen.Subscriptions.Collect.{DeliverFilter, collect_registrations}
use cppgraphqlgen.Subscriptions.Collect.Selected.{
  subscribed_to, chosen, select, collect_registrations-select,
}
use cppgraphqlgen.Subscriptions.Requests.{
  Reply, returned, failed, schema_failure, Completed, Resolved, ResolverContext, subscription,
  str_subscription, object_or_default,
}
use cppgraphqlgen.Subscriptions.Deliver.{document_of, delivered_document, deliver_each, deliver}

-- The object answers with the data and the errors, or with a schema_exception of the errors, where
-- the data is null.
pub data Answers (answer : Resolved) : Reply Resolved → Type 0 where
  answered : Answers answer (returned answer)
  refused : answer.data_value ≡ null_data → Answers answer (failed (schema_failure answer.errors))

-- The client reads the answer in the document.
abbrev pub Reads : Resolved → Value → Type 0
Reads answer document =
    parse_service_response document
    ≡ ok (record { response_data = answer.data_value; errors = map client_error answer.errors })

pub document_of-Reads :
    (answer : Resolved) (reply : Reply Resolved)
    → Answers answer reply
    → (document : Value) × (document_of reply ≡ ok document) × Reads answer document
unfolding document_of
document_of-Reads answer reply answered =
    >>=-eq-ok (resolved_document answer.data_value answer.errors) parse_service_response
      (parse_service_response-resolved_document answer.data_value answer.errors)
document_of-Reads answer reply (refused null) = rw null (
    >>=-eq-ok (failed_document answer.errors) parse_service_response
      (parse_service_response-failed_document answer.errors))

module _ {ℓ κ} {O : Type κ} {R : Type ℓ}
    (resolve : O → ResolverContext → SubscriptionData R → Reply Resolved) (object : O)
    (answer : SubscriptionData R → Resolved)
    (answers : (d : SubscriptionData R) → Answers (answer d) (resolve object subscription d)) where
  -- Each of the subscriptions is called back once, in order, with its answer, and the call returns.
  pub record CallsBack (registrations : List (SubscriptionData R))
      (calls : List (SubscriptionData R × Value) × Reply Completed) : Type ℓ where
    pub called : map (λ c. c.0) calls.0 ≡ registrations
    pub read : All (λ c. Reads (answer c.0) c.1) calls.0
    pub returns : calls.1 ≡ returned tt

  deliver_each-CallsBack :
      (registrations : List (SubscriptionData R))
      → CallsBack registrations (deliver_each resolve object (map some registrations))
  unfolding deliver_each delivered_document
  deliver_each-CallsBack [] = record { called = refl; read = tt; returns = refl }
  deliver_each-CallsBack (d ∷ registrations) =
      let (document, made, read) =
        document_of-Reads (answer d) (resolve object subscription d) (answers d) in
      let rest = deliver_each-CallsBack registrations in
      rw (made, delivered_document, deliver_each)
        (record {
          called = ap (λ ds. d ∷ ds) rest.called;
          read = (read, rest.read);
          returns = rest.returns;
        })

  -- On a consistent registry, where the filter's tests return and the object answers each
  -- subscription with data and errors or with a schema_exception, deliver calls back the chosen
  -- subscriptions to the field, in the order of their keys and each once, with a document that the
  -- client reads as its answer, and returns.
  pub deliver-CallsBack :
      (operations : List (Bytes × Option O)) (default : Bytes × Option O) (given : Option O)
      (f : Bytes) (filter : Option DeliverFilter) (r : Registry R)
      (registrations : List (SubscriptionData R))
      → Consistent r
      → find shorter_or_less str_subscription operations ≡ some default
      → object_or_default given default.1 ≡ some object
      → select (chosen filter) (subscribed_to f r.subscriptions) ≡ ok (map some registrations)
      → CallsBack registrations (deliver resolve operations given f filter r)
  unfolding deliver
  deliver-CallsBack operations default given f filter r registrations h supported chosen_object
        selected =
      let collected : collect_registrations f filter r ≡ ok (map some registrations) =
        collect_registrations-select f filter r h ∙ rw selected refl in
      rw (supported, chosen_object, collected, deliver) (deliver_each-CallsBack registrations)
