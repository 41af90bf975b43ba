-- ===== src/Requests/Answered.antt =====
-- What the client reads in the document of a request.
use cppgraphqlgen.Base.{false, List, [], ◌∷◌, some, ◌≡◌, refl, ap, ◌∙◌, arith}
use cppgraphqlgen.Base.Text.{Bytes, bytes_eq}
use cppgraphqlgen.Base.Outcome.{ok}
use cppgraphqlgen.Response.{Value, null_data}
use cppgraphqlgen.Service.Errors.{SchemaError}
use cppgraphqlgen.Subscriptions.Requests.{
  Reply, returned, failed, schema_failure, Resolved, ResolverContext, Operation, str_subscription,
  check_errors,
}
use cppgraphqlgen.Subscriptions.Deliver.{document_of}
use cppgraphqlgen.Subscriptions.Delivered.{Answers, refused, Reads, document_of-Reads}
use cppgraphqlgen.Requests.{
  Query, validate, first_operation, find_operation_definition, check_resolvable, context_of,
  resolve_operation, resolve_request,
}

module _ (execute : ResolverContext → Operation → Reply Resolved) where
  valid_operation :
      (ast : Query) (name : Bytes) (operation : Operation)
      → ast.found_errors ≡ []
      → first_operation name ast.definitions ≡ some operation
      → bytes_eq operation.0 str_subscription ≡ false
      → (resolve_operation (returned tt) execute ast name).1
        ≡ execute (context_of operation) operation
  unfolding resolve_operation find_operation_definition validate check_errors check_resolvable
  valid_operation ast name operation valid found e = ground arith

  invalid_operation :
      (ast : Query) (name : Bytes) (error : SchemaError) (errors : List SchemaError)
      → ast.validated ≡ false
      → ast.found_errors ≡ error ∷ errors
      → (resolve_operation (returned tt) execute ast name).1
        ≡ failed (schema_failure (error ∷ errors))
  unfolding resolve_operation find_operation_definition validate check_errors
  invalid_operation ast name error errors v invalid = ground arith

  still_invalid :
      (ast : Query) (name : Bytes) (error : SchemaError) (errors : List SchemaError)
      → ast.validated ≡ false
      → ast.found_errors ≡ error ∷ errors
      → (resolve_operation (returned tt) execute ast name).0.validated ≡ false
  unfolding resolve_operation find_operation_definition validate
  still_invalid ast name error errors v invalid = ground arith

  -- Where visiting the fragments throws nothing, the query is valid, the operation to run is no
  -- subscription, and executing an operation comes to data and errors or to a schema_exception,
  -- resolve returns a document that the client reads as the answer of that operation.
  pub resolve_request-Reads :
      (answer : ResolverContext → Operation → Resolved)
      → ((context : ResolverContext) (operation : Operation)
          → Answers (answer context operation) (execute context operation))
      → (ast : Query) (name : Bytes) (operation : Operation) → ast.found_errors ≡ []
      → first_operation name ast.definitions ≡ some operation
      → bytes_eq operation.0 str_subscription ≡ false
      → (document : Value) × ((resolve_request (returned tt) execute ast name).1 ≡ ok document)
        × Reads (answer (context_of operation) operation) document
  unfolding resolve_request
  resolve_request-Reads answer answers ast name operation valid found e =
      let context = context_of operation in
      let (document, made, read) =
        document_of-Reads (answer context operation) (execute context operation)
          (answers context operation) in
      (document, ap document_of (valid_operation ast name operation valid found e) ∙ made, read)

  -- Where visiting the fragments throws nothing, the query was not found valid before, and the
  -- validation finds errors, resolve returns a document that the client reads as null and those
  -- errors, and the query is validated again the next time.
  pub resolve_request-invalid :
      (ast : Query) (name : Bytes) (error : SchemaError) (errors : List SchemaError)
      → ast.validated ≡ false
      → ast.found_errors ≡ error ∷ errors
      → ((document : Value) × ((resolve_request (returned tt) execute ast name).1 ≡ ok document)
          × Reads (record { data_value = null_data; errors = error ∷ errors }) document)
        × ((resolve_request (returned tt) execute ast name).0.validated ≡ false)
  unfolding resolve_request
  resolve_request-invalid ast name error errors v invalid =
      let answer : Resolved = record { data_value = null_data; errors = error ∷ errors } in
      let (document, made, read) =
        document_of-Reads answer (failed (schema_failure (error ∷ errors))) (refused refl) in
      (
        (document, ap document_of (invalid_operation ast name error errors v invalid) ∙ made, read),
        still_invalid ast name error errors v invalid,
      )
