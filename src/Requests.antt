-- ===== src/Requests.antt =====
-- Request::validate, findOperationDefinition and resolve in src/GraphQLService.cpp. What the
-- validation visitor finds, what visiting the fragments comes to and what an operation resolves
-- to are given.
pub mod Operations
pub mod Answered
mod Examples
use cppgraphqlgen.Base.{
  Bool, true, false, ◌||◌, List, [], ◌∷◌, ◌++◌, Option, none, some, if◌then◌else◌,
}
use cppgraphqlgen.Base.Text.{Bytes, codes, bytes_eq}
use cppgraphqlgen.Base.Outcome.{Outcome}
use cppgraphqlgen.Response.{Value}
use cppgraphqlgen.Service.Errors.{SchemaLocation, SchemaError, convert_messages}
use cppgraphqlgen.Subscriptions.{is_empty}
use cppgraphqlgen.Subscriptions.Requests.{
  Reply, returned, failed, ◌>>=◌, Completed, Resolved, ResolverContext, query, mutation, Operation,
  str_subscription, named, schema_throw, check_errors,
}
use cppgraphqlgen.Subscriptions.Deliver.{document_of}

-- An operation definition: its type, which is `query` if it has none, its name, which is empty if
-- it has none, and its position.
pub record OperationDefinition : Type 0 where
  pub operation_type : Option Bytes
  pub definition_name : Bytes
  pub position : SchemaLocation

-- peg::ast, with the errors that the validation visitor finds in it.
pub record Query : Type 0 where
  pub validated : Bool
  pub found_errors : List SchemaError
  pub definitions : List OperationDefinition

unfoldable pub validate : Query → Query × List SchemaError
validate ast = if ast.validated then (ast, []) else (
  record {
    validated = is_empty ast.found_errors;
    found_errors = ast.found_errors;
    definitions = ast.definitions;
  },
  ast.found_errors,
)

abbrev pub str_query : Bytes
str_query = codes "query"

abbrev pub str_mutation : Bytes
str_mutation = codes "mutation"

unfoldable pub type_or_query : Option Bytes → Bytes
type_or_query none = str_query
type_or_query (some type) = type

-- The first definition that the lambda accepts.
unfoldable pub first_operation : Bytes → List OperationDefinition → Option Operation
first_operation name [] = none
first_operation name (definition ∷ definitions) =
    let rest = first_operation name definitions in
    if is_empty name || bytes_eq definition.definition_name name
    then some (type_or_query definition.operation_type, definition.position)
    else rest

-- The query keeps whether it is valid.
unfoldable pub find_operation_definition : Query → Bytes → Query × Reply (Option Operation)
find_operation_definition ast name =
    let (ast', errors) = validate ast in
    (ast', (do valid ← check_errors errors; returned (first_operation name ast'.definitions)))

unfoldable pub check_resolvable : Bytes → Option Operation → Reply Operation
check_resolvable name none =
    schema_throw (convert_messages ((codes "Missing operation" ++ named name) ∷ []))
check_resolvable name (some operation) =
    if bytes_eq operation.0 str_subscription
    then schema_throw (
        record {
          message = codes "Unexpected subscription" ++ named name;
          location = operation.1;
          path = [];
        }
        ∷ [])
    else returned operation

unfoldable pub context_of : Operation → ResolverContext
context_of operation = if bytes_eq operation.0 str_mutation then mutation else query

module _ (fragments : Reply Completed)
    (execute : ResolverContext → Operation → Reply Resolved) where
  -- The body of the try block up to the result.
  unfoldable pub resolve_operation : Query → Bytes → Query × Reply Resolved
  resolve_operation ast name = elim fragments [
    | failed failure ↦ (ast, failed failure)
    | returned _ ↦
        let (ast', found) = find_operation_definition ast name in
        (
          ast',
          (do
            definition ← found
            operation ← check_resolvable name definition
            execute (context_of operation) operation),
        )
  ]

  -- The document, or the exception that is no schema_exception.
  unfoldable pub resolve_request : Query → Bytes → Query × Outcome Value
  resolve_request ast name =
      let (ast', reply) = resolve_operation ast name in (ast', document_of reply)
