-- ===== src/Requests/Examples.antt =====
-- A document with two operations, and one that is not valid.
use cppgraphqlgen.Base.{false, [], ◌∷◌, some, ◌≡◌, ◌↔◌, refl}
use cppgraphqlgen.Base.{none}
use cppgraphqlgen.Base.Text.{codes, bytes_eq}
use cppgraphqlgen.Base.Outcome.{ok}
use cppgraphqlgen.Response.{Value, null_data}
use cppgraphqlgen.Service.Errors.{SchemaError, default_location}
use cppgraphqlgen.Subscriptions.Requests.{
  returned, Resolved, ResolverContext, Operation, str_subscription,
}
use cppgraphqlgen.Subscriptions.Delivered.{Reads, answered}
use cppgraphqlgen.Requests.{
  Query, first_operation, context_of, resolve_request, str_query, str_mutation, type_or_query,
}
use cppgraphqlgen.Requests.Operations.{IsFirst, first_operation-IsFirst}
use cppgraphqlgen.Requests.Answered.{resolve_request-Reads, resolve_request-invalid}

abbrev two_operations : Query
two_operations = record {
  validated = false;
  found_errors = [];
  definitions =
      record { operation_type = none; definition_name = codes "Read"; position = default_location }
      ∷ record {
        operation_type = some str_mutation;
        definition_name = codes "Write";
        position = default_location;
      }
      ∷ [];
}

abbrev an_error : SchemaError
an_error = record { message = codes "no"; location = default_location; path = [] }

abbrev invalid_query : Query
invalid_query = record { validated = false; found_errors = an_error ∷ []; definitions = [] }

abbrev nothing : ResolverContext → Operation → Resolved
nothing context operation = record { data_value = null_data; errors = [] }

abbrev write : Operation
write = (str_mutation, default_location)

write_found : first_operation (codes "Write") two_operations.definitions ≡ some write
unfolding first_operation bytes_eq type_or_query
write_found = refl

write_runs : bytes_eq write.0 str_subscription ≡ false
unfolding bytes_eq
write_runs = refl

first_operation-IsFirst_example :
    (first_operation (codes "Write") two_operations.definitions ≡ some write)
    ↔ IsFirst (codes "Write") two_operations.definitions write
first_operation-IsFirst_example =
    first_operation-IsFirst (codes "Write") two_operations.definitions write

-- Without a name the first of the two runs.
unnamed : first_operation [] two_operations.definitions ≡ some (str_query, default_location)
unfolding first_operation type_or_query
unnamed = refl

resolve_request-Reads_example :
    (document : Value) × ((resolve_request
        (returned tt)
        (λ c o. returned (nothing c o))
        two_operations
        (codes "Write")).1
      ≡ ok document)
    × Reads (nothing (context_of write) write) document
resolve_request-Reads_example =
    resolve_request-Reads (λ c o. returned (nothing c o)) nothing (λ c o. answered) two_operations
      (codes "Write") write refl write_found write_runs

resolve_request-invalid_example :
    ((document : Value) × ((resolve_request
          (returned tt)
          (λ c o. returned (nothing c o))
          invalid_query
          []).1
        ≡ ok document)
      × Reads (record { data_value = null_data; errors = an_error ∷ [] }) document)
    × ((resolve_request (returned tt) (λ c o. returned (nothing c o)) invalid_query []).0.validated
        ≡ false)
resolve_request-invalid_example =
    resolve_request-invalid (λ c o. returned (nothing c o)) invalid_query [] an_error [] refl refl
