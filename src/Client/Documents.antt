-- ===== src/Client/Documents.antt =====
-- parseServiceResponse on the documents that Request::resolve returns.
use cppgraphqlgen.Base.{ℕ, List, [], ◌∷◌, map, ◌≡◌, refl}
use cppgraphqlgen.Base.Text.{codes, bytes_eq, bytes_lt, lex_compare}
use cppgraphqlgen.Base.EqualRange.{equal_range, partition_point, insert_unique}
use cppgraphqlgen.Base.Outcome.{ok, ◌>>=◌}
use cppgraphqlgen.Response.{
  Value, Items, null_data, map_data, list_data, no_members, push_member, no_items, make_value,
  type_of,
}
use cppgraphqlgen.Response.Copy.{unshare}
use cppgraphqlgen.Response.Vectors.{name_at}
use cppgraphqlgen.Response.Modify.{
  append_each, emplace_back, insert_member, release_map, release_list,
}
use cppgraphqlgen.Service.Errors.{
  SchemaError, error_value, build_error_values, resolved_document, failed_document,
}
use cppgraphqlgen.Client.{
  transform, transform_list, parse_service_error, parse_service_response, response_members,
  response_member,
}
use cppgraphqlgen.Client.ServiceErrors.{client_error, append_each-transform, error-ParsesAs}

built :
    (errors : List SchemaError)
    → (ys : Items) × (append_each error_value errors (list_data no_items) ≡ ok (list_data ys))
      × (transform parse_service_error [] ys ≡ ok (map client_error errors))
unfolding transform
built errors =
    append_each-transform error_value parse_service_error client_error error-ParsesAs errors
      no_items [] refl

parsed :
    (result : Value) (errors : List SchemaError) (ys : Items) (members : List ℕ)
    → transform parse_service_error [] ys ≡ ok (map client_error errors)
    → parse_service_response (
        map_data
          (push_member
            (push_member no_members (codes "data") result)
            (codes "errors")
            (list_data ys))
          members)
      ≡ ok (record { response_data = result; errors = map client_error errors })
unfolding parse_service_response response_members response_member transform_list bytes_eq
    lex_compare type_of release_map release_list unshare
parsed result errors ys members e = rw e

-- For every result and every list of errors, the document that the service makes is parsed by the
-- client as that result and those errors, with their messages, their locations and their paths in
-- order, where each size is cast to an int and a location without a line is left out.
pub parse_service_response-resolved_document :
    (result : Value) (errors : List SchemaError)
    → (resolved_document result errors >>= parse_service_response)
      ≡ ok (record { response_data = result; errors = map client_error errors })
unfolding resolved_document build_error_values emplace_back insert_member unshare insert_unique
    equal_range partition_point name_at bytes_lt bytes_eq lex_compare make_value
    parse_service_response response_members response_member type_of release_map
parse_service_response-resolved_document result [] = refl
parse_service_response-resolved_document result (error ∷ more) =
    let (ys, made, read) = built (error ∷ more) in
    rw made (parsed result (error ∷ more) ys (0 ∷ 1 ∷ []) read)

-- The document of a schema_exception is parsed as null data and the errors of the exception.
pub parse_service_response-failed_document :
    (errors : List SchemaError)
    → (failed_document errors >>= parse_service_response)
      ≡ ok (record { response_data = null_data; errors = map client_error errors })
unfolding failed_document build_error_values emplace_back insert_member unshare insert_unique
    equal_range partition_point name_at bytes_lt lex_compare make_value
parse_service_response-failed_document errors =
    let (ys, made, read) = built errors in rw made (parsed null_data errors ys (0 ∷ 1 ∷ []) read)
