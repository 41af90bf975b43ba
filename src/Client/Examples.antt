-- ===== src/Client/Examples.antt =====
-- An error with a location and a path, from the service to the client, and a variable of a list
-- type.
use cppgraphqlgen.Base.{◌≢◌, Option, some, none, true, List, [], ◌∷◌, map, ◌≡◌}
use cppgraphqlgen.Base.Text.{codes}
use cppgraphqlgen.Base.Int.{ℤ, pos}
use cppgraphqlgen.Base.Outcome.{ok, ◌>>=◌}
use cppgraphqlgen.IdType.{empty_id}
use cppgraphqlgen.Response.{boolean, int, type_of, null_type}
use cppgraphqlgen.Service.Errors.{SchemaError, field_segment, index_segment, resolved_document}
use cppgraphqlgen.Client.{parse_service_response}
use cppgraphqlgen.Client.ServiceErrors.{client_error}
use cppgraphqlgen.Client.Documents.{parse_service_response-resolved_document}
use cppgraphqlgen.Client.Modifiers.{
  TypeModifier, list_modifier, nullable_modifier, serialize, parse, parse_int,
}
use cppgraphqlgen.Client.ModifierRoundTrip.{IsGraphqlType, parse-serialize, parse-scalar}

abbrev errors : List SchemaError
errors =
    record {
      message = codes "bad";
      location = record { line = 2; column = 7 };
      path = field_segment (codes "users") ∷ index_segment 3 ∷ [];
    }
    ∷ []

parse_service_response-resolved_document_example :
    (resolved_document (boolean true) errors >>= parse_service_response)
    ≡ ok (record { response_data = boolean true; errors = map client_error errors })
parse_service_response-resolved_document_example =
    parse_service_response-resolved_document (boolean true) errors

-- [Int], a list of nullable ints
abbrev modifiers : List TypeModifier
modifiers = list_modifier ∷ nullable_modifier ∷ []

abbrev values : List (Option ℤ)
values = some (pos 1) ∷ none ∷ []

int_read_back : (x : ℤ) → parse_int (int x) ≡ ok x
int_read_back x = (parse-scalar x 0 [] true empty_id true true).0

int_not_null : (x : ℤ) → type_of (int x) ≢ null_type
unfolding type_of
int_not_null x = λ e. cc

modifiers-IsGraphqlType : IsGraphqlType modifiers
modifiers-IsGraphqlType = ((λ e. e), tt)

parse-serialize_example : (serialize int modifiers values >>= parse parse_int modifiers) ≡ ok values
parse-serialize_example =
    parse-serialize int parse_int int_read_back int_not_null modifiers modifiers-IsGraphqlType
      values
