-- ===== src/Client.antt =====
-- src/GraphQLClient.cpp: taking a service response apart into data and errors. A loop over the
-- members of a map is a fold, since a vector of members grows at its end.
pub mod ServiceErrors
pub mod Documents
pub mod Modifiers
pub mod ModifierRoundTrip
mod Examples
use cppgraphqlgen.Base.{List, [], ◌∷◌, ◌++◌, if◌then◌else◌}
use cppgraphqlgen.Base.Text.{Bytes, bytes_eq, codes}
use cppgraphqlgen.Base.Int.{ℤ, pos, to_size, to_int}
use cppgraphqlgen.Base.Outcome.{Outcome, ok, ◌>>=◌}
use cppgraphqlgen.Response.{
  Value, Members, Items, null_data, no_members, push_member, no_items, push_item, type_of, map_type,
  list_type, string_type, int_type,
}
use cppgraphqlgen.Response.Access.{get_int}
use cppgraphqlgen.Response.Modify.{release_map, release_list, release_string}

pub record ErrorLocation : Type 0 where
  pub line : ℤ
  pub column : ℤ

-- std::variant<std::string, int>
pub data ErrorPathSegment : Type 0 where
  field_name : Bytes → ErrorPathSegment
  list_index : ℤ → ErrorPathSegment

pub record Error : Type 0 where
  pub message : Bytes
  pub locations : List ErrorLocation
  pub path : List ErrorPathSegment

pub record ServiceResponse : Type 0 where
  pub response_data : Value
  pub errors : List Error

abbrev pub no_location : ErrorLocation
no_location = record { line = pos 0; column = pos 0 }

abbrev pub no_error : Error
no_error = record { message = []; locations = []; path = [] }

-- `static_cast<size_t>(value.get<int>())`, converted back to an int, if the value is an Int
int_or : ℤ → Value → Outcome ℤ
int_or old value = elim (type_of value) [
  | int_type ↦ do i ← get_int value; ok (to_int (to_size i))
  | _ ↦ ok old
]

location_member : ErrorLocation → Bytes → Value → Outcome ErrorLocation
unfolding int_or
location_member result name value =
    if bytes_eq name (codes "line")
    then (do line ← int_or result.line value; ok (record result { line = line }))
    else if bytes_eq name (codes "column")
    then (do column ← int_or result.column value; ok (record result { column = column }))
    else ok result

location_members : Members → Outcome ErrorLocation
location_members no_members = ok no_location
location_members (push_member ms k v) = do result ← location_members ms; location_member result k v

unfoldable pub parse_location : Value → Outcome ErrorLocation
unfolding location_member location_members
parse_location location = elim (type_of location) [
  | map_type ↦ do released ← release_map location; location_members released.0
  | _ ↦ ok no_location
]

unfoldable pub parse_path_segment : Value → Outcome ErrorPathSegment
parse_path_segment segment = elim (type_of segment) [
  | int_type ↦ do i ← get_int segment; ok (list_index i)
  | string_type ↦ do s ← release_string segment; ok (field_name s)
  | _ ↦ ok (list_index (pos 0))
]

-- std::transform with std::back_inserter: the results behind those that are there.
unfoldable pub transform {ℓ} :
    {A : Type ℓ} → (Value → Outcome A) → List A → Items → Outcome (List A)
transform parse result no_items = ok result
transform parse result (push_item xs v) = do
  front ← transform parse result xs
  a ← parse v
  ok (front ++ a ∷ [])

-- The elements of a list, and what was there if the value is none.
transform_list {ℓ} : {A : Type ℓ} → (Value → Outcome A) → List A → Value → Outcome (List A)
unfolding transform
transform_list parse result value = elim (type_of value) [
  | list_type ↦ do items ← release_list value; transform parse result items
  | _ ↦ ok result
]

message_or : Bytes → Value → Outcome Bytes
message_or old value = elim (type_of value) [ string_type ↦ release_string value | _ ↦ ok old ]

error_member : Error → Bytes → Value → Outcome Error
unfolding message_or transform_list
error_member result name value =
    if bytes_eq name (codes "message")
    then (do message ← message_or result.message value; ok (record result { message = message }))
    else if bytes_eq name (codes "locations")
    then (do
      locations ← transform_list parse_location result.locations value
      ok (record result { locations = locations }))
    else if bytes_eq name (codes "path")
    then (do
      path ← transform_list parse_path_segment result.path value
      ok (record result { path = path }))
    else ok result

error_members : Members → Outcome Error
error_members no_members = ok no_error
error_members (push_member ms k v) = do result ← error_members ms; error_member result k v

unfoldable pub parse_service_error : Value → Outcome Error
unfolding error_member error_members parse_location parse_path_segment
parse_service_error error = elim (type_of error) [
  | map_type ↦ do released ← release_map error; error_members released.0
  | _ ↦ ok no_error
]

abbrev pub no_response : ServiceResponse
no_response = record { response_data = null_data; errors = [] }

response_member : ServiceResponse → Bytes → Value → Outcome ServiceResponse
unfolding transform_list
response_member result name value =
    if bytes_eq name (codes "data")
    then ok (record result { response_data = value })
    else if bytes_eq name (codes "errors")
    then (do
      errors ← transform_list parse_service_error result.errors value
      ok (record result { errors = errors }))
    else ok result

response_members : Members → Outcome ServiceResponse
response_members no_members = ok no_response
response_members (push_member ms k v) = do result ← response_members ms; response_member result k v

unfoldable pub parse_service_response : Value → Outcome ServiceResponse
unfolding response_member response_members
parse_service_response response = elim (type_of response) [
  | map_type ↦ do released ← release_map response; response_members released.0
  | _ ↦ ok no_response
]
