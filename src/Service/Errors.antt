-- ===== src/Service/Errors.antt =====
-- Structured errors in src/GraphQLService.cpp: error paths, the values of errors, and the document
-- of a response in Request::resolve. The reserve calls have no effect on the values.
use cppgraphqlgen.Base.{ℕ, List, [], ◌∷◌, map, Option, none, some, if◌then◌else◌, ◌==◌}
use cppgraphqlgen.Base.Text.{Bytes, codes}
use cppgraphqlgen.Base.Int.{to_int}
use cppgraphqlgen.Base.Outcome.{Outcome, ok, ◌>>=◌}
use cppgraphqlgen.Response.{Value, null_data, int, string_value, make_value, map_type, list_type}
use cppgraphqlgen.Response.Modify.{append_each, emplace_back, emplace_back_item}

pub record SchemaLocation : Type 0 where
  pub line : ℕ
  pub column : ℕ

-- `schema_location {}`
abbrev pub default_location : SchemaLocation
default_location = record { line = 0; column = 1 }

-- std::variant<std::string_view, size_t>
pub data PathSegment : Type 0 where
  field_segment : Bytes → PathSegment
  index_segment : ℕ → PathSegment

-- field_path: a segment, and the path of the parent if there is one
pub data FieldPath : Type 0 where
  root_path : PathSegment → FieldPath
  child_path : FieldPath → PathSegment → FieldPath

pub record SchemaError : Type 0 where
  pub message : Bytes
  pub location : SchemaLocation
  pub path : List PathSegment

-- The member functions return whether they added the member, which is not read here.
abbrev pub add_member : Bytes → Value → Value → Outcome Value
add_member name value object = do grown ← emplace_back name value object; ok grown.0

unfoldable pub add_error_message : Bytes → Value → Outcome Value
add_error_message message error = add_member (codes "message") (string_value message) error

unfoldable pub add_error_location : SchemaLocation → Value → Outcome Value
add_error_location location error = if location.line == 0 then ok error else (do
  with_line ← add_member (codes "line") (int (to_int location.line)) (make_value map_type)
  error_location ← add_member (codes "column") (int (to_int location.column)) with_line
  error_locations ← emplace_back_item error_location (make_value list_type)
  add_member (codes "locations") error_locations error)

unfoldable pub segment_value : PathSegment → Outcome Value
segment_value (field_segment name) = ok (string_value name)
segment_value (index_segment index) = ok (int (to_int index))

unfoldable pub add_error_path : List PathSegment → Value → Outcome Value
add_error_path [] error = ok error
add_error_path (segment ∷ path) error = do
  error_path ← append_each segment_value (segment ∷ path) (make_value list_type)
  add_member (codes "path") error_path error

-- The loop of buildErrorPath, which pushes each segment at the front and goes to the parent.
unfoldable pub push_segments : FieldPath → List PathSegment → List PathSegment
push_segments (root_path segment) segments = segment ∷ segments
push_segments (child_path parent segment) segments = push_segments parent (segment ∷ segments)

unfoldable pub build_error_path : Option FieldPath → List PathSegment
build_error_path none = []
build_error_path (some path) = push_segments path []

unfoldable pub error_value : SchemaError → Outcome Value
error_value error = do
  with_message ← add_error_message error.message (make_value map_type)
  with_location ← add_error_location error.location with_message
  add_error_path error.path with_location

unfoldable pub build_error_values : List SchemaError → Outcome Value
build_error_values errors = append_each error_value errors (make_value list_type)

-- schema_exception: messages become errors without a location and a path.
unfoldable pub convert_messages : List Bytes → List SchemaError
convert_messages messages =
    map (λ message. record { message = message; location = default_location; path = [] }) messages

unfoldable pub what : List SchemaError → Bytes
what [] = codes "Unknown schema error"
what (error ∷ errors) = error.message

-- The document of a resolved operation, and the one for a schema_exception.
unfoldable pub resolved_document : Value → List SchemaError → Outcome Value
resolved_document result errors = do
  document ← add_member (codes "data") result (make_value map_type)
  elim errors [
    | [] ↦ ok document
    | error ∷ more ↦ do
      values ← build_error_values (error ∷ more)
      add_member (codes "errors") values document
  ]

unfoldable pub failed_document : List SchemaError → Outcome Value
failed_document errors = do
  document ← add_member (codes "data") null_data (make_value map_type)
  values ← build_error_values errors
  add_member (codes "errors") values document
