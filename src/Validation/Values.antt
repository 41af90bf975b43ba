-- ===== src/Validation/Values.antt =====
-- The argument values of include/Validation.h, and what a schema and an operation say about them:
-- the fields of the input types (getArguments, getInputTypeFields), the values of the enums, the
-- scalar types and the variables. The cache `_inputTypeFields` returns what it was computed as.
use cppgraphqlgen.Base.{Bool, true, false, not, ◌&&◌, List, [], ◌∷◌, Option, none, some}
use cppgraphqlgen.Base.Text.{Bytes, codes, bytes_eq}
use cppgraphqlgen.Base.Int.{ℤ}
use cppgraphqlgen.Base.Double.{Double}
use cppgraphqlgen.Base.EqualRange.{update_first}
use cppgraphqlgen.Service.Errors.{SchemaLocation}
use cppgraphqlgen.SortedMap.{sorted_map_key, find, subscript, shorter_or_less}
use cppgraphqlgen.Subscriptions.{is_empty}
use cppgraphqlgen.Validation.{SchemaType}

-- ValidateArgumentValuePtr, ValidateArgumentVariant, ValidateArgumentList and ValidateArgumentMap.
-- The entries of a map stand in the order of their names.
mutual
  pub data ArgumentPtr : Type 0 where
    null_at : SchemaLocation → ArgumentPtr
    value_at : SchemaLocation → ArgumentValue → ArgumentPtr

  pub data ArgumentValue : Type 0 where
    variable_value : Bytes → ArgumentValue
    int_value : ℤ → ArgumentValue
    float_value : Double → ArgumentValue
    string_value : Bytes → ArgumentValue
    boolean_value : Bool → ArgumentValue
    enum_value : Bytes → ArgumentValue
    list_value : ArgumentList → ArgumentValue
    map_value : ArgumentMap → ArgumentValue

  pub data ArgumentList : Type 0 where
    no_values : ArgumentList
    add_value : ArgumentPtr → ArgumentList → ArgumentList

  pub data ArgumentMap : Type 0 where
    no_entries : ArgumentMap
    add_entry : Bytes → ArgumentPtr → ArgumentMap → ArgumentMap

abbrev pub position_of : ArgumentPtr → SchemaLocation
position_of (null_at position) = position
position_of (value_at position value) = position

abbrev pub has_value : ArgumentPtr → Bool
has_value (null_at position) = false
has_value (value_at position value) = true

-- ValidateArgument
pub record Argument : Type 0 where
  pub default_value : Bool
  pub non_null_default_value : Bool
  pub argument_type : Option SchemaType

-- schema::InputValue
pub record InputField : Type 0 where
  pub input_name : Bytes
  pub input_type : Option SchemaType
  pub input_default : Bytes

-- string_view_map<ValidateArgument>
abbrev pub Fields : Type 0
Fields = List (Bytes × Argument)

-- `result[name] = argument`
unfoldable pub put_argument : Bytes → Argument → Fields → Fields
put_argument name argument fields =
    update_first shorter_or_less sorted_map_key name (λ entry. (entry.0, argument))
      (subscript shorter_or_less argument name fields).0

unfoldable pub make_argument : InputField → Argument
make_argument field = record {
  default_value = not (is_empty field.input_default);
  non_null_default_value =
      not (is_empty field.input_default) && not (bytes_eq field.input_default (codes "null"));
  argument_type = field.input_type;
}

unfoldable pub get_arguments_from : Fields → List (Option InputField) → Fields
get_arguments_from result [] = result
get_arguments_from result (none ∷ fields) = get_arguments_from result fields
get_arguments_from result (some field ∷ fields) =
    get_arguments_from (put_argument field.input_name (make_argument field) result) fields

unfoldable pub get_arguments : List (Option InputField) → Fields
get_arguments fields = get_arguments_from [] fields

-- `input_types` are the types of `_types` of the kind INPUT_OBJECT with their fields. There are no
-- operation variables in a fragment definition.
pub record Environment : Type 0 where
  pub input_types : List (Bytes × List (Option InputField))
  pub enum_values : List (Bytes × List Bytes)
  pub scalar_types : List Bytes
  pub operation_variables : Option Fields

unfoldable pub get_input_type_fields : Environment → Bytes → Option Fields
get_input_type_fields env name = elim (find shorter_or_less name env.input_types) [
  | none ↦ none
  | some entry ↦ some (get_arguments entry.1)
]
