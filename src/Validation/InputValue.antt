-- ===== src/Validation/InputValue.antt =====
-- ValidateExecutableVisitor::validateInputValue: whether an argument is a value of an input type.
pub mod Verdict
use cppgraphqlgen.Base.{
  Bool, true, false, not, ◌&&◌, ◌||◌, List, [], ◌∷◌, ◌++◌, Option, none, some, if◌then◌else◌,
}
use cppgraphqlgen.Base.Text.{Bytes, codes, bytes_eq}
use cppgraphqlgen.Base.EqualRange.{is_none}
use cppgraphqlgen.Service.Errors.{SchemaLocation, SchemaError}
use cppgraphqlgen.SortedMap.{find, shorter_or_less, set_find, set_emplace}
use cppgraphqlgen.Subscriptions.{is_empty}
use cppgraphqlgen.Validation.{
  TypeKind, scalar, object, interface, union, enum, input_object, list, non_null, SchemaType,
  wrapper_type, kind_of, name_of, of_type_of, kind_eq, push_error,
}
use cppgraphqlgen.Validation.VariableType.{validate_variable_type}
use cppgraphqlgen.Validation.Values.{
  ArgumentPtr, null_at, value_at, ArgumentValue, variable_value, int_value, float_value,
  string_value, boolean_value, enum_value, list_value, map_value, ArgumentList, no_values,
  add_value, ArgumentMap, no_entries, add_entry, position_of, has_value, Argument, Fields,
  Environment, get_input_type_fields,
}

-- `_errors` and `_referencedVariables`
pub record State : Type 0 where
  pub errors : List SchemaError
  pub referenced_variables : List Bytes

abbrev pub Step : Type 0
Step = State → State × Bool

unfoldable pub refuse : Bytes → SchemaLocation → Step
refuse message position state = (
  record {
    errors = push_error message position state.errors;
    referenced_variables = state.referenced_variables;
  },
  false,
)

abbrev pub pass : Step
pass state = (state, true)

abbrev pub is_list : ArgumentValue → Bool
is_list (list_value _) = true
is_list _ = false

abbrev pub is_map : ArgumentValue → Bool
is_map (map_value _) = true
is_map _ = false

abbrev pub is_int : ArgumentValue → Bool
is_int (int_value value) = true
is_int _ = false

abbrev pub is_float : ArgumentValue → Bool
is_float (float_value value) = true
is_float _ = false

abbrev pub is_string : ArgumentValue → Bool
is_string (string_value value) = true
is_string _ = false

abbrev pub is_boolean : ArgumentValue → Bool
is_boolean (boolean_value value) = true
is_boolean _ = false

-- A variable, in an operation.
unfoldable pub variable_in : Fields → Bool → Bytes → SchemaLocation → SchemaType → Step
variable_in variables has_default name position type state =
    elim (find shorter_or_less name variables) [
      | none ↦ refuse (codes "Undefined variable name: " ++ name) position state
      | some entry ↦
          let (errors, valid) =
            validate_variable_type (has_default || entry.1.non_null_default_value)
              entry.1.argument_type position (some type) state.errors in
          (
            record {
              errors = errors;
              referenced_variables =
                  (set_emplace shorter_or_less name state.referenced_variables).0;
            },
            valid,
          )
    ]

-- The unwrapping of NON_NULL, before the check of the type below it.
unfoldable pub under_non_null : (SchemaType → Step) → SchemaLocation → SchemaType → Step
under_non_null check position (wrapper_type non_null of_type) state =
    under_non_null check position of_type state
under_non_null check position type state =
    if kind_eq (kind_of type) non_null
    then refuse (codes "Unknown Non-Null type") position state
    else check type state

unfoldable pub enum_value_of : ArgumentValue → Option Bytes
enum_value_of (enum_value value) = some value
enum_value_of _ = none

unfoldable pub is_enum_value : Environment → Bytes → Bytes → Bool
is_enum_value env name value = elim (find shorter_or_less name env.enum_values) [
  | none ↦ false
  | some entry ↦ not (is_none (set_find shorter_or_less value entry.1))
]

unfoldable pub check_enum : Environment → ArgumentValue → Bytes → SchemaLocation → Step
check_enum env value name position state =
    if is_empty name
    then refuse (codes "Unknown Enum value") position state
    else elim (enum_value_of value) [
      | none ↦ refuse (codes "Expected Enum value name: " ++ name) position state
      | some text ↦
          if is_enum_value env name text
          then pass state
          else refuse (codes "Undefined Enum value type: " ++ name ++ codes " name: " ++ text)
              position state
    ]

-- The built-in scalar types, with the test of each; any value passes for another scalar type.
unfoldable pub check_builtin : ArgumentValue → Bytes → Option Bytes
check_builtin value name =
    if bytes_eq name (codes "Int")
    then (if is_int value then none else some (codes "Expected Int value"))
    else if bytes_eq name (codes "Float")
    then (if is_float value || is_int value then none else some (codes "Expected Float value"))
    else if bytes_eq name (codes "String")
    then (if is_string value then none else some (codes "Expected String value"))
    else if bytes_eq name (codes "ID")
    then (if is_string value then none else some (codes "Expected ID value"))
    else if bytes_eq name (codes "Boolean")
    then (if is_boolean value then none else some (codes "Expected Boolean value"))
    else none

unfoldable pub check_scalar : Environment → ArgumentValue → Bytes → SchemaLocation → Step
check_scalar env value name position state =
    if is_empty name
    then refuse (codes "Unknown Scalar value") position state
    else elim (check_builtin value name) [
      | some message ↦ refuse message position state
      | none ↦
          if is_none (set_find shorter_or_less name env.scalar_types)
          then refuse (codes "Undefined Scalar type name: " ++ name) position state
          else pass state
    ]

-- The names of the values, `subFields` after the loop over them.
unfoldable pub sub_fields : ArgumentMap → List Bytes → List Bytes
sub_fields no_entries names = names
sub_fields (add_entry name value entries) names =
    sub_fields entries (set_emplace shorter_or_less name names).0

-- The loop for the required fields.
unfoldable pub check_required : Bytes → SchemaLocation → List Bytes → Fields → Step
check_required type position names [] state = pass state
check_required type position names (field ∷ fields) state =
    let rest = check_required type position names fields state in
    if field.1.default_value || not (is_none (set_find shorter_or_less field.0 names))
    then rest
    else elim field.1.argument_type [
      | none ↦
          refuse (codes "Unknown Input Object field type: " ++ type ++ codes " name: " ++ field.0)
            position state
      | some field_type ↦
          if kind_eq (kind_of field_type) non_null
          then refuse
              (codes "Missing Input Object field type: " ++ type ++ codes " name: " ++ field.0)
              position state
          else rest
    ]

-- The case LIST, of which `elements` is the loop over the values.
unfoldable pub check_list : (SchemaType → Step) → ArgumentValue → SchemaLocation → SchemaType → Step
check_list elements value position type state =
    if is_list value
    then elim (of_type_of type) [
      | none ↦ refuse (codes "Unknown List type") position state
      | some of_type ↦ elements of_type state
    ]
    else refuse (codes "Expected List value") position state

-- The case INPUT_OBJECT, of which `entries` is the loop over the values and the required fields.
unfoldable pub check_input_object :
    Environment → (Bytes → Fields → Step) → ArgumentValue → SchemaLocation → Bytes → Step
check_input_object env entries value position name state =
    if is_empty name
    then refuse (codes "Unknown Input Object type") position state
    else if is_map value
    then elim (get_input_type_fields env name) [
      | none ↦ refuse (codes "Expected Input Object fields name: " ++ name) position state
      | some fields ↦ entries name fields state
    ]
    else refuse (codes "Expected Input Object value name: " ++ name) position state

-- Only lists have elements, and only maps have entries.
abbrev pub no_elements : SchemaType → Step
no_elements type = pass

abbrev pub no_fields : Bytes → Fields → Step
no_fields name fields = pass

-- An entry is checked unless it is null and its field has a default value.
unfoldable pub checked_entry : Argument → ArgumentPtr → Step → Step
checked_entry field value check state =
    if has_value value || not field.default_value then check state else pass state

module _ (env : Environment) where
  -- The switch on the kind of a type that is not non-null.
  unfoldable pub check_kind :
      (SchemaType → Step)
      → (Bytes → Fields → Step)
      → ArgumentValue
      → SchemaLocation
      → SchemaType
      → TypeKind
      → Step
  check_kind elements entries value position type list = check_list elements value position type
  check_kind elements entries value position type input_object =
      check_input_object env entries value position (name_of type)
  check_kind elements entries value position type enum =
      check_enum env value (name_of type) position
  check_kind elements entries value position type scalar =
      check_scalar env value (name_of type) position
  check_kind elements entries value position type _ =
      refuse (codes "Unexpected value type") position

  unfoldable pub switch_value :
      (SchemaType → Step)
      → (Bytes → Fields → Step)
      → ArgumentValue
      → SchemaLocation
      → SchemaType
      → Step
  switch_value elements entries value position =
      under_non_null (λ type. check_kind elements entries value position type (kind_of type))
        position

  unfoldable pub validate_variable : Bool → Bytes → SchemaLocation → SchemaType → Step
  validate_variable has_default name position type state = elim env.operation_variables [
    | none ↦ pass state
    | some variables ↦ variable_in variables has_default name position type state
  ]

  unfoldable pub validate_null : Bool → SchemaLocation → SchemaType → Step
  validate_null has_default position type state =
      if kind_eq (kind_of type) non_null && not has_default
      then refuse (codes "Expected Non-Null value") position state
      else pass state

  unfoldable mutual
    pub validate_input_value : Bool → ArgumentPtr → Option SchemaType → Step
    validate_input_value has_default argument none state =
        refuse (codes "Unknown input type") (position_of argument) state
    validate_input_value has_default (null_at position) (some type) state =
        validate_null has_default position type state
    validate_input_value has_default (value_at position value) (some type) state =
        validate_value has_default value position type state

    pub validate_value : Bool → ArgumentValue → SchemaLocation → SchemaType → Step
    validate_value has_default (variable_value name) position type state =
        validate_variable has_default name position type state
    validate_value has_default (list_value values) position type state =
        switch_value (λ of_type. validate_list values of_type) no_fields (list_value values)
          position type state
    validate_value has_default (map_value entries) position type state =
        switch_value no_elements
          (λ name fields. validate_fields entries entries name position fields) (map_value entries)
          position type state
    validate_value has_default value position type state =
        switch_value no_elements no_fields value position type state

    pub validate_list : ArgumentList → SchemaType → Step
    validate_list no_values of_type state = pass state
    validate_list (add_value value values) of_type state =
        let first = validate_input_value false value (some of_type) state in
        let rest = validate_list values of_type first.0 in
        if first.1 then rest else (first.0, false)

    -- The loop over the entries that are left, and then the loop over the fields.
    pub validate_fields : ArgumentMap → ArgumentMap → Bytes → SchemaLocation → Fields → Step
    validate_fields no_entries all name position fields state =
        check_required name position (sub_fields all []) fields state
    validate_fields (add_entry entry value entries) all name position fields state =
        elim (find shorter_or_less entry fields) [
          | none ↦
              refuse
                (codes "Undefined Input Object field type: " ++ name ++ codes " name: " ++ entry)
                (position_of value) state
          | some field ↦
              let checked =
                checked_entry field.1 value
                  (validate_input_value field.1.non_null_default_value value field.1.argument_type)
                  state in
              let rest = validate_fields entries all name position fields checked.0 in
              if checked.1 then rest else (checked.0, false)
        ]
