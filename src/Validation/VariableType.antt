-- ===== src/Validation/VariableType.antt =====
-- ValidateExecutableVisitor::validateVariableType: whether a variable of one type may be used where
-- another is expected.
pub mod Decision
pub mod Verdict
use cppgraphqlgen.Base.{Bool, true, false, List, [], ◌∷◌, ◌++◌, Option, none, some, if◌then◌else◌}
use cppgraphqlgen.Base.Text.{Bytes, codes, bytes_eq}
use cppgraphqlgen.Service.Errors.{SchemaLocation, SchemaError}
use cppgraphqlgen.Subscriptions.{is_empty}
use cppgraphqlgen.Validation.{
  TypeKind, scalar, object, interface, union, enum, input_object, list, non_null, SchemaType,
  named_type, wrapper_type, expired_type, kind_of, name_of, of_type_of, kind_eq, Checked, reject,
  accept,
}

-- The comparison of names after the switch.
unfoldable pub compare_names : SchemaType → SchemaType → SchemaLocation → List SchemaError → Checked
compare_names variable input position errors =
    if is_empty (name_of variable)
    then reject (codes "Unknown variable type") position errors
    else if is_empty (name_of input)
    then reject (codes "Unknown input type") position errors
    else if bytes_eq (name_of variable) (name_of input)
    then accept errors
    else reject
        (codes "Incompatible variable type: "
          ++ name_of variable
          ++ codes " name: "
          ++ name_of input)
        position errors

-- The cases of the switch for a kind with a name.
unfoldable pub same_kind :
    Bytes → SchemaType → SchemaType → SchemaLocation → List SchemaError → Checked
same_kind expected variable input position errors =
    if kind_eq (kind_of variable) (kind_of input)
    then compare_names variable input position errors
    else reject (codes "Expected " ++ expected ++ codes " variable type") position errors

-- The unwrapping of two lists, of which `elements` is the recursive call.
unfoldable pub unwrap_lists :
    (SchemaType → List SchemaError → Checked)
    → Option SchemaType
    → Option SchemaType
    → SchemaLocation
    → List SchemaError
    → Checked
unwrap_lists elements none input position errors =
    reject (codes "Unknown List variable type") position errors
unwrap_lists elements (some variable) none position errors =
    reject (codes "Unknown List input type") position errors
unwrap_lists elements (some variable) (some input) position errors = elements input errors

unfoldable pub list_variable :
    (SchemaType → List SchemaError → Checked)
    → SchemaType
    → SchemaType
    → SchemaLocation
    → List SchemaError
    → Checked
list_variable elements variable input position errors =
    if kind_eq (kind_of variable) (kind_of input)
    then unwrap_lists elements (of_type_of variable) (of_type_of input) position errors
    else reject (codes "Expected List variable type") position errors

-- The cases of the switch, where a non-null input type has no type to unwrap.
unfoldable pub switch_kind :
    (SchemaType → List SchemaError → Checked)
    → SchemaType
    → SchemaLocation
    → Bool
    → SchemaType
    → List SchemaError
    → TypeKind
    → Checked
switch_kind elements variable position is_non_null input errors non_null =
    if is_non_null
    then reject (codes "Unknown Non-Null input type") position errors
    else reject (codes "Expected Non-Null variable type") position errors
switch_kind elements variable position is_non_null input errors list =
    list_variable elements variable input position errors
switch_kind elements variable position is_non_null input errors input_object =
    same_kind (codes "Input Object") variable input position errors
switch_kind elements variable position is_non_null input errors enum =
    same_kind (codes "Enum") variable input position errors
switch_kind elements variable position is_non_null input errors scalar =
    same_kind (codes "Scalar") variable input position errors
switch_kind elements variable position is_non_null input errors _ =
    reject (codes "Unexpected input type") position errors

-- The switch on the kind of the input type, for a variable that is not of a non-null type. The
-- recursion for a non-null input type is on the input type.
unfoldable pub switch_input :
    (SchemaType → List SchemaError → Checked)
    → SchemaType
    → SchemaLocation
    → Bool
    → SchemaType
    → List SchemaError
    → Checked
switch_input elements variable position is_non_null (wrapper_type non_null of_type) errors =
    let rest = switch_input elements variable position false of_type errors in
    if is_non_null then rest else reject (codes "Expected Non-Null variable type") position errors
switch_input elements variable position is_non_null input errors =
    switch_kind elements variable position is_non_null input errors (kind_of input)

-- After the unwrapping of a non-null variable type.
unfoldable pub nullable_variable :
    (SchemaType → List SchemaError → Checked)
    → SchemaType
    → SchemaLocation
    → Bool
    → Option SchemaType
    → List SchemaError
    → Checked
nullable_variable elements variable position is_non_null none errors =
    reject (codes "Unknown input type") position errors
nullable_variable elements variable position is_non_null (some input) errors =
    switch_input elements variable position is_non_null input errors

-- A variable type without an `ofType` has no elements to call.
abbrev pub no_elements : SchemaType → List SchemaError → Checked
no_elements input errors = accept errors

unfoldable pub check_variable :
    SchemaType → SchemaLocation → Bool → Option SchemaType → List SchemaError → Checked
check_variable (wrapper_type non_null of_type) position is_non_null input errors =
    check_variable of_type position true input errors
check_variable (wrapper_type kind of_type) position is_non_null input errors =
    nullable_variable (λ input. check_variable of_type position false (some input))
      (wrapper_type kind of_type) position is_non_null input errors
check_variable (named_type kind name) position is_non_null input errors =
    if kind_eq kind non_null
    then reject (codes "Unknown Non-Null variable type") position errors
    else nullable_variable no_elements (named_type kind name) position is_non_null input errors
check_variable (expired_type kind) position is_non_null input errors =
    if kind_eq kind non_null
    then reject (codes "Unknown Non-Null variable type") position errors
    else nullable_variable no_elements (expired_type kind) position is_non_null input errors

unfoldable pub validate_variable_type :
    Bool → Option SchemaType → SchemaLocation → Option SchemaType → List SchemaError → Checked
validate_variable_type is_non_null none position input errors =
    reject (codes "Unknown variable type") position errors
validate_variable_type is_non_null (some variable) position input errors =
    check_variable variable position is_non_null input errors
