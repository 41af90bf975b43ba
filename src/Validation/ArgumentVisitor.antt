-- ===== src/Validation/ArgumentVisitor.antt =====
-- ValidateArgumentValueVisitor: the argument value of a literal, and the errors for fields that an
-- object has twice.
pub mod Duplicates
use cppgraphqlgen.Base.{
  Bool, true, false, not, List, [], ◌∷◌, ◌++◌, Option, none, some, if◌then◌else◌,
}
use cppgraphqlgen.Base.Text.{Bytes, codes}
use cppgraphqlgen.Base.Double.{Double}
use cppgraphqlgen.Base.EqualRange.{is_none}
use cppgraphqlgen.Base.Outcome.{Outcome, ok, throw, ◌>>=◌}
use cppgraphqlgen.Service.Errors.{SchemaLocation, SchemaError}
use cppgraphqlgen.Service.Literals.{
  Literal, variable_literal, integer_literal, float_literal, string_literal, boolean_literal,
  null_literal, enum_literal, list_literal, object_literal, Literals, no_literals, push_literal,
  LiteralFields, empty_fields, push_field, atoi,
}
use cppgraphqlgen.SortedMap.{shorter_or_less}
use cppgraphqlgen.Validation.{push_error}
use cppgraphqlgen.Validation.Values.{
  ArgumentPtr, null_at, value_at, variable_value, int_value, float_value, string_value,
  boolean_value, enum_value, list_value, map_value, ArgumentList, no_values, add_value, ArgumentMap,
  no_entries, add_entry,
}

-- find and operator[] of the string_view_map, on its entries in order.
unfoldable pub find_entry : Bytes → ArgumentMap → Option ArgumentPtr
find_entry name no_entries = none
find_entry name (add_entry key value entries) =
    let rest = find_entry name entries in
    if shorter_or_less key name then rest else if shorter_or_less name key then none else some value

unfoldable pub put_entry : Bytes → ArgumentPtr → ArgumentMap → ArgumentMap
put_entry name value no_entries = add_entry name value no_entries
put_entry name value (add_entry key old entries) =
    let rest = put_entry name value entries in
    if shorter_or_less key name
    then add_entry key old rest
    else if shorter_or_less name key
    then add_entry name value (add_entry key old entries)
    else add_entry key value entries

unfoldable pub append_value : ArgumentList → ArgumentPtr → ArgumentList
append_value no_values last = add_value last no_values
append_value (add_value value values) last = add_value value (append_value values last)

abbrev pub conflicting_field : Bytes → Bytes
conflicting_field name = codes "Conflicting input field name: " ++ name

-- The body of the loop over the fields of an object. A field whose name is there already is an error,
-- and its value is not visited.
unfoldable pub add_field :
    Bool
    → Outcome (List SchemaError × ArgumentPtr)
    → Bytes
    → SchemaLocation
    → List SchemaError × ArgumentMap
    → Outcome (List SchemaError × ArgumentMap)
add_field false visit name position before =
    ok (push_error (conflicting_field name) position before.0, before.1)
add_field true visit name position before = do
  visited ← visit
  ok (visited.0, put_entry name visited.1 before.1)

-- A visitor for each value adds to the same errors.
module _ (atof : Bytes → Double) where
  unfoldable mutual
    pub visit_argument : Literal → List SchemaError → Outcome (List SchemaError × ArgumentPtr)
    visit_argument (variable_literal position name) errors =
        ok (errors, value_at position (variable_value name))
    visit_argument (integer_literal position text) errors = do
      number ← atoi text
      ok (errors, value_at position (int_value number))
    visit_argument (float_literal position text) errors =
        ok (errors, value_at position (float_value (atof text)))
    visit_argument (string_literal position text) errors =
        ok (errors, value_at position (string_value text))
    visit_argument (boolean_literal position value) errors =
        ok (errors, value_at position (boolean_value value))
    visit_argument (null_literal position) errors = ok (errors, null_at position)
    visit_argument (enum_literal position text) errors =
        ok (errors, value_at position (enum_value text))
    visit_argument (list_literal position values) errors = do
      visited ← visit_argument_list values errors
      ok (visited.0, value_at position (list_value visited.1))
    visit_argument (object_literal position fields) errors = do
      visited ← visit_argument_fields fields errors
      ok (visited.0, value_at position (map_value visited.1))

    pub visit_argument_list :
        Literals → List SchemaError → Outcome (List SchemaError × ArgumentList)
    visit_argument_list no_literals errors = ok (errors, no_values)
    visit_argument_list (push_literal values value) errors = do
      before ← visit_argument_list values errors
      visited ← visit_argument value before.0
      ok (visited.0, append_value before.1 visited.1)

    pub visit_argument_fields :
        LiteralFields → List SchemaError → Outcome (List SchemaError × ArgumentMap)
    visit_argument_fields empty_fields errors = ok (errors, no_entries)
    visit_argument_fields (push_field fields position name value) errors = do
      before ← visit_argument_fields fields errors
      add_field (is_none (find_entry name before.1)) (visit_argument value before.0) name position
          before
