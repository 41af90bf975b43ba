-- ===== src/Client/Modifiers.antt =====
-- include/graphqlservice/GraphQLClient.h and src/GraphQLClient.cpp: the types of variables and of
-- responses with their chains of modifiers, ModifiedVariable::serialize and
-- ModifiedResponse::parse, and the scalars below them.
use cppgraphqlgen.Base.{Bool, List, [], ◌∷◌, Option, none, some, if◌then◌else◌}
use cppgraphqlgen.Base.Text.{Bytes}
use cppgraphqlgen.Base.Int.{ℤ}
use cppgraphqlgen.Base.Double.{Double}
use cppgraphqlgen.Base.Outcome.{Outcome, ok, throw, logic_error, ◌>>=◌}
use cppgraphqlgen.IdType.{IdType}
use cppgraphqlgen.Response.{
  Value, ValueType, null_data, make_value, type_of, list_type, null_type, int_type, float_type,
  string_type, boolean_type,
}
use cppgraphqlgen.Response.Access.{get_int, get_float, get_boolean, maybe_id}
use cppgraphqlgen.Response.Modify.{append_each, release_string, release_id}
use cppgraphqlgen.Client.{transform_list}

-- enum class TypeModifier
pub data TypeModifier : Type 0 where
  none_modifier nullable_modifier list_modifier : TypeModifier

-- VariableTraits and ResponseTraits: the type that the modifiers make of a type. The modifier None
-- comes last where it stands.
abbrev pub Modified : Type 0 → List TypeModifier → Type 0
Modified A [] = A
Modified A (none_modifier ∷ other) = A
Modified A (nullable_modifier ∷ other) = Option (Modified A other)
Modified A (list_modifier ∷ other) = List (Modified A other)

module _ {A : Type 0} where
  -- ModifiedVariable::serialize, for the `Variable<Type>::serialize` of the type
  unfoldable pub serialize :
      (A → Value) → (modifiers : List TypeModifier) → Modified A modifiers → Outcome Value
  serialize variable [] value = ok (variable value)
  serialize variable (none_modifier ∷ other) value = ok (variable value)
  serialize variable (nullable_modifier ∷ other) none = ok null_data
  serialize variable (nullable_modifier ∷ other) (some value) = serialize variable other value
  serialize variable (list_modifier ∷ other) values =
      append_each (serialize variable other) values (make_value list_type)

-- A null response is no value; any other is parsed.
unfoldable pub parse_nullable : {A : Type 0} → ValueType → Outcome A → Outcome (Option A)
parse_nullable null_type parsed = ok none
parse_nullable _ parsed = do value ← parsed; ok (some value)

module _ {A : Type 0} where
  -- ModifiedResponse::parse, for the `Response<Type>::parse` of the type
  unfoldable pub parse :
      (Value → Outcome A) → (modifiers : List TypeModifier) → Value → Outcome (Modified A modifiers)
  unfolding parse_nullable transform_list
  parse response [] value = response value
  parse response (none_modifier ∷ other) value = response value
  parse response (nullable_modifier ∷ other) value =
      parse_nullable (type_of value) (parse response other value)
  parse response (list_modifier ∷ other) value = transform_list (parse response other) [] value

-- Response<int>::parse and its companions; Variable<int>::serialize is the constructor of Value.
unfoldable pub parse_int : Value → Outcome ℤ
parse_int value = elim (type_of value) [
  | int_type ↦ get_int value
  | _ ↦ throw (logic_error "not an integer")
]

unfoldable pub parse_float : Value → Outcome Double
parse_float value = elim (type_of value) [
  | float_type ↦ get_float value
  | int_type ↦ get_float value
  | _ ↦ throw (logic_error "not a float")
]

unfoldable pub parse_string : Value → Outcome Bytes
parse_string value = elim (type_of value) [
  | string_type ↦ release_string value
  | _ ↦ throw (logic_error "not a string")
]

unfoldable pub parse_boolean : Value → Outcome Bool
parse_boolean value = elim (type_of value) [
  | boolean_type ↦ get_boolean value
  | _ ↦ throw (logic_error "not a boolean")
]

unfoldable pub parse_id : Value → Outcome IdType
parse_id value = if maybe_id value then release_id value else throw (logic_error "not an ID")
