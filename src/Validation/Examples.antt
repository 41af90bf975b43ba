-- ===== src/Validation/Examples.antt =====
-- Values and variables for the type [Filter!] of a schema with an input object Filter.
use cppgraphqlgen.Base.{
  List, sym, ◌∙◌, subst, ◌↔◌, ◌⊎◌, ◌++◌, true, false, [], ◌∷◌, none, some, ◌≡◌, refl,
}
use cppgraphqlgen.Base.Text.{bytes_lt, lex_compare, Bytes, codes, bytes_eq}
use cppgraphqlgen.Base.Int.{pos, negsuc}
use cppgraphqlgen.Base.Double.{Double}
use cppgraphqlgen.Base.Outcome.{ok}
use cppgraphqlgen.Service.Literals.{
  Literal, integer_literal, object_literal, empty_fields, push_field, atoi, digits, signed_int,
}
use cppgraphqlgen.Base.EqualRange.{search, equal_range, partition_point}
use cppgraphqlgen.SortedMap.{find, shorter_or_less}
use cppgraphqlgen.Validation.Scope.{
  MatchingTypes, matches_scoped_type, Common, InOrder, matches_scoped_type-Common,
}
use cppgraphqlgen.Validation.ArgumentVisitor.{visit_argument}
use cppgraphqlgen.Validation.ArgumentVisitor.Duplicates.{
  IntsFit, duplicates, visit_argument-duplicates,
}
use cppgraphqlgen.Service.Errors.{default_location}
use cppgraphqlgen.Validation.{
  SchemaType, named_type, wrapper_type, scalar, input_object, list, non_null,
}
use cppgraphqlgen.Validation.VariableType.{validate_variable_type}
use cppgraphqlgen.Validation.VariableType.Decision.{
  is_input_type, types_compatible, usage_allowed, validate_variable_type-usage_allowed,
}
use cppgraphqlgen.Validation.Values.{
  ArgumentPtr, value_at, int_value, list_value, map_value, no_values, add_value, no_entries,
  add_entry, Environment,
}
use cppgraphqlgen.Validation.InputValue.{State, validate_input_value}
use cppgraphqlgen.Validation.InputValue.Verdict.{Settles, validate_input_value-Settles}

some-injective {ℓ} : {A : Type ℓ} {a b : A} → some a ≡ some b → a ≡ b
some-injective e = cc

abbrev no_float : Bytes → Double
no_float text = 0

-- { a: 3, a: { b: 1, b: 2 } }
abbrev repeated : Literal
repeated = object_literal default_location (
    push_field
      (push_field empty_fields default_location (codes "a")
        (integer_literal default_location (codes "3")))
      default_location (codes "a")
      (object_literal default_location (
        push_field
          (push_field empty_fields default_location (codes "b")
            (integer_literal default_location (codes "1")))
          default_location (codes "b") (integer_literal default_location (codes "-2")))))

repeated-IntsFit : IntsFit repeated
unfolding IntsFit atoi digits signed_int
repeated-IntsFit = ((tt, (pos 3, refl)), ((tt, (pos 1, refl)), (negsuc 1, refl)))

visit_argument-duplicates_example :
    (argument : ArgumentPtr) × (visit_argument no_float repeated []
      ≡ ok ([] ++ duplicates repeated, argument))
visit_argument-duplicates_example = visit_argument-duplicates no_float repeated [] repeated-IntsFit

abbrev int_type : SchemaType
int_type = named_type scalar (codes "Int")

abbrev filter_type : SchemaType
filter_type = named_type input_object (codes "Filter")

abbrev filters : SchemaType
filters = wrapper_type list (wrapper_type non_null filter_type)

abbrev required_filters : SchemaType
required_filters = wrapper_type non_null filters

filters-input : is_input_type filters ≡ true
unfolding is_input_type
filters-input = refl

required_filters-input : is_input_type required_filters ≡ true
unfolding is_input_type
required_filters-input = refl

validate_variable_type-usage_allowed_example :
    (validate_variable_type true (some filters) default_location (some required_filters) []).1
    ≡ usage_allowed true filters required_filters
validate_variable_type-usage_allowed_example =
    validate_variable_type-usage_allowed default_location [] true filters required_filters
      filters-input required_filters-input

-- With a default value the variable is accepted, without one it is not.
with_default : usage_allowed true filters required_filters ≡ true
unfolding usage_allowed types_compatible bytes_eq
with_default = refl

without_default : usage_allowed false filters required_filters ≡ false
unfolding usage_allowed types_compatible
without_default = refl

abbrev environment : Environment
environment = record {
  input_types =
      (
        codes "Filter",
        some (record {
          input_name = codes "limit";
          input_type = some (wrapper_type non_null int_type);
          input_default = [];
        })
            ∷ [],
      )
      ∷ [];
  enum_values = [];
  scalar_types = codes "Int" ∷ [];
  operation_variables = none;
}

abbrev no_state : State
no_state = record { errors = []; referenced_variables = [] }

-- [{ limit: 3 }, {}]
abbrev two_filters : ArgumentPtr
two_filters = value_at default_location (
    list_value (
      add_value
        (value_at default_location (
          map_value
            (add_entry (codes "limit") (value_at default_location (int_value (pos 3))) no_entries)))
        (add_value (value_at default_location (map_value no_entries)) no_values)))

validate_input_value-Settles_example :
    Settles no_state
      (validate_input_value environment false two_filters (some required_filters) no_state)
validate_input_value-Settles_example =
    validate_input_value-Settles environment false two_filters (some required_filters) no_state

-- The interface Node and the union Media have the object types Movie and Song, and Song and Clip.
abbrev possible : MatchingTypes
possible =
    (codes "Node", codes "Song" ∷ codes "Movie" ∷ [])
    ∷ (codes "Media", codes "Clip" ∷ codes "Song" ∷ [])
    ∷ []

media_found :
    find shorter_or_less (codes "Media") possible
    ≡ some (codes "Media", codes "Clip" ∷ codes "Song" ∷ [])
unfolding find search equal_range partition_point shorter_or_less bytes_lt lex_compare
media_found = refl

media-InOrder : InOrder (codes "Clip" ∷ codes "Song" ∷ [])
unfolding shorter_or_less bytes_lt lex_compare
media-InOrder = ((refl, tt), (tt, tt))

matches_scoped_type-Common_example :
    (matches_scoped_type possible (codes "Node") (codes "Media") ≡ true) ↔ (
      (codes "Media" ≡ codes "Node")
      ⊎ ((named_types : Bytes × List Bytes) × (scoped_types : Bytes × List Bytes) × (find
              shorter_or_less
              (codes "Media")
              possible
            ≡ some named_types)
          × (find shorter_or_less (codes "Node") possible ≡ some scoped_types)
          × Common named_types.1 scoped_types.1))
matches_scoped_type-Common_example =
    matches_scoped_type-Common possible (codes "Node") (codes "Media")
      (λ entry e. subst (λ x. InOrder x.1) (some-injective (sym media_found ∙ e)) media-InOrder)
