-- ===== src/Service/Examples.antt =====
-- Error paths, and directives of a field.
use cppgraphqlgen.Base.{Bool, true, false, [], ◌∷◌, some, ◌≡◌, ◌↔◌, refl}
use cppgraphqlgen.Base.Text.{codes, bytes_eq, lex_compare}
use cppgraphqlgen.Base.Outcome.{ok}
use cppgraphqlgen.Response.{Value, map_data, boolean, no_members, push_member, resolve}
use cppgraphqlgen.Service.Errors.{field_segment, index_segment, FieldPath, root_path, child_path}
use cppgraphqlgen.Base.Text.{Bytes}
use cppgraphqlgen.Base.Int.{pos, negsuc}
use cppgraphqlgen.Base.Double.{Double}
use cppgraphqlgen.Response.{int, Members}
use cppgraphqlgen.Response.Copy.{name_map, copy, assign}
use cppgraphqlgen.Response.Vectors.{lookup, position}
use cppgraphqlgen.Base.EqualRange.{equal_range}
use cppgraphqlgen.Response.MapIndex.{IsIndexed}
use cppgraphqlgen.Service.Errors.{default_location}
use cppgraphqlgen.Service.Literals.{
  Literal, variable_literal, integer_literal, object_literal, empty_fields, push_field, atoi,
  digits, signed_int, visit_value,
}
use cppgraphqlgen.Service.Literals.Evaluated.{meaning, Ready, visit_value-meaning}
use cppgraphqlgen.Service.Directives.{Directives, find_directive, should_skip}
use cppgraphqlgen.Service.SkipDecision.{HasCondition, should_skip-decision, should_skip-must_skip}

abbrev parent : FieldPath
parent = child_path (root_path (field_segment (codes "users"))) (index_segment 3)

abbrev if_argument : Bool → Value
if_argument b = map_data (push_member no_members (codes "if") (boolean b)) (0 ∷ [])

-- @include(if: false) @skip(if: false)
abbrev both_false : Directives
both_false = (codes "include", if_argument false) ∷ (codes "skip", if_argument false) ∷ []

skip_is_false : HasCondition (find_directive (codes "skip") both_false) (some false)
unfolding find_directive resolve bytes_eq lex_compare
skip_is_false = (boolean false, 0 ∷ [], refl, refl)

include_is_false : HasCondition (find_directive (codes "include") both_false) (some false)
unfolding find_directive resolve bytes_eq lex_compare
include_is_false = (boolean false, 0 ∷ [], refl, refl)

should_skip-decision_example : should_skip both_false ≡ ok false
should_skip-decision_example =
    should_skip-decision both_false (some false) (some false) skip_is_false include_is_false

should_skip-must_skip_example :
    (should_skip both_false ≡ ok true) ↔ ¬ ((some false ≡ some false) × (some false ≡ some false))
should_skip-must_skip_example =
    should_skip-must_skip both_false (some false) (some false) skip_is_false include_is_false

abbrev no_float : Bytes → Double
no_float text = 0

-- The variable $limit is 10.
abbrev one_variable : Members
one_variable = push_member no_members (codes "limit") (int (pos 10))

one_variable-IsIndexed : IsIndexed one_variable (0 ∷ [])
unfolding name_map position assign equal_range
one_variable-IsIndexed = record { distinct = (tt, refl); sorted = refl }

-- { first: $limit, first: -7 }
abbrev literal : Literal
literal = object_literal default_location (
    push_field
      (push_field empty_fields default_location (codes "first")
        (variable_literal default_location (codes "limit")))
      default_location (codes "first") (integer_literal default_location (codes "-7")))

literal-Ready : Ready no_float one_variable literal
unfolding Ready lookup copy atoi digits signed_int bytes_eq
literal-Ready = ((tt, (int (pos 10), int (pos 10), refl, refl)), (negsuc 6, refl))

visit_value-meaning_example :
    visit_value no_float (map_data one_variable (0 ∷ [])) literal
    ≡ ok (meaning no_float one_variable literal)
visit_value-meaning_example =
    visit_value-meaning no_float one_variable (0 ∷ []) one_variable-IsIndexed literal literal-Ready
