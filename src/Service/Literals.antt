-- ===== src/Service/Literals.antt =====
-- ValueVisitor and DirectiveVisitor::visit in src/GraphQLService.cpp: the value of a literal of a
-- query, and the directives of a field. A literal is the part of the syntax tree that the visitor
-- reads; the grammar lets no other node stand there. The text of a float is read by std::atof,
-- which is given, and that of an integer by std::atoi, whose behaviour is undefined for a number
-- that is no int.
pub mod Evaluated
use cppgraphqlgen.Base.{
  ℕ, zero, ◌+◌, ◌-◌, ◌*◌, ◌^◌, suc, Bool, true, false, ◌&&◌, List, [], ◌∷◌, ◌++◌, Option, none,
  some, ltb, leb, ◌==◌, if◌then◌else◌,
}
use cppgraphqlgen.Base.Text.{Bytes, codes}
use cppgraphqlgen.Base.Int.{ℤ, pos, negsuc}
use cppgraphqlgen.Base.Double.{Double}
use cppgraphqlgen.Base.Outcome.{Outcome, ok, throw, schema_exception_at, undefined_behaviour, ◌>>=◌}
use cppgraphqlgen.Response.{
  Value, map_type, list_type, enum_value_type, null_data, boolean, int, float, string_value,
  from_input, make_value,
}
use cppgraphqlgen.Response.Copy.{copy}
use cppgraphqlgen.Response.MapIndex.{find, member_at}
use cppgraphqlgen.Response.Modify.{set_string, emplace_back, emplace_back_item}
use cppgraphqlgen.Service.Directives.{Directives}
use cppgraphqlgen.Service.Errors.{SchemaLocation}
use cppgraphqlgen.Subscriptions.{is_empty}

-- Each node has its position. A variable has its name without the `$`, and a string its unescaped text.
mutual
  pub data Literal : Type 0 where
    variable_literal : SchemaLocation → Bytes → Literal
    integer_literal : SchemaLocation → Bytes → Literal
    float_literal : SchemaLocation → Bytes → Literal
    string_literal : SchemaLocation → Bytes → Literal
    boolean_literal : SchemaLocation → Bool → Literal
    null_literal : SchemaLocation → Literal
    enum_literal : SchemaLocation → Bytes → Literal
    list_literal : SchemaLocation → Literals → Literal
    object_literal : SchemaLocation → LiteralFields → Literal

  pub data Literals : Type 0 where
    no_literals : Literals
    push_literal : Literals → Literal → Literals

  pub data LiteralFields : Type 0 where
    empty_fields : LiteralFields
    push_field : LiteralFields → SchemaLocation → Bytes → Literal → LiteralFields

abbrev is_digit : ℕ → Bool
is_digit c = leb 48 c && leb c 57

-- The digits from the left up to the first other character.
unfoldable pub digits : ℕ → Bytes → ℕ
digits number [] = number
digits number (c ∷ text) =
    let rest = digits (number * 10 + (c - 48)) text in if is_digit c then rest else number

unfoldable pub signed_int : Bool → ℕ → Outcome ℤ
signed_int false number = if ltb number (2 ^ 31) then ok (pos number) else throw undefined_behaviour
signed_int true zero = ok (pos 0)
signed_int true (suc number) =
    if ltb number (2 ^ 31) then ok (negsuc number) else throw undefined_behaviour

unfoldable pub atoi : Bytes → Outcome ℤ
atoi [] = ok (pos 0)
atoi (c ∷ text) =
    if c == 45 then signed_int true (digits 0 text) else signed_int false (digits 0 (c ∷ text))

abbrev pub unknown_variable : SchemaLocation → Bytes → Outcome Value
unknown_variable position name =
    throw
      (schema_exception_at (codes "Unknown variable name: " ++ name) position.line position.column)

unfoldable pub visit_variable : Value → SchemaLocation → Bytes → Outcome Value
visit_variable variables position name = do
  found ← find name variables
  elim found [
    | none ↦ unknown_variable position name
    | some index ↦ do value ← member_at variables index; copy value
  ]

-- `emplace_back` for a map; what it returns is not read.
abbrev pub put_member : Bytes → Value → Value → Outcome Value
put_member name value this = do grown ← emplace_back name value this; ok grown.0

module _ (atof : Bytes → Double) (variables : Value) where
  unfoldable mutual
    pub visit_value : Literal → Outcome Value
    visit_value (variable_literal p name) = visit_variable variables p name
    visit_value (integer_literal p text) = do number ← atoi text; ok (int number)
    visit_value (float_literal p text) = ok (float (atof text))
    visit_value (string_literal p text) = ok (from_input (string_value text))
    visit_value (boolean_literal p value) = ok (boolean value)
    visit_value (null_literal p) = ok null_data
    visit_value (enum_literal p text) = set_string text (make_value enum_value_type)
    visit_value (list_literal p values) = visit_list values
    visit_value (object_literal p fields) = visit_fields fields

    -- The list after the values so far.
    pub visit_list : Literals → Outcome Value
    visit_list no_literals = ok (make_value list_type)
    visit_list (push_literal values value) = do
      this ← visit_list values
      item ← visit_value value
      emplace_back_item item this

    -- The map after the fields so far: a field whose name is there already is left out.
    pub visit_fields : LiteralFields → Outcome Value
    visit_fields empty_fields = ok (make_value map_type)
    visit_fields (push_field fields p name value) = do
      this ← visit_fields fields
      member ← visit_value value
      put_member name member this

  -- DirectiveVisitor::visit, for the names and the arguments of the directives.
  unfoldable pub visit_directives : List (Bytes × LiteralFields) → Outcome Directives
  visit_directives [] = ok []
  visit_directives (directive ∷ more) =
      let rest = visit_directives more in
      let first = visit_fields directive.1 in
      if is_empty directive.0
      then rest
      else (do arguments ← first; result ← rest; ok ((directive.0, arguments) ∷ result))
