-- ===== src/Service/Directives.antt =====
-- DirectiveVisitor::shouldSkip in src/GraphQLService.cpp: whether @skip or @include takes a field
-- out.
use cppgraphqlgen.Base.{
  Bool, true, false, not, ◌||◌, List, [], ◌∷◌, ◌++◌, Option, none, some, if◌then◌else◌,
}
use cppgraphqlgen.Base.Text.{Bytes, codes, bytes_eq}
use cppgraphqlgen.Base.Outcome.{Outcome, ok, throw, schema_exception, ◌>>=◌}
use cppgraphqlgen.Response.{
  Value, Members, no_members, push_member, ValueType, map_type, boolean_type, type_of,
}
use cppgraphqlgen.Response.Access.{get_map, get_boolean}

-- std::vector<std::pair<std::string_view, response::Value>>
abbrev pub Directives : Type 0
Directives = List (Bytes × Value)

-- The boolean says whether the directive skips where its argument is true.
abbrev pub skipped_directives : List (Bool × Bytes)
skipped_directives = (true, codes "skip") ∷ (false, codes "include") ∷ []

-- The arguments of the first directive with the name.
unfoldable pub find_directive : Bytes → Directives → Option Value
find_directive name [] = none
find_directive name (directive ∷ rest) =
    if bytes_eq directive.0 name then some directive.1 else find_directive name rest

abbrev pub is_boolean_type : ValueType → Bool
is_boolean_type boolean_type = true
is_boolean_type _ = false

abbrev pub invalid_arguments : Bytes → Bytes
invalid_arguments directive = codes "Invalid arguments to directive: " ++ directive

abbrev pub invalid_argument_of : Bytes → Bytes → Bytes
invalid_argument_of directive name =
    codes "Invalid argument to directive: " ++ directive ++ codes " name: " ++ name

abbrev pub missing_argument : Bytes → Bytes
missing_argument directive = codes "Missing argument directive: " ++ directive ++ codes " name: if"

-- One argument, with argumentTrue and argumentFalse so far.
unfoldable pub check_argument : Bytes → Bool × Bool → Bytes → Value → Outcome (Bool × Bool)
check_argument directive found name value =
    if found.0
      || found.1
      || not (is_boolean_type (type_of value))
      || not (bytes_eq name (codes "if"))
    then throw (schema_exception (invalid_argument_of directive name))
    else (do argument_true ← get_boolean value; ok (argument_true, not argument_true))

unfoldable pub check_arguments : Bytes → Members → Outcome (Bool × Bool)
check_arguments directive no_members = ok (false, false)
check_arguments directive (push_member arguments name value) = do
  found ← check_arguments directive arguments
  check_argument directive found name value

unfoldable pub skips_by : Bool → Bytes → Bool × Bool → Outcome Bool
skips_by skip directive found =
    if found.0
    then ok skip
    else if found.1
    then ok (not skip)
    else throw (schema_exception (missing_argument directive))

-- The body of the loop, for a directive that was found.
unfoldable pub evaluate_directive : Bool → Bytes → Value → Outcome Bool
evaluate_directive skip directive arguments = elim (type_of arguments) [
  | map_type ↦ do
    members ← get_map arguments
    found ← check_arguments directive members
    skips_by skip directive found
  | _ ↦ throw (schema_exception (invalid_arguments directive))
]

unfoldable pub should_skip_from : List (Bool × Bytes) → Directives → Outcome Bool
should_skip_from [] directives = ok false
should_skip_from ((skip, name) ∷ rest) directives = elim (find_directive name directives) [
  | none ↦ should_skip_from rest directives
  | some arguments ↦ evaluate_directive skip name arguments
]

unfoldable pub should_skip : Directives → Outcome Bool
should_skip directives = should_skip_from skipped_directives directives
