-- ===== src/Service/Literals/Evaluated.antt =====
-- What the value of a literal is.
use cppgraphqlgen.Base.{
  ℕ, true, false, List, [], map, Option, none, some, ◌≡◌, refl, ◌∙◌, ap, arith,
}
use cppgraphqlgen.Base.Text.{Bytes}
use cppgraphqlgen.Base.Int.{ℤ}
use cppgraphqlgen.Base.Double.{Double}
use cppgraphqlgen.Base.Outcome.{Outcome, ok, throw}
use cppgraphqlgen.Response.{
  Value, Members, Items, map_data, list_data, string_data, null_data, boolean, int, float,
  enum_data, no_members, no_items, push_item, from_input, make_value,
}
use cppgraphqlgen.Response.Copy.{copy, name_map, entry_index, unshare}
use cppgraphqlgen.Response.Vectors.{lookup}
use cppgraphqlgen.Response.MapIndex.{IsIndexed, subscript_name}
use cppgraphqlgen.Response.MapIndex.Find.{find-subscript}
use cppgraphqlgen.Response.MapIndex.Insert.{append_member, emplace_back-append}
use cppgraphqlgen.Response.Modify.{set_string, emplace_back_item}
use cppgraphqlgen.Service.Errors.{SchemaLocation}
use cppgraphqlgen.Service.Literals.{
  Literal, variable_literal, integer_literal, float_literal, string_literal, boolean_literal,
  null_literal, enum_literal, list_literal, object_literal, Literals, no_literals, push_literal,
  LiteralFields, empty_fields, push_field, atoi, visit_variable, visit_value, visit_list,
  visit_fields,
}

-- The value of a variable as it is copied, and null where there is none.
abbrev pub value_or_null : Outcome Value → Value
value_or_null (ok value) = value
value_or_null (throw exception) = null_data

abbrev pub copied_or_null : Option Value → Value
copied_or_null none = null_data
copied_or_null (some value) = value_or_null (copy value)

abbrev pub int_or_null : Outcome ℤ → Value
int_or_null (ok number) = int number
int_or_null (throw exception) = null_data

module _ (atof : Bytes → Double) (ms : Members) where
  -- The value that a literal stands for: the first field of a name in an object counts.
  unfoldable mutual
    pub meaning : Literal → Value
    meaning (variable_literal p name) = copied_or_null (lookup name ms)
    meaning (integer_literal p text) = int_or_null (atoi text)
    meaning (float_literal p text) = float (atof text)
    meaning (string_literal p text) = string_data text false true
    meaning (boolean_literal p value) = boolean value
    meaning (null_literal p) = null_data
    meaning (enum_literal p text) = enum_data text
    meaning (list_literal p values) = list_data (item_meanings values)
    meaning (object_literal p fields) =
        let members = member_meanings fields in
        map_data members (map entry_index (name_map members))

    pub item_meanings : Literals → Items
    item_meanings no_literals = no_items
    item_meanings (push_literal values value) = push_item (item_meanings values) (meaning value)

    pub member_meanings : LiteralFields → Members
    member_meanings empty_fields = no_members
    member_meanings (push_field fields p name value) =
        (append_member name (meaning value) (member_meanings fields)).0

  -- Each variable has a value that can be copied, and each integer is an int.
  unfoldable mutual
    pub Ready : Literal → Type 0
    Ready (variable_literal p name) =
        (value : Value) × (copied : Value) × (lookup name ms ≡ some value)
        × (copy value ≡ ok copied)
    Ready (integer_literal p text) = (number : ℤ) × (atoi text ≡ ok number)
    Ready (list_literal p values) = AllReady values
    Ready (object_literal p fields) = FieldsReady fields
    Ready _ = Unit

    pub AllReady : Literals → Type 0
    AllReady no_literals = Unit
    AllReady (push_literal values value) = AllReady values × Ready value

    pub FieldsReady : LiteralFields → Type 0
    FieldsReady empty_fields = Unit
    FieldsReady (push_field fields p name value) = FieldsReady fields × Ready value

  module _ (members : List ℕ) (indexed : IsIndexed ms members) where
    variable-meaning :
        (position : SchemaLocation) (name : Bytes) (value copied : Value)
        → lookup name ms ≡ some value
        → copy value ≡ ok copied
        → visit_variable (map_data ms members) position name ≡ ok copied
    unfolding visit_variable subscript_name
    variable-meaning position name value copied e c =
        let (found, read) = find-subscript ms members name indexed in ground (arith, found, read)

    mutual
      unfolding visit_value meaning Ready from_input make_value set_string unshare emplace_back_item
          name_map

      value-meaning :
          (l : Literal) → Ready l → visit_value atof (map_data ms members) l ≡ ok (meaning l)
      value-meaning (variable_literal p name) (value, copied, e, c) =
          variable-meaning p name value copied e c ∙ rw (e, c) refl
      value-meaning (integer_literal p text) (number, e) = rw e refl
      value-meaning (float_literal p text) h = refl
      value-meaning (string_literal p text) h = refl
      value-meaning (boolean_literal p b) h = refl
      value-meaning (null_literal p) h = refl
      value-meaning (enum_literal p text) h = refl
      value-meaning (list_literal p values) h = list-meaning values h
      value-meaning (object_literal p fields) h =
          let (members', done, k) = fields-meaning fields h in
          done ∙ ap (λ m. ok (map_data (member_meanings fields) m)) k.sorted

      list-meaning :
          (ls : Literals)
          → AllReady ls
          → visit_list atof (map_data ms members) ls ≡ ok (list_data (item_meanings ls))
      list-meaning no_literals h = refl
      list-meaning (push_literal ls l) h = rw (list-meaning ls h.0, value-meaning l h.1) refl

      fields-meaning :
          (fs : LiteralFields)
          → FieldsReady fs
          → (members' : List ℕ) × (visit_fields atof (map_data ms members) fs
              ≡ ok (map_data (member_meanings fs) members'))
            × IsIndexed (member_meanings fs) members'
      fields-meaning empty_fields h = ([], refl, record { distinct = tt; sorted = refl })
      fields-meaning (push_field fs p name l) h =
          let (members', done, k) = fields-meaning fs h.0 in
          let (members'', grown, k') =
            emplace_back-append name (meaning l) (member_meanings fs) members' k in
          (members'', rw (done, value-meaning l h.1, grown) refl, k')

    -- With the variables in a map that keeps its invariant, each variable of the literal bound to a
    -- value that can be copied, and each integer in 32 bits, the visitor never throws, and returns
    -- the value that the literal stands for: of the fields of an object with one name the first
    -- counts.
    pub visit_value-meaning :
        (literal : Literal)
        → Ready literal
        → visit_value atof (map_data ms members) literal ≡ ok (meaning literal)
    visit_value-meaning = value-meaning
