-- ===== src/Validation/InputValue/Verdict.antt =====
-- validateInputValue, whatever the value and the schema are, accepts without an error or refuses
-- with one.
use cppgraphqlgen.Base.{
  Bool, true, false, not, ◌&&◌, ◌||◌, List, [], ◌∷◌, Option, none, some, if◌then◌else◌, refl, ◌∙◌,
  Option-cases, inl, inr,
}
use cppgraphqlgen.Base.Text.{Bytes}
use cppgraphqlgen.Base.EqualRange.{is_none}
use cppgraphqlgen.Service.Errors.{SchemaLocation}
use cppgraphqlgen.SortedMap.{find, shorter_or_less, set_find}
use cppgraphqlgen.Subscriptions.{is_empty}
use cppgraphqlgen.Validation.{
  TypeKind, scalar, enum, input_object, list, non_null, SchemaType, wrapper_type, kind_of, name_of,
  of_type_of, kind_eq, push_error, AddsError,
}
use cppgraphqlgen.Validation.VariableType.Verdict.{validate_variable_type-Decides}
use cppgraphqlgen.Validation.Values.{
  ArgumentPtr, null_at, value_at, ArgumentValue, variable_value, list_value, map_value,
  ArgumentList, no_values, add_value, ArgumentMap, no_entries, add_entry, position_of, has_value,
  Fields, Environment, get_input_type_fields,
}
use cppgraphqlgen.Validation.InputValue.{
  State, Step, refuse, pass, is_list, is_map, variable_in, under_non_null, enum_value_of,
  is_enum_value, check_enum, check_builtin, check_scalar, sub_fields, check_required, check_list,
  check_input_object, check_kind, switch_value, validate_variable, validate_null, no_elements,
  no_fields, checked_entry, validate_input_value, validate_value, validate_list, validate_fields,
}

-- The step accepts in the state without an error, or refuses with one.
pub record Settles (state : State) (result : State × Bool) : Type 0 where
  pub settled : AddsError state.errors result.0.errors result.1

refuse-Settles : (message : Bytes) (p : SchemaLocation) (s : State) → Settles s (refuse message p s)
unfolding refuse push_error
refuse-Settles message p s = record { settled = (_, refl) }

if-Settles :
    (b : Bool) (s : State) {r r' : State × Bool}
    → Settles s r
    → Settles s r'
    → Settles s (if b then r else r')
if-Settles true s h k = h
if-Settles false s h k = k

-- A step after a step, which is left out where the first refuses.
both-Settles :
    (s s' : State) (b : Bool) (rest : State × Bool)
    → AddsError s.errors s'.errors b
    → Settles s' rest
    → Settles s (if b then rest else (s', false))
both-Settles s s' false rest h k = record { settled = h }
both-Settles s s' true (s'', true) h k = record { settled = k.settled ∙ h }
both-Settles s s' true (s'', false) h k = record { settled = (k.settled.0, rw h at k.settled.1) }

variable_in-Settles :
    (variables : Fields) (d : Bool) (n : Bytes) (p : SchemaLocation) (t : SchemaType) (s : State)
    → Settles s (variable_in variables d n p t s)
unfolding variable_in
variable_in-Settles variables d n p t s = elim (Option-cases (find shorter_or_less n variables)) [
  | inl e ↦ rw (e, variable_in) (refuse-Settles _ p s)
  | inr (entry, e) ↦
      rw (e, variable_in)
        (record {
          settled =
              (validate_variable_type-Decides p s.errors (d || entry.1.non_null_default_value)
                entry.1.argument_type (some t)).verdict;
        })
]

under_non_null-Settles :
    (check : SchemaType → Step) (p : SchemaLocation)
    → ((t : SchemaType) (s : State) → Settles s (check t s))
    → (t : SchemaType) (s : State) → Settles s (under_non_null check p t s)
unfolding under_non_null
under_non_null-Settles check p h (wrapper_type non_null t) s = under_non_null-Settles check p h t s
under_non_null-Settles check p h t s =
    if-Settles (kind_eq (kind_of t) non_null) s (refuse-Settles _ p s) (h t s)

option-Settles {ℓ} :
    {A : Type ℓ} (o : Option A) (s : State) (r : State × Bool) (f : A → State × Bool)
    → Settles s r
    → ((a : A) → Settles s (f a))
    → Settles s (elim o [ none ↦ r | some a ↦ f a ])
option-Settles none s r f h k = h
option-Settles (some a) s r f h k = k a

pass-Settles : (s : State) → Settles s (pass s)
pass-Settles s = record { settled = refl }

check_enum-Settles :
    (env : Environment) (v : ArgumentValue) (n : Bytes) (p : SchemaLocation) (s : State)
    → Settles s (check_enum env v n p s)
unfolding check_enum
check_enum-Settles env v n p s = if-Settles (is_empty n) s (refuse-Settles _ p s) (
    option-Settles (enum_value_of v) s _ _ (refuse-Settles _ p s)
      (λ text. if-Settles (is_enum_value env n text) s (pass-Settles s) (refuse-Settles _ p s)))

check_scalar-Settles :
    (env : Environment) (v : ArgumentValue) (n : Bytes) (p : SchemaLocation) (s : State)
    → Settles s (check_scalar env v n p s)
unfolding check_scalar
check_scalar-Settles env v n p s = if-Settles (is_empty n) s (refuse-Settles _ p s) (
    option-Settles (check_builtin v n) s _ _
      (if-Settles (is_none (set_find shorter_or_less n env.scalar_types)) s (refuse-Settles _ p s)
        (pass-Settles s))
      (λ message. refuse-Settles message p s))

check_required-Settles :
    (n : Bytes) (p : SchemaLocation) (names : List Bytes) (fields : Fields) (s : State)
    → Settles s (check_required n p names fields s)
unfolding check_required
check_required-Settles n p names [] s = pass-Settles s
check_required-Settles n p names (f ∷ fields) s =
    let rest = check_required-Settles n p names fields s in
    if-Settles (f.1.default_value || not (is_none (set_find shorter_or_less f.0 names))) s rest (
      option-Settles f.1.argument_type s _ _ (refuse-Settles _ p s)
        (λ t. if-Settles (kind_eq (kind_of t) non_null) s (refuse-Settles _ p s) rest))

module _ (env : Environment) (elements : SchemaType → Step) (entries : Bytes → Fields → Step)
    (h : (t : SchemaType) (s : State) → Settles s (elements t s))
    (k : (n : Bytes) (fields : Fields) (s : State) → Settles s (entries n fields s)) where
  check_kind-Settles :
      (v : ArgumentValue) (p : SchemaLocation) (t : SchemaType) (kind : TypeKind) (s : State)
      → Settles s (check_kind env elements entries v p t kind s)
  unfolding check_kind check_list check_input_object
  check_kind-Settles v p t list s =
      if-Settles (is_list v) s
        (option-Settles (of_type_of t) s _ _ (refuse-Settles _ p s) (λ of_type. h of_type s))
        (refuse-Settles _ p s)
  check_kind-Settles v p t input_object s =
      if-Settles (is_empty (name_of t)) s (refuse-Settles _ p s) (
        if-Settles (is_map v) s
          (option-Settles (get_input_type_fields env (name_of t)) s _ _ (refuse-Settles _ p s)
            (λ fields. k (name_of t) fields s))
          (refuse-Settles _ p s))
  check_kind-Settles v p t enum s = check_enum-Settles env v (name_of t) p s
  check_kind-Settles v p t scalar s = check_scalar-Settles env v (name_of t) p s
  check_kind-Settles v p t _ s = refuse-Settles _ p s

  switch_value-Settles :
      (v : ArgumentValue) (p : SchemaLocation) (t : SchemaType) (s : State)
      → Settles s (switch_value env elements entries v p t s)
  unfolding switch_value
  switch_value-Settles v p =
      under_non_null-Settles (λ t. check_kind env elements entries v p t (kind_of t)) p
        (λ t. check_kind-Settles v p t (kind_of t))

module _ (env : Environment) where
  variable-Settles :
      (d : Bool) (n : Bytes) (p : SchemaLocation) (t : SchemaType) (s : State)
      → Settles s (validate_variable env d n p t s)
  unfolding validate_variable
  variable-Settles d n p t s =
      option-Settles env.operation_variables s _ _ (pass-Settles s)
        (λ variables. variable_in-Settles variables d n p t s)

  mutual
    unfolding validate_input_value validate_null checked_entry

    input_value-Settles :
        (d : Bool) (a : ArgumentPtr) (t : Option SchemaType) (s : State)
        → Settles s (validate_input_value env d a t s)
    input_value-Settles d a none s = refuse-Settles _ (position_of a) s
    input_value-Settles d (null_at p) (some t) s =
        if-Settles (kind_eq (kind_of t) non_null && not d) s (refuse-Settles _ p s) (pass-Settles s)
    input_value-Settles d (value_at p v) (some t) s = value-Settles d v p t s

    value-Settles :
        (d : Bool) (v : ArgumentValue) (p : SchemaLocation) (t : SchemaType) (s : State)
        → Settles s (validate_value env d v p t s)
    value-Settles d (variable_value n) p t s = variable-Settles d n p t s
    value-Settles d (list_value xs) p t s =
        switch_value-Settles env (λ e. validate_list env xs e) no_fields (list-Settles xs)
          (λ n fields s. pass-Settles s) (list_value xs) p t s
    value-Settles d (map_value m) p t s =
        switch_value-Settles env no_elements (λ n fields. validate_fields env m m n p fields)
          (λ e s. pass-Settles s) (λ n fields s. fields-Settles m m n p fields s) (map_value m) p t
          s
    value-Settles d v p t s =
        switch_value-Settles env no_elements no_fields (λ e s. pass-Settles s)
          (λ n fields s. pass-Settles s) v p t s

    list-Settles :
        (xs : ArgumentList) (t : SchemaType) (s : State) → Settles s (validate_list env xs t s)
    list-Settles no_values t s = pass-Settles s
    list-Settles (add_value x xs) t s =
        let first = validate_input_value env false x (some t) s in
        both-Settles s first.0 first.1 (validate_list env xs t first.0)
          (input_value-Settles false x (some t) s).settled (list-Settles xs t first.0)

    fields-Settles :
        (m all : ArgumentMap) (n : Bytes) (p : SchemaLocation) (fields : Fields) (s : State)
        → Settles s (validate_fields env m all n p fields s)
    fields-Settles no_entries all n p fields s =
        check_required-Settles n p (sub_fields all []) fields s
    fields-Settles (add_entry x v m) all n p fields s =
        option-Settles (find shorter_or_less x fields) s _ _ (refuse-Settles _ (position_of v) s)
          (λ f.
            let checked =
              checked_entry f.1 v
                (validate_input_value env f.1.non_null_default_value v f.1.argument_type) s in
            both-Settles s checked.0 checked.1 (validate_fields env m all n p fields checked.0)
              (if-Settles (has_value v || not f.1.default_value) s
                (input_value-Settles f.1.non_null_default_value v f.1.argument_type s)
                (pass-Settles s)).settled
              (fields-Settles m all n p fields checked.0))

  -- Whatever the value, the type, the schema and the variables are, validateInputValue either
  -- accepts and leaves the errors as they are, or refuses and adds exactly one error.
  pub validate_input_value-Settles :
      (has_default : Bool) (argument : ArgumentPtr) (type : Option SchemaType) (state : State)
      → Settles state (validate_input_value env has_default argument type state)
  validate_input_value-Settles = input_value-Settles
