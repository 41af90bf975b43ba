-- ===== src/Validation/VariableType/Decision.antt =====
-- validateVariableType decides what the specification calls an allowed variable usage
-- (https://spec.graphql.org/October2021/#sec-All-Variable-Usages-are-Allowed).
use cppgraphqlgen.Base.{Bool, true, false, not, ◌&&◌, List, some, ◌≡◌, refl, arith, if◌then◌else◌}
use cppgraphqlgen.Base.Text.{Bytes, bytes_eq}
use cppgraphqlgen.Service.Errors.{SchemaLocation, SchemaError}
use cppgraphqlgen.Subscriptions.{is_empty}
use cppgraphqlgen.Validation.{
  TypeKind, scalar, enum, input_object, list, non_null, SchemaType, named_type, wrapper_type,
  expired_type, kind_of, name_of, of_type_of, kind_eq, Checked, reject,
}
use cppgraphqlgen.Validation.VariableType.{
  compare_names, same_kind, list_variable, unwrap_lists, switch_kind, switch_input,
  nullable_variable, no_elements, check_variable, validate_variable_type,
}

abbrev is_input_kind : TypeKind → Bool
is_input_kind scalar = true
is_input_kind enum = true
is_input_kind input_object = true
is_input_kind _ = false

abbrev is_non_null_type : SchemaType → Bool
is_non_null_type (wrapper_type non_null of_type) = true
is_non_null_type _ = false

-- The types that a complete schema has for inputs: scalars, enums and input objects with names, and
-- wrappers of them, where a non-null type is not wrapped as non-null again.
unfoldable pub is_input_type : SchemaType → Bool
is_input_type (named_type kind name) = is_input_kind kind && not (is_empty name)
is_input_type (wrapper_type list of_type) = is_input_type of_type
is_input_type (wrapper_type non_null of_type) =
    not (is_non_null_type of_type) && is_input_type of_type
is_input_type _ = false

-- AreTypesCompatible of the specification.
unfoldable pub types_compatible : SchemaType → SchemaType → Bool
types_compatible (wrapper_type non_null variable) (wrapper_type non_null location) =
    types_compatible variable location
types_compatible (wrapper_type non_null variable) location = types_compatible variable location
types_compatible variable (wrapper_type non_null location) = false
types_compatible (wrapper_type list variable) (wrapper_type list location) =
    types_compatible variable location
types_compatible (named_type kind name) (named_type kind' name') =
    kind_eq kind kind' && bytes_eq name name'
types_compatible _ _ = false

-- IsVariableUsageAllowed of the specification, where `has_default` says whether the variable or the
-- location has a default value that is not null.
unfoldable pub usage_allowed : Bool → SchemaType → SchemaType → Bool
usage_allowed has_default variable (wrapper_type non_null location) =
    if is_non_null_type variable
    then types_compatible variable (wrapper_type non_null location)
    else has_default && types_compatible variable location
usage_allowed has_default variable location = types_compatible variable location

usage_allowed-true :
    (d : Bool) (v l : SchemaType)
    → is_non_null_type v ≡ false
    → usage_allowed true v l ≡ usage_allowed d (wrapper_type non_null v) l
unfolding usage_allowed types_compatible
usage_allowed-true d v (named_type k n) h = refl
usage_allowed-true d v (expired_type k) h = refl
usage_allowed-true d v (wrapper_type k l) h = ground arith

usage_allowed-false : (v l : SchemaType) → usage_allowed false v l ≡ types_compatible v l
unfolding usage_allowed types_compatible
usage_allowed-false v (named_type k n) = refl
usage_allowed-false v (expired_type k) = refl
usage_allowed-false (named_type k' n) (wrapper_type k l) = ground arith
usage_allowed-false (expired_type k') (wrapper_type k l) = ground arith
usage_allowed-false (wrapper_type k' v) (wrapper_type k l) = ground arith

module _ (p : SchemaLocation) (errors : List SchemaError) where
  switch_input-named :
      (elements : SchemaType → List SchemaError → Checked) (k : TypeKind) (n : Bytes) (d : Bool)
      (l : SchemaType)
      → is_input_type (named_type k n) ≡ true
      → is_input_type l ≡ true
      → (switch_input elements (named_type k n) p d l errors).1 ≡ usage_allowed d (named_type k n) l
  unfolding is_input_type switch_input switch_kind unwrap_lists same_kind compare_names
      list_variable reject kind_of name_of usage_allowed types_compatible
  switch_input-named elements k n d (named_type k' n') hv hl = ground arith
  switch_input-named elements k n d (expired_type k') hv hl = ground arith
  switch_input-named elements k n d (wrapper_type k' l) hv hl =
      ground
        (arith, switch_input-named elements k n false l hv, usage_allowed-false (named_type k n) l)

  switch_input-list :
      (elements : SchemaType → List SchemaError → Checked) (v : SchemaType)
      → ((t : SchemaType)
          → is_input_type t ≡ true
          → (elements t errors).1 ≡ usage_allowed false v t)
      → (d : Bool) (l : SchemaType) → is_input_type l ≡ true
      → (switch_input elements (wrapper_type list v) p d l errors).1
        ≡ usage_allowed d (wrapper_type list v) l
  unfolding is_input_type switch_input switch_kind unwrap_lists same_kind compare_names
      list_variable reject kind_of name_of of_type_of usage_allowed types_compatible
  switch_input-list elements v h d (named_type k' n') hl = ground arith
  switch_input-list elements v h d (expired_type k') hl = ground arith
  switch_input-list elements v h d (wrapper_type k' l) hl = ground (
    arith,
    h l,
    switch_input-list elements v h false l,
    usage_allowed-false (wrapper_type list v) l,
    usage_allowed-false v l,
  )

  check_variable-usage_allowed :
      (d : Bool) (v l : SchemaType)
      → is_input_type v ≡ true
      → is_input_type l ≡ true
      → (check_variable v p d (some l) errors).1 ≡ usage_allowed d v l
  unfolding is_input_type check_variable nullable_variable kind_of
  check_variable-usage_allowed d (named_type k n) l hv hl =
      ground (arith, switch_input-named no_elements k n d l hv hl)
  check_variable-usage_allowed d (expired_type k) l hv hl = ground arith
  check_variable-usage_allowed d (wrapper_type list v) l hv hl =
      switch_input-list (λ input. check_variable v p false (some input)) v
        (λ t ht. check_variable-usage_allowed false v t hv ht) d l hl
  check_variable-usage_allowed d (wrapper_type non_null v) l hv hl =
      ground (arith, check_variable-usage_allowed true v l, usage_allowed-true d v l)
  check_variable-usage_allowed d (wrapper_type k v) l hv hl = cc

  -- For types of a complete schema, the check accepts exactly the usages that the specification
  -- allows.
  pub validate_variable_type-usage_allowed :
      (has_default : Bool) (variable location : SchemaType)
      → is_input_type variable ≡ true
      → is_input_type location ≡ true
      → (validate_variable_type has_default (some variable) p (some location) errors).1
        ≡ usage_allowed has_default variable location
  unfolding validate_variable_type
  validate_variable_type-usage_allowed d v l hv hl = check_variable-usage_allowed d v l hv hl
