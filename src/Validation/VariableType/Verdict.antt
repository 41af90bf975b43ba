-- ===== src/Validation/VariableType/Verdict.antt =====
-- validateVariableType, whatever the types are, (accept-Decides errors) without an error or refuses with one.
use cppgraphqlgen.Base.{Bool, true, false, List, Option, none, some}
use cppgraphqlgen.Base.Text.{Bytes, bytes_eq}
use cppgraphqlgen.Service.Errors.{SchemaLocation, SchemaError}
use cppgraphqlgen.Subscriptions.{is_empty}
use cppgraphqlgen.Validation.{
  TypeKind, scalar, enum, input_object, list, non_null, SchemaType, named_type, wrapper_type,
  expired_type, kind_of, name_of, of_type_of, kind_eq, Checked, Decides, accept-Decides,
  reject-Decides, if-Decides,
}
use cppgraphqlgen.Validation.VariableType.{
  compare_names, same_kind, unwrap_lists, list_variable, switch_kind, switch_input,
  nullable_variable, no_elements, check_variable, validate_variable_type,
}

module _ (p : SchemaLocation) (errors : List SchemaError) where
  compare_names-Decides : (v l : SchemaType) → Decides errors (compare_names v l p errors)
  unfolding compare_names
  compare_names-Decides v l = if-Decides (is_empty (name_of v)) errors (reject-Decides _ p errors) (
      if-Decides (is_empty (name_of l)) errors (reject-Decides _ p errors) (
        if-Decides (bytes_eq (name_of v) (name_of l)) errors (accept-Decides errors)
          (reject-Decides _ p errors)))

  same_kind-Decides :
      (expected : Bytes) (v l : SchemaType) → Decides errors (same_kind expected v l p errors)
  unfolding same_kind
  same_kind-Decides expected v l =
      if-Decides (kind_eq (kind_of v) (kind_of l)) errors (compare_names-Decides v l)
        (reject-Decides _ p errors)

  module _ (elements : SchemaType → List SchemaError → Checked)
      (decides : (t : SchemaType) → Decides errors (elements t errors)) where
    unwrap_lists-Decides :
        (v l : Option SchemaType) → Decides errors (unwrap_lists elements v l p errors)
    unfolding unwrap_lists
    unwrap_lists-Decides none l = reject-Decides _ p errors
    unwrap_lists-Decides (some v) none = reject-Decides _ p errors
    unwrap_lists-Decides (some v) (some l) = decides l

    switch_kind-Decides :
        (v : SchemaType) (d : Bool) (l : SchemaType) (k : TypeKind)
        → Decides errors (switch_kind elements v p d l errors k)
    unfolding switch_kind list_variable
    switch_kind-Decides v d l non_null =
        if-Decides d errors (reject-Decides _ p errors) (reject-Decides _ p errors)
    switch_kind-Decides v d l list =
        if-Decides (kind_eq (kind_of v) (kind_of l)) errors
          (unwrap_lists-Decides (of_type_of v) (of_type_of l)) (reject-Decides _ p errors)
    switch_kind-Decides v d l input_object = same_kind-Decides _ v l
    switch_kind-Decides v d l enum = same_kind-Decides _ v l
    switch_kind-Decides v d l scalar = same_kind-Decides _ v l
    switch_kind-Decides v d l _ = reject-Decides _ p errors

    switch_input-Decides :
        (v : SchemaType) (d : Bool) (l : SchemaType)
        → Decides errors (switch_input elements v p d l errors)
    unfolding switch_input
    switch_input-Decides v d (wrapper_type non_null l) =
        if-Decides d errors (switch_input-Decides v false l) (reject-Decides _ p errors)
    switch_input-Decides v d l = switch_kind-Decides v d l (kind_of l)

    nullable_variable-Decides :
        (v : SchemaType) (d : Bool) (l : Option SchemaType)
        → Decides errors (nullable_variable elements v p d l errors)
    unfolding nullable_variable
    nullable_variable-Decides v d none = reject-Decides _ p errors
    nullable_variable-Decides v d (some l) = switch_input-Decides v d l

  check_variable-Decides :
      (v : SchemaType) (d : Bool) (l : Option SchemaType)
      → Decides errors (check_variable v p d l errors)
  unfolding check_variable
  check_variable-Decides (wrapper_type non_null v) d l = check_variable-Decides v true l
  check_variable-Decides (wrapper_type k v) d l =
      nullable_variable-Decides (λ t. check_variable v p false (some t))
        (λ t. check_variable-Decides v false (some t)) (wrapper_type k v) d l
  check_variable-Decides (named_type k n) d l =
      if-Decides (kind_eq k non_null) errors (reject-Decides _ p errors)
        (nullable_variable-Decides no_elements (λ t. (accept-Decides errors)) (named_type k n) d l)
  check_variable-Decides (expired_type k) d l =
      if-Decides (kind_eq k non_null) errors (reject-Decides _ p errors)
        (nullable_variable-Decides no_elements (λ t. (accept-Decides errors)) (expired_type k) d l)

  -- Whatever the types are, also where one is missing, the check either (accept-Decides errors) and leaves the
  -- errors as they are, or refuses and adds one error.
  pub validate_variable_type-Decides :
      (d : Bool) (v l : Option SchemaType) → Decides errors (validate_variable_type d v p l errors)
  unfolding validate_variable_type
  validate_variable_type-Decides d none l = reject-Decides _ p errors
  validate_variable_type-Decides d (some v) l = check_variable-Decides v d l
