-- ===== src/Validation.antt =====
-- src/Validation.cpp and include/Validation.h: the types of a schema as the validation sees them, and
-- the errors that it collects.
pub mod VariableType
pub mod Values
pub mod InputValue
pub mod ArgumentVisitor
pub mod Scope
mod Examples
use cppgraphqlgen.Base.{
  ℕ, Bool, true, false, List, [], ◌∷◌, ◌++◌, Option, none, some, ◌≡◌, refl, if◌then◌else◌,
}
use cppgraphqlgen.Base.Text.{Bytes}
use cppgraphqlgen.Service.Errors.{SchemaLocation, SchemaError}

-- introspection::TypeKind
pub data TypeKind : Type 0 where
  scalar object interface union enum input_object list non_null : TypeKind

-- schema::BaseType: a type with a name, a wrapper, and a wrapper whose `_ofType` has expired. A
-- wrapper has an empty name, and a type with a name no `ofType`.
pub data SchemaType : Type 0 where
  named_type : TypeKind → Bytes → SchemaType
  wrapper_type : TypeKind → SchemaType → SchemaType
  expired_type : TypeKind → SchemaType

unfoldable pub kind_of : SchemaType → TypeKind
kind_of (named_type kind name) = kind
kind_of (wrapper_type kind of_type) = kind
kind_of (expired_type kind) = kind

unfoldable pub name_of : SchemaType → Bytes
name_of (named_type kind name) = name
name_of (wrapper_type kind of_type) = []
name_of (expired_type kind) = []

-- `getValidateType(type->get().ofType().lock())`
unfoldable pub of_type_of : SchemaType → Option SchemaType
of_type_of (named_type kind name) = none
of_type_of (wrapper_type kind of_type) = some of_type
of_type_of (expired_type kind) = none

abbrev pub kind_eq : TypeKind → TypeKind → Bool
kind_eq scalar scalar = true
kind_eq object object = true
kind_eq interface interface = true
kind_eq union union = true
kind_eq enum enum = true
kind_eq input_object input_object = true
kind_eq list list = true
kind_eq non_null non_null = true
kind_eq _ _ = false

unfoldable pub is_scalar_type : TypeKind → Bool
is_scalar_type object = false
is_scalar_type interface = false
is_scalar_type union = false
is_scalar_type _ = true

-- `_errors`, and what a check returns.
abbrev pub Checked : Type 0
Checked = List SchemaError × Bool

-- `_errors.push_back({ message, position })`
unfoldable pub push_error : Bytes → SchemaLocation → List SchemaError → List SchemaError
push_error message position errors =
    errors ++ (record { message = message; location = position; path = [] } ∷ [])

unfoldable pub reject : Bytes → SchemaLocation → List SchemaError → Checked
reject message position errors = (push_error message position errors, false)

abbrev pub accept : List SchemaError → Checked
accept errors = (errors, true)

-- A check that accepts leaves the errors as they are, and one that refuses adds one.
abbrev pub AddsError : List SchemaError → List SchemaError → Bool → Type 0
AddsError before after true = after ≡ before
AddsError before after false = (error : SchemaError) × (after ≡ before ++ (error ∷ []))

pub record Decides (errors : List SchemaError) (checked : Checked) : Type 0 where
  pub verdict : AddsError errors checked.0 checked.1

pub accept-Decides : (errors : List SchemaError) → Decides errors (accept errors)
accept-Decides errors = record { verdict = refl }

pub reject-Decides :
    (message : Bytes) (position : SchemaLocation) (errors : List SchemaError)
    → Decides errors (reject message position errors)
unfolding reject push_error
reject-Decides message position errors = record { verdict = (_, refl) }

pub if-Decides :
    (b : Bool) (errors : List SchemaError) {c c' : Checked}
    → Decides errors c
    → Decides errors c'
    → Decides errors (if b then c else c')
if-Decides true errors h k = h
if-Decides false errors h k = k
