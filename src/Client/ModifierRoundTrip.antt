-- ===== src/Client/ModifierRoundTrip.antt =====
-- A variable that is serialized is parsed as the same value, through its modifiers.
use cppgraphqlgen.Base.{
  Bool, ◌||◌, if◌then◌else◌, true, false, List, [], ◌∷◌, map, none, some, ◌≡◌, ◌≢◌, refl, ◌∙◌, ap,
}
use cppgraphqlgen.Base.Outcome.{Outcome, ok, throw, logic_error, ◌>>=◌}
use cppgraphqlgen.Base.Text.{Bytes}
use cppgraphqlgen.Base.Int.{ℤ}
use cppgraphqlgen.Base.Double.{Double, double_of_int}
use cppgraphqlgen.IdType.{IdType, opaque_string}
use cppgraphqlgen.Response.Access.{get_int, get_float, get_boolean, maybe_id}
use cppgraphqlgen.Response.{
  int, float, string_data, boolean, id, resolve, Value, ValueType, null_data, list_data, no_items,
  make_value, type_of, null_type,
}
use cppgraphqlgen.Response.Copy.{unshare}
use cppgraphqlgen.Response.Modify.{release_list, release_string, release_id}
use cppgraphqlgen.Client.{transform, transform_list}
use cppgraphqlgen.Client.ServiceErrors.{append_each-transform}
use cppgraphqlgen.Client.Modifiers.{
  TypeModifier, none_modifier, nullable_modifier, list_modifier, Modified, serialize,
  parse_nullable, parse, parse_int, parse_float, parse_string, parse_boolean, parse_id,
}

abbrev pub StartsNullable : List TypeModifier → Type 0
StartsNullable (nullable_modifier ∷ other) = Unit
StartsNullable modifiers = ⊥

-- No nullable type is made nullable, which GraphQL has no types for.
abbrev pub IsGraphqlType : List TypeModifier → Type 0
IsGraphqlType [] = Unit
IsGraphqlType (none_modifier ∷ other) = Unit
IsGraphqlType (list_modifier ∷ other) = IsGraphqlType other
IsGraphqlType (nullable_modifier ∷ other) = (¬ StartsNullable other) × IsGraphqlType other

map-same : {A : Type 0} (xs : List A) → map (λ x. x) xs ≡ xs
map-same [] = refl
map-same (x ∷ xs) = ap (λ ys. x ∷ ys) (map-same xs)

parse_nullable-some :
    {A : Type 0} (t : ValueType) {parsed : Outcome A} {x : A}
    → t ≢ null_type
    → parsed ≡ ok x
    → parse_nullable t parsed ≡ ok (some x)
unfolding parse_nullable
parse_nullable-some null_type n e = absurd (n refl)
parse_nullable-some _ n e = rw e

module _ {A : Type 0} (variable : A → Value) (response : Value → Outcome A)
    (read_back : (x : A) → response (variable x) ≡ ok x)
    (not_null : (x : A) → type_of (variable x) ≢ null_type) where
  -- What is serialized, and that it is null only for a nullable type.
  serialized :
      (modifiers : List TypeModifier)
      → IsGraphqlType modifiers
      → (x : Modified A modifiers)
      → (v : Value) × (serialize variable modifiers x ≡ ok v)
        × (parse response modifiers v ≡ ok x)
        × (¬ StartsNullable modifiers → type_of v ≢ null_type)
  unfolding serialize parse parse_nullable transform_list transform make_value type_of release_list
      unshare
  serialized [] w x = (variable x, refl, read_back x, λ n. not_null x)
  serialized (none_modifier ∷ other) w x = (variable x, refl, read_back x, λ n. not_null x)
  serialized (nullable_modifier ∷ other) w none = (null_data, refl, refl, λ n. absurd (n tt))
  serialized (nullable_modifier ∷ other) w (some x) =
      let (v, written, read, n) = serialized other w.1 x in
      (v, written, parse_nullable-some (type_of v) (n w.0) read, λ m. absurd (m tt))
  serialized (list_modifier ∷ other) w xs =
      let (ys, written, read) =
        append_each-transform (serialize variable other) (parse response other) (λ x. x)
          (λ x. let (v, written, read, n) = serialized other w x in (v, written, read)) xs no_items
          [] refl in
      (list_data ys, written, read ∙ ap ok (map-same xs), λ n e. cc)

  -- If a value without modifiers is read back from what it is serialized as, and that is not null,
  -- then a value of any chain of modifiers, where no nullable type is made nullable, is serialized
  -- without an exception and parsed as the same value.
  pub parse-serialize :
      (modifiers : List TypeModifier)
      → IsGraphqlType modifiers
      → (x : Modified A modifiers)
      → (serialize variable modifiers x >>= parse response modifiers) ≡ ok x
  parse-serialize modifiers w x =
      let (v, written, read, n) = serialized modifiers w x in rw written read

-- A scalar is parsed from what its constructor makes of it; a float is also parsed from an int, an
-- identifier from a string that comes from JSON or from an input literal, but not from another.
pub parse-scalar :
    (i : ℤ) (d : Double) (s : Bytes) (b : Bool) (x : IdType) (json input : Bool)
    → (parse_int (int i) ≡ ok i)
      × (parse_float (float d) ≡ ok d)
      × (parse_float (int i) ≡ ok (double_of_int i))
      × (parse_string (string_data s json input) ≡ ok s)
      × (parse_boolean (boolean b) ≡ ok b)
      × (parse_id (id x) ≡ ok x)
      × (parse_id (string_data s json input)
          ≡ (if json || input then ok (opaque_string s) else throw (logic_error "not an ID")))
unfolding parse_int parse_float parse_string parse_boolean parse_id type_of get_int get_float
    get_boolean maybe_id release_string release_id unshare resolve
parse-scalar i d s b x true input = (refl, refl, refl, refl, refl, refl, refl)
parse-scalar i d s b x false true = (refl, refl, refl, refl, refl, refl, refl)
parse-scalar i d s b x false false = (refl, refl, refl, refl, refl, refl, refl)
