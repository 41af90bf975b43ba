-- ===== src/Response/Equality/Strings.antt =====
-- The comparison of identifiers with strings, which depends on the side.
use cppgraphqlgen.Base.{Bool, true, false, if◌then◌else◌, ◌||◌, ◌≡◌, ◌≢◌, refl}
use cppgraphqlgen.Base.Text.{Bytes}
use cppgraphqlgen.Base.Outcome.{ok, throw, terminated}
use cppgraphqlgen.IdType.{IdType, opaque_string, id_eq}
use cppgraphqlgen.IdType.Equality.{id_eq_bytes-string}
use cppgraphqlgen.Response.{Value, id, id_type, string_data, type_of, shared_data, resolve}
use cppgraphqlgen.Response.Equality.{value_eq, string_eq, identifier_eq}

-- An identifier on the left of any value that is not an identifier ends the program.
pub value_eq-id_terminated :
    (x : IdType) (w : Value) → type_of w ≢ id_type → value_eq (id x) w ≡ throw terminated
unfolding value_eq resolve identifier_eq type_of
value_eq-id_terminated x (shared_data w) h = value_eq-id_terminated x w h
value_eq-id_terminated x (id y) h = absurd (h refl)
value_eq-id_terminated x _ h = refl

-- A string on the left of an identifier is compared as an identifier of that text, if it comes from
-- JSON or from an input literal, and is unequal otherwise.
pub value_eq-string_id :
    (s : Bytes) (json input : Bool) (x : IdType)
    → value_eq (string_data s json input) (id x)
      ≡ (if json || input then id_eq x (opaque_string s) else ok false)
unfolding value_eq resolve string_eq
value_eq-string_id s true input x = rw ((id_eq_bytes-string x s).1)
value_eq-string_id s false true x = rw ((id_eq_bytes-string x s).1)
value_eq-string_id s false false x = refl
