-- ===== src/Response/SetGet.antt =====
-- What `get` reads after `set`.
use cppgraphqlgen.Base.{refl, Bool, ◌≡◌, arith}
use cppgraphqlgen.Base.Text.{Bytes}
use cppgraphqlgen.Base.Int.{ℤ}
use cppgraphqlgen.Base.Double.{Double, double_of_int}
use cppgraphqlgen.Base.Outcome.{Outcome, ok, throw, ◌>>=◌, >>=-eq-ok}
use cppgraphqlgen.IdType.{IdType, get_opaque_string}
use cppgraphqlgen.Response.{Value, resolve}
use cppgraphqlgen.Response.Copy.{unshare}
use cppgraphqlgen.Response.Access.{get_string, get_boolean, get_float, get_scalar, get_id}
use cppgraphqlgen.Response.Modify.{set_string, set_boolean, set_int, set_float, set_scalar, set_id}

get_string-set :
    (value : Bytes) (this w : Value) → set_string value this ≡ ok w → get_string w ≡ ok value
unfolding set_string get_string resolve get_opaque_string
get_string-set value this w h = let (v, e, r) = >>=-eq-ok (unshare this) _ h in ground (arith, r)

get_boolean-set :
    (value : Bool) (this w : Value) → set_boolean value this ≡ ok w → get_boolean w ≡ ok value
unfolding set_boolean get_boolean resolve
get_boolean-set value this w h = let (v, e, r) = >>=-eq-ok (unshare this) _ h in ground (arith, r)

get_float-set_int :
    (value : ℤ) (this w : Value)
    → set_int value this ≡ ok w
    → get_float w ≡ ok (double_of_int value)
unfolding set_int get_float resolve
get_float-set_int value this w h = let (v, e, r) = >>=-eq-ok (unshare this) _ h in ground (arith, r)

get_float-set :
    (value : Double) (this w : Value) → set_float value this ≡ ok w → get_float w ≡ ok value
unfolding set_float get_float resolve
get_float-set value this w h = let (v, e, r) = >>=-eq-ok (unshare this) _ h in ground (arith, r)

get_scalar-set :
    (value : Value) (this w : Value) → set_scalar value this ≡ ok w → get_scalar w ≡ ok value
unfolding set_scalar get_scalar resolve
get_scalar-set value this w h = let (v, e, r) = >>=-eq-ok (unshare this) _ h in ground (arith, r)

get_id-set : (value : IdType) (this w : Value) → set_id value this ≡ ok w → get_id w ≡ ok value
unfolding set_id get_id resolve
get_id-set value this w h = let (v, e, r) = >>=-eq-ok (unshare this) _ h in ground (arith, r)

set_then :
    {A : Type 0} (m : Outcome Value) (get : Value → Outcome A) (a : A)
    → ((w : Value) → m ≡ ok w → get w ≡ ok a)
    → (m >>= get) ≡ (m >>= λ w. ok a)
set_then (ok w) get a h = h w refl
set_then (throw e) get a h = refl

-- `get` after `set` of the same type reads the value that was set, or throws what `set` throws; an
-- int is read as the double that it is, since it may be set on a Float.
pub get-set :
    (s : Bytes) (b : Bool) (i : ℤ) (d : Double) (inner : Value) (x : IdType) (this : Value)
    → ((set_string s this >>= get_string) ≡ (set_string s this >>= λ w. ok s))
      × ((set_boolean b this >>= get_boolean) ≡ (set_boolean b this >>= λ w. ok b))
      × ((set_int i this >>= get_float) ≡ (set_int i this >>= λ w. ok (double_of_int i)))
      × ((set_float d this >>= get_float) ≡ (set_float d this >>= λ w. ok d))
      × ((set_scalar inner this >>= get_scalar) ≡ (set_scalar inner this >>= λ w. ok inner))
      × ((set_id x this >>= get_id) ≡ (set_id x this >>= λ w. ok x))
get-set s b i d inner x this = (
  set_then (set_string s this) get_string s (get_string-set s this),
  set_then (set_boolean b this) get_boolean b (get_boolean-set b this),
  set_then (set_int i this) get_float (double_of_int i) (get_float-set_int i this),
  set_then (set_float d this) get_float d (get_float-set d this),
  set_then (set_scalar inner this) get_scalar inner (get_scalar-set inner this),
  set_then (set_id x this) get_id x (get_id-set x this),
)
