-- ===== src/Response/Equality.antt =====
-- Value::operator==, which is noexcept: where std::get fails in it the program ends.
pub mod Reflexive
pub mod Strings
use cppgraphqlgen.Base.{ℕ, Bool, true, false, ◌&&◌, ◌||◌, ◌==◌, if◌then◌else◌}
use cppgraphqlgen.Base.Text.{Bytes, bytes_eq}
use cppgraphqlgen.Base.Int.{int_eq}
use cppgraphqlgen.Base.Double.{double_eq}
use cppgraphqlgen.Base.Outcome.{Outcome, ok, throw, terminated, ◌>>=◌}
use cppgraphqlgen.IdType.{IdType, id_eq, id_eq_string}
use cppgraphqlgen.Response.{
  Value, Members, Items, map_data, list_data, string_data, null_data, boolean, int, float,
  enum_data, id, scalar_data, null_scalar, shared_data, no_members, push_member, no_items,
  push_item, resolve,
}
use cppgraphqlgen.Response.Vectors.{count, count_items}

abbrev bool_eq : Bool → Bool → Bool
bool_eq true b = b
bool_eq false true = false
bool_eq false false = true

-- The second comparison is made only if the first succeeds.
abbrev and_then : Outcome Bool → Outcome Bool → Outcome Bool
and_then (ok true) next = next
and_then (ok false) next = ok false
and_then (throw e) next = throw e

-- StringData::operator==
abbrev pub string_data_eq : Bytes → Bool → Bool → Bytes → Bool → Bool → Bool
string_data_eq s json input t json' input' =
    bool_eq (json || input) (json' || input') && bytes_eq s t

-- A string on the left, against what data() of the right side is.
unfoldable pub string_eq : Bytes → Bool → Bool → Value → Outcome Bool
string_eq s json input (string_data t json' input') =
    ok (string_data_eq s json input t json' input')
string_eq s json input (enum_data t) = ok (if json then bytes_eq s t else false)
string_eq s json input (id x) = if json || input then id_eq_string x s else ok false
string_eq s json input _ = ok false

unfoldable pub enum_eq : Bytes → Value → Outcome Bool
enum_eq s (enum_data t) = ok (bytes_eq s t)
enum_eq s (string_data t json input) = ok (if json then bytes_eq s t else false)
enum_eq s _ = ok false

-- An identifier on the left: the case of different types begins with std::get<IdType>(rhsData).
unfoldable pub identifier_eq : IdType → Value → Outcome Bool
identifier_eq x (id y) = id_eq x y
identifier_eq x _ = throw terminated

-- Vectors are equal if they have the same size and equal elements, compared from the front.
unfoldable mutual
  pub value_eq : Value → Value → Outcome Bool
  value_eq (shared_data v) rhs = value_eq v rhs
  value_eq (map_data ms members) rhs = elim (resolve rhs) [
    | map_data ns members' ↦
        let same = members_eq ms ns in if count ms == count ns then same else ok false
    | _ ↦ ok false
  ]
  value_eq (list_data xs) rhs = elim (resolve rhs) [
    | list_data ys ↦
        let same = items_eq xs ys in if count_items xs == count_items ys then same else ok false
    | _ ↦ ok false
  ]
  value_eq (string_data s json input) rhs = string_eq s json input (resolve rhs)
  value_eq null_data rhs = elim (resolve rhs) [ null_data ↦ ok true | _ ↦ ok false ]
  value_eq (boolean a) rhs = elim (resolve rhs) [ boolean b ↦ ok (bool_eq a b) | _ ↦ ok false ]
  value_eq (int a) rhs = elim (resolve rhs) [ int b ↦ ok (int_eq a b) | _ ↦ ok false ]
  value_eq (float a) rhs = elim (resolve rhs) [ float b ↦ ok (double_eq a b) | _ ↦ ok false ]
  value_eq (enum_data s) rhs = enum_eq s (resolve rhs)
  value_eq (id x) rhs = identifier_eq x (resolve rhs)
  value_eq (scalar_data v) rhs = elim (resolve rhs) [ scalar_data w ↦ value_eq v w | _ ↦ ok false ]
  value_eq null_scalar rhs = elim (resolve rhs) [ null_scalar ↦ ok true | _ ↦ ok false ]

  pub members_eq : Members → Members → Outcome Bool
  members_eq no_members no_members = ok true
  members_eq (push_member ms k v) (push_member ns j w) =
      and_then (members_eq ms ns) (and_then (ok (bytes_eq k j)) (value_eq v w))
  members_eq _ _ = ok false

  pub items_eq : Items → Items → Outcome Bool
  items_eq no_items no_items = ok true
  items_eq (push_item xs v) (push_item ys w) = and_then (items_eq xs ys) (value_eq v w)
  items_eq _ _ = ok false
