-- ===== src/Response/Equality/Reflexive.antt =====
-- operator== sees through sharing, and a value without NaN equals itself.
use cppgraphqlgen.Base.{ℕ, Bool, true, false, ◌≡◌, refl, ◌∙◌, sym, arith, ◌==◌}
use cppgraphqlgen.Base.Text.{bytes_eq_refl}
use cppgraphqlgen.Base.Int.{int_eq_iff}
use cppgraphqlgen.Base.Double.{double_eq_refl, is_nan}
use cppgraphqlgen.Base.Outcome.{ok}
use cppgraphqlgen.IdType.Equality.{id_eq_refl}
use cppgraphqlgen.Response.{
  Value, Members, Items, map_data, list_data, string_data, null_data, boolean, int, float,
  enum_data, id, scalar_data, null_scalar, shared_data, no_members, push_member, no_items,
  push_item, resolve,
}
use cppgraphqlgen.Response.Equality.{
  value_eq, members_eq, items_eq, string_eq, enum_eq, identifier_eq, bool_eq,
}

resolve-resolve : (v : Value) → resolve (resolve v) ≡ resolve v
unfolding resolve
resolve-resolve (shared_data v) = resolve-resolve v
resolve-resolve (map_data ms members) = refl
resolve-resolve _ = refl

-- The right side matters only through data().
value_eq-resolve : (v w : Value) → value_eq v (resolve w) ≡ value_eq v w
unfolding value_eq
value_eq-resolve (shared_data v) w = value_eq-resolve v w
value_eq-resolve (map_data ms members) w = rw (resolve-resolve w, value_eq)
value_eq-resolve _ w = rw (resolve-resolve w, value_eq)

-- A shared value compares as the value that it points at, on both sides.
pub value_eq-shared :
    (v w : Value)
    → (value_eq (shared_data v) w ≡ value_eq v w) × (value_eq v (shared_data w) ≡ value_eq v w)
unfolding value_eq resolve
value_eq-shared v w = (refl, sym (value_eq-resolve v (shared_data w)) ∙ value_eq-resolve v w)

-- No double in the value is a NaN.
unfoldable mutual
  pub HasNoNan : Value → Type 0
  HasNoNan (map_data ms members) = MembersHaveNoNan ms
  HasNoNan (list_data xs) = ItemsHaveNoNan xs
  HasNoNan (scalar_data v) = HasNoNan v
  HasNoNan (shared_data v) = HasNoNan v
  HasNoNan (float d) = is_nan d ≡ false
  HasNoNan v = Unit

  pub MembersHaveNoNan : Members → Type 0
  MembersHaveNoNan no_members = Unit
  MembersHaveNoNan (push_member ms k v) = MembersHaveNoNan ms × HasNoNan v

  pub ItemsHaveNoNan : Items → Type 0
  ItemsHaveNoNan no_items = Unit
  ItemsHaveNoNan (push_item xs v) = ItemsHaveNoNan xs × HasNoNan v

count_self : (n : ℕ) → (n == n) ≡ true
count_self n = ground arith

bool_eq_refl : (a : Bool) → bool_eq a a ≡ true
bool_eq_refl true = refl
bool_eq_refl false = refl

mutual
  unfolding value_eq resolve HasNoNan string_eq enum_eq identifier_eq

  value_eq_self : (v : Value) → HasNoNan v → value_eq v v ≡ ok true
  value_eq_self (shared_data v) h = (value_eq-shared v v).1 ∙ value_eq_self v h
  value_eq_self (map_data ms members) h = rw count_self (members_eq_self ms h)
  value_eq_self (list_data xs) h = rw count_self (items_eq_self xs h)
  value_eq_self (string_data s json input) h = rw (bool_eq_refl, bytes_eq_refl)
  value_eq_self null_data h = refl
  value_eq_self (boolean a) h = rw bool_eq_refl
  value_eq_self (int a) h = rw ((int_eq_iff a a).1 refl)
  value_eq_self (float d) h = rw (double_eq_refl d h)
  value_eq_self (enum_data s) h = rw bytes_eq_refl
  value_eq_self (id x) h = rw id_eq_refl
  value_eq_self (scalar_data v) h = value_eq_self v h
  value_eq_self null_scalar h = refl

  members_eq_self : (ms : Members) → MembersHaveNoNan ms → members_eq ms ms ≡ ok true
  members_eq_self no_members h = refl
  members_eq_self (push_member ms k v) h =
      rw (members_eq_self ms h.0, bytes_eq_refl, value_eq_self v h.1)

  items_eq_self : (xs : Items) → ItemsHaveNoNan xs → items_eq xs xs ≡ ok true
  items_eq_self no_items h = refl
  items_eq_self (push_item xs v) h = rw (items_eq_self xs h.0, value_eq_self v h.1)

-- A value equals itself if it holds no NaN, and the comparison does not end the program.
pub value_eq_refl : (v : Value) → HasNoNan v → value_eq v v ≡ ok true
value_eq_refl v h = value_eq_self v h
