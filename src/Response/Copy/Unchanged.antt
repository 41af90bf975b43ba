-- ===== src/Response/Copy/Unchanged.antt =====
-- Copying a well-formed value.
use cppgraphqlgen.Base.{map, ◌≡◌, refl}
use cppgraphqlgen.Base.Outcome.{ok}
use cppgraphqlgen.Response.{
  Value, Members, Items, map_data, list_data, string_data, null_data, boolean, int, float,
  enum_data, id, scalar_data, null_scalar, shared_data, no_members, push_member, no_items,
  push_item,
}
use cppgraphqlgen.Response.Copy.{copy, copy_members, copy_items, name_map, entry_index}

-- The order of the names of each map is the one that the copy makes, and no scalar is null.
unfoldable mutual
  pub IsCopyable : Value → Type 0
  IsCopyable (map_data ms members) = (members ≡ map entry_index (name_map ms)) × AreCopyable ms
  IsCopyable (list_data xs) = ItemsAreCopyable xs
  IsCopyable (scalar_data v) = IsCopyable v
  IsCopyable null_scalar = ⊥
  IsCopyable v = Unit

  pub AreCopyable : Members → Type 0
  AreCopyable no_members = Unit
  AreCopyable (push_member ms k v) = AreCopyable ms × IsCopyable v

  pub ItemsAreCopyable : Items → Type 0
  ItemsAreCopyable no_items = Unit
  ItemsAreCopyable (push_item xs v) = ItemsAreCopyable xs × IsCopyable v

mutual
  unfolding copy IsCopyable

  copy_same : (v : Value) → IsCopyable v → copy v ≡ ok v
  copy_same (map_data ms members) h = rw (copy_members_same ms h.1, h.0)
  copy_same (list_data xs) h = rw (copy_items_same xs h)
  copy_same (string_data s json input) h = refl
  copy_same null_data h = refl
  copy_same (boolean b) h = refl
  copy_same (int i) h = refl
  copy_same (float d) h = refl
  copy_same (enum_data s) h = refl
  copy_same (id x) h = refl
  copy_same (scalar_data v) h = rw (copy_same v h)
  copy_same null_scalar h = absurd h
  copy_same (shared_data v) h = refl

  copy_members_same : (ms : Members) → AreCopyable ms → copy_members ms ≡ ok ms
  copy_members_same no_members h = refl
  copy_members_same (push_member ms k v) h = rw (copy_members_same ms h.0, copy_same v h.1)

  copy_items_same : (xs : Items) → ItemsAreCopyable xs → copy_items xs ≡ ok xs
  copy_items_same no_items h = refl
  copy_items_same (push_item xs v) h = rw (copy_items_same xs h.0, copy_same v h.1)

-- A copy of a value without null scalars, of which each map keeps its names in order, returns and
-- is the same value.
pub copy-same : (v : Value) → IsCopyable v → copy v ≡ ok v
copy-same v h = copy_same v h
