-- ===== src/Json/View.antt =====
-- What a plain value reads as through JSON: itself, with each text a string that is marked to come
-- from JSON.
use cppgraphqlgen.Base.{ℕ, true, false, List, map, none, ◌≡◌, refl, ◌∙◌}
use cppgraphqlgen.Base.Text.{Bytes}
use cppgraphqlgen.Base.Outcome.{ok}
use cppgraphqlgen.IdType.{byte_data, opaque_string, release_opaque_string}
use cppgraphqlgen.Response.{
  Value, Members, Items, map_data, list_data, string_data, null_data, boolean, int, float,
  enum_data, id, scalar_data, null_scalar, shared_data, no_members, push_member, no_items,
  push_item,
}
use cppgraphqlgen.Response.Vectors.{position, count}
use cppgraphqlgen.Response.Copy.{name_map, entry_index}
use cppgraphqlgen.Response.MapIndex.{Distinct, IsIndexed}
use cppgraphqlgen.Response.MapIndex.Insert.{emplace_back_new}
use cppgraphqlgen.Json.{c_string}
use cppgraphqlgen.Json.Meaning.{as_json, as_json_members, as_json_items, add_to}

-- No NUL, so that c_str() gives the whole text.
abbrev pub NoNul : Bytes → Type 0
NoNul s = c_string s ≡ s

unfoldable mutual
  pub json_view : Value → Value
  json_view (map_data ms members) = map_data (view_members ms) members
  json_view (list_data xs) = list_data (view_items xs)
  json_view (string_data s json input) = string_data s true false
  json_view (enum_data s) = string_data s true false
  json_view (id (opaque_string s)) = string_data s true false
  json_view (scalar_data v) = json_view v
  json_view v = v

  pub view_members : Members → Members
  view_members no_members = no_members
  view_members (push_member ms k v) = push_member (view_members ms) k (json_view v)

  pub view_items : Items → Items
  view_items no_items = no_items
  view_items (push_item xs v) = push_item (view_items xs) (json_view v)

-- Maps keep their invariant, no text has a NUL, an identifier holds text, no scalar is null, and
-- nothing is shared.
unfoldable mutual
  pub IsPlain : Value → Type 0
  IsPlain (map_data ms members) = IsIndexed ms members × MembersArePlain ms
  IsPlain (list_data xs) = ItemsArePlain xs
  IsPlain (string_data s json input) = NoNul s
  IsPlain (enum_data s) = NoNul s
  IsPlain (id (opaque_string s)) = NoNul s
  IsPlain (id (byte_data b)) = ⊥
  IsPlain (scalar_data v) = IsPlain v
  IsPlain null_scalar = ⊥
  IsPlain (shared_data v) = ⊥
  IsPlain v = Unit

  pub MembersArePlain : Members → Type 0
  MembersArePlain no_members = Unit
  MembersArePlain (push_member ms k v) = MembersArePlain ms × NoNul k × IsPlain v

  pub ItemsArePlain : Items → Type 0
  ItemsArePlain no_items = Unit
  ItemsArePlain (push_item xs v) = ItemsArePlain xs × IsPlain v

count-view : (ms : Members) → count (view_members ms) ≡ count ms
unfolding view_members
count-view no_members = refl
count-view (push_member ms k v) = rw (count-view ms)

position-view : (k : Bytes) (ms : Members) → position k (view_members ms) ≡ position k ms
unfolding position view_members
position-view k no_members = refl
position-view k (push_member ms j v) = rw (count-view ms, position-view k ms)

name_map-view : (ms : Members) → name_map (view_members ms) ≡ name_map ms
unfolding name_map view_members
name_map-view no_members = refl
name_map-view (push_member ms j v) = rw (name_map-view ms)

Distinct-view : (ms : Members) → Distinct ms → Distinct (view_members ms)
unfolding view_members
Distinct-view no_members d = tt
Distinct-view (push_member ms k v) d = (Distinct-view ms d.0, position-view k ms ∙ d.1)

abbrev index : Members → List ℕ
index ms = map entry_index (name_map ms)

add_to-new :
    (k : Bytes) (w : Value) (ms : Members)
    → NoNul k
    → Distinct ms
    → position k ms ≡ none
    → add_to k w (map_data ms (index ms))
      ≡ ok (map_data (push_member ms k w) (index (push_member ms k w)))
add_to-new k w ms nul d new =
    rw (nul, nul, emplace_back_new k w ms (index ms) (record { distinct = d; sorted = refl }) new)

mutual
  unfolding as_json IsPlain json_view release_opaque_string name_map

  as_json_plain : (v : Value) → IsPlain v → as_json v ≡ ok (json_view v)
  as_json_plain (map_data ms members) h =
      rw (as_json_members_plain ms h.1 h.0.distinct, name_map-view ms, h.0.sorted)
  as_json_plain (list_data xs) h = rw (as_json_items_plain xs h)
  as_json_plain (string_data s json input) h = rw (h, h)
  as_json_plain (enum_data s) h = rw (h, h)
  as_json_plain (id (opaque_string s)) h = rw (h, h)
  as_json_plain (id (byte_data b)) h = absurd h
  as_json_plain null_data h = refl
  as_json_plain (boolean b) h = refl
  as_json_plain (int i) h = refl
  as_json_plain (float d) h = refl
  as_json_plain (scalar_data v) h = as_json_plain v h
  as_json_plain null_scalar h = absurd h
  as_json_plain (shared_data v) h = absurd h

  as_json_members_plain :
      (ms : Members)
      → MembersArePlain ms
      → Distinct ms
      → as_json_members ms ≡ ok (map_data (view_members ms) (index (view_members ms)))
  as_json_members_plain no_members h d = refl
  as_json_members_plain (push_member ms k v) h d =
      rw (as_json_members_plain ms h.0 d.0, as_json_plain v h.2)
        (add_to-new k (json_view v) (view_members ms) h.1 (Distinct-view ms d.0)
          (position-view k ms ∙ d.1))

  as_json_items_plain : (xs : Items) → ItemsArePlain xs → as_json_items xs ≡ ok (view_items xs)
  as_json_items_plain no_items h = refl
  as_json_items_plain (push_item xs v) h = rw (as_json_items_plain xs h.0, as_json_plain v h.1)

-- A plain value reads through JSON as itself, with each text a string marked to come from JSON.
pub as_json-plain : (v : Value) → IsPlain v → as_json v ≡ ok (json_view v)
as_json-plain v h = as_json_plain v h
