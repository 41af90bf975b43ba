-- ===== src/Client/ServiceErrors.antt =====
-- What the service writes for an error is parsed as the error by parseServiceError.
use cppgraphqlgen.Base.{
  ℕ, List, [], ◌∷◌, ◌++◌, map, append_assoc, append-nil, ◌≡◌, refl, ◌∙◌, sym, ap, Bool-cases, inl,
  inr, ◌==◌, if◌then◌else◌, arith,
}
use cppgraphqlgen.Base.Text.{Bytes, codes, bytes_eq, bytes_lt, lex_compare}
use cppgraphqlgen.Base.EqualRange.{equal_range, partition_point, insert_unique}
use cppgraphqlgen.Base.Int.{to_size, to_int}
use cppgraphqlgen.Base.Outcome.{Outcome, ok}
use cppgraphqlgen.Response.{
  Value, Members, Items, map_data, list_data, no_members, push_member, map_type, no_items,
  push_item, make_value, type_of, int, string_value,
}
use cppgraphqlgen.Response.Access.{get_int}
use cppgraphqlgen.Response.Copy.{unshare}
use cppgraphqlgen.Response.Vectors.{name_at}
use cppgraphqlgen.Response.Modify.{
  append_each, emplace_back, insert_member, emplace_back_item, release_map, release_list,
  release_string,
}
use cppgraphqlgen.Service.Errors.{
  PathSegment, field_segment, index_segment, SchemaLocation, SchemaError, add_member,
  add_error_message, add_error_location, add_error_path, segment_value, error_value,
}
use cppgraphqlgen.Client.{
  error_members, error_member, transform_list, message_or, location_members, location_member,
  int_or, ErrorLocation, ErrorPathSegment, field_name, list_index, Error, transform,
  parse_path_segment, parse_location, parse_service_error,
}

-- The cast to int and back and to int again.
to_int-to_size : (n : ℕ) → to_int (to_size (to_int n)) ≡ to_int n
to_int-to_size n = ground arith

-- What the client knows of an error: numbers are ints, and no line is no location.
abbrev pub client_segment : PathSegment → ErrorPathSegment
client_segment (field_segment name) = field_name name
client_segment (index_segment index) = list_index (to_int index)

abbrev pub client_locations : SchemaLocation → List ErrorLocation
client_locations location =
    if location.line == 0
    then []
    else record { line = to_int location.line; column = to_int location.column } ∷ []

abbrev pub client_error : SchemaError → Error
client_error error = record {
  message = error.message;
  locations = client_locations error.location;
  path = map client_segment error.path;
}

-- The value of an element is parsed as what the client knows of it.
abbrev pub ParsesAs {ℓ κ} :
    {A : Type ℓ} {B : Type κ} → (A → Outcome Value) → (Value → Outcome B) → (A → B) → Type (ℓ ⊔ κ)
ParsesAs {A = A} build parse f = (a : A) → (v : Value) × (build a ≡ ok v) × (parse v ≡ ok (f a))

pub append_each-transform {ℓ κ} :
    {A : Type ℓ} {B : Type κ} (build : A → Outcome Value) (parse : Value → Outcome B) (f : A → B)
    → ParsesAs build parse f
    → (elements : List A) (xs : Items) (front : List B) → transform parse [] xs ≡ ok front
    → (ys : Items) × (append_each build elements (list_data xs) ≡ ok (list_data ys))
      × (transform parse [] ys ≡ ok (front ++ map f elements))
unfolding append_each transform emplace_back_item unshare
append_each-transform build parse f h [] xs front e = (xs, refl, e ∙ ap ok (sym (append-nil front)))
append_each-transform build parse f h (a ∷ rest) xs front e =
    let (v, built, parsed) = h a in
    let (ys, appended, t) =
      append_each-transform build parse f h rest (push_item xs v) (front ++ f a ∷ [])
        (rw (e, parsed)) in
    (ys, rw built appended, t ∙ ap ok (append_assoc front (f a ∷ []) (map f rest)))

segment-ParsesAs : ParsesAs segment_value parse_path_segment client_segment
unfolding segment_value parse_path_segment type_of get_int release_string unshare
segment-ParsesAs (field_segment name) = (string_value name, refl, refl)
segment-ParsesAs (index_segment index) = (int (to_int index), refl, refl)

abbrev message_members : Bytes → Members
message_members message = push_member no_members (codes "message") (string_value message)

abbrev location_value : SchemaLocation → Value
location_value location =
    let members =
      push_member (push_member no_members (codes "line") (int (to_int location.line)))
        (codes "column") (int (to_int location.column)) in
    list_data (push_item no_items (map_data members (1 ∷ 0 ∷ [])))

abbrev located_members : Bytes → SchemaLocation → Members
located_members message location =
    push_member (message_members message) (codes "locations") (location_value location)

-- The member "locations" is added where there is a line.
abbrev with_location : Bytes → SchemaLocation → Value
with_location message location =
    if location.line == 0
    then map_data (message_members message) (0 ∷ [])
    else map_data (located_members message location) (1 ∷ 0 ∷ [])

add_error_message_lem :
    (message : Bytes)
    → add_error_message message (make_value map_type)
      ≡ ok (map_data (message_members message) (0 ∷ []))
unfolding add_error_message emplace_back insert_member unshare insert_unique equal_range
    partition_point make_value
add_error_message_lem message = refl

add_error_location_lem :
    (message : Bytes) (location : SchemaLocation)
    → add_error_location location (map_data (message_members message) (0 ∷ []))
      ≡ ok (with_location message location)
unfolding add_error_location emplace_back emplace_back_item insert_member unshare insert_unique
    equal_range partition_point make_value name_at bytes_lt lex_compare
add_error_location_lem message location = elim (Bool-cases (location.line == 0)) [
  | inl none ↦ rw none
  | inr some ↦ rw some
]

-- What the members other than the path are parsed as.
abbrev located_error : Bytes → SchemaLocation → Error
located_error message location = record {
  message = message;
  locations = client_locations location;
  path = [];
}

parse_with_location :
    (message : Bytes) (location : SchemaLocation)
    → parse_service_error (with_location message location) ≡ ok (located_error message location)
unfolding parse_service_error error_members error_member transform_list transform message_or
    parse_location location_members location_member int_or bytes_eq lex_compare type_of get_int
    release_map release_list release_string unshare
parse_with_location message location = elim (Bool-cases (location.line == 0)) [
  | inl none ↦ rw none
  | inr some ↦ rw (some, to_int-to_size location.line, to_int-to_size location.column)
]

-- The members of `with_location`, and those of an error with a path.
abbrev members_with_location : Bytes → SchemaLocation → Members
members_with_location message location =
    if location.line == 0 then message_members message else located_members message location

add_path_lem :
    (message : Bytes) (location : SchemaLocation) (path : Value)
    → (members : List ℕ) × (add_member (codes "path") path (with_location message location)
        ≡ ok (
            map_data
              (push_member (members_with_location message location) (codes "path") path)
              members))
unfolding emplace_back insert_member unshare insert_unique equal_range partition_point name_at
    bytes_lt lex_compare
add_path_lem message location path = elim (Bool-cases (location.line == 0)) [
  | inl none ↦ (0 ∷ 1 ∷ [], rw none)
  | inr some ↦ (1 ∷ 0 ∷ 2 ∷ [], rw some)
]

parse_members_with_location :
    (message : Bytes) (location : SchemaLocation)
    → error_members (members_with_location message location) ≡ ok (located_error message location)
unfolding error_members error_member transform_list transform message_or parse_location
    location_members location_member int_or bytes_eq lex_compare type_of get_int release_map
    release_list release_string unshare
parse_members_with_location message location = elim (Bool-cases (location.line == 0)) [
  | inl none ↦ rw none
  | inr some ↦ rw (some, to_int-to_size location.line, to_int-to_size location.column)
]

parse_with_path :
    (message : Bytes) (location : SchemaLocation) (ys : Items) (members : List ℕ)
    (path : List ErrorPathSegment)
    → transform parse_path_segment [] ys ≡ ok path
    → parse_service_error (
        map_data
          (push_member (members_with_location message location) (codes "path") (list_data ys))
          members)
      ≡ ok (record { message = message; locations = client_locations location; path = path })
unfolding parse_service_error error_members error_member transform_list bytes_eq lex_compare type_of
    release_map release_list unshare
parse_with_path message location ys members path e =
    rw (parse_members_with_location message location, e)

error_with_path :
    (message : Bytes) (location : SchemaLocation) (path : List PathSegment)
    → let e : SchemaError = record { message = message; location = location; path = path } in
      (v : Value) × (error_value e ≡ ok v) × (parse_service_error v ≡ ok (client_error e))
unfolding error_value add_error_path make_value transform
error_with_path message location [] = (
  with_location message location,
  rw (add_error_message_lem message, add_error_location_lem message location),
  parse_with_location message location,
)
error_with_path message location (s ∷ path) =
    let (ys, appended, parsed) =
      append_each-transform segment_value parse_path_segment client_segment segment-ParsesAs
        (s ∷ path) no_items [] refl in
    let (members, added) = add_path_lem message location (list_data ys) in
    (
      map_data (push_member (members_with_location message location) (codes "path") (list_data ys))
          members,
      rw (add_error_message_lem message, add_error_location_lem message location, appended, added),
      parse_with_path message location ys members (map client_segment (s ∷ path)) parsed,
    )

pub error-ParsesAs : ParsesAs error_value parse_service_error client_error
error-ParsesAs error = error_with_path error.message error.location error.path
