-- ===== src/Response/MapIndex/Find.antt =====
-- On a map with its invariant, find and operator[] return what stands under the name.
use cppgraphqlgen.Base.{
  ℕ, ◌<◌, List, Option, none, some, ◌≡◌, refl, ◌∙◌, sym, ap, arith, All, All_map, Bool-cases, inl,
  inr,
}
use cppgraphqlgen.Base.Text.{Bytes, bytes_lt, bytes_eq}
use cppgraphqlgen.Base.EqualRange.{search}
use cppgraphqlgen.Base.EqualRange.Renaming.{search-map, map_option}
use cppgraphqlgen.Base.Outcome.{Outcome, ok, throw, runtime_error}
use cppgraphqlgen.Response.{Value, Members, no_members, push_member, map_data}
use cppgraphqlgen.Response.Vectors.{name_at, value_at, position, lookup, count}
use cppgraphqlgen.Response.Copy.{NameMap, name_map, entry_name, entry_index}
use cppgraphqlgen.Response.MapIndex.{IsIndexed, find, subscript_name, missing_member}
use cppgraphqlgen.Response.MapIndex.NameMap.{Distinct-IsNameMap, Names, entry_of}

pub names-index :
    (ms : Members) (m : NameMap)
    → All (Names ms) m
    → All (λ e. name_at ms (entry_index e) ≡ entry_name e) m
names-index ms m h = All_map (λ e n. n.1) m h

entry_of-index : (k : Bytes) (o : Option ℕ) → map_option entry_index (entry_of k o) ≡ o
entry_of-index k none = refl
entry_of-index k (some i) = refl

-- The search through the ordered indices finds the position of the name.
pub search-position :
    (ms : Members) {members : List ℕ} (k : Bytes)
    → IsIndexed ms members
    → search bytes_lt (name_at ms) k members ≡ position k ms
search-position ms k h =
    let n = Distinct-IsNameMap ms h.distinct in
    rw h.sorted (
      search-map bytes_lt (name_at ms) entry_name entry_index k (name_map ms)
        (names-index ms (name_map ms) n.entries)
      ∙ ap (map_option entry_index) (n.answers k)
      ∙ entry_of-index k (position k ms))

abbrev value_at? : Members → Option ℕ → Option Value
value_at? ms none = none
value_at? ms (some i) = value_at ms i

position-lt : (k : Bytes) (ms : Members) (i : ℕ) → position k ms ≡ some i → i < count ms
unfolding position
position-lt k no_members i h = cc
position-lt k (push_member ms j v) i h = ground (arith, position-lt k ms i)

value_at?-push :
    (ms : Members) (j : Bytes) (v : Value) (o : Option ℕ)
    → ((i : ℕ) → o ≡ some i → i < count ms)
    → value_at? (push_member ms j v) o ≡ value_at? ms o
unfolding value_at
value_at?-push ms j v none h = refl
value_at?-push ms j v (some i) h = ground (arith, h i refl)

lookup-position : (k : Bytes) (ms : Members) → lookup k ms ≡ value_at? ms (position k ms)
unfolding lookup position value_at
lookup-position k no_members = refl
lookup-position k (push_member ms j v) = elim (Bool-cases (bytes_eq j k)) [
  | inl e ↦ rw e (ground arith)
  | inr e ↦
      rw e (lookup-position k ms ∙ sym (value_at?-push ms j v (position k ms) (position-lt k ms)))
]

abbrev or_missing : Option Value → Outcome Value
or_missing none = missing_member
or_missing (some v) = ok v

subscript-value_at? :
    (ms : Members) (members : List ℕ) (k : Bytes) (o : Option ℕ)
    → search bytes_lt (name_at ms) k members ≡ o
    → subscript_name k (map_data ms members) ≡ or_missing (value_at? ms o)
unfolding subscript_name find
subscript-value_at? ms members k none e = rw e
subscript-value_at? ms members k (some i) e = rw e (ground arith)

-- On a map with its invariant, find returns where the name stands, and operator[] the value under
-- the name, or it throws if the map has no such name.
pub find-subscript :
    (ms : Members) (members : List ℕ) (k : Bytes)
    → IsIndexed ms members
    → (find k (map_data ms members) ≡ ok (position k ms))
      × (subscript_name k (map_data ms members) ≡ elim (lookup k ms) [
        | none ↦ throw (runtime_error "Missing Map member")
        | some v ↦ ok v
      ])
unfolding find
find-subscript ms members k h = (
  ap ok (search-position ms k h),
  subscript-value_at? ms members k (position k ms) (search-position ms k h)
      ∙ ap or_missing (sym (lookup-position k ms)),
)
