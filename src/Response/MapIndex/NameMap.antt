-- ===== src/Response/MapIndex/NameMap.antt =====
-- The std::map of the names of distinct members: its order, its size and its entries.
use cppgraphqlgen.Base.{
  ℕ, suc, ◌<◌, Option, none, some, ◌≡◌, refl, ◌∙◌, ap, true, arith, length, All, All_map, Bool,
}
use cppgraphqlgen.Base.Text.{Bytes, bytes_lt, bytes_eq, bytes_eq_iff}
use cppgraphqlgen.Base.Order.{bytes_lt-StrictOrder, same}
use cppgraphqlgen.Base.EqualRange.{search, insert_unique}
use cppgraphqlgen.Base.EqualRange.Laws
use cppgraphqlgen.Base.EqualRange.Laws.{Ascending}
use cppgraphqlgen.Response.{Value, Members, no_members, push_member}
use cppgraphqlgen.Response.Vectors.{name_at, position, count}
use cppgraphqlgen.Response.Copy.{NameMap, name_map, assign, entry_name}
use cppgraphqlgen.Response.MapIndex.{Distinct}

-- Where the name is new, `members[name] = index` is an insertion.
assign-insert :
    (k : Bytes) (n : ℕ) (m : NameMap)
    → search bytes_lt entry_name k m ≡ none
    → assign k n m ≡ (insert_unique bytes_lt entry_name k (k, n) m).0
unfolding search insert_unique assign
assign-insert k n m h = ground arith

same-bytes : (a b : Bytes) → same bytes_lt a b ≡ bytes_eq a b
same-bytes a b = ground (
  arith,
  bytes_eq_iff a b,
  bytes_lt-StrictOrder.connected a b,
  bytes_lt-StrictOrder.irreflexive a,
)

-- The entry of a name that stands at a position.
abbrev pub entry_of : Bytes → Option ℕ → Option (Bytes × ℕ)
entry_of k none = none
entry_of k (some i) = some (k, i)

entry_of-none : (k : Bytes) (o : Option ℕ) → o ≡ none → entry_of k o ≡ none
entry_of-none k o h = rw h

abbrev insertion : Bytes → NameMap → NameMap × Bool
insertion k m = insert_unique bytes_lt entry_name k (k, length m) m

-- One more member with a new name.
pub name_map-push :
    (ms : Members) (k : Bytes) (v : Value)
    → search bytes_lt entry_name k (name_map ms) ≡ none
    → (name_map (push_member ms k v) ≡ (insertion k (name_map ms)).0)
      × ((insertion k (name_map ms)).1 ≡ true)
unfolding name_map
name_map-push ms k v h =
    let m = name_map ms in
    (
      assign-insert k (length m) m h,
      Laws.search-is_none bytes_lt entry_name k (k, length m) m ∙ rw h,
    )

-- What an entry of the std::map says of the members.
abbrev pub Names : Members → Bytes × ℕ → Type 0
Names ms e = (e.1 < count ms) × (name_at ms e.1 ≡ e.0)

Names-push :
    (ms : Members) (k : Bytes) (v : Value) (e : Bytes × ℕ)
    → Names ms e
    → Names (push_member ms k v) e
unfolding name_at
Names-push ms k v e h = (omega arith, ground (arith, h.0, h.1))

newest-Names :
    (ms : Members) (k : Bytes) (v : Value) (m : NameMap)
    → length m ≡ count ms
    → Names (push_member ms k v) (k, length m)
unfolding name_at
newest-Names ms k v m h = (omega (arith, h), ground (arith, h))

-- The entries of the std::map name the members in ascending order, and it finds each name where it
-- stands.
pub record IsNameMap (ms : Members) : Type 0 where
  pub answers :
      (j : Bytes) → search bytes_lt entry_name j (name_map ms) ≡ entry_of j (position j ms)
  pub size : length (name_map ms) ≡ count ms
  pub entries : All (Names ms) (name_map ms)
  pub ascending : Ascending bytes_lt entry_name (name_map ms)

module _ (ms : Members) (k : Bytes) (v : Value) (h : IsNameMap ms)
    (new : position k ms ≡ none) where
  push-new : search bytes_lt entry_name k (name_map ms) ≡ none
  push-new = h.answers k ∙ entry_of-none k (position k ms) new

  push-answers :
      (j : Bytes)
      → search bytes_lt entry_name j (name_map (push_member ms k v))
        ≡ entry_of j (position j (push_member ms k v))
  unfolding position
  push-answers j = rw ((name_map-push ms k v push-new).0) (
      ground (
        arith,
        push-new,
        h.answers j,
        h.size,
        bytes_eq_iff k j,
        bytes_eq_iff j k,
        same-bytes j k,
        Laws.search-insert_unique bytes_lt entry_name bytes_lt-StrictOrder j
            (k, length (name_map ms)) (name_map ms),
      ))

  push-IsNameMap : IsNameMap (push_member ms k v)
  push-IsNameMap =
      let m = name_map ms in
      let (grown, done) = name_map-push ms k v push-new in
      record {
        answers = push-answers;
        size =
            ap length grown
            ∙ Laws.length-insert_unique bytes_lt entry_name k (k, length m) m
            ∙ rw done (ap suc h.size);
        entries = rw grown (
            Laws.insert_unique-All bytes_lt entry_name (Names (push_member ms k v)) k (k, length m)
              m (newest-Names ms k v m h.size) (All_map (Names-push ms k v) m h.entries));
        ascending = rw grown (
            Laws.insert_unique-Ascending bytes_lt entry_name bytes_lt-StrictOrder (k, length m) m
              h.ascending);
      }

pub Distinct-IsNameMap : (ms : Members) → Distinct ms → IsNameMap ms
unfolding search position name_map
Distinct-IsNameMap no_members d = record {
  answers = λ j. refl;
  size = refl;
  entries = tt;
  ascending = tt;
}
Distinct-IsNameMap (push_member ms k v) d = push-IsNameMap ms k v (Distinct-IsNameMap ms d.0) d.1
