-- ===== src/Response/Vectors.antt =====
-- The vectors of a Value: their sizes, and what stands at an index.
use cppgraphqlgen.Base.{ℕ, suc, Option, none, some, [], ◌==◌, if◌then◌else◌}
use cppgraphqlgen.Base.Text.{Bytes, bytes_eq}
use cppgraphqlgen.Response.{Value, Members, no_members, push_member, Items, no_items, push_item}

abbrev pub count : Members → ℕ
count no_members = 0
count (push_member ms k v) = suc (count ms)

abbrev pub count_items : Items → ℕ
count_items no_items = 0
count_items (push_item xs v) = suc (count_items xs)

-- `map[i].first`; the program never indexes past the end, where this is empty.
unfoldable pub name_at : Members → ℕ → Bytes
name_at no_members i = []
name_at (push_member ms k v) i = if i == count ms then k else name_at ms i

unfoldable pub value_at : Members → ℕ → Option Value
value_at no_members i = none
value_at (push_member ms k v) i = if i == count ms then some v else value_at ms i

unfoldable pub item_at : Items → ℕ → Option Value
item_at no_items i = none
item_at (push_item xs v) i = if i == count_items xs then some v else item_at xs i

-- The value of a name, and where it stands: the independent description of a map.
unfoldable pub lookup : Bytes → Members → Option Value
lookup name no_members = none
lookup name (push_member ms k v) = if bytes_eq k name then some v else lookup name ms

unfoldable pub position : Bytes → Members → Option ℕ
position name no_members = none
position name (push_member ms k v) = if bytes_eq k name then some (count ms) else position name ms
