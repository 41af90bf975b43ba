-- ===== src/Json/Machine/Agreement.antt =====
-- When the calls for a value and what it reads as agree, and how this passes to lists and maps.
use cppgraphqlgen.Base.{
  ℕ, List, [], ◌∷◌, ◌++◌, append_assoc, ◌≡◌, refl, sym, subst, length, Bool-cases, inl, inr,
}
use mathlib.Core.List.{map-append}
use cppgraphqlgen.Base.Text.{Bytes, bytes_lt}
use cppgraphqlgen.Base.EqualRange.{insert_unique}
use cppgraphqlgen.Response.Vectors.{name_at}
use cppgraphqlgen.Base.Outcome.{Outcome, ok, throw, ◌>>=◌}
use cppgraphqlgen.Response.{
  Value, Members, Items, map_data, list_data, push_member, push_item, make_value, type_of,
  from_json, map_type, list_type,
}
use cppgraphqlgen.Response.Copy.{unshare}
use cppgraphqlgen.Response.Modify.{insert_member, emplace_back, emplace_back_item}
use cppgraphqlgen.Response.Writer.{
  WriterCall, start_object, end_object, start_array, end_array, add_member, write_string,
}
use cppgraphqlgen.Json.{
  c_string, string_writer, Callback, json_end_object, json_end_array, Handler, get_response,
  set_value, step, run,
}
use cppgraphqlgen.Json.Meaning.{json_text, add_to}
use cppgraphqlgen.Json.Machine.{callbacks}

callbacks-append : (a b : List WriterCall) → callbacks (a ++ b) ≡ callbacks a ++ callbacks b
callbacks-append a b = rw (map-append, map-append)

-- Running the calls sets `w`.
abbrev pub Sets : List WriterCall → Value → Type 0
Sets calls w =
    (rest : List Callback) (h : Handler)
    → run (callbacks calls ++ rest) h ≡ (set_value w h >>= run rest)

abbrev pub Agree : Outcome (List WriterCall) → Outcome Value → Type 0
Agree (ok calls) (ok w) = Sets calls w
Agree (throw e) (throw e') = e ≡ e'
Agree _ _ = ⊥

abbrev pub IsMap : Value → Type 0
IsMap m = (ms : Members) × (members : List ℕ) × (m ≡ map_data ms members)

-- Running the calls for the members of an object grows the map on the top of the stack.
abbrev pub SetsMembers : List WriterCall → Value → Type 0
SetsMembers calls m =
    (rest : List Callback) (keys : List Bytes) (stack : List Value)
    → run (callbacks calls ++ rest) (keys, make_value map_type ∷ stack) ≡ run rest (keys, m ∷ stack)

abbrev pub AgreeMembers : Outcome (List WriterCall) → Outcome Value → Type 0
AgreeMembers (ok calls) (ok m) = IsMap m × SetsMembers calls m
AgreeMembers (throw e) (throw e') = e ≡ e'
AgreeMembers _ _ = ⊥

abbrev pub SetsItems : List WriterCall → Items → Type 0
SetsItems calls xs =
    (rest : List Callback) (keys : List Bytes) (stack : List Value)
    → run (callbacks calls ++ rest) (keys, make_value list_type ∷ stack)
      ≡ run rest (keys, list_data xs ∷ stack)

abbrev pub AgreeItems : Outcome (List WriterCall) → Outcome Items → Type 0
AgreeItems (ok calls) (ok xs) = SetsItems calls xs
AgreeItems (throw e) (throw e') = e ≡ e'
AgreeItems _ _ = ⊥

pub Agree-map :
    (m : Outcome (List WriterCall)) (r : Outcome Value)
    → AgreeMembers m r
    → Agree (m >>= λ calls. ok ((start_object ∷ calls) ++ end_object ∷ [])) r
unfolding run step get_response string_writer set_value
Agree-map (ok calls) (ok m) h = λ rest (keys, stack).
    rw (callbacks-append calls (end_object ∷ []), append_assoc)
      (h.1 (json_end_object ∷ rest) keys stack)
Agree-map (ok calls) (throw e) h = absurd h
Agree-map (throw e) (ok m) h = absurd h
Agree-map (throw e) (throw e') h = h

pub Agree-list :
    (m : Outcome (List WriterCall)) (r : Outcome Items)
    → AgreeItems m r
    → Agree
        (m >>= λ calls. ok ((start_array ∷ calls) ++ end_array ∷ []))
        (r >>= λ xs. ok (list_data xs))
unfolding run step get_response string_writer set_value
Agree-list (ok calls) (ok xs) h = λ rest (keys, stack).
    rw (callbacks-append calls (end_array ∷ []), append_assoc)
      (h (json_end_array ∷ rest) keys stack)
Agree-list (ok calls) (throw e) h = absurd h
Agree-list (throw e) (ok m) h = absurd h
Agree-list (throw e) (throw e') h = h

pub Agree-push_item :
    (m n : Outcome (List WriterCall)) (r : Outcome Items) (q : Outcome Value)
    → AgreeItems m r
    → Agree n q
    → AgreeItems
        (m >>= λ calls. n >>= λ more. ok (calls ++ more))
        (r >>= λ xs. q >>= λ w. ok (push_item xs w))
unfolding set_value type_of emplace_back_item unshare
Agree-push_item (ok calls) (ok more) (ok xs) (ok w) h k =
    λ rest keys stack. rw (callbacks-append calls more, append_assoc, h, k)
Agree-push_item (ok calls) (throw e) (ok xs) (throw e') h k = k
Agree-push_item (throw e) n (throw e') q h k = h
Agree-push_item (ok calls) (ok more) (ok xs) (throw e) h k = absurd k
Agree-push_item (ok calls) (throw e) (ok xs) (ok w) h k = absurd k
Agree-push_item (ok calls) n (throw e) q h k = absurd h
Agree-push_item (throw e) n (ok xs) q h k = absurd h

insert_member-IsMap :
    (name : Bytes) (w : Value) (ms : Members) (members : List ℕ)
    → IsMap (insert_member name w ms members).0
unfolding insert_member
insert_member-IsMap name w ms members =
    let (members', done) = insert_unique bytes_lt (name_at ms) name (length members) members in
    elim (Bool-cases done) [
      | inl e ↦ rw e (push_member ms name w, members', refl)
      | inr e ↦ rw e (ms, members, refl)
    ]

push_at :
    (key : Bytes) (calls more : List WriterCall) (w : Value) (ms : Members) (members : List ℕ)
    → SetsMembers calls (map_data ms members)
    → Sets more w
    → AgreeMembers (ok (calls ++ add_member key ∷ more)) (add_to key w (map_data ms members))
unfolding set_value type_of run step string_writer emplace_back unshare
push_at key calls more w ms members h k = (
  insert_member-IsMap (c_string (c_string key)) w ms members,
  λ rest keys stack. rw (callbacks-append calls (add_member key ∷ more), append_assoc, h, k),
)

pub Agree-push_member :
    (key : Bytes) (m n : Outcome (List WriterCall)) (r q : Outcome Value)
    → AgreeMembers m r
    → Agree n q
    → AgreeMembers
        (m >>= λ calls. n >>= λ more. ok (calls ++ add_member key ∷ more))
        (r >>= λ t. q >>= λ w. add_to key w t)
unfolding set_value type_of run step string_writer emplace_back unshare
Agree-push_member key (ok calls) (ok more) (ok t) (ok w) ((ms, members, e), h) k =
    subst (λ t. AgreeMembers (ok (calls ++ add_member key ∷ more)) (add_to key w t)) (sym e)
      (push_at key calls more w ms members (subst (λ t. SetsMembers calls t) e h) k)
Agree-push_member key (ok calls) (throw e) (ok xs) (throw e') h k = k
Agree-push_member key (throw e) n (throw e') q h k = h
Agree-push_member key (ok calls) (ok more) (ok xs) (throw e) h k = absurd k
Agree-push_member key (ok calls) (throw e) (ok xs) (ok w) h k = absurd k
Agree-push_member key (ok calls) n (throw e) q h k = absurd h
Agree-push_member key (throw e) n (ok xs) q h k = absurd h

-- A text that is released, or the exception of the release.
pub Agree-text :
    (r : Outcome Bytes) → Agree (r >>= λ s. ok (write_string s ∷ [])) (r >>= λ s. ok (json_text s))
unfolding run step string_writer from_json
Agree-text (ok s) = λ rest handler. refl
Agree-text (throw e) = refl

-- A copy made before, which may throw.
pub Agree-after :
    (c : Outcome Value) (m : Outcome (List WriterCall)) (r : Outcome Value)
    → Agree m r
    → Agree (c >>= λ _. m) (c >>= λ _. r)
Agree-after (ok v) m r h = h
Agree-after (throw e) m r h = refl
