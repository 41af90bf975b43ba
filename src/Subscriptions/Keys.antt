-- ===== src/Subscriptions/Keys.antt =====
-- The keys that listen to a field, and what registering and removing a listener make of them.
use cppgraphqlgen.Base.{
  ℕ, ◌∙◌, true, false, List, [], ◌∷◌, none, some, ◌≡◌, refl, sym, arith, ltb, ◌&&◌, if◌then◌else◌,
  Bool-cases, Option-cases, inl, inr, subst,
}
use cppgraphqlgen.Base.Text.{Bytes, bytes_lt, bytes_eq, bytes_eq→eq, bytes_eq_refl}
use cppgraphqlgen.Base.Outcome.{ok}
use cppgraphqlgen.Base.Order.{bytes_lt-StrictOrder, same}
use cppgraphqlgen.Base.EqualRange.{
  is_none, erase_first, equal_range, partition_point, insert_unique,
}
use cppgraphqlgen.Base.EqualRange.Laws
use cppgraphqlgen.Base.EqualRange.Laws.{Ascending}
use cppgraphqlgen.Base.EqualRange.Update
use cppgraphqlgen.Base.EqualRange.Renaming.{map_option}
use cppgraphqlgen.SortedMap.{
  sorted_map_key, find, emplace, erase, subscript, at, set_emplace, set_erase,
}
use cppgraphqlgen.SortedMap.History.{subscript-emplace}
use cppgraphqlgen.Subscriptions.{
  Listeners, change_listener, add_listener, remove_listener, is_empty,
}

-- Equal texts are those that the order does not tell apart.
pub same-bytes_eq : (f g : Bytes) → same bytes_lt f g ≡ bytes_eq f g
same-bytes_eq f g = ground (
  arith,
  bytes_lt-StrictOrder.irreflexive f,
  bytes_lt-StrictOrder.connected f g,
  bytes_eq→eq f g,
  bytes_eq_refl f,
)

pub bytes_eq_comm : (f g : Bytes) → bytes_eq f g ≡ bytes_eq g f
bytes_eq_comm f g = ground (arith, bytes_eq→eq f g, bytes_eq→eq g f, bytes_eq_refl f)

-- The set of the field, which is empty if the field has no entry.
unfoldable pub keys_of : Bytes → Listeners → List ℕ
keys_of field listeners = elim (find bytes_lt field listeners) [ none ↦ [] | some e ↦ e.1 ]

find-key : (f : Bytes) (ls : Listeners) {e : Bytes × List ℕ} → find bytes_lt f ls ≡ some e → e.0 ≡ f
unfolding find
find-key f ls h = (Laws.search_found bytes_lt sorted_map_key bytes_lt-StrictOrder f ls h).0

find-change_listener :
    (c : List ℕ → List ℕ) (g f : Bytes) (ls : Listeners)
    → find bytes_lt g (change_listener c f ls) ≡ (
        if same bytes_lt g f
        then map_option (λ e. (e.0, c e.1)) (find bytes_lt g ls)
        else find bytes_lt g ls)
unfolding find change_listener
find-change_listener c g f ls =
    Update.search-update_first bytes_lt sorted_map_key bytes_lt-StrictOrder _ (λ e. refl) g f ls

find-subscript :
    (g f : Bytes) (ls : Listeners)
    → find bytes_lt g (subscript bytes_lt [] f ls).0 ≡ (
        if is_none (find bytes_lt f ls) && same bytes_lt g f
        then some (f, [])
        else find bytes_lt g ls)
unfolding find subscript emplace
find-subscript g f ls =
    ground
      (arith, Laws.search-insert_unique bytes_lt sorted_map_key bytes_lt-StrictOrder g (f, []) ls)

pub keys_of-add_listener :
    (g : Bytes) (k : ℕ) (f : Bytes) (ls : Listeners)
    → keys_of g (add_listener k f ls)
      ≡ (if bytes_eq g f then (set_emplace ltb k (keys_of f ls)).0 else keys_of g ls)
unfolding keys_of add_listener
keys_of-add_listener g k f ls = ground (
  arith,
  find-change_listener (λ keys. (set_emplace ltb k keys).0) g f (subscript bytes_lt [] f ls).0,
  find-subscript g f ls,
  same-bytes_eq g f,
  bytes_eq→eq g f,
)

-- The entries after the set of a field has lost a key.
unfoldable pub without_listener : ℕ → Bytes → Listeners → Listeners
without_listener key field listeners =
    if is_empty (set_erase ltb key (keys_of field listeners))
    then erase bytes_lt field listeners
    else change_listener (set_erase ltb key) field listeners

pub remove_listener-ok :
    (k : ℕ) (f : Bytes) (ls : Listeners)
    → is_none (find bytes_lt f ls) ≡ false
    → remove_listener k f ls ≡ ok (without_listener k f ls)
unfolding remove_listener without_listener keys_of at
remove_listener-ok k f ls h = ground arith

find-erase :
    (g f : Bytes) (ls : Listeners)
    → Ascending bytes_lt sorted_map_key ls
    → find bytes_lt g (erase bytes_lt f ls)
      ≡ (if same bytes_lt g f then none else find bytes_lt g ls)
unfolding find erase
find-erase g f ls h = Laws.search-erase_first bytes_lt sorted_map_key bytes_lt-StrictOrder g f ls h

pub is_empty→nil : (ks : List ℕ) → is_empty ks ≡ true → ks ≡ []
is_empty→nil [] h = refl
is_empty→nil (k ∷ ks) h = cc

set_erase-nil : (k : ℕ) → set_erase ltb k [] ≡ []
unfolding set_erase erase_first equal_range partition_point
set_erase-nil k = refl

pub keys_of-without_listener :
    (g : Bytes) (k : ℕ) (f : Bytes) (ls : Listeners)
    → Ascending bytes_lt sorted_map_key ls
    → keys_of g (without_listener k f ls)
      ≡ (if bytes_eq g f then set_erase ltb k (keys_of f ls) else keys_of g ls)
unfolding keys_of without_listener
keys_of-without_listener g k f ls h = ground (
  arith,
  find-change_listener (set_erase ltb k) g f ls,
  find-erase g f ls h,
  same-bytes_eq g f,
  bytes_eq→eq g f,
  set_erase-nil k,
  is_empty→nil (set_erase ltb k (keys_of f ls)),
)

-- Every entry has a key.
abbrev pub Listed : Listeners → Type 0
Listed ls = (f : Bytes) → is_empty (keys_of f ls) ≡ is_none (find bytes_lt f ls)

is_empty-set_emplace : (k : ℕ) (ks : List ℕ) → is_empty (set_emplace ltb k ks).0 ≡ false
unfolding set_emplace insert_unique equal_range partition_point
is_empty-set_emplace k [] = refl
is_empty-set_emplace k (x ∷ ks) = ground arith

pub add_listener-Listed :
    (k : ℕ) (f : Bytes) (ls : Listeners) → Listed ls → Listed (add_listener k f ls)
unfolding keys_of add_listener
add_listener-Listed k f ls h g = ground (
  arith,
  find-change_listener (λ keys. (set_emplace ltb k keys).0) g f (subscript bytes_lt [] f ls).0,
  find-subscript g f ls,
  same-bytes_eq g f,
  bytes_eq→eq g f,
  is_empty-set_emplace k (keys_of f ls),
  is_empty-set_emplace k [],
  h g,
)

pub without_listener-Listed :
    (k : ℕ) (f : Bytes) (ls : Listeners)
    → Ascending bytes_lt sorted_map_key ls
    → Listed ls
    → Listed (without_listener k f ls)
unfolding keys_of without_listener
without_listener-Listed k f ls a h g = ground (
  arith,
  find-change_listener (set_erase ltb k) g f ls,
  find-erase g f ls a,
  same-bytes_eq g f,
  bytes_eq→eq g f,
  h g,
)

pub add_listener-Ascending :
    (k : ℕ) (f : Bytes) (ls : Listeners)
    → Ascending bytes_lt sorted_map_key ls
    → Ascending bytes_lt sorted_map_key (add_listener k f ls)
unfolding add_listener change_listener emplace
add_listener-Ascending k f ls h =
    Update.update_first-Ascending bytes_lt sorted_map_key bytes_lt-StrictOrder _ (λ e. refl) f _
      (subst (Ascending bytes_lt sorted_map_key)
        (sym (subscript-emplace bytes_lt bytes_lt-StrictOrder [] f ls))
        (Laws.insert_unique-Ascending bytes_lt sorted_map_key bytes_lt-StrictOrder (f, []) ls h))

pub without_listener-Ascending :
    (k : ℕ) (f : Bytes) (ls : Listeners)
    → Ascending bytes_lt sorted_map_key ls
    → Ascending bytes_lt sorted_map_key (without_listener k f ls)
unfolding without_listener change_listener erase
without_listener-Ascending k f ls h =
    elim (Bool-cases (is_empty (set_erase ltb k (keys_of f ls)))) [
      | inl e ↦
          rw e (Laws.erase_first-Ascending bytes_lt sorted_map_key bytes_lt-StrictOrder f ls h)
      | inr e ↦ rw e (
          Update.update_first-Ascending bytes_lt sorted_map_key bytes_lt-StrictOrder
            (λ x. (x.0, set_erase ltb k x.1)) (λ x. refl) f ls h)
    ]

-- Entries are equal if they have the same keys for each field.
pub find-keys_of :
    (f : Bytes) (ls : Listeners)
    → Listed ls
    → find bytes_lt f ls ≡ (if is_empty (keys_of f ls) then none else some (f, keys_of f ls))
unfolding keys_of
find-keys_of f ls h = elim (Option-cases (find bytes_lt f ls)) [
  | inl e ↦ ground (arith, h f)
  | inr (x, e) ↦ ground (arith, h f, find-key f ls e)
]

pub listeners-ext :
    (ls ms : Listeners)
    → Ascending bytes_lt sorted_map_key ls
    → Ascending bytes_lt sorted_map_key ms
    → Listed ls
    → Listed ms
    → ((f : Bytes) → keys_of f ls ≡ keys_of f ms)
    → ls ≡ ms
unfolding find
listeners-ext ls ms a b h k e =
    Update.search-ext bytes_lt sorted_map_key bytes_lt-StrictOrder ls ms a b
      (λ f. find-keys_of f ls h ∙ rw (e f) (sym (find-keys_of f ms k)))
