-- ===== src/Validation/Scope.antt =====
-- matchesScopedType, getFieldType and getWrappedFieldType of ValidateExecutableVisitor: whether a
-- fragment on a type may be spread in the scope of another, and the type of a field.
use cppgraphqlgen.Base.{
  Bool, true, false, not, List, [], ◌∷◌, Option, none, some, ◌≡◌, ◌↔◌, ◌⊎◌, inl, inr, refl, arith,
  if◌then◌else◌, In, here, there, Option-cases, Bool-cases, subst, sym, ap, ◌∙◌, false≢true,
}
use cppgraphqlgen.Base.Text.{Bytes, bytes_eq, bytes_eq→eq, bytes_eq_refl}
use cppgraphqlgen.Base.EqualRange.{is_none}
use cppgraphqlgen.Base.EqualRange.Laws
use cppgraphqlgen.Base.EqualRange.Laws.{Ascending}
use cppgraphqlgen.SortedMap.{find, shorter_or_less, set_find, set_key}
use cppgraphqlgen.SortedMap.ShorterOrLess.{shorter_or_less-StrictOrder}
use cppgraphqlgen.Subscriptions.{is_empty}
use cppgraphqlgen.Validation.{SchemaType, named_type, wrapper_type, expired_type}

-- string_view_map<string_view_set>: the object types that a type may stand for
abbrev pub MatchingTypes : Type 0
MatchingTypes = List (Bytes × List Bytes)

-- std::find_if over the types of the scope, and whether it finds one.
unfoldable pub any_match : List Bytes → List Bytes → Bool
any_match named [] = false
any_match named (type ∷ scoped) =
    let rest = any_match named scoped in
    if not (is_none (set_find shorter_or_less type named)) then true else rest

unfoldable pub matches_scoped_type : MatchingTypes → Bytes → Bytes → Bool
matches_scoped_type matching scoped name =
    if bytes_eq name scoped then true else elim (find shorter_or_less scoped matching) [
      | none ↦ false
      | some scoped_types ↦ elim (find shorter_or_less name matching) [
        | none ↦ false
        | some named_types ↦ any_match named_types.1 scoped_types.1
      ]
    ]

-- The loop that expands a type to the one with a name.
unfoldable pub inner_type : SchemaType → Option SchemaType
inner_type (named_type kind name) = if is_empty name then none else some (named_type kind name)
inner_type (wrapper_type kind of_type) = inner_type of_type
inner_type (expired_type kind) = none

unfoldable pub get_wrapped_field_type : List (Bytes × Option SchemaType) → Bytes → Option SchemaType
get_wrapped_field_type fields name = elim (find shorter_or_less name fields) [
  | none ↦ none
  | some field ↦ field.1
]

unfoldable pub get_field_type : List (Bytes × Option SchemaType) → Bytes → Option SchemaType
get_field_type fields name = elim (find shorter_or_less name fields) [
  | none ↦ none
  | some field ↦ elim field.1 [ none ↦ none | some field_type ↦ inner_type field_type ]
]

-- A type that both stand for.
abbrev pub Common : List Bytes → List Bytes → Type 0
Common named scoped = (type : Bytes) × In type scoped × In type named

abbrev pub InOrder : List Bytes → Type 0
InOrder names = Ascending shorter_or_less (set_key shorter_or_less) names

found-In :
    (type : Bytes) (names : List Bytes)
    → is_none (set_find shorter_or_less type names) ≡ false
    → In type names
unfolding set_find
found-In type names h = elim (Option-cases (set_find shorter_or_less type names)) [
  | inl e ↦ ground arith
  | inr (x, e) ↦
      let (same, found) =
        Laws.search_found shorter_or_less (set_key shorter_or_less) shorter_or_less-StrictOrder type
          names e in
      subst (λ y. In y names) same found
]

In-found :
    (type : Bytes) (names : List Bytes)
    → InOrder names
    → In type names
    → set_find shorter_or_less type names ≡ some type
unfolding set_find
In-found type names h m =
    Laws.search_complete shorter_or_less (set_key shorter_or_less) shorter_or_less-StrictOrder h m

any_match-Common : (named scoped : List Bytes) → any_match named scoped ≡ true → Common named scoped
unfolding any_match
any_match-Common named [] h = cc
any_match-Common named (type ∷ scoped) h =
    elim (Bool-cases (is_none (set_find shorter_or_less type named))) [
      | inl e ↦ let (t, m, n) = any_match-Common named scoped (rw e at h) in (t, there m, n)
      | inr e ↦ (type, here refl, found-In type named e)
    ]

Common-any_match :
    (named scoped : List Bytes) (t : Bytes)
    → InOrder named
    → In t scoped
    → In t named
    → any_match named scoped ≡ true
unfolding any_match
Common-any_match named [] t h m n = elim m [ ]
Common-any_match named (x ∷ scoped) t h (here e) n = ground (arith, In-found t named h n, e)
Common-any_match named (x ∷ scoped) t h (there m) n =
    ground (arith, Common-any_match named scoped t h m n)

module _ (matching : MatchingTypes) (scoped name : Bytes) where
  both_found :
      (n s : Bytes × List Bytes)
      → find shorter_or_less name matching ≡ some n
      → find shorter_or_less scoped matching ≡ some s
      → bytes_eq name scoped ≡ false
      → matches_scoped_type matching scoped name ≡ any_match n.1 s.1
  unfolding matches_scoped_type
  both_found n s hn hs e = ground arith

  one_missing :
      bytes_eq name scoped ≡ false
      → (find shorter_or_less name matching ≡ none) ⊎ (find shorter_or_less scoped matching ≡ none)
      → matches_scoped_type matching scoped name ≡ false
  unfolding matches_scoped_type
  one_missing e h = ground arith

  same_name : bytes_eq name scoped ≡ true → matches_scoped_type matching scoped name ≡ true
  unfolding matches_scoped_type
  same_name e = ground arith

  match-Common :
      matches_scoped_type matching scoped name ≡ true
      → bytes_eq name scoped ≡ false
      → (named_types : Bytes × List Bytes) × (scoped_types : Bytes × List Bytes) × (find
            shorter_or_less name matching
          ≡ some named_types)
        × (find shorter_or_less scoped matching ≡ some scoped_types)
        × Common named_types.1 scoped_types.1
  match-Common h e = elim (Option-cases (find shorter_or_less name matching)) [
    | inl hn ↦ absurd (false≢true (sym (one_missing e (inl hn)) ∙ h))
    | inr (n, hn) ↦ elim (Option-cases (find shorter_or_less scoped matching)) [
      | inl hs ↦ absurd (false≢true (sym (one_missing e (inr hs)) ∙ h))
      | inr (s, hs) ↦ (n, s, hn, hs, any_match-Common n.1 s.1 (sym (both_found n s hn hs e) ∙ h))
    ]
  ]

-- For any table of the types that a name may stand for, in which the entry of `name`, if it has one,
-- is in the order of a sorted set, matchesScopedType returns true exactly where the two names are the
-- same, or both have an entry in the table and the entries have a type in common.
pub matches_scoped_type-Common :
    (matching : MatchingTypes) (scoped name : Bytes)
    → ((entry : Bytes × List Bytes)
        → find shorter_or_less name matching ≡ some entry
        → InOrder entry.1)
    → (matches_scoped_type matching scoped name ≡ true) ↔ (
        (name ≡ scoped)
        ⊎ ((named_types : Bytes × List Bytes) × (scoped_types : Bytes × List Bytes) × (find
                shorter_or_less name matching
              ≡ some named_types)
            × (find shorter_or_less scoped matching ≡ some scoped_types)
            × Common named_types.1 scoped_types.1))
matches_scoped_type-Common matching scoped name ordered = (
  λ h. elim (Bool-cases (bytes_eq name scoped)) [
    | inl e ↦ inl (bytes_eq→eq name scoped e)
    | inr e ↦ inr (match-Common matching scoped name h e)
  ],
  λ h. elim (Bool-cases (bytes_eq name scoped)) [
    | inl e ↦ same_name matching scoped name e
    | inr e ↦ elim h [
      | inl same ↦
          absurd (false≢true (sym e ∙ (ap (bytes_eq name) (sym same) ∙ bytes_eq_refl name)))
      | inr (n, s, hn, hs, (t, m, k)) ↦
          both_found matching scoped name n s hn hs e
          ∙ Common-any_match n.1 s.1 t (ordered n hn) m k
    ]
  ],
)
