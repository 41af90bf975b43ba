-- ===== src/Validation/ArgumentVisitor/Duplicates.antt =====
-- Which errors the visitor of an argument value adds.
use cppgraphqlgen.Base.{
  Bool, false, not, ◌&&◌, ◌||◌, List, [], ◌∷◌, ◌++◌, ◌≡◌, refl, sym, ap, arith, if◌then◌else◌,
  Bool-cases, inl, inr, append_assoc, append-nil,
}
use cppgraphqlgen.Base.Text.{Bytes, bytes_eq, bytes_eq→eq, bytes_eq_refl}
use cppgraphqlgen.Base.Int.{ℤ}
use cppgraphqlgen.Base.Double.{Double}
use cppgraphqlgen.Base.EqualRange.{is_none}
use cppgraphqlgen.Base.Outcome.{Outcome, ok}
use cppgraphqlgen.Service.Errors.{SchemaError}
use cppgraphqlgen.Service.Literals.{
  Literal, integer_literal, list_literal, object_literal, Literals, no_literals, push_literal,
  LiteralFields, empty_fields, push_field, atoi,
}
use cppgraphqlgen.SortedMap.ShorterOrLess.{shorter_or_less-StrictOrder}
use cppgraphqlgen.Validation.{push_error}
use cppgraphqlgen.Validation.Values.{
  value_at, int_value, list_value, map_value, no_values, ArgumentPtr, ArgumentList, ArgumentMap,
  no_entries, add_entry,
}
use cppgraphqlgen.Validation.ArgumentVisitor.{
  add_field, append_value, find_entry, put_entry, conflicting_field, visit_argument,
  visit_argument_list, visit_argument_fields,
}

-- Whether an earlier field has the name.
unfoldable pub named_in : Bytes → LiteralFields → Bool
named_in name empty_fields = false
named_in name (push_field fields p key value) = bytes_eq key name || named_in name fields

-- One error for each field that repeats a name of its object, in the order of the query, and none
-- for what stands inside such a field.
unfoldable mutual
  pub duplicates : Literal → List SchemaError
  duplicates (list_literal p values) = list_duplicates values
  duplicates (object_literal p fields) = field_duplicates fields
  duplicates _ = []

  pub list_duplicates : Literals → List SchemaError
  list_duplicates no_literals = []
  list_duplicates (push_literal values value) = list_duplicates values ++ duplicates value

  pub field_duplicates : LiteralFields → List SchemaError
  field_duplicates empty_fields = []
  field_duplicates (push_field fields p name value) =
      field_duplicates fields
      ++ (if named_in name fields
          then record { message = conflicting_field name; location = p; path = [] } ∷ []
          else duplicates value)

-- Each integer is an int.
unfoldable mutual
  pub IntsFit : Literal → Type 0
  IntsFit (integer_literal p text) = (number : ℤ) × (atoi text ≡ ok number)
  IntsFit (list_literal p values) = ListFits values
  IntsFit (object_literal p fields) = FieldsFit fields
  IntsFit _ = Unit

  pub ListFits : Literals → Type 0
  ListFits no_literals = Unit
  ListFits (push_literal values value) = ListFits values × IntsFit value

  pub FieldsFit : LiteralFields → Type 0
  FieldsFit empty_fields = Unit
  FieldsFit (push_field fields p name value) = FieldsFit fields × IntsFit value

find_entry-put_entry :
    (j k : Bytes) (v : ArgumentPtr) (m : ArgumentMap)
    → is_none (find_entry j (put_entry k v m)) ≡ not (bytes_eq k j) && is_none (find_entry j m)
unfolding find_entry put_entry
find_entry-put_entry j k v no_entries = ground (
  arith,
  shorter_or_less-StrictOrder.irreflexive j,
  shorter_or_less-StrictOrder.connected j k,
  bytes_eq→eq k j,
  bytes_eq_refl j,
)
find_entry-put_entry j k v (add_entry x w m) = ground (
  arith,
  find_entry-put_entry j k v m,
  shorter_or_less-StrictOrder.irreflexive j,
  shorter_or_less-StrictOrder.connected j k,
  shorter_or_less-StrictOrder.connected x k,
  shorter_or_less-StrictOrder.transitive k x j,
  shorter_or_less-StrictOrder.transitive x k j,
  shorter_or_less-StrictOrder.transitive j k x,
  shorter_or_less-StrictOrder.transitive j x k,
  shorter_or_less-StrictOrder.transitive x j k,
  bytes_eq→eq k j,
  bytes_eq_refl j,
)

-- A visit that returns, with the errors after it.
abbrev visited {ℓ} : {A : Type ℓ} → List SchemaError → A → Outcome (List SchemaError × A)
visited errors a = ok (errors, a)

module _ (atof : Bytes → Double) where
  leaf-errors :
      (a : ArgumentPtr) (errors : List SchemaError)
      → (b : ArgumentPtr) × (visited errors a ≡ visited (errors ++ []) b)
  leaf-errors a errors = (a, ap (λ e. visited e a) (sym (append-nil errors)))

  mutual
    unfolding visit_argument duplicates IntsFit push_error find_entry named_in add_field

    value-errors :
        (l : Literal) (errors : List SchemaError)
        → IntsFit l
        → (a : ArgumentPtr) × (visit_argument atof l errors ≡ ok (errors ++ duplicates l, a))
    value-errors (integer_literal p text) errors (number, e) =
        let (a, done) = leaf-errors (value_at p (int_value number)) errors in (a, rw e done)
    value-errors (list_literal p ls) errors h =
        let (xs, done) = list-errors ls errors h in (value_at p (list_value xs), rw done refl)
    value-errors (object_literal p fs) errors h =
        let (m, done, names) = fields-errors fs errors h in (value_at p (map_value m), rw done refl)
    value-errors l errors h = leaf-errors _ errors

    list-errors :
        (ls : Literals) (errors : List SchemaError)
        → ListFits ls
        → (xs : ArgumentList) × (visit_argument_list atof ls errors
            ≡ ok (errors ++ list_duplicates ls, xs))
    list-errors no_literals errors h =
        (no_values, ap (λ e. visited e no_values) (sym (append-nil errors)))
    list-errors (push_literal ls l) errors h =
        let (xs, before) = list-errors ls errors h.0 in
        let (x, last) = value-errors l (errors ++ list_duplicates ls) h.1 in
        (
          append_value xs x,
          rw (before, last)
              (ap (λ e. visited e (append_value xs x))
                (append_assoc errors (list_duplicates ls) (duplicates l))),
        )

    fields-errors :
        (fs : LiteralFields) (errors : List SchemaError)
        → FieldsFit fs
        → (m : ArgumentMap) × (visit_argument_fields atof fs errors
            ≡ ok (errors ++ field_duplicates fs, m))
          × ((n : Bytes) → is_none (find_entry n m) ≡ not (named_in n fs))
    fields-errors empty_fields errors h =
        (no_entries, ap (λ e. visited e no_entries) (sym (append-nil errors)), λ n. refl)
    fields-errors (push_field fs p name l) errors h =
        let (m, before, names) = fields-errors fs errors h.0 in
        elim (Bool-cases (named_in name fs)) [
          | inl e ↦ (
            m,
            rw (before, names name, e, add_field)
                (ap (λ e. visited e m) (append_assoc errors (field_duplicates fs) _)),
            λ n. ground (arith, names n, bytes_eq→eq name n),
          )
          | inr e ↦
              let (x, last) = value-errors l (errors ++ field_duplicates fs) h.1 in
              (
                put_entry name x m,
                rw (before, names name, e, last, add_field)
                    (ap (λ e. visited e (put_entry name x m))
                      (append_assoc errors (field_duplicates fs) _)),
                λ n. ground (arith, names n, find_entry-put_entry n name x m),
              )
        ]

  -- For a literal whose integers are ints the visitor returns, and adds one error for each field that
  -- repeats a name of its object, in the order of the query, with the position of the field, and no
  -- other error; what stands inside such a field is not visited.
  pub visit_argument-duplicates :
      (literal : Literal) (errors : List SchemaError)
      → IntsFit literal
      → (argument : ArgumentPtr) × (visit_argument atof literal errors
          ≡ ok (errors ++ duplicates literal, argument))
  visit_argument-duplicates = value-errors
