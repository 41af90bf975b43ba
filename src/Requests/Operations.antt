-- ===== src/Requests/Operations.antt =====
-- Which operation a request runs.
use cppgraphqlgen.Base.{
  Bool, true, false, ◌||◌, List, [], ◌∷◌, ◌++◌, some, ◌≡◌, ◌↔◌, refl, sym, ap, ◌∙◌, arith, All,
  Bool-cases, inl, inr,
}
use cppgraphqlgen.Base.Text.{Bytes, bytes_eq}
use cppgraphqlgen.Subscriptions.{is_empty}
use cppgraphqlgen.Subscriptions.Requests.{Operation}
use cppgraphqlgen.Requests.{OperationDefinition, type_or_query, first_operation}

-- The request names the definition, or no definition at all.
abbrev pub is_selected : Bytes → OperationDefinition → Bool
is_selected name definition = is_empty name || bytes_eq definition.definition_name name

-- The first selected definition, with those before it.
pub record IsFirst (name : Bytes) (definitions : List OperationDefinition) (operation : Operation)
    : Type 0 where
  pub before : List OperationDefinition
  pub definition : OperationDefinition
  pub after : List OperationDefinition
  pub split : definitions ≡ before ++ definition ∷ after
  pub selected : is_selected name definition ≡ true
  pub skipped : All (λ d. is_selected name d ≡ false) before
  pub runs : operation ≡ (type_or_query definition.operation_type, definition.position)

first_operation-found :
    (name : Bytes) (ds : List OperationDefinition) (operation : Operation)
    → first_operation name ds ≡ some operation
    → IsFirst name ds operation
unfolding first_operation
first_operation-found name [] operation h = cc
first_operation-found name (d ∷ ds) operation h = elim (Bool-cases (is_selected name d)) [
  | inl e ↦ record {
    before = [];
    definition = d;
    after = ds;
    split = refl;
    selected = e;
    skipped = tt;
    runs = ground arith;
  }
  | inr e ↦
      let rest = first_operation-found name ds operation (rw e at h) in
      record {
        before = d ∷ rest.before;
        definition = rest.definition;
        after = rest.after;
        split = ap (λ xs. d ∷ xs) rest.split;
        selected = rest.selected;
        skipped = (e, rest.skipped);
        runs = rest.runs;
      }
]

first-append :
    (name : Bytes) (before : List OperationDefinition) (d : OperationDefinition)
    (after : List OperationDefinition)
    → is_selected name d ≡ true
    → All (λ x. is_selected name x ≡ false) before
    → first_operation name (before ++ d ∷ after) ≡ some (type_or_query d.operation_type, d.position)
unfolding first_operation
first-append name [] d after e h = rw e refl
first-append name (x ∷ before) d after e h = rw h.0 (first-append name before d after e h.1)

-- findOperationDefinition runs the first definition with the name of the request, and the first
-- definition of all where the request has no name, also if there are several.
pub first_operation-IsFirst :
    (name : Bytes) (definitions : List OperationDefinition) (operation : Operation)
    → (first_operation name definitions ≡ some operation) ↔ IsFirst name definitions operation
first_operation-IsFirst name definitions operation = (
  first_operation-found name definitions operation,
  λ h.
      ap (first_operation name) h.split
      ∙ first-append name h.before h.definition h.after h.selected h.skipped
      ∙ ap some (sym h.runs),
)
