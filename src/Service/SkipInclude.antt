-- ===== src/Service/SkipInclude.antt =====
-- What shouldSkip makes of the directives @skip and @include.
use cppgraphqlgen.Base.{
  ℕ, Bool, true, false, not, ◌||◌, List, if◌then◌else◌, ◌≡◌, ◌≢◌, ◌↔◌, ◌⊎◌, refl, sym, ap, arith,
  inl, inr,
}
use cppgraphqlgen.Base.Text.{Bytes, codes, bytes_eq, bytes_eq_iff, bytes_eq_refl}
use cppgraphqlgen.Base.Outcome.{Exception, Outcome, ok, throw, ◌>>=◌, >>=-eq-ok, ok-injective}
use cppgraphqlgen.Response.{
  Value, Members, map_data, boolean, no_members, push_member, shared_data, type_of, resolve,
}
use cppgraphqlgen.Response.Access.{get_map, get_boolean}
use cppgraphqlgen.Service.Directives.{
  is_boolean_type, check_argument, check_arguments, skips_by, evaluate_directive,
}

-- The arguments are a map of the one member "if", with a Boolean value.
abbrev pub IfArgument : Value → Bool → Type 0
IfArgument arguments b =
    (value : Value) × (members : List ℕ) × (resolve arguments
      ≡ map_data (push_member no_members (codes "if") value) members)
    × (resolve value ≡ boolean b)

boolean_value :
    (v : Value) → is_boolean_type (type_of v) ≡ true → (b : Bool) × (resolve v ≡ boolean b)
unfolding type_of resolve
boolean_value (shared_data v) h = boolean_value v h
boolean_value (boolean b) h = (b, refl)
boolean_value _ h = absurd (ground arith)

type_of-resolve : (v : Value) → type_of (resolve v) ≡ type_of v
unfolding type_of resolve
type_of-resolve (shared_data v) = type_of-resolve v
type_of-resolve (map_data ms members) = refl
type_of-resolve _ = refl

-- A call behind a guard that succeeds.
guarded-ok :
    {A : Type 0} (a b c d : Bool) (e : Exception) (call : Outcome A) {result : A}
    → (if a || b || not c || not d then throw e else call) ≡ ok result
    → (a || b ≡ false) × (c ≡ true) × (d ≡ true) × (call ≡ ok result)
guarded-ok true b c d e call h = cc
guarded-ok false true c d e call h = cc
guarded-ok false false false d e call h = cc
guarded-ok false false true false e call h = cc
guarded-ok false false true true e call h = (refl, refl, refl, h)

-- What is known where an argument is accepted.
check_argument-ok :
    (directive : Bytes) (found : Bool × Bool) (name : Bytes) (value : Value) {next : Bool × Bool}
    → check_argument directive found name value ≡ ok next
    → (found.0 || found.1 ≡ false)
      × (name ≡ codes "if")
      × ((b : Bool) × (resolve value ≡ boolean b) × (next ≡ (b, not b)))
unfolding check_argument get_boolean
check_argument-ok directive found name value h =
    let (first, is_boolean, is_if, call) =
      guarded-ok found.0 found.1 (is_boolean_type (type_of value)) (bytes_eq name (codes "if")) _ _
        h in
    let (b, resolved) = boolean_value value is_boolean in
    (
      first,
      (bytes_eq_iff name (codes "if")).0 is_if,
      (b, resolved, sym (ok-injective (rw (get_boolean, resolved) at call))),
    )

-- Accepted arguments are none, or one that is "if" with a Boolean value.
check_arguments-ok :
    (directive : Bytes) (ms : Members) {next : Bool × Bool}
    → check_arguments directive ms ≡ ok next
    → ((ms ≡ no_members) × (next ≡ (false, false)))
      ⊎ ((value : Value) × (b : Bool) × (ms ≡ push_member no_members (codes "if") value)
          × (resolve value ≡ boolean b)
          × (next ≡ (b, not b)))
unfolding check_arguments
check_arguments-ok directive no_members h = inl (refl, sym (ok-injective h))
check_arguments-ok directive (push_member ms name value) h =
    let (found, before, call) = >>=-eq-ok (check_arguments directive ms) _ h in
    let (first, is_if, (b, resolved, e)) = check_argument-ok directive found name value call in
    elim (check_arguments-ok directive ms before) [
      | inl (empty, unset) ↦ inr (value, b, rw (empty, is_if), resolved, e)
      | inr (other, c, one, is_c, set) ↦ absurd (ground (arith, first, set))
    ]

decided_by :
    (skip : Bool) (directive : Bytes) (b : Bool) {result : Bool}
    → skips_by skip directive (b, not b) ≡ ok result
    → result ≡ (if b then skip else not skip)
unfolding skips_by
decided_by skip directive true h = sym (ok-injective h)
decided_by skip directive false h = sym (ok-injective h)

skips_by_unset :
    (skip : Bool) (directive : Bytes) {result : Bool}
    → skips_by skip directive (false, false) ≢ ok result
unfolding skips_by
skips_by_unset skip directive h = cc

members_of :
    {ms ns : Members} {members members' : List ℕ}
    → map_data ms members ≡ map_data ns members'
    → ms ≡ ns
members_of e = cc

decides :
    (skip : Bool) (directive : Bytes) (b : Bool)
    → skips_by skip directive (b, not b) ≡ ok (if b then skip else not skip)
unfolding skips_by
decides skip directive true = refl
decides skip directive false = refl

accepted_argument :
    (directive : Bytes) (value : Value) (b : Bool)
    → resolve value ≡ boolean b
    → check_arguments directive (push_member no_members (codes "if") value) ≡ ok (b, not b)
unfolding check_arguments check_argument get_boolean type_of
accepted_argument directive value b h =
    rw (bytes_eq_refl (codes "if"), ← type_of-resolve value, h, get_boolean)

skips_by-IfArgument :
    (skip : Bool) (directive : Bytes) (ms : Members) (members : List ℕ) (result : Bool)
    → ((check_arguments directive ms >>= skips_by skip directive) ≡ ok result) ↔ (
        (b : Bool) × IfArgument (map_data ms members) b × (result ≡ (if b then skip else not skip)))
unfolding resolve
skips_by-IfArgument skip directive ms members result = (
  λ h.
      let (found, accepted, decided) = >>=-eq-ok (check_arguments directive ms) _ h in
      elim (check_arguments-ok directive ms accepted) [
        | inl (empty, unset) ↦ absurd (skips_by_unset skip directive (rw unset at decided))
        | inr (value, b, one, is_b, set) ↦ (
          b,
          (value, members, ap (λ ms'. map_data ms' members) one, is_b),
          decided_by skip directive b (rw set at decided),
        )
      ],
  λ h.
      let (b, (value, members', e, is_b), q) = h in
      rw (members_of e, accepted_argument directive value b is_b, q) (decides skip directive b),
)

-- The directive is decided exactly where its arguments are the one "if" with a Boolean value, by that
-- value; anything else throws.
pub evaluate_directive-IfArgument :
    (skip : Bool) (directive : Bytes) (arguments : Value) (result : Bool)
    → (evaluate_directive skip directive arguments ≡ ok result)
      ↔ ((b : Bool) × IfArgument arguments b × (result ≡ (if b then skip else not skip)))
unfolding evaluate_directive get_map resolve type_of
evaluate_directive-IfArgument skip directive (shared_data v) result =
    evaluate_directive-IfArgument skip directive v result
evaluate_directive-IfArgument skip directive (map_data ms members) result =
    skips_by-IfArgument skip directive ms members result
evaluate_directive-IfArgument skip directive v result =
    ((λ h. cc), λ h. let (b, (value, members, e, is_b), q) = h in cc)
