-- ===== src/Service/SkipDecision.antt =====
-- What shouldSkip returns where @skip and @include have good arguments, and how it compares with the
-- October 2021 GraphQL specification, section 3.13: a field is taken out if the condition of @skip
-- is true or that of @include is false.
use cppgraphqlgen.Base.{
  true, Bool, false, not, Option, none, some, ◌≡◌, ◌↔◌, refl, ap, if◌then◌else◌,
}
use cppgraphqlgen.Base.Text.{codes}
use cppgraphqlgen.Base.Outcome.{ok, ok-injective}
use cppgraphqlgen.Response.{Value}
use cppgraphqlgen.Service.Directives.{
  Directives, find_directive, should_skip_from, should_skip, evaluate_directive,
}
use cppgraphqlgen.Service.SkipInclude.{IfArgument, evaluate_directive-IfArgument}

-- A directive is absent, or it has its one argument with a value.
abbrev pub HasCondition : Option Value → Option Bool → Type 0
HasCondition none none = Unit
HasCondition (some arguments) (some b) = IfArgument arguments b
HasCondition _ _ = ⊥

-- What shouldSkip decides by the condition of @skip and that of @include.
abbrev pub skip_decision : Option Bool → Option Bool → Bool
skip_decision (some b) include = b
skip_decision none (some b) = not b
skip_decision none none = false

-- What the specification asks for.
abbrev pub is_false_condition : Option Bool → Bool
is_false_condition (some false) = true
is_false_condition _ = false

abbrev pub must_skip : Option Bool → Option Bool → Bool
must_skip (some true) include = true
must_skip _ include = is_false_condition include

evaluated :
    (skip : Bool) (arguments : Value) (b : Bool)
    → IfArgument arguments b
    → evaluate_directive skip (if skip then codes "skip" else codes "include") arguments
      ≡ ok (if b then skip else not skip)
evaluated skip arguments b h = (evaluate_directive-IfArgument skip _ arguments _).1 (b, h, refl)

decided :
    (skip include : Option Value) (s i : Option Bool) (directives : Directives)
    → find_directive (codes "skip") directives ≡ skip
    → find_directive (codes "include") directives ≡ include
    → HasCondition skip s
    → HasCondition include i
    → should_skip directives ≡ ok (skip_decision s i)
unfolding should_skip should_skip_from
decided (some v) include (some true) i directives e f h k =
    rw (should_skip, should_skip_from, e, evaluated true v true h)
decided (some v) include (some false) i directives e f h k =
    rw (should_skip, should_skip_from, e, evaluated true v false h)
decided none (some w) none (some true) directives e f h k =
    rw (should_skip, should_skip_from, e, should_skip_from, f, evaluated false w true k)
decided none (some w) none (some false) directives e f h k =
    rw (should_skip, should_skip_from, e, should_skip_from, f, evaluated false w false k)
decided none none none none directives e f h k =
    rw (should_skip, should_skip_from, e, should_skip_from, f)
decided (some v) include none i directives e f h k = absurd h
decided none include (some b) i directives e f h k = absurd h
decided none (some w) none none directives e f h k = absurd k
decided none none none (some b) directives e f h k = absurd k

-- Where each of @skip and @include is absent or has its one argument, shouldSkip returns: the
-- condition of @skip if it is there, else the negated condition of @include, else false.
pub should_skip-decision :
    (directives : Directives) (s i : Option Bool)
    → HasCondition (find_directive (codes "skip") directives) s
    → HasCondition (find_directive (codes "include") directives) i
    → should_skip directives ≡ ok (skip_decision s i)
should_skip-decision directives s i h k = decided _ _ s i directives refl refl h k

agreement :
    (s i : Option Bool)
    → (skip_decision s i ≡ must_skip s i) ↔ ¬ ((s ≡ some false) × (i ≡ some false))
agreement none none = (λ e h. cc, λ n. refl)
agreement none (some true) = (λ e h. cc, λ n. refl)
agreement none (some false) = (λ e h. cc, λ n. refl)
agreement (some true) i = (λ e h. cc, λ n. refl)
agreement (some false) none = (λ e h. cc, λ n. refl)
agreement (some false) (some true) = (λ e h. cc, λ n. refl)
agreement (some false) (some false) = (λ e h. cc, λ n. absurd (n (refl, refl)))

-- What shouldSkip returns is what the specification asks for exactly where not both conditions are
-- false: with @skip(if: false) and @include(if: false) the field is kept and is to be taken out.
pub should_skip-must_skip :
    (directives : Directives) (s i : Option Bool)
    → HasCondition (find_directive (codes "skip") directives) s
    → HasCondition (find_directive (codes "include") directives) i
    → (should_skip directives ≡ ok (must_skip s i)) ↔ ¬ ((s ≡ some false) × (i ≡ some false))
should_skip-must_skip directives s i h k =
    rw (should_skip-decision directives s i h k)
      (λ e. (agreement s i).0 (ok-injective e), λ n. ap ok ((agreement s i).1 n))
