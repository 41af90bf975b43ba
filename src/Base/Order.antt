-- ===== src/Base/Order.antt =====
-- A comparison as `Compare` of the ordered containers: a strict order of which the keys that it
-- does not tell apart are equal.
use mathlib.Core.Path.{◌≡◌}
use mathlib.Core.Bool.{Bool, true, false, not, ◌&&◌}
use native.Mathlib.Omega.{arith}
use Prim.Native.Nat.{ℕ}
use cppgraphqlgen.Base.Tests.{ltb}
use cppgraphqlgen.Base.Text.{
  Bytes, bytes_lt, lex_compare_self, lex_compare-equal, lex_compare-opposite, lex_compare_trans,
}

pub record StrictOrder {ℓ} {K : Type ℓ} (lt : K → K → Bool) : Type ℓ where
  pub irreflexive : (a : K) → lt a a ≡ false
  pub transitive : (a b c : K) → lt a b ≡ true → lt b c ≡ true → lt a c ≡ true
  pub connected : (a b : K) → lt a b ≡ false → lt b a ≡ false → a ≡ b

-- Two keys that the comparison does not tell apart.
abbrev pub same {ℓ} : {K : Type ℓ} (lt : K → K → Bool) → K → K → Bool
same lt j k = not (lt j k) && not (lt k j)

bytes_lt_connected : (a b : Bytes) → bytes_lt a b ≡ false → bytes_lt b a ≡ false → a ≡ b
unfolding bytes_lt
bytes_lt_connected a b h k = lex_compare-equal a b (ground (arith, lex_compare-opposite a b))

bytes_lt_trans : (a b c : Bytes) → bytes_lt a b ≡ true → bytes_lt b c ≡ true → bytes_lt a c ≡ true
unfolding bytes_lt
bytes_lt_trans a b c h k = ground (arith, lex_compare_trans a b c)

bytes_lt_irrefl : (a : Bytes) → bytes_lt a a ≡ false
unfolding bytes_lt
bytes_lt_irrefl a = rw lex_compare_self

-- std::less<std::string>
pub bytes_lt-StrictOrder : StrictOrder bytes_lt
bytes_lt-StrictOrder = record {
  irreflexive = bytes_lt_irrefl;
  transitive = bytes_lt_trans;
  connected = bytes_lt_connected;
}

ltb_irrefl : (a : ℕ) → ltb a a ≡ false
ltb_irrefl a = ground arith

ltb_trans : (a b c : ℕ) → ltb a b ≡ true → ltb b c ≡ true → ltb a c ≡ true
ltb_trans a b c h k = ground arith

ltb_connected : (a b : ℕ) → ltb a b ≡ false → ltb b a ≡ false → a ≡ b
ltb_connected a b h k = ground arith

-- std::less<std::size_t>
pub ltb-StrictOrder : StrictOrder ltb
ltb-StrictOrder = record {
  irreflexive = ltb_irrefl;
  transitive = ltb_trans;
  connected = ltb_connected;
}
