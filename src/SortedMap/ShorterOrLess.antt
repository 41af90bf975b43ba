-- ===== src/SortedMap/ShorterOrLess.antt =====
-- shorter_or_less is a strict order, so that the sorted maps and sets with std::string_view keys
-- are ordered by it.
use cppgraphqlgen.Base.{◌≡◌, true, false, arith}
use cppgraphqlgen.Base.Text.{Bytes}
use cppgraphqlgen.Base.Order.{StrictOrder, bytes_lt-StrictOrder}
use cppgraphqlgen.SortedMap.{shorter_or_less}

shorter_or_less_irrefl : (a : Bytes) → shorter_or_less a a ≡ false
unfolding shorter_or_less
shorter_or_less_irrefl a = ground (arith, bytes_lt-StrictOrder.irreflexive a)

shorter_or_less_trans :
    (a b c : Bytes)
    → shorter_or_less a b ≡ true
    → shorter_or_less b c ≡ true
    → shorter_or_less a c ≡ true
unfolding shorter_or_less
shorter_or_less_trans a b c h k = ground (arith, bytes_lt-StrictOrder.transitive a b c)

shorter_or_less_connected :
    (a b : Bytes) → shorter_or_less a b ≡ false → shorter_or_less b a ≡ false → a ≡ b
unfolding shorter_or_less
shorter_or_less_connected a b h k = ground (arith, bytes_lt-StrictOrder.connected a b)

-- `shorter_or_less` is irreflexive and transitive, and texts that it orders neither way are equal.
pub shorter_or_less-StrictOrder : StrictOrder shorter_or_less
shorter_or_less-StrictOrder = record {
  irreflexive = shorter_or_less_irrefl;
  transitive = shorter_or_less_trans;
  connected = shorter_or_less_connected;
}
