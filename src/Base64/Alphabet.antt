-- ===== src/Base64/Alphabet.antt =====
-- The alphabet of Base64 is read back by the table that wrote it.
use cppgraphqlgen.Base.{ℕ, ◌<◌, ◌≡◌, refl, false, ◌⊎◌, arith, ◌==◌}
use cppgraphqlgen.Base.Outcome.{ok}
use cppgraphqlgen.Base64.{
  from_base64_char, to_base64_char, verify_from_base64, verify_to_base64, padding,
}

pub from_base64_char-to_base64_char : (i : ℕ) → i < 64 → from_base64_char (to_base64_char i) ≡ i
unfolding from_base64_char to_base64_char
from_base64_char-to_base64_char i h = ground arith

pub from_base64_char_range : (ch : ℕ) → (from_base64_char ch < 64) ⊎ (from_base64_char ch ≡ 0xFF)
unfolding from_base64_char
from_base64_char_range ch = ground arith

pub to_base64_char-ne-padding : (i : ℕ) → i < 64 → (to_base64_char i == padding) ≡ false
unfolding to_base64_char
to_base64_char-ne-padding i h = ground arith

-- to_base64_char reads back what from_base64_char reads.
pub to_base64_char-from_base64_char :
    (ch : ℕ) → from_base64_char ch < 64 → to_base64_char (from_base64_char ch) ≡ ch
unfolding from_base64_char to_base64_char
to_base64_char-from_base64_char ch h = ground arith

pub verify_to_base64-ok : (i : ℕ) → i < 64 → verify_to_base64 i ≡ ok (to_base64_char i)
unfolding verify_to_base64
verify_to_base64-ok i h = rw (to_base64_char-ne-padding i h)

pub verify_from_base64-to_base64_char :
    (i : ℕ) → i < 64 → verify_from_base64 (to_base64_char i) ≡ ok i
unfolding verify_from_base64
verify_from_base64-to_base64_char i h = ground (arith, from_base64_char-to_base64_char i h)

-- The padding is no character of the alphabet.
pub from_base64_char-padding : from_base64_char padding ≡ 0xFF
unfolding from_base64_char
from_base64_char-padding = refl
