-- ===== src/Base64/Examples.antt =====
-- src/Base64.cpp on concrete texts and bytes.
use cppgraphqlgen.Base.{◌≡◌, refl, length, if◌then◌else◌}
use cppgraphqlgen.Base.Text.{Bytes}
use cppgraphqlgen.Base.Outcome.{ok, throw, undefined_behaviour, ◌>>=◌, is_ok}
use cppgraphqlgen.Base64.{from_base64, to_base64}
use cppgraphqlgen.Base64.Samples.{many, many-AreBytes, many_text, many_decodes, stray_bits}
use cppgraphqlgen.Base64.RoundTrip.{encoded_length, from_base64-to_base64, length-to_base64}
use cppgraphqlgen.Base64.Canonical.{to_base64-from_base64}
use cppgraphqlgen.Base64.Validate.{validate_base64, validate_base64-is_ok}
use cppgraphqlgen.Base64.Compare.{compare_base64}
use cppgraphqlgen.Base64.Compare.RunsPast.{runs_past}
use cppgraphqlgen.Base64.Compare.Reference.{compare_base64-eq-decode_and_compare}
use cppgraphqlgen.Base64.Compare.Partial.{decode_and_compare}

from_base64-to_base64_example : (to_base64 many >>= from_base64) ≡ ok many
from_base64-to_base64_example = from_base64-to_base64 many many-AreBytes

length-to_base64_example :
    (text : Bytes) × (to_base64 many ≡ ok text) × (length text ≡ encoded_length (length many))
length-to_base64_example = length-to_base64 many many-AreBytes

to_base64-from_base64_example : to_base64 many ≡ ok many_text
to_base64-from_base64_example = to_base64-from_base64 many_text many_decodes refl

validate_base64-is_ok_example : validate_base64 stray_bits ≡ is_ok (from_base64 stray_bits)
validate_base64-is_ok_example = validate_base64-is_ok stray_bits

compare_base64-eq-decode_and_compare_example : compare_base64 many many_text ≡ (
    if runs_past many many_text
    then throw undefined_behaviour
    else ok (decode_and_compare many many_text))
compare_base64-eq-decode_and_compare_example = compare_base64-eq-decode_and_compare many many_text
