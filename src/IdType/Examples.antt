-- ===== src/IdType/Examples.antt =====
-- IdType on concrete identifiers.
use cppgraphqlgen.Base.{Bool, ◌≡◌, ◌↔◌, true, [], ◌∷◌, if◌then◌else◌}
use cppgraphqlgen.Base.Outcome.{ok, throw, undefined_behaviour}
use cppgraphqlgen.Base64.{from_base64}
use cppgraphqlgen.Base64.Samples.{tq, tq_decodes}
use cppgraphqlgen.Base64.Compare.RunsPast.{runs_past}
use cppgraphqlgen.IdType.{byte_data, opaque_string, id_eq, id_lt, release_byte_data}
use cppgraphqlgen.IdType.Equality.{id_eq_iff}
use cppgraphqlgen.IdType.Order.{less_than_decoded, decoded_less_than, id_lt-decoded}

id_eq_iff_example :
    ((id_eq (byte_data (77 ∷ [])) (opaque_string tq) ≡ ok true) ↔ (from_base64 tq ≡ ok (77 ∷ [])))
    × ((id_eq (opaque_string tq) (byte_data (77 ∷ [])) ≡ ok true) ↔ (from_base64 tq ≡ ok (77 ∷ [])))
    × ((equal : Bool) × (id_eq (byte_data (77 ∷ [])) (byte_data tq) ≡ ok equal)
        × ((equal ≡ true) ↔ ((77 ∷ []) ≡ tq)))
    × ((equal : Bool) × (id_eq (opaque_string (77 ∷ [])) (opaque_string tq) ≡ ok equal)
        × ((equal ≡ true) ↔ ((77 ∷ []) ≡ tq)))
id_eq_iff_example = id_eq_iff (77 ∷ []) tq

id_lt-decoded_example :
    (id_lt (byte_data (3 ∷ [])) (opaque_string tq) ≡ (
      if runs_past (3 ∷ []) tq
      then throw undefined_behaviour
      else ok (less_than_decoded (3 ∷ []) (from_base64 tq))))
    × (id_lt (opaque_string tq) (byte_data (3 ∷ [])) ≡ (
        if runs_past (3 ∷ []) tq
        then throw undefined_behaviour
        else ok (decoded_less_than (from_base64 tq) (3 ∷ []))))
id_lt-decoded_example = id_lt-decoded (3 ∷ []) tq

tq_released : release_byte_data (opaque_string tq) ≡ ok (77 ∷ [])
unfolding release_byte_data
tq_released = tq_decodes
