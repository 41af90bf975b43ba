-- ===== src/Json/Examples.antt =====
-- JSON of a map of two members, with a RapidJSON that keeps the calls as its text.
use cppgraphqlgen.Base.{ℕ, ◌≡◌, refl, List, [], ◌∷◌, map, arith}
use cppgraphqlgen.Base.Text.{codes}
use cppgraphqlgen.Base.Int.{pos}
use cppgraphqlgen.Base.Outcome.{◌>>=◌}
use cppgraphqlgen.Response.{Value, Members, map_data, int, enum_data, no_members, push_member}
use cppgraphqlgen.Response.Writer.{WriterCall, write}
use cppgraphqlgen.Json.{Callback, to_json, parse_json}
use cppgraphqlgen.Json.Meaning.{as_json}
use cppgraphqlgen.Json.Machine.{callback, HasInts}
use cppgraphqlgen.Json.Machine.Agreement.{Agree}
use cppgraphqlgen.Json.Machine.Induction.{Agree-write}
use cppgraphqlgen.Json.RoundTrip.{ReadsBack, parse_json-to_json}

abbrev members : Members
members =
    push_member (push_member no_members (codes "name") (enum_data (codes "RED"))) (codes "id")
      (int (pos 1))

abbrev index : List ℕ
index = 1 ∷ 0 ∷ []

abbrev object : Value
object = map_data members index

-- A text that is the calls themselves, and the reader for it.
abbrev keep : List WriterCall → List WriterCall
keep calls = calls

abbrev read_kept : List WriterCall → List Callback
read_kept calls = map callback calls

object-HasInts : HasInts object
unfolding HasInts
object-HasInts = ((tt, tt), omega arith)

kept_back : ReadsBack keep read_kept object
kept_back = λ calls written. refl

Agree-write_example : Agree (write object) (as_json object)
Agree-write_example = Agree-write object object-HasInts

parse_json-to_json_example : (to_json keep object >>= parse_json read_kept) ≡ as_json object
parse_json-to_json_example = parse_json-to_json keep read_kept object kept_back object-HasInts
