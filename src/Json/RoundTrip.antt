-- ===== src/Json/RoundTrip.antt =====
-- parseJSON after toJSON.
use cppgraphqlgen.Base.{List, [], append-nil, map, ◌≡◌, refl, ap}
use cppgraphqlgen.Base.Outcome.{Outcome, ok, throw, ◌>>=◌}
use cppgraphqlgen.Response.{Value, type_of}
use cppgraphqlgen.Response.Writer.{WriterCall, write}
use cppgraphqlgen.Json.{
  string_writer, Callback, get_response, set_value, run, initial, to_json, parse_json,
}
use cppgraphqlgen.Json.Meaning.{as_json}
use cppgraphqlgen.Json.Machine.{callbacks, HasInts}
use cppgraphqlgen.Json.Machine.Agreement.{Agree}
use cppgraphqlgen.Json.Machine.Induction.{Agree-write}

module _ {Json : Type 0} (print : List WriterCall → Json) (read : Json → List Callback) where
  -- RapidJSON reads back what it was told to write for the value.
  abbrev pub ReadsBack : Value → Type 0
  ReadsBack v =
      (calls : List WriterCall)
      → write v ≡ ok calls
      → read (print (map string_writer calls)) ≡ callbacks calls

  read_back :
      (m : Outcome (List WriterCall)) (r : Outcome Value)
      → Agree m r
      → ((calls : List WriterCall)
          → m ≡ ok calls
          → read (print (map string_writer calls)) ≡ callbacks calls)
      → ((m >>= λ calls. ok (print (map string_writer calls))) >>= parse_json read) ≡ r
  unfolding parse_json get_response set_value type_of run
  read_back (ok calls) (ok w) h reads = rw (reads calls refl) (
      ap (λ r. r >>= λ handler. get_response handler >>= λ popped. ok popped.0)
        (rw append-nil at (h [] initial)))
  read_back (throw e) (throw e') h reads = ap throw h
  read_back (ok calls) (throw e) h reads = absurd h
  read_back (throw e) (ok w) h reads = absurd h

  -- If RapidJSON reads back what it was told to write for a value with 32-bit ints, then parsing the
  -- JSON of the value gives what the value reads as, and throws exactly what toJSON throws.
  pub parse_json-to_json :
      (v : Value) → ReadsBack v → HasInts v → (to_json print v >>= parse_json read) ≡ as_json v
  unfolding to_json
  parse_json-to_json v reads h = read_back (write v) (as_json v) (Agree-write v h) reads
