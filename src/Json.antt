-- ===== src/Json.antt =====
-- src/JSONResponse.cpp: StringWriter, which hands the calls of a Writer to RapidJSON, the
-- ResponseHandler, a stack machine that RapidJSON's reader drives, toJSON and parseJSON.
-- RapidJSON is not part of the sources: its writer and reader are the parameters of toJSON and
-- parseJSON.
pub mod Meaning
pub mod Machine
pub mod RoundTrip
pub mod View
mod Examples
use cppgraphqlgen.Base.{
  ℕ, ◌-◌, ◌^◌, Bool, true, false, List, [], ◌∷◌, map, ltb, ◌==◌, if◌then◌else◌,
}
use cppgraphqlgen.Base.Text.{Bytes}
use cppgraphqlgen.Base.Int.{ℤ, pos}
use cppgraphqlgen.Base.Double.{Double, double_of_int}
use cppgraphqlgen.Base.Outcome.{Outcome, ok, throw, undefined_behaviour, ◌>>=◌}
use cppgraphqlgen.Response.{
  Value, map_type, list_type, int_type, float_type, null_data, boolean, string_value, make_value,
  type_of, from_json,
}
use cppgraphqlgen.Response.Modify.{emplace_back, emplace_back_item, set_int, set_float}
use cppgraphqlgen.Response.Writer.{
  WriterCall, start_object, end_object, start_array, end_array, write_null, add_member,
  write_string, write_bool, write_int, write_float, write,
}

-- What a callee reads of a std::string through c_str(): the text before the first NUL.
unfoldable pub c_string : Bytes → Bytes
c_string [] = []
c_string (c ∷ s) = let rest = c_string s in if c == 0 then [] else c ∷ rest

-- StringWriter: the calls to rapidjson::Writer, with the text of keys and strings as c_str().
unfoldable pub string_writer : WriterCall → WriterCall
string_writer (add_member key) = add_member (c_string key)
string_writer (write_string value) = write_string (c_string value)
string_writer call = call

-- The callbacks of a RapidJSON reader.
pub data Callback : Type 0 where
  json_null json_start_object json_end_object json_start_array json_end_array : Callback
  json_bool : Bool → Callback
  json_int json_int64 : ℤ → Callback
  json_uint json_uint64 : ℕ → Callback
  json_double : Double → Callback
  json_string json_key : Bytes → Callback

-- ResponseHandler: `_keyStack` and `_responseStack`, each with its back first.
abbrev pub Handler : Type 0
Handler = List Bytes × List Value

abbrev pub initial : Handler
initial = ([], null_data ∷ [])

-- getResponse, which pops the response stack
unfoldable pub get_response : Handler → Outcome (Value × Handler)
get_response (keys, []) = throw undefined_behaviour
get_response (keys, response ∷ stack) = ok (response, (keys, stack))

unfoldable pub set_member : Value → List Bytes → Value → List Value → Outcome Handler
set_member value [] top stack = throw undefined_behaviour
set_member value (key ∷ keys) top stack = do
  grown ← emplace_back key value top
  ok (keys, grown.0 ∷ stack)

unfoldable pub set_value : Value → Handler → Outcome Handler
unfolding set_member
set_value value (keys, []) = throw undefined_behaviour
set_value value (keys, top ∷ stack) = elim (type_of top) [
  | map_type ↦ set_member value keys top stack
  | list_type ↦ do grown ← emplace_back_item value top; ok (keys, grown ∷ stack)
  | _ ↦ ok (keys, value ∷ stack)
]

unfoldable pub double : Double → Handler → Outcome Handler
double d handler = do value ← set_float d (make_value float_type); set_value value handler

unfoldable pub int : ℤ → Handler → Outcome Handler
int i handler = do value ← set_int i (make_value int_type); set_value value handler

-- std::numeric_limits<int>::max()
abbrev pub int_max : ℕ
int_max = 2 ^ 31 - 1

unfoldable pub step : Callback → Handler → Outcome Handler
unfolding double int
step json_null handler = set_value null_data handler
step (json_bool b) handler = set_value (boolean b) handler
step (json_int i) handler = int i handler
step (json_uint n) handler =
    if ltb int_max n then double (double_of_int (pos n)) handler else int (pos n) handler
step (json_int64 i) handler = double (double_of_int i) handler
step (json_uint64 n) handler = double (double_of_int (pos n)) handler
step (json_double d) handler = double d handler
step (json_string s) handler = set_value (from_json (string_value (c_string s))) handler
step json_start_object (keys, stack) = ok (keys, make_value map_type ∷ stack)
step (json_key s) (keys, stack) = ok (c_string s ∷ keys, stack)
step json_end_object handler = do popped ← get_response handler; set_value popped.0 popped.1
step json_start_array (keys, stack) = ok (keys, make_value list_type ∷ stack)
step json_end_array handler = do popped ← get_response handler; set_value popped.0 popped.1

-- The reader makes its callbacks in turn.
unfoldable pub run : List Callback → Handler → Outcome Handler
run [] handler = ok handler
run (callback ∷ callbacks) handler = do next ← step callback handler; run callbacks next

module _ {Json : Type 0} where
  -- `print` is rapidjson::Writer: the text for a sequence of calls.
  unfoldable pub to_json : (print : List WriterCall → Json) → Value → Outcome Json
  to_json print response = do calls ← write response; ok (print (map string_writer calls))

  -- `read` is rapidjson::Reader: the callbacks that it makes for a text.
  unfoldable pub parse_json : (read : Json → List Callback) → Json → Outcome Value
  parse_json read json = do
    handler ← run (read json) initial
    popped ← get_response handler
    ok popped.0
