-- ===== src/Response.antt =====
-- response::Value of include/graphqlservice/GraphQLResponse.h and src/GraphQLResponse.cpp: the
-- variant `_data`, its type and its accessors. A vector of members or of elements grows at its
-- end, so it is built by pushing at the end. A std::shared_ptr<const Value> is never written
-- through, so it is the value that it points at.
pub mod Vectors
pub mod Access
pub mod MapIndex
pub mod Copy
pub mod Equality
pub mod Modify
pub mod Writer
pub mod SetGet
mod Examples
use cppgraphqlgen.Base.{ℕ, Bool, true, false, List, []}
use cppgraphqlgen.Base.Text.{Bytes}
use cppgraphqlgen.Base.Int.{ℤ, pos}
use cppgraphqlgen.Base.Double.{Double}
use cppgraphqlgen.IdType.{IdType, empty_id}

-- enum class Type, without the prefix
pub data ValueType : Type 0 where
  map_type list_type string_type null_type boolean_type int_type : ValueType
  float_type enum_value_type id_type scalar_type : ValueType

-- `string_data` has the flags from_json and from_input; a scalar is a pointer that may be null.
mutual
  pub data Value : Type 0 where
    map_data : Members → List ℕ → Value
    list_data : Items → Value
    string_data : Bytes → Bool → Bool → Value
    null_data : Value
    boolean : Bool → Value
    int : ℤ → Value
    float : Double → Value
    enum_data : Bytes → Value
    id : IdType → Value
    scalar_data : Value → Value
    null_scalar : Value
    shared_data : Value → Value

  -- MapType: std::vector<std::pair<std::string, Value>>
  pub data Members : Type 0 where
    no_members : Members
    push_member : Members → Bytes → Value → Members

  -- ListType: std::vector<Value>
  pub data Items : Type 0 where
    no_items : Items
    push_item : Items → Value → Items

-- Value::Value(Type)
unfoldable pub make_value : ValueType → Value
make_value map_type = map_data no_members []
make_value list_type = list_data no_items
make_value string_type = string_data [] false false
make_value boolean_type = boolean false
make_value int_type = int (pos 0)
make_value float_type = float 0
make_value enum_value_type = enum_data []
make_value id_type = id empty_id
make_value scalar_type = null_scalar
make_value null_type = null_data

-- The constructors from a C string and from a std::string.
abbrev pub string_value : Bytes → Value
string_value value = string_data value false false

-- Value::data: what all levels of sharing lead to
unfoldable pub resolve : Value → Value
resolve (shared_data v) = resolve v
resolve (map_data ms members) = map_data ms members
resolve v = v

-- Value::typeOf
unfoldable pub type_of : Value → ValueType
type_of (shared_data v) = type_of v
type_of (map_data ms members) = map_type
type_of (list_data xs) = list_type
type_of (string_data s from_json from_input) = string_type
type_of null_data = null_type
type_of (boolean b) = boolean_type
type_of (int i) = int_type
type_of (float d) = float_type
type_of (enum_data s) = enum_value_type
type_of (id x) = id_type
type_of (scalar_data v) = scalar_type
type_of null_scalar = scalar_type

-- Value::from_json and Value::from_input mark a string; a shared one is left alone.
unfoldable pub from_json : Value → Value
from_json (string_data s json input) = string_data s true input
from_json v = v

unfoldable pub from_input : Value → Value
from_input (string_data s json input) = string_data s json true
from_input v = v
