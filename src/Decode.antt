-- ===== src/Decode.antt =====
-- rbatis-core/src/decode.rs: rows, which are JSON objects, as a value of a Rust type. The type is its
-- name; what serde_json makes of a value of the type, and the text it prints, are parameters.
pub mod Totals
mod Tests
use Prim.Native.String.{String}
use rbatis.Json.{Value, Fields, null, string, array, object, end, field, of_items}
use rbatis.Prelude.{
  ℕ, Bool, true, false, ◌||◌, List, [], ◌∷◌, ◌++◌, ltb, length, if◌then◌else◌, Outcome, ok, err,
  panic, ◌>>=◌,
}
use rbatis.Text.{Str, codes, str_eq, starts_with}

unfoldable pub is_one_of : List String → Str → Bool
is_one_of [] type_name = false
is_one_of (name ∷ names) type_name = str_eq type_name (codes name) || is_one_of names type_name

unfoldable pub starts_with_one_of : List String → Str → Bool
starts_with_one_of [] type_name = false
starts_with_one_of (start ∷ starts) type_name =
    starts_with type_name (codes start) || starts_with_one_of starts type_name

-- The types of many rows.
unfoldable pub is_array : Str → Bool
is_array = starts_with_one_of (
    "alloc::collections::linked_list" ∷ "alloc::vec::Vec<" ∷ "[" ∷ "&["
    ∷ "core::option::Option<alloc::collections::linked_list"
    ∷ "core::option::Option<alloc::vec::Vec<" ∷ "core::option::Option<[" ∷ "core::option::Option<&["
    ∷ [])

-- The types of one column.
unfoldable pub is_single : Str → Bool
is_single = is_one_of (
    "core::option::Option<i8>" ∷ "core::option::Option<i16>" ∷ "core::option::Option<i32>"
    ∷ "core::option::Option<i64>" ∷ "core::option::Option<u8>" ∷ "core::option::Option<u16>"
    ∷ "core::option::Option<u32>" ∷ "core::option::Option<u64>" ∷ "core::option::Option<f32>"
    ∷ "core::option::Option<f64>" ∷ "core::option::Option<serde_json::number::Number>"
    ∷ "core::option::Option<bigdecimal::BigDecimal>" ∷ "core::option::Option<bool>"
    ∷ "core::option::Option<alloc::string::String>" ∷ "i8" ∷ "i16" ∷ "i32" ∷ "i64" ∷ "u8" ∷ "u16"
    ∷ "u32" ∷ "u64" ∷ "f32" ∷ "f64" ∷ "serde_json::number::Number" ∷ "bigdecimal::BigDecimal"
    ∷ "bool" ∷ "alloc::string::String" ∷ [])

-- The types whose column is handed on as its text.
unfoldable pub is_text : Str → Bool
is_text = is_one_of ("alloc::string::String" ∷ "bigdecimal::BigDecimal" ∷ [])

unfoldable pub too_many : Str → Str
too_many type_name =
    codes "[rbatis] rows.affected_rows > 1,but decode one result(" ++ type_name ++ codes ")!"

module _ {N : Type 0} where
  unfoldable pub first_row : List (Value N) → Value N
  first_row [] = null
  first_row (x ∷ datas) = x

  -- At most one row.
  unfoldable pub one_row : Str → List (Value N) → Value N → Outcome (Value N)
  one_row type_name datas js = if ltb 1 (length datas) then err (too_many type_name) else ok js

module _ {N : Type 0} (to_string : Value N → Str) (type_name : Str) where
  unfoldable pub first_column : Fields N → Value N
  first_column end = null
  first_column (field k r arg) = if is_text type_name then string (to_string r) else r

  unfoldable pub column_of : List (Value N) → Value N
  column_of (object arg ∷ datas) = first_column arg
  column_of _ = null

  -- What is handed to serde_json.
  unfoldable pub js_of : List (Value N) → Outcome (Value N)
  js_of datas =
      if is_array type_name
      then ok (array (of_items datas))
      else if is_single type_name
      then one_row type_name datas (column_of datas)
      else if str_eq type_name (codes "serde_json::value::Value")
      then ok (array (of_items datas))
      else one_row type_name datas (first_row datas)

module _ {T : Type 0} where
  unfoldable pub decode_result : Str → Outcome T → Outcome T
  decode_result type_name (ok t) = ok t
  decode_result type_name (err e) =
      err (codes "[rbatis] json decode: " ++ type_name ++ codes ", fail:" ++ e)
  decode_result type_name panic = panic

module _ {N T : Type 0} (to_string : Value N → Str) (from_value : Value N → Outcome T)
    (type_name : Str) where
  unfoldable pub json_decode : List (Value N) → Outcome T
  json_decode datas =
      js_of to_string type_name datas >>= λ js. decode_result type_name (from_value js)
