-- ===== src/Crud/Fields.antt =====
-- src/crud.rs: the trait `CRUDEnable`, the columns and the values of a row. A row is its JSON value;
-- serde_json's maps list their entries in the order of the keys.
use rbatis.Driver.{DriverType, postgres, stmt_convert}
use rbatis.Engine.Tokens.{utf8_len}
use rbatis.Json.{Value, null, object, entries, is_string}
use rbatis.Prelude.{
  ℕ, ◌+◌, Bool, ◌&&◌, ◌||◌, Option, some, List, [], ◌∷◌, ◌++◌, ◌==◌, if◌then◌else◌, Outcome, ok,
  err, panic, ◌>>=◌,
}
use rbatis.Text.{Str, codes, pop, contains, split, trim_end_matches}

-- What a type says of its table: `table_name` and `table_fields`, which it may overwrite.
pub record Table : Type 0 where
  pub table_name : Str
  pub table_fields : Str

-- `names.get(names.len() - 1).unwrap()`
unfoldable pub last_name : List Str → Outcome Str
last_name [] = panic
last_name (name ∷ []) = ok name
last_name (_ ∷ name ∷ names) = last_name (name ∷ names)

module _ (is_uppercase : ℕ → Bool) (to_lowercase : ℕ → Str) where
  -- The loop of `to_snake_name`: `index` counts characters, `chs_len` bytes.
  unfoldable pub snake_from : ℕ → ℕ → Str → Str
  snake_from chs_len index [] = []
  snake_from chs_len index (x ∷ s) =
      let rest = snake_from chs_len (index + 1) s in
      if is_uppercase x
      then (if index == 0 || index + 1 == chs_len
          then to_lowercase x ++ rest
          else codes "_" ++ to_lowercase x ++ rest)
      else x ∷ rest

  unfoldable pub to_snake_name : Str → Str
  to_snake_name name = snake_from (utf8_len name) 0 name

  -- The default of `table_name`, for the name of the type with its path.
  unfoldable pub default_name : Str → Outcome Str
  default_name type_name = do
    name ← last_name (split type_name (codes "::"))
    ok (to_snake_name name)

module _ {N : Type 0} where
  unfoldable pub push_keys : List (Str × Value N) → Str
  push_keys [] = []
  push_keys ((k, v) ∷ m) = k ++ codes "," ++ push_keys m

  -- The default of `table_fields`, for the JSON value of an empty row, if "{}" decodes to one.
  unfoldable pub default_fields : Option (Value N) → Str
  default_fields (some (object m)) = codes " " ++ pop (push_keys (entries m)) ++ codes " "
  default_fields _ = codes " * "

  unfoldable pub make_field_value_map : Value N → Outcome (List (Str × Value N))
  make_field_value_map null = err (codes "[rbaits] to_value_map() fail!")
  make_field_value_map (object m) = ok (entries m)
  make_field_value_map _ = err (codes "[rbaits] to_value_map() fail,data is not an object!")

  unfoldable pub make_fields : List (Str × Value N) → Str
  make_fields m = trim_end_matches (push_keys m) (codes ",")

  unfoldable pub date_convert : DriverType → Value N → ℕ → Outcome (Str × Value N)
  date_convert postgres value index = do
    mark ← stmt_convert postgres index
    ok (codes "cast(" ++ mark ++ codes " as timestamp)", value)
  date_convert d value index = do mark ← stmt_convert d index; ok (mark, value)

  unfoldable pub is_date : Str → Value N → Bool
  is_date k v = (contains k (codes "time") || contains k (codes "date")) && is_string v

  -- One value's text and argument.
  unfoldable pub sql_value : DriverType → ℕ → Str → Value N → Outcome (Str × Value N)
  sql_value d index k v =
      if is_date k v
      then date_convert d v index
      else (stmt_convert d index >>= λ mark. ok (mark, v))

  -- The loop of `make_sql_arg`: the text with its commas, the arguments, and the next index.
  unfoldable pub push_values :
      DriverType
      → List (Str × Value N)
      → ℕ
      → Str
      → List (Value N)
      → Outcome (Str × List (Value N) × ℕ)
  push_values d [] index sql arr = ok (sql, arr, index)
  push_values d ((k, v) ∷ m) index sql arr = do
    (new_sql, new_value) ← sql_value d index k v
    push_values d m (index + 1) (sql ++ new_sql ++ codes ",") (arr ++ new_value ∷ [])

  unfoldable pub make_sql_arg :
      ℕ → DriverType → List (Str × Value N) → Outcome (Str × List (Value N) × ℕ)
  make_sql_arg index d m = do
    (sql, arr, next) ← push_values d m index [] []
    ok (pop sql, arr, next)
