-- ===== src/Decode/Tests.antt =====
-- Decoding of concrete rows, and the theorem at a concrete input. The numbers of JSON are ℕ here, and
-- a text is printed between quotes.
use rbatis.Decode.{
  is_one_of, starts_with_one_of, is_array, is_single, is_text, too_many, first_row, one_row,
  first_column, column_of, js_of, decode_result, json_decode,
}
use rbatis.Decode.Totals.{total_type, fetch_page-json_decode}
use rbatis.Driver.{DriverType}
use rbatis.Json.{Value, null, number, string, object, field, end}
use rbatis.Page.{IPageRequest}
use rbatis.Session.{Database, Session, find_tx, with_world}
use rbatis.Session.Paging.{fetch_page}
use rbatis.Session.Prepared.{
  Queries, driver_type, acquired, and_then, bind_values, bind_arg, decoded, fetch_prepare_found,
  fetch_bound, fetch_prepare,
}
use rbatis.Prelude.{
  ℕ, ◌+◌, ◌≡◌, refl, true, Option, none, some, List, [], ◌∷◌, ◌++◌, Outcome, ok, err,
}
use rbatis.Text.{Str, codes, str_eq, is_empty, starts_with, strip_prefix, decimal}

-- What serde_json prints.
abbrev to_string : Value ℕ → Str
to_string (number n) = decimal n
to_string (string s) = codes "\"" ++ s ++ codes "\""
to_string _ = codes "null"

abbrev to_total : Value ℕ → Outcome (Option ℕ)
to_total (number n) = ok (some n)
to_total null = ok none
to_total _ = err (codes "not a number")

abbrev row : ℕ → Value ℕ
row n = object (field (codes "count(1)") (number n) end)

abbrev name_row : Value ℕ
name_row = object (field (codes "name") (string (codes "ann")) end)

decoding : Unit {0}
unfolding is_one_of starts_with_one_of is_array is_single is_text too_many first_row one_row
    first_column column_of js_of decode_result json_decode str_eq starts_with strip_prefix decimal
decoding = tt

total_tests :
    (json_decode to_string to_total total_type (row 7 ∷ []) ≡ ok (some 7))
    × (json_decode to_string to_total total_type [] ≡ ok none)
    × (json_decode to_string to_total total_type (row 7 ∷ row 8 ∷ [])
        ≡ err (
            codes "[rbatis] rows.affected_rows > 1,but decode one result("
            ++ codes "core::option::Option<u64>)!"))
    × (json_decode to_string to_total total_type (name_row ∷ [])
        ≡ err (codes "[rbatis] json decode: core::option::Option<u64>, fail:not a number"))
unfolding decoding
total_tests = (refl, refl, refl, refl)

-- A column is handed to `String` with the quotes around it, and to `Option<String>` without them.
text_tests :
    (js_of to_string (codes "alloc::string::String") (name_row ∷ [])
      ≡ ok (string (codes "\"ann\"")))
    × (js_of to_string (codes "core::option::Option<alloc::string::String>") (name_row ∷ [])
        ≡ ok (string (codes "ann")))
unfolding decoding
text_tests = (refl, refl)

abbrev counting : Database ℕ ℕ
counting = record {
  acquire = λ w. (ok 1, w);
  begin_tx = λ w. (ok w, w);
  commit_tx = λ conn w. (ok conn, w);
  rollback_tx = λ conn w. (ok conn, w);
  execute = λ conn sql w. (ok conn, w + 1);
}

-- A query of two groups.
abbrev queries : Queries ℕ ℕ Str ℕ
queries = record {
  pool_driver = DriverType.mysql;
  make_query = λ sql. ok sql;
  bind_value = λ q v. q;
  execute_parperd = λ conn q w. (ok conn, w + 1);
  fetch_rows = λ conn sql w. (ok [], w + 1);
  fetch_parperd = λ conn q w. (ok (row 7 ∷ row 8 ∷ []), w + 1);
}

abbrev page_sql : DriverType → Str → IPageRequest → Outcome (Str × Str)
page_sql driver sql page = ok (codes "SELECT count(1) FROM t GROUP BY name", sql)

abbrev decode_rows : List (Value ℕ) → Outcome (Option (List (Value ℕ)))
decode_rows rows = ok (some rows)

abbrev request : IPageRequest
request = record { get_size = 10; get_current = 1; get_total = 0; is_serch_count = true }

abbrev opened : ℕ → Session ℕ ℕ
opened w = record { pool = true; context = []; world = w }

fetch_page-json_decode_example :
    fetch_page counting queries page_sql
      (json_decode to_string to_total total_type)
      decode_rows
      []
      (codes "SELECT name FROM t GROUP BY name")
      []
      request
      (opened 0)
    ≡ (err (too_many total_type), opened 1)
unfolding driver_type acquired and_then bind_values bind_arg decoded fetch_prepare_found fetch_bound
    fetch_prepare find_tx with_world is_empty
fetch_page-json_decode_example =
    fetch_page-json_decode counting queries page_sql to_string to_total decode_rows []
      (codes "SELECT name FROM t GROUP BY name") (codes "SELECT count(1) FROM t GROUP BY name")
      (codes "SELECT name FROM t GROUP BY name") [] (row 7 ∷ row 8 ∷ []) request (opened 0)
      (opened 1) refl refl refl refl
