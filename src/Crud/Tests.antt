-- ===== src/Crud/Tests.antt =====
-- Runs of the statements, and the theorems at concrete inputs. The numbers of JSON are ℕ here.
use Prim.Native.String.{String}
use rbatis.Crud.Batches.{objects, row_values, IsPlainKeys, save_batch-marks}
use rbatis.Crud.Fields.{
  Table, push_keys, default_fields, date_convert, is_date, sql_value, push_values, make_sql_arg,
  make_fields, make_field_value_map, to_snake_name, snake_from, last_name, default_name,
}
use rbatis.Crud.Rows.{values, make_sql_arg-marks}
use rbatis.Crud.Statements.{
  Rbatis, Statement, make_where_sql, make_select_sql, linked, delete_sql, save, push_rows,
  save_batch, remove_by_id, remove_batch_by_id, remove_by_wrapper, update_by_id, update_by_wrapper,
  push_sets, link_where, find_key,
}
use rbatis.Engine.Tokens.{utf8_len, utf8_width}
use rbatis.Driver.{mysql, postgres, stmt_convert}
use rbatis.Json.{
  Value, Fields, null, number, string, object, field, end, entries, is_null, is_string,
}
use rbatis.LogicDelete.{RbatisLogicDeletePlugin, create_sql, has_field}
use rbatis.LogicDelete as LogicDelete
use rbatis.Text.Count.{count}
use rbatis.Text.Signed.{decimal_ℤ}
use rbatis.Wrapper as Builder
use rbatis.Prelude.{ℕ, ◌≡◌, refl, none, some, [], ◌∷◌, ◌++◌, length, ok, Outcome, ltb, ◌&&◌, ◌+◌}
use rbatis.Text.{
  Str, codes, pop, str_eq, is_empty, strip_prefix, starts_with, ends_with, decimal, contains,
  replace_from, replace, split_from, split, trim_start, strip_all, trim_start_matches,
  trim_end_matches,
}

crud : Unit {0}
unfolding push_keys default_fields date_convert is_date sql_value push_values make_sql_arg
    make_fields make_field_value_map make_where_sql make_select_sql linked delete_sql save push_rows
    save_batch remove_by_id remove_batch_by_id remove_by_wrapper update_by_id update_by_wrapper
    push_sets link_where find_key stmt_convert is_null is_string create_sql has_field
    LogicDelete.new decimal_ℤ decimal to_snake_name snake_from Builder.new Builder.from
    Builder.add_and Builder.trim_and Builder.trim_or Builder.check Builder.is_linked Builder.bound
    Builder.bind_each Builder.bound_list Builder.in_array Builder.and Builder.renumber
    Builder.right_link Builder.right_link_wrapper str_eq is_empty pop contains split split_from
    replace replace_from starts_with ends_with strip_prefix strip_all trim_start trim_start_matches
    trim_end_matches objects row_values IsPlainKeys values
crud = tt

abbrev row : ℕ → Fields ℕ
row n =
    field (codes "create_time") (string (codes "2020-02-09"))
      (field (codes "id") (number n) (field (codes "name") null end))

abbrev table : Table
table = record { table_name = codes "biz_activity"; table_fields = codes " create_time,id,name " }

abbrev plain : Rbatis
plain = record { driver_type = ok postgres; logic_plugin = none }

-- The table of a type, with the letters of ASCII.
abbrev name_of : Str → Outcome Str
name_of = default_name (λ c. ltb 64 c && ltb c 91) (λ c. (c + 32) ∷ [])

batch_test :
    save_batch plain table (objects (row 1 ∷ row 2 ∷ []))
    ≡ ok (
        some (record {
          sql =
              codes "INSERT INTO biz_activity (create_time,id,name) VALUES "
              ++ codes "(cast( $1  as timestamp), $2 , $3 ),(cast( $4  as timestamp), $5 , $6 )";
          args =
              string (codes "2020-02-09")
              ∷ number 1
              ∷ null
              ∷ string (codes "2020-02-09")
              ∷ number 2
              ∷ null
              ∷ [];
        }))
unfolding crud
batch_test = refl

-- The column is found in the middle of the list of columns, and not at its end.
abbrev deleting : String → Rbatis
deleting column = record {
  driver_type = ok mysql;
  logic_plugin = some (LogicDelete.new (codes column));
}

delete_test :
    (remove_by_id {N = ℕ} (deleting "id") table (codes "7")
      ≡ ok (record { sql = codes "UPDATE biz_activity SET id = 0 WHERE id = 7"; args = [] }))
    × (remove_by_id {N = ℕ} (deleting "name") table (codes "7")
        ≡ ok (record { sql = codes "DELETE FROM biz_activity WHERE id = 7"; args = [] }))
unfolding crud
delete_test = (refl, refl)

-- A capital letter is a small one behind `_`, but not at either end.
name_test :
    (name_of (codes "app::BizActivity") ≡ ok (codes "biz_activity"))
    × (name_of (codes "DataA") ≡ ok (codes "dataa"))
unfolding crud last_name default_name utf8_len utf8_width
name_test = (refl, refl)

-- The default of the columns has blanks at both ends.
fields_test : default_fields (some (object (row 1))) ≡ codes " create_time,id,name "
unfolding crud
fields_test = refl

abbrev changed : Value ℕ
changed = object (
    field (codes "a") (number 1) (field (codes "b") (number 2) (field (codes "id") (number 3) end)))

-- The condition keeps its link word, and its placeholder names the second argument, not the third.
update_test :
    update_by_id plain table changed
    ≡ ok (record {
      sql = codes "UPDATE biz_activity SET  a =  $1 , b =  $2  WHERE  AND id =  $2 ";
      args = number 1 ∷ number 2 ∷ number 3 ∷ [];
    })
unfolding crud
update_test = refl

make_sql_arg_test :
    (s : Str) × (make_sql_arg 3 postgres (entries (row 1)) ≡ ok (s, values (entries (row 1)), 6))
    × (count b'$' s ≡ 3)
unfolding crud
make_sql_arg_test = make_sql_arg-marks postgres (cc) 3 (entries (row 1))

save_batch-marks_example :
    (statement : Statement ℕ) × (save_batch plain table (objects (row 1 ∷ row 2 ∷ []))
      ≡ ok (some statement))
    × (statement.args ≡ row_values (row 1 ∷ row 2 ∷ []))
    × (count b'$' statement.sql ≡ length statement.args)
unfolding crud
save_batch-marks_example =
    save_batch-marks postgres (cc) plain refl table (row 1) (row 2 ∷ []) refl (refl, (refl, tt))
