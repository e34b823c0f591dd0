-- ===== src/Crud/SessionTests.antt =====
-- Runs of CRUD on a session whose database counts its statements, and the theorems at concrete
-- inputs. A query is its text and what is bound to it.
use rbatis.Crud.Fields.{Table, make_field_value_map}
use rbatis.Crud.Session.{
  to_ids, exec_statement, exec_some, update_by_id, update_rows, update_batch_by_id,
  remove_batch_by_id, fetch_statement, fetch_by_id,
}
use rbatis.Crud.Statements as Statements
use rbatis.Crud.Updates.{update_batch_by_id-append}
use rbatis.Driver.{DriverType, stmt_convert}
use rbatis.Json.{Value, number, object, field, end, is_null}
use rbatis.Session.{Database, Session, find_tx, with_world}
use rbatis.Session.Prepared.{
  Queries, driver_type, acquired, and_then, bind_values, bind_arg, exec_prepare_found, exec_bound,
  exec_prepare, decoded, fetch_prepare_found, fetch_bound, fetch_prepare,
}
use rbatis.Text.Signed.{decimal_ℤ}
use rbatis.Wrapper as Builder
use rbatis.Prelude.{ℕ, ◌+◌, ◌≡◌, refl, true, Option, none, some, List, [], ◌∷◌, ◌++◌, ok, err}
use rbatis.Text.{
  Str, codes, pop, str_eq, is_empty, strip_prefix, starts_with, ends_with, decimal, contains,
  replace_from, replace, trim_start, strip_all, trim_start_matches, trim_end_matches,
}

abbrev counting : Database ℕ ℕ
counting = record {
  acquire = λ w. (ok 1, w);
  begin_tx = λ w. (ok w, w);
  commit_tx = λ conn w. (ok conn, w);
  rollback_tx = λ conn w. (ok conn, w);
  execute = λ conn sql w. (ok conn, w + 1);
}

abbrev queries : Queries ℕ ℕ (Str × List (Value ℕ)) ℕ
queries = record {
  pool_driver = DriverType.mysql;
  make_query = λ sql. ok (sql, []);
  bind_value = λ q v. (q.0, q.1 ++ v ∷ []);
  execute_parperd = λ conn q w. (ok conn, w + 1);
  fetch_rows = λ conn sql w. (ok [], w + 1);
  fetch_parperd = λ conn q w. (ok q.1, w + 1);
}

abbrev table : Table
table = record { table_name = codes "t"; table_fields = codes "id,a" }

abbrev opened : ℕ → Session ℕ ℕ
opened w = record { pool = true; context = []; world = w }

crud : Unit {0}
unfolding exec_statement exec_some update_by_id update_rows update_batch_by_id remove_batch_by_id
    fetch_statement fetch_by_id find_tx driver_type acquired and_then bind_values bind_arg
    exec_prepare_found exec_bound exec_prepare decoded fetch_prepare_found fetch_bound fetch_prepare
    Statements.make_where_sql Statements.make_select_sql Statements.linked Statements.delete_sql
    Statements.remove_batch_by_id Statements.remove_by_wrapper Statements.update_by_id
    Statements.update_by_wrapper Statements.push_sets Statements.link_where Statements.find_key
    Statements.fetch_by_id Statements.fetch_by_wrapper stmt_convert is_null decimal_ℤ decimal
    Builder.new Builder.from Builder.add_and Builder.trim_and Builder.trim_or Builder.check
    Builder.is_linked Builder.bound Builder.bind_each Builder.bound_list Builder.in_array
    Builder.and Builder.renumber Builder.right_link Builder.right_link_wrapper str_eq is_empty pop
    contains replace replace_from starts_with ends_with strip_prefix strip_all trim_start
    trim_start_matches trim_end_matches to_ids make_field_value_map with_world
crud = tt

abbrev complete : ℕ → Value ℕ
complete id = object (field (codes "a") (number 5) (field (codes "id") (number id) end))

abbrev without_id : Value ℕ
without_id = object (field (codes "a") (number 5) end)

-- A row without an id has none among the ids.
to_ids_test :
    to_ids {C = ℕ × Option ℕ} (λ item. item.1) ((1, some 7) ∷ (2, none) ∷ (3, some 9) ∷ [])
    ≡ 7 ∷ 9 ∷ []
unfolding crud
to_ids_test = refl

-- Two rows are two statements.
update_rows_test :
    update_batch_by_id counting queries none table [] (complete 1 ∷ complete 2 ∷ []) (opened 0)
    ≡ (ok 2, opened 2)
unfolding crud
update_rows_test = refl

-- No ids are no statement.
remove_none_test :
    remove_batch_by_id {N = ℕ} counting queries none table [] [] (opened 0) ≡ (ok 0, opened 0)
unfolding crud
remove_none_test = refl

-- The id is bound to the query.
fetch_by_id_test :
    fetch_by_id counting queries none table ok [] (number 3) (opened 0)
    ≡ (ok (number 3 ∷ []), opened 1)
unfolding crud
fetch_by_id_test = refl

update_batch_by_id-append_example :
    update_batch_by_id counting queries none table []
      (complete 1 ∷ without_id ∷ complete 2 ∷ [])
      (opened 0)
    ≡ (err (codes "[rbaits] arg not have \"id\" field! "), opened 1)
unfolding crud
update_batch_by_id-append_example =
    update_batch_by_id-append counting queries none table []
      (codes "[rbaits] arg not have \"id\" field! ") (complete 1 ∷ []) (complete 2 ∷ []) without_id
      (opened 0) (opened 1) (opened 1) 1 refl refl
