-- ===== src/Session/Tests.antt =====
-- The theorems at concrete inputs, on a database that counts its statements and numbers its
-- connections.
use rbatis.Session.{
  Database, Session, find_tx, remove_tx, insert_tx, not_exist, not_inited, began, begin, with_world,
  end_found, end_tx, commit, rollback, exec_on, exec_found, exec,
}
use rbatis.Ast.Defs.{to_nodes}
use rbatis.Driver.{DriverType}
use rbatis.Json.{Value, number, null}
use rbatis.Page.{IPageRequest, get_pages}
use rbatis.Page.Result as Page
use rbatis.Py.Template.{Template, text_line, done, show, template_nodes, starts_solid, IsTemplate}
use rbatis.Session.Prepared.{
  Queries, driver_type, acquired, and_then, fetch, fetch_found, bind_values, bind_arg,
  exec_prepare_found, exec_bound, exec_prepare, decoded, fetch_prepare_found, fetch_bound,
  fetch_prepare,
}
use rbatis.Session.Paging.{unwrap_or, with_pages, fetch_records, counted, fetch_both, fetch_page}
use rbatis.Session.Pages.{HasPages, IsPageOf, empty_page, fetch_page-IsPageOf, fetch_page-empty}
use rbatis.Session.PyStatements.{py_to_sql-show}
use rbatis.Session.Templates.{eval_nodes, py_to_sql}
use rbatis.Session.Transactions.{
  Call, begins, commits, executes, LeavesAlone, after, after_all, executes_prepared, fetches,
  exec-after_all, exec-commit,
}
use rbatis.Prelude.{
  ℕ, ◌+◌, ◌≡◌, refl, true, Option, none, some, List, [], ◌∷◌, ◌++◌, length, Outcome, ok, err, ◌>>=◌,
  Ensures,
}
use rbatis.Text.{
  Str, codes, str_eq, is_empty, strip_prefix, starts_with, ends_with, is_whitespace, trim_start,
  trim_end, trim,
}

abbrev counting : Database ℕ ℕ
counting = record {
  acquire = λ w. (ok w, w + 1);
  begin_tx = λ w. (ok w, w + 1);
  commit_tx = λ conn w. (ok conn, w + 1);
  rollback_tx = λ conn w. (ok conn, w + 1);
  execute = λ conn sql w. (ok conn, w + 1);
}

session : Unit {0}
unfolding find_tx remove_tx insert_tx not_exist not_inited began begin with_world end_found end_tx
    commit rollback exec_on exec_found exec LeavesAlone after after_all str_eq is_empty
session = tt

abbrev opened : Session ℕ ℕ
opened = record { pool = true; context = (codes "a", 7) ∷ []; world = 10 }

abbrev calls : List (Call ℕ)
calls =
    begins (codes "b")
    ∷ executes (codes "") (codes "x")
    ∷ commits (codes "b")
    ∷ executes_prepared (codes "a") (codes "z") (number 3 ∷ [])
    ∷ fetches (λ rows. ok rows) (codes "a") (codes "z")
    ∷ []

exec-commit_example :
    (exec counting (codes "a") (codes "y") (commit counting (codes "a") opened).1
      ≡ (err (codes "[rbatis] tx:a not exist！"), record { pool = true; context = []; world = 11 }))
    × (exec counting (codes "a") (codes "y") (rollback counting (codes "a") opened).1 ≡ (
      err (codes "[rbatis] tx:a not exist！"),
      record { pool = true; context = []; world = 11 },
    ))
unfolding session
exec-commit_example = exec-commit counting (codes "a") (codes "y") opened refl

-- Queries are their text and what is bound to it.
abbrev queries : Queries ℕ ℕ (Str × List (Value ℕ)) ℕ
queries = record {
  pool_driver = DriverType.mysql;
  make_query = λ sql. ok (sql, []);
  bind_value = λ q v. (q.0, q.1 ++ v ∷ []);
  execute_parperd = λ conn q w. (ok (conn + length q.1), w + 1);
  fetch_rows = λ conn sql w. (ok [], w + 1);
  fetch_parperd = λ conn q w. (ok (number 25 ∷ []), w + 1);
}

prepared : Unit {0}
unfolding session fetch fetch_found exec_prepare exec_bound exec_prepare_found bind_arg bind_values
    driver_type acquired and_then fetch_prepare fetch_bound fetch_prepare_found decoded unwrap_or
    with_pages fetch_records counted fetch_both fetch_page get_pages Page.new Page.new_total
    IsPageOf HasPages empty_page
prepared = tt

exec-after_all_example :
    exec counting (codes "a") (codes "y") (after_all counting queries calls opened)
    ≡ (ok 7, record opened { world = 17 })
unfolding prepared
exec-after_all_example =
    exec-after_all counting queries (codes "a") (codes "y") calls opened 7 refl refl
      (refl, (tt, (refl, (tt, (tt, tt)))))

abbrev null_value : Value ℕ
null_value = null

abbrev request : IPageRequest
request = record { get_size = 10; get_current = 1; get_total = 0; is_serch_count = true }

abbrev page_sql : DriverType → Str → IPageRequest → Outcome (Str × Str)
page_sql driver sql page = ok (codes "count", sql)

abbrev decode_total : List (Value ℕ) → Outcome (Option ℕ)
decode_total rows = ok (some 25)

abbrev decode_rows : List (Value ℕ) → Outcome (Option (List (Value ℕ)))
decode_rows rows = ok (some rows)

-- 25 rows, 10 to a page.
fetch_page_three :
    fetch_page counting queries page_sql decode_total decode_rows
      (codes "a")
      (codes "y")
      []
      request
      opened
    ≡ (
      ok (record {
        records = number 25 ∷ [];
        total = 25;
        pages = 3;
        size = 10;
        current = 1;
        serch_count = true;
      }),
      record opened { world = 12 },
    )
unfolding prepared
fetch_page_three = refl

fetch_page-IsPageOf_example :
    Ensures
      (IsPageOf 10)
      (fetch_page counting queries page_sql decode_total decode_rows
        (codes "a")
        (codes "y")
        []
        request
        opened).0
fetch_page-IsPageOf_example =
    fetch_page-IsPageOf counting queries page_sql decode_total decode_rows (codes "a") (codes "y")
      [] request opened

abbrev decode_none : List (Value ℕ) → Outcome (Option ℕ)
decode_none rows = ok none

fetch_page-empty_example :
    fetch_page counting queries page_sql decode_none decode_rows
      (codes "a")
      (codes "y")
      []
      request
      opened
    ≡ (ok (empty_page (Value ℕ) 1 10), record opened { world = 11 })
unfolding prepared
fetch_page-empty_example =
    fetch_page-empty counting queries page_sql decode_none decode_rows (codes "a") (codes "y")
      (codes "count") (codes "y") [] request opened (record opened { world = 11 }) none refl refl
      refl refl

abbrev same : List Str → List Str
same finds = finds

abbrev no_engine : Str → Value ℕ → Outcome (Value ℕ)
no_engine expression env = err expression

abbrev template : Template
template = text_line (codes "select 1") done

template-IsTemplate : IsTemplate template
unfolding IsTemplate starts_solid is_whitespace ends_with starts_with strip_prefix trim trim_end
    trim_start
template-IsTemplate =
    (refl, refl, (refl, (refl, (refl, (refl, (refl, (refl, (refl, (refl, tt)))))))), tt)

py_to_sql_test :
    (py_to_sql counting queries same no_engine
      (λ n. n)
      true
      true
      (show same 0 template)
      null_value
      []
      opened).0
    ≡ (driver_type counting queries opened >>= λ driver.
        eval_nodes counting queries same no_engine
          (λ n. n)
          (to_nodes (template_nodes same 0 0 template))
          null_value
          driver)
py_to_sql_test =
    py_to_sql-show counting queries same no_engine (λ n. n) 0 true true template null_value []
      opened template-IsTemplate tt
