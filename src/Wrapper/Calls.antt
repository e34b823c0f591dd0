-- ===== src/Wrapper/Calls.antt =====
-- src/wrapper.rs: the methods that add a condition or a clause.
use rbatis.Driver.{stmt_convert}
use rbatis.Json.{Value, object, entries}
use rbatis.Wrapper.Defs.{Wrapper, Method, push_str, push_arg, add_and, add_or}
use rbatis.Prelude.{
  ◌>>=◌, ℕ, ◌+◌, Bool, some, List, [], ◌∷◌, ◌++◌, ◌==◌, if◌then◌else◌, length, Outcome, ok,
}
use rbatis.Text.{Str, codes, pop, trim_end_matches}

module _ {N : Type 0} where
  unfoldable pub and : Wrapper N → Wrapper N
  and w = push_str (add_and w) (codes " AND ")

  unfoldable pub or : Wrapper N → Wrapper N
  or w = push_str (add_or w) (codes " OR ")

  unfoldable pub having : Str → Wrapper N → Wrapper N
  having sql_having w = push_str (add_and w) (codes " HAVING " ++ sql_having ++ codes " ")

  -- The shape of `eq` and its kin: the column, the placeholder of the next argument between
  -- `before` and `after`, and the argument.
  unfoldable pub bound : Str → Str → Str → Value N → Method N
  bound before after column v w = do
    mark ← stmt_convert (add_and w).driver_type (length (add_and w).args)
    ok (push_arg (push_str (push_str (add_and w) column) (before ++ mark ++ after)) v)

  abbrev pub eq : Str → Value N → Method N
  eq = bound (codes " = ") []

  abbrev pub ne : Str → Value N → Method N
  ne = bound (codes " <> ") []

  abbrev pub gt : Str → Value N → Method N
  gt = bound (codes " > ") []

  abbrev pub ge : Str → Value N → Method N
  ge = bound (codes " >= ") []

  abbrev pub lt : Str → Value N → Method N
  lt = bound (codes " < ") []

  abbrev pub le : Str → Value N → Method N
  le = bound (codes " <= ") []

  abbrev pub like : Str → Value N → Method N
  like = bound (codes " LIKE '%") (codes "%'")

  abbrev pub like_left : Str → Value N → Method N
  like_left = bound (codes " LIKE '%") (codes "'")

  abbrev pub like_right : Str → Value N → Method N
  like_right = bound (codes " LIKE '") (codes "%'")

  abbrev pub not_like : Str → Value N → Method N
  not_like = bound (codes " NOT LIKE '%") (codes "%'")

  -- The shape of `between` and `not_between`.
  unfoldable pub bound_between : Str → Str → Value N → Value N → Method N
  bound_between before column min_v max_v w = do
    low ← stmt_convert (add_and w).driver_type (length (add_and w).args)
    high ← stmt_convert (add_and w).driver_type (length (add_and w).args + 1)
    ok (
        push_arg
          (push_arg
            (push_str (push_str (add_and w) column) (before ++ low ++ codes " AND " ++ high)) min_v)
          max_v)

  abbrev pub between : Str → Value N → Value N → Method N
  between = bound_between (codes " BETWEEN ")

  abbrev pub not_between : Str → Value N → Value N → Method N
  not_between = bound_between (codes " NOT BETWEEN ")

  unfoldable pub is_null : Str → Wrapper N → Wrapper N
  is_null column w = push_str (push_str (add_and w) column) (codes " IS NULL")

  unfoldable pub is_not_null : Str → Wrapper N → Wrapper N
  is_not_null column w = push_str (push_str (add_and w) column) (codes " IS NOT NULL")

  -- The loop of `in_array` and `not_in`: the texts of the placeholders so far are `sqls`.
  unfoldable pub bind_each : Str → List (Value N) → Wrapper N → Outcome (Str × Wrapper N)
  bind_each sqls [] w = ok (sqls, w)
  bind_each sqls (x ∷ xs) w = do
    mark ← stmt_convert w.driver_type (length w.args)
    bind_each (sqls ++ codes " " ++ mark ++ codes " " ++ codes ",") xs (push_arg w x)

  unfoldable pub bound_list : Str → Str → List (Value N) → Method N
  bound_list before column vec w = do
    r ← bind_each [] vec (push_str (add_and w) column)
    ok (push_str r.1 (before ++ codes "(" ++ pop r.0 ++ codes ")"))

  unfoldable pub in_array : Str → List (Value N) → Method N
  in_array column [] w = ok (add_and w)
  in_array column (x ∷ xs) w = bound_list (codes " IN ") column (x ∷ xs) w

  abbrev pub not_in : Str → List (Value N) → Method N
  not_in = bound_list (codes " NOT IN ")

  -- The loop of `all_eq`.
  unfoldable pub eq_each : ℕ → ℕ → List (Str × Value N) → Method N
  eq_each len index [] w = ok w
  eq_each len index ((k, v) ∷ rest) w = do
    w' ← eq k v w
    eq_each len (if index + 1 == len then index else index + 1) rest
        (if index + 1 == len then w' else push_str w' (codes " , "))

  unfoldable pub all_eq : Value N → Method N
  all_eq (object fs) w = eq_each (length (entries fs)) 0 (entries fs) (add_and w)
  all_eq _ w = ok (record (add_and w) {
    error = some (codes "[rbatis] wrapper all_eq only support object struct!");
  })

  -- The loop of `order_by` and `group_by`.
  unfoldable pub push_columns : Str → ℕ → ℕ → List Str → Wrapper N → Wrapper N
  push_columns after len index [] w = w
  push_columns after len index (x ∷ columns) w =
      push_columns after len (if index + 1 == len then index else index + 1) columns
        (push_str (push_str w (x ++ after)) (if index + 1 == len then [] else codes " , "))

  unfoldable pub push_clause : Str → Str → List Str → Wrapper N → Wrapper N
  push_clause before after [] w = w
  push_clause before after (x ∷ columns) w =
      push_columns after (length (x ∷ columns)) 0 (x ∷ columns) (record w {
        sql = trim_end_matches (trim_end_matches w.sql (codes " WHERE")) (codes "WHERE ") ++ before;
      })

  abbrev pub order_by : Bool → List Str → Wrapper N → Wrapper N
  order_by is_asc =
      push_clause (codes " ORDER BY ") (if is_asc then codes " ASC" else codes " DESC")

  abbrev pub group_by : List Str → Wrapper N → Wrapper N
  group_by = push_clause (codes " GROUP BY ") []
