-- ===== src/Crud/Statements.antt =====
-- src/crud.rs: `impl CRUD for Rbatis`, as the statements that are handed to exec_prepare and
-- fetch_prepare.
use rbatis.Crud.Fields.{Table, make_field_value_map, make_fields, make_sql_arg}
use rbatis.Driver.{DriverType, stmt_convert}
use rbatis.Json.{Value, is_null}
use rbatis.LogicDelete.{RbatisLogicDeletePlugin, create_sql}
use rbatis.Text.Signed.{decimal_ℤ}
use rbatis.Wrapper as Builder
use rbatis.Wrapper.{Wrapper, new, from, check, right_link_wrapper}
use rbatis.Prelude.{
  ℕ, ◌||◌, Option, none, some, List, [], ◌∷◌, ◌++◌, if◌then◌else◌, length, Outcome, ok, err, ◌>>=◌,
}
use rbatis.Text.{Str, codes, pop, str_eq, is_empty, split, trim_start, trim_start_matches}

-- What `Rbatis` has that the statements depend on; `driver_type` fails without a connection.
pub record Rbatis : Type 0 where
  pub driver_type : Outcome DriverType
  pub logic_plugin : Option RbatisLogicDeletePlugin

pub record Statement (N : Type 0) : Type 0 where
  pub sql : Str
  pub args : List (Value N)

unfoldable pub make_where_sql : Str → Str
make_where_sql arg =
    codes " WHERE "
    ++ trim_start_matches (trim_start_matches (trim_start arg) (codes "AND ")) (codes "OR ")
    ++ codes " "

-- A text behind a link word, if there is one.
unfoldable pub linked : Str → Str → Str
linked word sql = if is_empty sql then [] else word ++ sql

unfoldable pub make_select_sql : Rbatis → Table → Str → Str
make_select_sql rb t where_sql = elim rb.logic_plugin [
  | some p ↦
      codes "SELECT "
      ++ t.table_fields
      ++ codes " FROM "
      ++ t.table_name
      ++ codes " WHERE "
      ++ p.column
      ++ codes " = "
      ++ decimal_ℤ p.un_deleted
      ++ codes " "
      ++ linked (codes " AND ") where_sql
  | none ↦
      codes "SELECT "
      ++ t.table_fields
      ++ codes " FROM "
      ++ t.table_name
      ++ codes " "
      ++ linked (codes " WHERE ") where_sql
]

-- The deletion of the rows of a condition, by the plugin if there is one.
unfoldable pub delete_sql : Rbatis → Table → Str → Str → Outcome Str
delete_sql rb t sql where_sql = elim rb.logic_plugin [
  | none ↦ ok sql
  | some p ↦ do
    d ← rb.driver_type
    create_sql p t.table_name (split t.table_fields (codes ",")) where_sql
]

module _ {N : Type 0} where
  unfoldable pub save : Rbatis → Table → Value N → Outcome (Statement N)
  save rb t entity = do
    d ← rb.driver_type
    m ← make_field_value_map entity
    (values, args, next) ← make_sql_arg 0 d m
    ok (record {
      sql =
          codes "INSERT INTO "
          ++ t.table_name
          ++ codes " ("
          ++ make_fields m
          ++ codes ") VALUES ("
          ++ values
          ++ codes ")";
      args = args;
    })

  -- The loop of `save_batch`: the columns of the first row that has some, and the rows' values.
  unfoldable pub push_rows :
      Rbatis
      → List (Value N)
      → Str
      → ℕ
      → Str
      → List (Value N)
      → Outcome (Str × Str × List (Value N))
  push_rows rb [] fields index value_arr arg_arr = ok (fields, value_arr, arg_arr)
  push_rows rb (x ∷ rows) fields index value_arr arg_arr = do
    d ← rb.driver_type
    m ← make_field_value_map x
    (values, args, next) ← make_sql_arg index d m
    push_rows rb rows (if is_empty fields then make_fields m else fields) next
        (value_arr ++ codes "(" ++ values ++ codes "),") (arg_arr ++ args)

  -- No statement for no rows.
  unfoldable pub save_batch : Rbatis → Table → List (Value N) → Outcome (Option (Statement N))
  save_batch rb t [] = ok none
  save_batch rb t (row ∷ rows) = do
    (fields, value_arr, args) ← push_rows rb (row ∷ rows) [] 0 [] []
    ok (
        some (record {
          sql =
              codes "INSERT INTO "
              ++ t.table_name
              ++ codes " ("
              ++ fields
              ++ codes ") VALUES "
              ++ pop value_arr;
          args = args;
        }))

  unfoldable pub remove_by_wrapper : Rbatis → Table → Wrapper N → Outcome (Statement N)
  remove_by_wrapper rb t w = do
    sql ←
        delete_sql rb t (codes "DELETE FROM " ++ t.table_name ++ codes " " ++ make_where_sql w.sql)
          (make_where_sql w.sql)
    ok (record { sql = sql; args = w.args })

  -- `id` is the text that the key's `Display` writes.
  unfoldable pub remove_by_id : Rbatis → Table → Str → Outcome (Statement N)
  remove_by_id rb t id = do
    sql ←
        delete_sql rb t (codes "DELETE FROM " ++ t.table_name ++ codes " WHERE id = " ++ id)
          (codes " WHERE id = " ++ id)
    ok (record { sql = sql; args = [] })

  unfoldable pub remove_batch_by_id :
      Rbatis → Table → List (Value N) → Outcome (Option (Statement N))
  remove_batch_by_id rb t [] = ok none
  remove_batch_by_id rb t (id ∷ ids) = do
    d ← rb.driver_type
    w ← Builder.in_array (codes "id") (id ∷ ids) (Builder.and (new d))
    checked ← (check w).0
    statement ← remove_by_wrapper rb t checked
    ok (some statement)

  -- The loop of `update_by_wrapper`, which skips nulls and the key.
  unfoldable pub push_sets :
      DriverType → List (Str × Value N) → Str → List (Value N) → Outcome (Str × List (Value N))
  push_sets d [] sets args = ok (sets, args)
  push_sets d ((k, v) ∷ m) sets args =
      let skipped = push_sets d m sets args in
      if is_null v || str_eq k (codes "id")
      then skipped
      else (stmt_convert d (length args) >>= λ mark.
          push_sets d m (sets ++ codes " " ++ k ++ codes " = " ++ mark ++ codes ",")
            (args ++ v ∷ []))

  -- The condition behind the assignments.
  unfoldable pub link_where : Wrapper N → Wrapper N → Outcome (Wrapper N)
  link_where wrapper w = if is_empty w.sql then ok wrapper else (do
    linked ← right_link_wrapper w (record wrapper { sql = wrapper.sql ++ codes " WHERE " })
    (check linked).0)

  unfoldable pub update_by_wrapper : Rbatis → Table → Value N → Wrapper N → Outcome (Statement N)
  update_by_wrapper rb t arg w = do
    d ← rb.driver_type
    m ← make_field_value_map arg
    (sets, args) ← push_sets d m [] []
    wrapper ←
        link_where (from d (codes "UPDATE " ++ t.table_name ++ codes " SET " ++ pop sets) args) w
    ok (record { sql = wrapper.sql; args = wrapper.args })

  unfoldable pub find_key : Str → List (Str × Value N) → Option (Value N)
  find_key key [] = none
  find_key key ((k, v) ∷ m) = if str_eq k key then some v else find_key key m

  unfoldable pub update_by_id : Rbatis → Table → Value N → Outcome (Statement N)
  update_by_id rb t arg = do
    d ← rb.driver_type
    m ← make_field_value_map arg
    elim (find_key (codes "id") m) [
      | none ↦ err (codes "[rbaits] arg not have \"id\" field! ")
      | some id ↦ Builder.eq (codes "id") id (new d) >>= λ w. update_by_wrapper rb t arg w
    ]

  unfoldable pub fetch_by_wrapper : Rbatis → Table → Wrapper N → Statement N
  fetch_by_wrapper rb t w = record { sql = make_select_sql rb t w.sql; args = w.args }

  unfoldable pub fetch_by_id : Rbatis → Table → Value N → Outcome (Statement N)
  fetch_by_id rb t id = do
    d ← rb.driver_type
    w ← Builder.eq (codes "id") id (new d)
    checked ← (check w).0
    ok (fetch_by_wrapper rb t checked)

  unfoldable pub list_all : Rbatis → Table → Outcome (Statement N)
  list_all rb t = do d ← rb.driver_type; ok (fetch_by_wrapper rb t (new d))

  unfoldable pub list_by_ids : Rbatis → Table → List (Value N) → Outcome (Statement N)
  list_by_ids rb t ids = do
    d ← rb.driver_type
    w ← Builder.in_array (codes "id") ids (new d)
    checked ← (check w).0
    ok (fetch_by_wrapper rb t checked)
