-- ===== src/Crud/Session.antt =====
-- src/crud.rs: `impl CRUD for Rbatis` on a session, which runs the statements. The table is that of
-- the type, the entities are their JSON values, and the decoding of rows is a parameter.
use rbatis.Crud.Fields.{Table}
use rbatis.Crud.Statements as Statements
use rbatis.Crud.Statements.{Rbatis, Statement}
use rbatis.Driver.{DriverType}
use rbatis.Json.{Value}
use rbatis.LogicDelete.{RbatisLogicDeletePlugin}
use rbatis.Page.{IPageRequest}
use rbatis.Page.Result.{Page}
use rbatis.Session.{Database, Session}
use rbatis.Session.Paging.{fetch_page}
use rbatis.Session.Prepared.{Queries, driver_type, and_then, exec_prepare, fetch_prepare}
use rbatis.Wrapper.{Wrapper}
use rbatis.Prelude.{ℕ, ◌+◌, ◌%◌, ◌^◌, Option, none, some, List, [], ◌∷◌, Outcome, ok, err, panic}
use rbatis.Text.{Str}

-- `Ids::to_ids`: the ids that are there.
unfoldable pub to_ids {ℓ κ} :
    {C : Type ℓ} {IdType : Type κ} → (C → Option IdType) → List C → List IdType
to_ids get_id [] = []
to_ids get_id (item ∷ items) = elim (get_id item) [
  | none ↦ to_ids get_id items
  | some id ↦ id ∷ to_ids get_id items
]

module _ {C W Q N : Type 0} (db : Database C W) (queries : Queries C W Q N)
    (logic_plugin : Option RbatisLogicDeletePlugin) (table : Table) where
  -- What the statements see of the session.
  abbrev rbatis_of : Session C W → Rbatis
  rbatis_of s = record { driver_type = driver_type db queries s; logic_plugin = logic_plugin }

  unfoldable pub exec_statement :
      Str → Session C W → Outcome (Statement N) → Outcome ℕ × Session C W
  exec_statement tx_id s (ok statement) =
      exec_prepare db queries tx_id statement.sql statement.args s
  exec_statement tx_id s (err message) = (err message, s)
  exec_statement tx_id s panic = (panic, s)

  -- No statement changes no row.
  unfoldable pub exec_some :
      Str → Session C W → Outcome (Option (Statement N)) → Outcome ℕ × Session C W
  exec_some tx_id s (ok none) = (ok 0, s)
  exec_some tx_id s (ok (some statement)) = exec_statement tx_id s (ok statement)
  exec_some tx_id s (err message) = (err message, s)
  exec_some tx_id s panic = (panic, s)

  unfoldable pub save : Str → Value N → Session C W → Outcome ℕ × Session C W
  save tx_id entity s = exec_statement tx_id s (Statements.save (rbatis_of s) table entity)

  unfoldable pub save_batch : Str → List (Value N) → Session C W → Outcome ℕ × Session C W
  save_batch tx_id args s = exec_some tx_id s (Statements.save_batch (rbatis_of s) table args)

  unfoldable pub remove_by_wrapper : Str → Wrapper N → Session C W → Outcome ℕ × Session C W
  remove_by_wrapper tx_id w s =
      exec_statement tx_id s (Statements.remove_by_wrapper (rbatis_of s) table w)

  unfoldable pub remove_by_id : Str → Str → Session C W → Outcome ℕ × Session C W
  remove_by_id tx_id id s = exec_statement tx_id s (Statements.remove_by_id (rbatis_of s) table id)

  unfoldable pub remove_batch_by_id : Str → List (Value N) → Session C W → Outcome ℕ × Session C W
  remove_batch_by_id tx_id ids s =
      exec_some tx_id s (Statements.remove_batch_by_id (rbatis_of s) table ids)

  unfoldable pub update_by_wrapper :
      Str → Value N → Wrapper N → Session C W → Outcome ℕ × Session C W
  update_by_wrapper tx_id arg w s =
      exec_statement tx_id s (Statements.update_by_wrapper (rbatis_of s) table arg w)

  unfoldable pub update_by_id : Str → Value N → Session C W → Outcome ℕ × Session C W
  update_by_id tx_id arg s =
      exec_statement tx_id s (Statements.update_by_id (rbatis_of s) table arg)

  -- The loop, with the sum of the rows so far.
  unfoldable pub update_rows : Str → ℕ → List (Value N) → Session C W → Outcome ℕ × Session C W
  update_rows tx_id updates [] s = (ok updates, s)
  update_rows tx_id updates (x ∷ args) s =
      and_then (update_by_id tx_id x s)
        λ rows after. update_rows tx_id ((updates + rows) % 2 ^ 64) args after

  unfoldable pub update_batch_by_id : Str → List (Value N) → Session C W → Outcome ℕ × Session C W
  update_batch_by_id tx_id args s = update_rows tx_id 0 args s

  module _ {T : Type 0} (json_decode : List (Value N) → Outcome T) where
    unfoldable pub fetch_statement :
        Str → Session C W → Outcome (Statement N) → Outcome T × Session C W
    fetch_statement tx_id s (ok statement) =
        fetch_prepare db queries json_decode tx_id statement.sql statement.args s
    fetch_statement tx_id s (err message) = (err message, s)
    fetch_statement tx_id s panic = (panic, s)

    -- `list_by_wrapper` is this with a decoder of lists.
    unfoldable pub fetch_by_wrapper : Str → Wrapper N → Session C W → Outcome T × Session C W
    fetch_by_wrapper tx_id w s =
        fetch_statement tx_id s (ok (Statements.fetch_by_wrapper (rbatis_of s) table w))

    unfoldable pub fetch_by_id : Str → Value N → Session C W → Outcome T × Session C W
    fetch_by_id tx_id id s = fetch_statement tx_id s (Statements.fetch_by_id (rbatis_of s) table id)

    unfoldable pub list_all : Str → Session C W → Outcome T × Session C W
    list_all tx_id s = fetch_statement tx_id s (Statements.list_all (rbatis_of s) table)

    unfoldable pub list_by_ids : Str → List (Value N) → Session C W → Outcome T × Session C W
    list_by_ids tx_id ids s =
        fetch_statement tx_id s (Statements.list_by_ids (rbatis_of s) table ids)

  module _ {T : Type 0} (create_page_sql : DriverType → Str → IPageRequest → Outcome (Str × Str))
      (decode_total : List (Value N) → Outcome (Option ℕ))
      (decode_rows : List (Value N) → Outcome (Option (List T))) where
    unfoldable pub fetch_page_by_wrapper :
        Str → Wrapper N → IPageRequest → Session C W → Outcome (Page T) × Session C W
    fetch_page_by_wrapper tx_id w page s =
        let statement = Statements.fetch_by_wrapper (rbatis_of s) table w in
        fetch_page db queries create_page_sql decode_total decode_rows tx_id statement.sql
          statement.args page s
