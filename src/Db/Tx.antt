-- ===== src/Db/Tx.antt =====
-- rbatis-core/src/db.rs: `DBTx`. The mutex around the transaction of sqlite is owned by it and
-- never contended.
use rbatis.Db.Backend.{Backend, new_my, new_pg, new_sqlite, with_slot, wrap, match_driver, un_init}
use rbatis.Driver.{DriverType}
use rbatis.Prelude.{ℕ, none, Outcome, ok, err, panic}
use rbatis.Text.{Str}
use rbatis.Db.Pool.{DbQuery, DbPoolConn, DbCursor, DbTx}

module _ {W N F I : Type 0} (my pg lite : Backend W N F I) where
  -- The connection of a commit: its driver is mysql whichever driver it is of.
  unfoldable pub commit : DbTx my pg lite → W → Outcome (DbPoolConn my pg lite) × W
  commit tx world =
      match_driver tx.driver_type tx (err un_init, world) (panic, world)
        (λ t. wrap new_my (my.commit t world))
        (λ t. wrap (λ c. record (new_pg c) { driver_type = DriverType.mysql }) (pg.commit t world))
        (λ t.
          wrap (λ c. record (new_sqlite c) { driver_type = DriverType.mysql })
            (lite.commit t world))

  unfoldable pub rollback : DbTx my pg lite → W → Outcome (DbPoolConn my pg lite) × W
  rollback tx world =
      match_driver tx.driver_type tx (err un_init, world) (panic, world)
        (λ t. wrap new_my (my.rollback t world)) (λ t. wrap new_pg (pg.rollback t world))
        (λ t. wrap new_sqlite (lite.rollback t world))

  -- `take()` leaves the driver's place of the transaction empty.
  unfoldable pub taken : DbTx my pg lite → DbTx my pg lite
  taken tx =
      match_driver tx.driver_type tx tx tx (λ t. record tx { of_mysql = none })
        (λ t. record tx { of_postgres = none }) (λ t. record tx { of_sqlite = none })

  unfoldable pub fetch : DbTx my pg lite → Str → Outcome (DbCursor my pg lite)
  fetch conn sql =
      match_driver conn.driver_type conn (err un_init) panic (λ c. ok (new_my (my.tx_fetch c sql)))
        (λ c. ok (new_pg (pg.tx_fetch c sql))) (λ c. ok (new_sqlite (lite.tx_fetch c sql)))

  unfoldable pub execute : DbTx my pg lite → Str → W → Outcome ℕ × W
  execute conn sql world =
      match_driver conn.driver_type conn (err un_init, world) (panic, world)
        (λ c. my.tx_execute c sql world) (λ c. pg.tx_execute c sql world)
        (λ c. lite.tx_execute c sql world)

  -- The query's place is unwrapped too.
  unfoldable pub fetch_parperd :
      DbTx my pg lite → DbQuery my pg lite → Outcome (DbCursor my pg lite)
  fetch_parperd conn sql =
      match_driver conn.driver_type conn (err un_init) panic
        (λ c. with_slot sql.of_mysql panic (λ q. ok (new_my (my.tx_fetch_query c q))))
        (λ c. with_slot sql.of_postgres panic (λ q. ok (new_pg (pg.tx_fetch_query c q))))
        (λ c. with_slot sql.of_sqlite panic (λ q. ok (new_sqlite (lite.tx_fetch_query c q))))

  unfoldable pub execute_parperd : DbTx my pg lite → DbQuery my pg lite → W → Outcome ℕ × W
  execute_parperd conn sql world =
      match_driver conn.driver_type conn (err un_init, world) (panic, world)
        (λ c. with_slot sql.of_mysql (panic, world) (λ q. my.tx_execute_query c q world))
        (λ c. with_slot sql.of_postgres (panic, world) (λ q. pg.tx_execute_query c q world))
        (λ c. with_slot sql.of_sqlite (panic, world) (λ q. lite.tx_execute_query c q world))
