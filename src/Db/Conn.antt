-- ===== src/Db/Conn.antt =====
-- rbatis-core/src/db.rs: `DBPoolConn` and `DBCursor`.
use rbatis.Db.Backend.{Backend, new_my, new_pg, new_sqlite, with_slot, match_driver, un_init}
use rbatis.Json.{Value}
use rbatis.Prelude.{ℕ, List, Outcome, ok, err, panic}
use rbatis.Text.{Str}
use rbatis.Db.Pool.{DbQuery, DbPoolConn, DbCursor}

module _ {W N F I : Type 0} (my pg lite : Backend W N F I) where
  unfoldable pub fetch : DbPoolConn my pg lite → Str → Outcome (DbCursor my pg lite)
  fetch conn sql =
      match_driver conn.driver_type conn (err un_init) panic (λ c. ok (new_my (my.fetch c sql)))
        (λ c. ok (new_pg (pg.fetch c sql))) (λ c. ok (new_sqlite (lite.fetch c sql)))

  unfoldable pub execute : DbPoolConn my pg lite → Str → W → Outcome ℕ × W
  execute conn sql world =
      match_driver conn.driver_type conn (err un_init, world) (panic, world)
        (λ c. my.execute c sql world) (λ c. pg.execute c sql world) (λ c. lite.execute c sql world)

  -- The query's place is unwrapped too.
  unfoldable pub fetch_parperd :
      DbPoolConn my pg lite → DbQuery my pg lite → Outcome (DbCursor my pg lite)
  fetch_parperd conn sql =
      match_driver conn.driver_type conn (err un_init) panic
        (λ c. with_slot sql.of_mysql panic (λ q. ok (new_my (my.fetch_query c q))))
        (λ c. with_slot sql.of_postgres panic (λ q. ok (new_pg (pg.fetch_query c q))))
        (λ c. with_slot sql.of_sqlite panic (λ q. ok (new_sqlite (lite.fetch_query c q))))

  unfoldable pub execute_parperd : DbPoolConn my pg lite → DbQuery my pg lite → W → Outcome ℕ × W
  execute_parperd conn sql world =
      match_driver conn.driver_type conn (err un_init, world) (panic, world)
        (λ c. with_slot sql.of_mysql (panic, world) (λ q. my.execute_query c q world))
        (λ c. with_slot sql.of_postgres (panic, world) (λ q. pg.execute_query c q world))
        (λ c. with_slot sql.of_sqlite (panic, world) (λ q. lite.execute_query c q world))

  unfoldable pub fetch_json : DbCursor my pg lite → W → Outcome (List (Value N)) × W
  fetch_json cursor world =
      match_driver cursor.driver_type cursor (err un_init, world) (panic, world)
        (λ c. my.fetch_json c world) (λ c. pg.fetch_json c world) (λ c. lite.fetch_json c world)
