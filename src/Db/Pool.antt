-- ===== src/Db/Pool.antt =====
-- rbatis-core/src/db.rs: `DBPool`.
use rbatis.Db.Backend.{
  PoolOptions, Backend, Slots, new_my, new_pg, new_sqlite, wrap, match_driver, un_init,
}
use rbatis.Driver.{DriverType}
use rbatis.Prelude.{if◌then◌else◌, Outcome, ok, err, panic}
use rbatis.Text.{Str, codes, starts_with}

module _ {W N F I : Type 0} (my pg lite : Backend W N F I) where
  abbrev pub DbPool : Type 0
  DbPool = Slots my.Pool pg.Pool lite.Pool

  abbrev pub DbQuery : Type 0
  DbQuery = Slots my.Query pg.Query lite.Query

  abbrev pub DbPoolConn : Type 0
  DbPoolConn = Slots my.Conn pg.Conn lite.Conn

  abbrev pub DbTx : Type 0
  DbTx = Slots my.Tx pg.Tx lite.Tx

  abbrev pub DbCursor : Type 0
  DbCursor = Slots my.Cursor pg.Cursor lite.Cursor

  -- The start of the url decides on the driver.
  unfoldable pub new : Str → W → Outcome DbPool × W
  new driver world =
      if starts_with driver (codes "mysql")
      then wrap new_my (my.connect driver world)
      else if starts_with driver (codes "postgres")
      then wrap new_pg (pg.connect driver world)
      else if starts_with driver (codes "sqlite")
      then wrap new_sqlite (lite.connect driver world)
      else (err (codes "unsupport driver type!"), world)

  unfoldable pub new_opt : Str → PoolOptions → W → Outcome DbPool × W
  new_opt driver opt world =
      if starts_with driver (codes "mysql")
      then wrap new_my (my.connect_opt opt driver world)
      else if starts_with driver (codes "postgres")
      then wrap new_pg (pg.connect_opt opt driver world)
      else if starts_with driver (codes "sqlite")
      then wrap new_sqlite (lite.connect_opt opt driver world)
      else (err (codes "unsupport driver type!"), world)

  unfoldable pub make_query_for : DriverType → Str → Outcome DbQuery
  make_query_for DriverType.none sql = err un_init
  make_query_for DriverType.mysql sql = ok (new_my (my.query sql))
  make_query_for DriverType.postgres sql = ok (new_pg (pg.query sql))
  make_query_for DriverType.sqlite sql = ok (new_sqlite (lite.query sql))

  unfoldable pub make_query : DbPool → Str → Outcome DbQuery
  make_query pool sql = make_query_for pool.driver_type sql

  unfoldable pub acquire : DbPool → W → Outcome DbPoolConn × W
  acquire pool world =
      match_driver pool.driver_type pool (err un_init, world) (panic, world)
        (λ p. wrap new_my (my.acquire p world)) (λ p. wrap new_pg (pg.acquire p world))
        (λ p. wrap new_sqlite (lite.acquire p world))

  unfoldable pub begin : DbPool → W → Outcome DbTx × W
  begin pool world =
      match_driver pool.driver_type pool (err un_init, world) (panic, world)
        (λ p. wrap new_my (my.begin p world)) (λ p. wrap new_pg (pg.begin p world))
        (λ p. wrap new_sqlite (lite.begin p world))
