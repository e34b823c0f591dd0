-- ===== src/Db/Backend.antt =====
-- rbatis-core/src/db.rs: what it uses of one driver, and the structs with a place for each driver.
use rbatis.Driver.{DriverType}
use rbatis.Json.{Value}
use rbatis.Prelude.{ℕ, Bool, true, Option, none, some, List, Outcome, ok, err, panic}
use rbatis.Text.{Str, codes}

-- `PoolOptions`, with durations in seconds.
pub record PoolOptions : Type 0 where
  pub max_size : ℕ
  pub connect_timeout : ℕ
  pub min_size : ℕ
  pub max_lifetime : Option ℕ
  pub idle_timeout : Option ℕ
  pub test_on_acquire : Bool

abbrev pub default : PoolOptions
default = record {
  max_size = 10;
  connect_timeout = 60;
  min_size = 0;
  max_lifetime = some 1800;
  idle_timeout = none;
  test_on_acquire = true;
}

-- What `Query::bind` is given: a text or null, a float or an integer.
pub data Bound (F I : Type 0) : Type 0 where
  bound_text : Str → Bound F I
  bound_null : Bound F I
  bound_float : F → Bound F I
  bound_integer : I → Bound F I

-- One driver: its types and its calls, which change the world `W`; rows are JSON values.
pub record Backend (W N F I : Type 0) : Type 1 where
  pub Pool : Type 0
  pub Conn : Type 0
  pub Tx : Type 0
  pub Query : Type 0
  pub Cursor : Type 0
  pub connect : Str → W → Outcome Pool × W
  pub connect_opt : PoolOptions → Str → W → Outcome Pool × W
  pub query : Str → Query
  pub bind : Query → Bound F I → Query
  pub acquire : Pool → W → Outcome Conn × W
  pub begin : Pool → W → Outcome Tx × W
  pub fetch : Conn → Str → Cursor
  pub fetch_query : Conn → Query → Cursor
  pub execute : Conn → Str → W → Outcome ℕ × W
  pub execute_query : Conn → Query → W → Outcome ℕ × W
  pub tx_fetch : Tx → Str → Cursor
  pub tx_fetch_query : Tx → Query → Cursor
  pub tx_execute : Tx → Str → W → Outcome ℕ × W
  pub tx_execute_query : Tx → Query → W → Outcome ℕ × W
  pub commit : Tx → W → Outcome Conn × W
  pub rollback : Tx → W → Outcome Conn × W
  pub fetch_json : Cursor → W → Outcome (List (Value N)) × W

-- The shape of `DBPool`, `DBQuery`, `DBPoolConn`, `DBCursor`, `DBTx` and `DBConnection`.
pub record Slots (M P S : Type 0) : Type 0 where
  pub driver_type : DriverType
  pub of_mysql : Option M
  pub of_postgres : Option P
  pub of_sqlite : Option S

-- `as_ref().unwrap()`, or `take().unwrap()`, of a driver's place.
unfoldable pub with_slot {ℓ κ} : {A : Type ℓ} {R : Type κ} → Option A → R → (A → R) → R
with_slot none missing next = missing
with_slot (some a) missing next = next a

-- The value of a call that ended well, as another type.
unfoldable pub wrap {ℓ κ} :
    {A : Type ℓ} {B : Type κ} {W : Type 0} → (A → B) → Outcome A × W → Outcome B × W
wrap make (ok a, world) = (ok (make a), world)
wrap make (err message, world) = (err message, world)
wrap make (panic, world) = (panic, world)

module _ {M P S : Type 0} where
  abbrev pub new_my : M → Slots M P S
  new_my arg = record {
    driver_type = DriverType.mysql;
    of_mysql = some arg;
    of_postgres = none;
    of_sqlite = none;
  }

  abbrev pub new_pg : P → Slots M P S
  new_pg arg = record {
    driver_type = DriverType.postgres;
    of_mysql = none;
    of_postgres = some arg;
    of_sqlite = none;
  }

  abbrev pub new_sqlite : S → Slots M P S
  new_sqlite arg = record {
    driver_type = DriverType.sqlite;
    of_mysql = none;
    of_postgres = none;
    of_sqlite = some arg;
  }

  -- The `match` on the driver: an error without one, a panic where its place is empty.
  unfoldable pub match_driver {κ} :
      {R : Type κ} → DriverType → Slots M P S → R → R → (M → R) → (P → R) → (S → R) → R
  match_driver DriverType.none slots uninit missing my pg lite = uninit
  match_driver DriverType.mysql slots uninit missing my pg lite =
      with_slot slots.of_mysql missing my
  match_driver DriverType.postgres slots uninit missing my pg lite =
      with_slot slots.of_postgres missing pg
  match_driver DriverType.sqlite slots uninit missing my pg lite =
      with_slot slots.of_sqlite missing lite

unfoldable pub un_init : Str
un_init = codes "un init DBPool!"
