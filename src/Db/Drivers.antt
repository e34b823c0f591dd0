-- ===== src/Db/Drivers.antt =====
-- rbatis-core/src/db.rs: which place of a pool, a connection, a query and a transaction is filled.
use rbatis.Db.Backend.{
  Backend, Slots, new_my, new_pg, new_sqlite, with_slot, wrap, match_driver, un_init,
}
use rbatis.Db.Conn.{execute, execute_parperd}
use rbatis.Db.Pool.{DbPool, DbQuery, DbPoolConn, DbTx, make_query_for, make_query, acquire}
use rbatis.Db.Tx as Tx
use rbatis.Driver.{DriverType}
use rbatis.Prelude.{
  ℕ, ◌≡◌, refl, ◌⊎◌, inl, inr, Bool, true, false, Option, none, some, arith, Outcome, ok, err,
  panic, Ensures, is_panic,
}
use rbatis.Text.{Str}

is_some {ℓ} : {A : Type ℓ} → Option A → Bool
is_some none = false
is_some (some a) = true

module _ {M P S : Type 0} where
  unfoldable pub holds_for : DriverType → Slots M P S → Bool
  unfolding is_some
  holds_for DriverType.none slots = false
  holds_for DriverType.mysql slots = is_some slots.of_mysql
  holds_for DriverType.postgres slots = is_some slots.of_postgres
  holds_for DriverType.sqlite slots = is_some slots.of_sqlite

  -- Of this driver, with its place filled.
  unfoldable pub IsOf : DriverType → Slots M P S → Type 0
  IsOf d slots = (slots.driver_type ≡ d) × (holds_for d slots ≡ true)

module _ {ℓ κ} {A : Type ℓ} {R : Type κ} where
  with_slot-filled :
      (Q : R → Type 0) (o : Option A) (missing : R) (next : A → R)
      → is_some o ≡ true
      → ((a : A) → Q (next a))
      → Q (with_slot o missing next)
  unfolding with_slot is_some
  with_slot-filled Q none missing next h k = absurd (ground arith)
  with_slot-filled Q (some a) missing next h k = k a

module _ {ℓ κ} {A : Type ℓ} {B : Type κ} {W : Type 0} where
  wrap-Ensures :
      (Q : B → Type 0) (make : A → B) (r : Outcome A × W)
      → ((a : A) → Q (make a))
      → Ensures Q (wrap make r).0
  unfolding wrap
  wrap-Ensures Q make (ok a, world) h = h a
  wrap-Ensures Q make (err message, world) h = tt
  wrap-Ensures Q make (panic, world) h = tt

module _ {ℓ κ} {A : Type ℓ} {B : Type κ} {W : Type 0} where
  with_slot-Ensures :
      (Q : B → Type 0) (o : Option A) (missing : Outcome B × W) (next : A → Outcome B × W)
      → Ensures Q missing.0
      → ((a : A) → Ensures Q (next a).0)
      → Ensures Q (with_slot o missing next).0
  unfolding with_slot
  with_slot-Ensures Q none missing next h k = h
  with_slot-Ensures Q (some a) missing next h k = k a

module _ {W N F I : Type 0} (my pg lite : Backend W N F I) where
  acquire-IsOf_for :
      (d : DriverType) (pool : DbPool my pg lite) (world : W)
      → Ensures
          (IsOf d)
          (match_driver d pool
            (err un_init, world)
            (panic, world)
            (λ p. wrap (new_my {P = pg.Conn} {S = lite.Conn}) (my.acquire p world))
            (λ p. wrap new_pg (pg.acquire p world))
            (λ p. wrap new_sqlite (lite.acquire p world))).0
  unfolding match_driver IsOf holds_for
  acquire-IsOf_for DriverType.none pool world = tt
  acquire-IsOf_for DriverType.mysql pool world =
      with_slot-Ensures _ pool.of_mysql (panic, world) _ tt
        (λ p. wrap-Ensures _ new_my (my.acquire p world) (λ c. (refl, refl)))
  acquire-IsOf_for DriverType.postgres pool world =
      with_slot-Ensures _ pool.of_postgres (panic, world) _ tt
        (λ p. wrap-Ensures _ new_pg (pg.acquire p world) (λ c. (refl, refl)))
  acquire-IsOf_for DriverType.sqlite pool world =
      with_slot-Ensures _ pool.of_sqlite (panic, world) _ tt
        (λ p. wrap-Ensures _ new_sqlite (lite.acquire p world) (λ c. (refl, refl)))

  acquire-IsOf :
      (pool : DbPool my pg lite) (world : W)
      → Ensures (IsOf pool.driver_type) (acquire my pg lite pool world).0
  unfolding acquire
  acquire-IsOf pool world = acquire-IsOf_for pool.driver_type pool world

  make_query-IsOf_for :
      (d : DriverType) (sql : Str) → Ensures (IsOf d) (make_query_for my pg lite d sql)
  unfolding make_query_for IsOf holds_for
  make_query-IsOf_for DriverType.none sql = tt
  make_query-IsOf_for DriverType.mysql sql = (refl, refl)
  make_query-IsOf_for DriverType.postgres sql = (refl, refl)
  make_query-IsOf_for DriverType.sqlite sql = (refl, refl)

  -- The driver itself does not panic when it executes a query.
  abbrev pub IsCalm : Backend W N F I → Type 0
  IsCalm b = (c : b.Conn) (q : b.Query) (w : W) → is_panic (b.execute_query c q w).0 ≡ false

  abbrev Runs : Outcome ℕ × W → Type 0
  Runs (result, world) = is_panic result ≡ false

  execute_parperd-safe :
      (d : DriverType) (conn : DbPoolConn my pg lite) (q : DbQuery my pg lite) (world : W)
      → IsCalm my
      → IsCalm pg
      → IsCalm lite
      → IsOf d conn
      → IsOf d q
      → is_panic (execute_parperd my pg lite conn q world).0 ≡ false
  unfolding execute_parperd match_driver IsOf holds_for
  execute_parperd-safe DriverType.none conn q world a b c (e, h) (_, k) = absurd (ground arith)
  execute_parperd-safe DriverType.mysql conn q world a b c (e, h) (_, k) = rw e (
      with_slot-filled Runs conn.of_mysql _ _ h
        λ x. with_slot-filled Runs q.of_mysql _ _ k (λ y. a x y world))
  execute_parperd-safe DriverType.postgres conn q world a b c (e, h) (_, k) = rw e (
      with_slot-filled Runs conn.of_postgres _ _ h
        λ x. with_slot-filled Runs q.of_postgres _ _ k (λ y. b x y world))
  execute_parperd-safe DriverType.sqlite conn q world a b c (e, h) (_, k) = rw e (
      with_slot-filled Runs conn.of_sqlite _ _ h
        λ x. with_slot-filled Runs q.of_sqlite _ _ k (λ y. c x y world))

  -- If the drivers do not panic when they execute a query, no query that a pool makes panics on a
  -- connection that the pool returns: the query and the connection are of the pool's driver.
  pub execute_parperd-pool :
      (pool : DbPool my pg lite) (sql : Str) (conn : DbPoolConn my pg lite) (q : DbQuery my pg lite)
      (before after world : W)
      → IsCalm my
      → IsCalm pg
      → IsCalm lite
      → acquire my pg lite pool before ≡ (ok conn, after)
      → make_query my pg lite pool sql ≡ ok q
      → is_panic (execute_parperd my pg lite conn q world).0 ≡ false
  unfolding make_query
  execute_parperd-pool pool sql conn q before after world a b c acquired made =
      execute_parperd-safe pool.driver_type conn q world a b c
        (rw acquired at (acquire-IsOf pool before))
        (rw made at (make_query-IsOf_for pool.driver_type sql))

  -- The next statement panics.
  unfoldable pub IsLost : DbPoolConn my pg lite → Type 0
  IsLost conn = (sql : Str) (world : W) → execute my pg lite conn sql world ≡ (panic, world)

  -- Of a driver other than mysql, the connection that a commit returns panics at its next statement;
  -- the connection that a rollback returns is one of the driver.
  pub commit-rollback :
      (tx : DbTx my pg lite) (world : W)
      → (tx.driver_type ≡ DriverType.postgres) ⊎ (tx.driver_type ≡ DriverType.sqlite)
      → Ensures IsLost (Tx.commit my pg lite tx world).0
        × Ensures (IsOf tx.driver_type) (Tx.rollback my pg lite tx world).0
  unfolding Tx.commit Tx.rollback match_driver IsLost execute with_slot IsOf holds_for
  commit-rollback tx world (inl e) = rw e (
    with_slot-Ensures _ tx.of_postgres (panic, world) _ tt
        (λ t. wrap-Ensures _ _ (pg.commit t world) (λ c sql w. refl)),
    with_slot-Ensures _ tx.of_postgres (panic, world) _ tt
        (λ t. wrap-Ensures _ _ (pg.rollback t world) (λ c. (refl, refl))),
  )
  commit-rollback tx world (inr e) = rw e (
    with_slot-Ensures _ tx.of_sqlite (panic, world) _ tt
        (λ t. wrap-Ensures _ _ (lite.commit t world) (λ c sql w. refl)),
    with_slot-Ensures _ tx.of_sqlite (panic, world) _ tt
        (λ t. wrap-Ensures _ _ (lite.rollback t world) (λ c. (refl, refl))),
  )
