-- ===== src/Session.antt =====
-- src/rbatis.rs: the transactions of a session. The database is a parameter: what its calls do to the
-- world `W` and the connections `C` they return. A transaction is the connection it runs on.
pub mod Statements
pub mod Transactions
pub mod Prepared
pub mod Paging
pub mod Templates
pub mod Pages
pub mod Isolation
pub mod PyStatements
mod Tests
use rbatis.Prelude.{
  ℕ, ◌+◌, ◌-◌, ◌/◌, ap, Bool, not, Option, none, some, List, [], ◌∷◌, ◌++◌, map, if◌then◌else◌,
  take, Outcome, ok, err, panic,
}
use rbatis.Text.{Str, codes, str_eq, is_empty, find}

-- The calls of rbatis-core; each returns a result and the world after it.
pub record Database (C W : Type 0) : Type 0 where
  pub acquire : W → Outcome C × W
  pub begin_tx : W → Outcome C × W
  pub commit_tx : C → W → Outcome C × W
  pub rollback_tx : C → W → Outcome C × W
  pub execute : C → Str → W → Outcome ℕ × W

-- `pool` is whether `link` was called; `context` is the map from a transaction's id.
pub record Session (C W : Type 0) : Type 0 where
  pub pool : Bool
  pub context : List (Str × C)
  pub world : W

module _ {C : Type 0} where
  unfoldable pub find_tx : Str → List (Str × C) → Option C
  find_tx tx_id [] = none
  find_tx tx_id ((k, conn) ∷ context) = if str_eq k tx_id then some conn else find_tx tx_id context

  unfoldable pub remove_tx : Str → List (Str × C) → List (Str × C)
  remove_tx tx_id [] = []
  remove_tx tx_id ((k, conn) ∷ context) =
      let rest = remove_tx tx_id context in if str_eq k tx_id then rest else (k, conn) ∷ rest

  -- An insertion takes the place of an entry with that key.
  unfoldable pub insert_tx : Str → C → List (Str × C) → List (Str × C)
  insert_tx tx_id conn context = (tx_id, conn) ∷ remove_tx tx_id context

unfoldable pub not_exist : Str → Str
not_exist tx_id = codes "[rbatis] tx:" ++ tx_id ++ codes " not exist！"

unfoldable pub not_inited : Str
not_inited = codes "[rbatis] rbatis pool not inited!"

module _ {C W : Type 0} (db : Database C W) where
  unfoldable pub began : Str → Session C W → Outcome C × W → Outcome ℕ × Session C W
  began tx_id s (ok conn, world) =
      (ok 1, record s { context = insert_tx tx_id conn s.context; world = world })
  began tx_id s (err message, world) = (err message, record s { world = world })
  began tx_id s (panic, world) = (panic, record s { world = world })

  unfoldable pub begin : Str → Session C W → Outcome ℕ × Session C W
  begin tx_id s =
      if is_empty tx_id
      then (err (codes "[rbatis] tx_id can not be empty"), s)
      else if s.pool
      then began tx_id s (db.begin_tx s.world)
      else (err not_inited, s)

  unfoldable pub with_world {ℓ} :
      {R : Type ℓ} → Session C W → Outcome R × W → Outcome R × Session C W
  with_world s (result, world) = (result, record s { world = world })

  -- The transaction leaves the context before it is ended, so also if the end fails.
  unfoldable pub end_found :
      (C → W → Outcome C × W) → Str → Session C W → Option C → Outcome C × Session C W
  end_found finish tx_id s none = (err (not_exist tx_id), s)
  end_found finish tx_id s (some conn) =
      with_world (record s { context = remove_tx tx_id s.context }) (finish conn s.world)

  unfoldable pub end_tx : (C → W → Outcome C × W) → Str → Session C W → Outcome C × Session C W
  end_tx finish tx_id s = end_found finish tx_id s (find_tx tx_id s.context)

  unfoldable pub commit : Str → Session C W → Outcome C × Session C W
  commit = end_tx db.commit_tx

  unfoldable pub rollback : Str → Session C W → Outcome C × Session C W
  rollback = end_tx db.rollback_tx

  unfoldable pub exec_on : Str → Outcome C × W → Outcome ℕ × W
  exec_on sql (ok conn, world) = db.execute conn sql world
  exec_on sql (err message, world) = (err message, world)
  exec_on sql (panic, world) = (panic, world)

  unfoldable pub exec_found : Str → Str → Session C W → Option C → Outcome ℕ × Session C W
  exec_found tx_id sql s none = (err (not_exist tx_id), s)
  exec_found tx_id sql s (some conn) = with_world s (db.execute conn sql s.world)

  -- Without an id on a connection of the pool, with one on that of its transaction.
  unfoldable pub exec : Str → Str → Session C W → Outcome ℕ × Session C W
  exec tx_id sql s =
      if is_empty tx_id
      then (if s.pool then with_world s (exec_on sql (db.acquire s.world)) else (err not_inited, s))
      else exec_found tx_id sql s (find_tx tx_id s.context)
