-- ===== src/Session/Prepared.antt =====
-- src/rbatis.rs: prepared statements and queries, and the pool. The queries of rbatis-core are a type
-- `Q`; decoding rows into a Rust type is an argument of what fetches them.
use rbatis.Driver.{DriverType}
use rbatis.Json.{Value}
use rbatis.Session.{Database, Session, find_tx, not_exist, not_inited, with_world}
use rbatis.Wrapper.{Wrapper, new}
use rbatis.Prelude.{
  ℕ, true, Option, none, some, List, [], ◌∷◌, if◌then◌else◌, Outcome, ok, err, panic, ◌>>=◌,
}
use rbatis.Text.{Str, codes, is_empty}

-- The other calls of rbatis-core: the pool's driver and queries, and the rows of a query as JSON
-- (`fetch` and `fetch_parperd`, each with its `fetch_json`).
pub record Queries (C W Q N : Type 0) : Type 0 where
  pub pool_driver : DriverType
  pub make_query : Str → Outcome Q
  pub bind_value : Q → Value N → Q
  pub execute_parperd : C → Q → W → Outcome ℕ × W
  pub fetch_rows : C → Str → W → Outcome (List (Value N)) × W
  pub fetch_parperd : C → Q → W → Outcome (List (Value N)) × W

-- A call with `?`, and what follows it in the world that it left.
unfoldable pub and_then {ℓ κ} :
    {A : Type ℓ} {B : Type κ} {W : Type 0} → Outcome A × W → (A → W → Outcome B × W) → Outcome B × W
and_then (ok a, world) next = next a world
and_then (err message, world) next = (err message, world)
and_then (panic, world) next = (panic, world)

module _ {C W Q N : Type 0} (db : Database C W) (queries : Queries C W Q N) where
  unfoldable pub driver_type : Session C W → Outcome DriverType
  driver_type s = if s.pool then ok queries.pool_driver else err not_inited

  -- `get_pool()?.acquire().await`
  unfoldable pub acquired : Session C W → Outcome C × W
  acquired s = if s.pool then db.acquire s.world else (err not_inited, s.world)

  -- `link` and `link_opt`; `connect` is what `DBPool::new` does with the url.
  unfoldable pub linked : Session C W → Outcome (Unit {0}) × W → Outcome (Unit {0}) × Session C W
  linked s (ok _, world) = (ok tt, record s { pool = true; world = world })
  linked s (err message, world) = (err message, record s { world = world })
  linked s (panic, world) = (panic, record s { world = world })

  unfoldable pub link :
      (Str → W → Outcome (Unit {0}) × W) → Str → Session C W → Outcome (Unit {0}) × Session C W
  link connect url s =
      if is_empty url
      then (err (codes "[rbatis] link url is empty!"), s)
      else linked s (connect url s.world)

  -- A pool without a driver is a panic, as is no pool.
  unfoldable pub wrapper_of : Outcome DriverType → Outcome (Wrapper N)
  wrapper_of (ok DriverType.none) = panic
  wrapper_of (ok driver) = ok (new driver)
  wrapper_of _ = panic

  unfoldable pub new_wrapper : Session C W → Outcome (Wrapper N)
  new_wrapper s = wrapper_of (driver_type s)

  -- The loop of `bind_arg`.
  unfoldable pub bind_values : Q → List (Value N) → Q
  bind_values q [] = q
  bind_values q (x ∷ arg) = bind_values (queries.bind_value q x) arg

  unfoldable pub bind_arg : Str → List (Value N) → Session C W → Outcome Q
  bind_arg sql arg s =
      if s.pool then (do q ← queries.make_query sql; ok (bind_values q arg)) else err not_inited

  unfoldable pub exec_prepare_found : Str → Q → Session C W → Option C → Outcome ℕ × Session C W
  exec_prepare_found tx_id q s none = (err (not_exist tx_id), s)
  exec_prepare_found tx_id q s (some conn) =
      with_world db s (queries.execute_parperd conn q s.world)

  unfoldable pub exec_bound : Str → Session C W → Outcome Q → Outcome ℕ × Session C W
  exec_bound tx_id s (ok q) =
      if is_empty tx_id
      then with_world db s
          (and_then (acquired s) (λ conn world. queries.execute_parperd conn q world))
      else exec_prepare_found tx_id q s (find_tx tx_id s.context)
  exec_bound tx_id s (err message) = (err message, s)
  exec_bound tx_id s panic = (panic, s)

  -- Both branches bind the arguments before they look for a connection.
  unfoldable pub exec_prepare : Str → Str → List (Value N) → Session C W → Outcome ℕ × Session C W
  exec_prepare tx_id sql arg s = exec_bound tx_id s (bind_arg sql arg s)

  module _ {T : Type 0} (json_decode : List (Value N) → Outcome T) where
    unfoldable pub decoded : Outcome (List (Value N)) × W → Outcome T × W
    decoded rows = and_then rows (λ json world. (json_decode json, world))

    unfoldable pub fetch_found : Str → Str → Session C W → Option C → Outcome T × Session C W
    fetch_found tx_id sql s none = (err (not_exist tx_id), s)
    fetch_found tx_id sql s (some conn) =
        with_world db s (decoded (queries.fetch_rows conn sql s.world))

    unfoldable pub fetch : Str → Str → Session C W → Outcome T × Session C W
    fetch tx_id sql s =
        if is_empty tx_id
        then with_world db s
            (and_then (acquired s) (λ conn world. decoded (queries.fetch_rows conn sql world)))
        else fetch_found tx_id sql s (find_tx tx_id s.context)

    unfoldable pub fetch_prepare_found : Str → Session C W → Q → Option C → Outcome T × Session C W
    fetch_prepare_found tx_id s q none = (err (not_exist tx_id), s)
    fetch_prepare_found tx_id s q (some conn) =
        with_world db s (decoded (queries.fetch_parperd conn q s.world))

    unfoldable pub fetch_bound : Str → Session C W → Outcome Q → Outcome T × Session C W
    fetch_bound tx_id s (ok q) = fetch_prepare_found tx_id s q (find_tx tx_id s.context)
    fetch_bound tx_id s (err message) = (err message, s)
    fetch_bound tx_id s panic = (panic, s)

    -- Without a transaction the connection is taken before the arguments are bound.
    unfoldable pub fetch_prepare :
        Str → Str → List (Value N) → Session C W → Outcome T × Session C W
    fetch_prepare tx_id sql arg s =
        if is_empty tx_id
        then with_world db s (
            and_then (acquired s) λ conn world.
              and_then (bind_arg sql arg s, world)
                λ q after. decoded (queries.fetch_parperd conn q after))
        else fetch_bound tx_id s (bind_arg sql arg s)
