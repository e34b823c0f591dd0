-- ===== src/Session/Statements.antt =====
-- src/rbatis.rs: statements and queries change neither the open transactions nor the pool.
use rbatis.Json.{Value}
use rbatis.Session.{Database, Session, find_tx, with_world, exec_on, exec_found, exec}
use rbatis.Session.Prepared.{
  Queries, bind_arg, exec_prepare_found, exec_bound, exec_prepare, decoded, fetch_found, fetch,
  fetch_prepare_found, fetch_bound, fetch_prepare,
}
use rbatis.Prelude.{
  ◌≡◌, refl, Bool, true, false, if◌then◌else◌, Option, none, some, List, Outcome, ok, err, panic,
}
use rbatis.Text.{Str, is_empty}

-- The same transactions are open, and the pool is the same.
unfoldable pub IsKept : {C W : Type 0} → Session C W → Session C W → Type 0
IsKept s t = (t.context ≡ s.context) × (t.pool ≡ s.pool)

module _ {C W : Type 0} (db : Database C W) (s : Session C W) where
  if-IsKept {ℓ} :
      {R : Type ℓ} (b : Bool) (x y : Outcome R × Session C W)
      → IsKept s x.1
      → IsKept s y.1
      → IsKept s (if b then x else y).1
  if-IsKept true x y p q = p
  if-IsKept false x y p q = q

  with_world-IsKept {ℓ} : {R : Type ℓ} (r : Outcome R × W) → IsKept s (with_world db s r).1
  unfolding with_world IsKept
  with_world-IsKept (result, world) = (refl, refl)

  IsKept-refl : IsKept s s
  unfolding IsKept
  IsKept-refl = (refl, refl)

  exec_found-IsKept :
      (tx_id sql : Str) (found : Option C) → IsKept s (exec_found db tx_id sql s found).1
  unfolding exec_found
  exec_found-IsKept tx_id sql none = IsKept-refl
  exec_found-IsKept tx_id sql (some conn) = with_world-IsKept (db.execute conn sql s.world)

  pub exec-IsKept : (tx_id sql : Str) → IsKept s (exec db tx_id sql s).1
  unfolding exec
  exec-IsKept tx_id sql =
      if-IsKept (is_empty tx_id) _ _
        (if-IsKept s.pool _ _ (with_world-IsKept (exec_on db sql (db.acquire s.world))) IsKept-refl)
        (exec_found-IsKept tx_id sql (find_tx tx_id s.context))

module _ {C W Q N : Type 0} (db : Database C W) (queries : Queries C W Q N) (s : Session C W) where
  exec_prepare_found-IsKept :
      (tx_id : Str) (q : Q) (found : Option C)
      → IsKept s (exec_prepare_found db queries tx_id q s found).1
  unfolding exec_prepare_found
  exec_prepare_found-IsKept tx_id q none = IsKept-refl db s
  exec_prepare_found-IsKept tx_id q (some conn) =
      with_world-IsKept db s (queries.execute_parperd conn q s.world)

  exec_bound-IsKept : (tx_id : Str) (q : Outcome Q) → IsKept s (exec_bound db queries tx_id s q).1
  unfolding exec_bound
  exec_bound-IsKept tx_id (ok q) =
      if-IsKept db s (is_empty tx_id) _ _ (with_world-IsKept db s _)
        (exec_prepare_found-IsKept tx_id q (find_tx tx_id s.context))
  exec_bound-IsKept tx_id (err message) = IsKept-refl db s
  exec_bound-IsKept tx_id panic = IsKept-refl db s

  pub exec_prepare-IsKept :
      (tx_id sql : Str) (args : List (Value N))
      → IsKept s (exec_prepare db queries tx_id sql args s).1
  unfolding exec_prepare
  exec_prepare-IsKept tx_id sql args = exec_bound-IsKept tx_id (bind_arg db queries sql args s)

  module _ {T : Type 0} (decode : List (Value N) → Outcome T) where
    fetch_found-IsKept :
        (tx_id sql : Str) (found : Option C)
        → IsKept s (fetch_found db queries decode tx_id sql s found).1
    unfolding fetch_found
    fetch_found-IsKept tx_id sql none = IsKept-refl db s
    fetch_found-IsKept tx_id sql (some conn) =
        with_world-IsKept db s (decoded db queries decode (queries.fetch_rows conn sql s.world))

    pub fetch-IsKept : (tx_id sql : Str) → IsKept s (fetch db queries decode tx_id sql s).1
    unfolding fetch
    fetch-IsKept tx_id sql =
        if-IsKept db s (is_empty tx_id) _ _ (with_world-IsKept db s _)
          (fetch_found-IsKept tx_id sql (find_tx tx_id s.context))

    fetch_prepare_found-IsKept :
        (tx_id : Str) (q : Q) (found : Option C)
        → IsKept s (fetch_prepare_found db queries decode tx_id s q found).1
    unfolding fetch_prepare_found
    fetch_prepare_found-IsKept tx_id q none = IsKept-refl db s
    fetch_prepare_found-IsKept tx_id q (some conn) =
        with_world-IsKept db s (decoded db queries decode (queries.fetch_parperd conn q s.world))

    fetch_bound-IsKept :
        (tx_id : Str) (q : Outcome Q) → IsKept s (fetch_bound db queries decode tx_id s q).1
    unfolding fetch_bound
    fetch_bound-IsKept tx_id (ok q) = fetch_prepare_found-IsKept tx_id q (find_tx tx_id s.context)
    fetch_bound-IsKept tx_id (err message) = IsKept-refl db s
    fetch_bound-IsKept tx_id panic = IsKept-refl db s

    pub fetch_prepare-IsKept :
        (tx_id sql : Str) (args : List (Value N))
        → IsKept s (fetch_prepare db queries decode tx_id sql args s).1
    unfolding fetch_prepare
    fetch_prepare-IsKept tx_id sql args =
        if-IsKept db s (is_empty tx_id) _ _ (with_world-IsKept db s _)
          (fetch_bound-IsKept tx_id (bind_arg db queries sql args s))
