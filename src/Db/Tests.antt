-- ===== src/Db/Tests.antt =====
-- The theorems at concrete inputs, on drivers that number their connections.
use rbatis.Db.Backend.{Bound, Backend, new_my, new_pg, with_slot, wrap, match_driver, un_init}
use rbatis.Db.Bind.{Numbers, bound_number, bound, bind_some, bind_value}
use rbatis.Db.Conn.{execute, execute_parperd}
use rbatis.Db.Drivers.{IsCalm, IsLost, IsOf, execute_parperd-pool, commit-rollback}
use rbatis.Db.Pool.{DbPool, DbTx, new, make_query_for, make_query, acquire, begin}
use rbatis.Db.Tx as Tx
use rbatis.Driver.{DriverType}
use rbatis.Json.{number}
use rbatis.Prelude.{
  ℕ, ◌+◌, ◌≡◌, refl, inl, true, false, some, List, [], ◌∷◌, ◌++◌, length, ok, panic, Ensures,
  is_panic,
}
use rbatis.Text.{Str, codes, strip_prefix, starts_with}

db : Unit {0}
unfolding with_slot wrap match_driver un_init bound_number bound bind_some bind_value execute
    execute_parperd new make_query_for make_query acquire begin Tx.commit Tx.rollback starts_with
    strip_prefix
db = tt

-- Queries are their text and what is bound to it; the world counts the calls.
abbrev backend : Backend ℕ ℕ ℕ ℕ
backend = record {
  Pool = ℕ;
  Conn = ℕ;
  Tx = ℕ;
  Query = Str × List (Bound ℕ ℕ);
  Cursor = Str;
  connect = λ url w. (ok w, w + 1);
  connect_opt = λ opt url w. (ok w, w + 1);
  query = λ sql. (sql, []);
  bind = λ q b. (q.0, q.1 ++ b ∷ []);
  acquire = λ p w. (ok w, w + 1);
  begin = λ p w. (ok w, w + 1);
  fetch = λ c sql. sql;
  fetch_query = λ c q. q.0;
  execute = λ c sql w. (ok c, w + 1);
  execute_query = λ c q w. (ok (length q.1), w + 1);
  tx_fetch = λ t sql. sql;
  tx_fetch_query = λ t q. q.0;
  tx_execute = λ t sql w. (ok t, w + 1);
  tx_execute_query = λ t q w. (ok (length q.1), w + 1);
  commit = λ t w. (ok t, w + 1);
  rollback = λ t w. (ok t, w + 1);
  fetch_json = λ c w. (ok [], w);
}

abbrev pool : DbPool backend backend backend
pool = new_pg 3

-- The url's start decides on the driver.
connect_postgres : new backend backend backend (codes "postgres://localhost") 5 ≡ (ok (new_pg 5), 6)
unfolding db
connect_postgres = refl

abbrev numbers : Numbers ℕ ℕ ℕ
numbers = record {
  is_f64 = λ n. false;
  is_u64 = λ n. true;
  is_i64 = λ n. true;
  as_f64 = λ n. some n;
  as_i64 = λ n. some n;
  to_string = λ v. [];
}

-- An unsigned integer is bound as a float.
bind_unsigned :
    bind_value numbers backend backend backend (new_my (codes "q", [])) (number 7)
    ≡ ok (new_my (codes "q", Bound.bound_float 7 ∷ []))
unfolding db
bind_unsigned = refl

-- A query of another driver panics.
wrong_query :
    execute_parperd backend backend backend (new_pg 1) (new_my (codes "q", [])) 0 ≡ (panic, 0)
unfolding db
wrong_query = refl

calm : IsCalm backend backend backend backend
calm = λ c q w. refl

execute_parperd-pool_example :
    is_panic (execute_parperd backend backend backend (new_pg 5) (new_pg (codes "q", [])) 9).0
    ≡ false
unfolding db
execute_parperd-pool_example =
    execute_parperd-pool backend backend backend pool (codes "q") (new_pg 5)
      (new_pg (codes "q", [])) 5 6 9 calm calm calm refl refl

abbrev tx : DbTx backend backend backend
tx = new_pg 4

commit-rollback_example :
    Ensures (IsLost backend backend backend) (Tx.commit backend backend backend tx 0).0
    × Ensures (IsOf DriverType.postgres) (Tx.rollback backend backend backend tx 0).0
commit-rollback_example = commit-rollback backend backend backend tx 0 (inl refl)
