-- ===== src/Db/Bind.antt =====
-- rbatis-core/src/db.rs: `DBQuery::bind_value`. What serde_json says of a number, and the text of a
-- value, are a parameter.
use rbatis.Db.Backend.{
  Bound, bound_text, bound_null, bound_float, bound_integer, Backend, match_driver, un_init,
}
use rbatis.Json.{Value, null, number, string}
use rbatis.Prelude.{unwrap, Bool, Option, none, some, if◌then◌else◌, Outcome, ok, err, panic, ◌>>=◌}
use rbatis.Text.{Str}
use rbatis.Db.Pool.{DbQuery}

pub record Numbers (N F I : Type 0) : Type 0 where
  pub is_f64 : N → Bool
  pub is_u64 : N → Bool
  pub is_i64 : N → Bool
  pub as_f64 : N → Option F
  pub as_i64 : N → Option I
  pub to_string : Value N → Str

unfoldable pub bind_some : {Q B : Type 0} → (Q → B → Q) → Q → Option B → Q
bind_some bind q none = q
bind_some bind q (some b) = bind q b

module _ {N F I : Type 0} (numbers : Numbers N F I) where
  -- An unsigned integer is bound as a float; a number of no kind is not bound.
  unfoldable pub bound_number : N → Outcome (Option (Bound F I))
  bound_number n =
      if numbers.is_f64 n
      then (do f ← unwrap (numbers.as_f64 n); ok (some (bound_float f)))
      else if numbers.is_u64 n
      then (do f ← unwrap (numbers.as_f64 n); ok (some (bound_float f)))
      else if numbers.is_i64 n
      then (do i ← unwrap (numbers.as_i64 n); ok (some (bound_integer i)))
      else ok none

  unfoldable pub bound : Value N → Outcome (Option (Bound F I))
  bound (string s) = ok (some (bound_text s))
  bound null = ok (some bound_null)
  bound (number n) = bound_number n
  bound t = ok (some (bound_text (numbers.to_string t)))

  module _ {W : Type 0} (my pg lite : Backend W N F I) where
    unfoldable pub bind_value : DbQuery my pg lite → Value N → Outcome (DbQuery my pg lite)
    bind_value query t =
        match_driver query.driver_type query (err un_init) panic
          (λ q. bound t >>= λ b. ok (record query { of_mysql = some (bind_some my.bind q b) }))
          (λ q. bound t >>= λ b. ok (record query { of_postgres = some (bind_some pg.bind q b) }))
          (λ q. bound t >>= λ b. ok (record query { of_sqlite = some (bind_some lite.bind q b) }))
