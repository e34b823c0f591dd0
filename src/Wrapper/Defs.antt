-- ===== src/Wrapper/Defs.antt =====
-- src/wrapper.rs: `Wrapper`, its macros and its methods.
use rbatis.Driver.{DriverType, postgres, stmt_convert}
use rbatis.Json.{Value}
use rbatis.Prelude.{
  ◌>>=◌, ℕ, zero, suc, ◌+◌, Bool, true, false, ◌||◌, Option, none, some, List, [], ◌∷◌, ◌++◌,
  if◌then◌else◌, length, Outcome, ok, err,
}
use rbatis.Text.{
  Str, codes, ends_with, replace, trim_start, trim_end, trim, trim_start_matches, trim_end_matches,
}

pub record Wrapper (N : Type 0) : Type 0 where
  pub driver_type : DriverType
  pub sql : Str
  pub args : List (Value N)
  pub error : Option Str

abbrev pub Method : Type 0 → Type 0
Method N = Wrapper N → Outcome (Wrapper N)

-- The test of the macros `add_and!` and `add_or!`.
unfoldable pub is_linked : Str → Bool
is_linked sql =
    ends_with sql (codes " WHERE ") || ends_with sql (codes " AND ") || ends_with sql (codes " OR ")

abbrev pub is_postgres : DriverType → Bool
is_postgres postgres = true
is_postgres _ = false

-- `left` rounds of the loop over the placeholders, from `index` on.
unfoldable pub renumber : DriverType → ℕ → ℕ → ℕ → Str → Outcome Str
renumber d zero index arg_old_len sql = ok sql
renumber d (suc left) index arg_old_len sql = do
  old ← stmt_convert d index
  fresh ← stmt_convert d (index + arg_old_len)
  renumber d left (index + 1) arg_old_len (replace sql old fresh)

pub record Case (N : Type 0) : Type 0 where
  pub test : Bool
  pub func : Method N

module _ {N : Type 0} where
  unfoldable pub new : DriverType → Wrapper N
  new d = record { driver_type = d; sql = []; args = []; error = none }

  unfoldable pub from : DriverType → Str → List (Value N) → Wrapper N
  from d sql args = record { driver_type = d; sql = sql; args = args; error = none }

  abbrev pub push_str : Wrapper N → Str → Wrapper N
  push_str w s = record w { sql = w.sql ++ s }

  abbrev pub push_arg : Wrapper N → Value N → Wrapper N
  push_arg w v = record w { args = w.args ++ v ∷ [] }

  unfoldable pub add_and : Wrapper N → Wrapper N
  add_and w = if is_linked w.sql then w else push_str w (codes " AND ")

  unfoldable pub add_or : Wrapper N → Wrapper N
  add_or w = if is_linked w.sql then w else push_str w (codes " OR ")

  unfoldable pub trim_and : Wrapper N → Wrapper N
  trim_and w = record w {
    sql = trim_end_matches (trim_start_matches w.sql (codes " AND ")) (codes " AND ");
  }

  unfoldable pub trim_or : Wrapper N → Wrapper N
  trim_or w = record w {
    sql = trim_end_matches (trim_start_matches w.sql (codes " OR ")) (codes " OR ");
  }

  -- The result, and the wrapper that the call leaves behind.
  unfoldable pub check : Wrapper N → Outcome (Wrapper N) × Wrapper N
  check w = elim w.error [
    | some e ↦ (err e, record w { error = none })
    | none ↦ (ok (trim_or (trim_and w)), trim_or (trim_and w))
  ]

  unfoldable pub right_link : DriverType → Str → List (Value N) → Method N
  right_link d sql args w = do
    new_sql ← (if is_postgres d then renumber d (length args) 0 (length args) sql else ok sql)
    ok (record w { sql = w.sql ++ new_sql; args = w.args ++ args })

  unfoldable pub right_link_wrapper : Wrapper N → Method N
  right_link_wrapper arg w = right_link arg.driver_type arg.sql arg.args w

  unfoldable pub do_if : Bool → Method N → Method N
  do_if test method w = if test then method w else ok w

  unfoldable pub do_match : List (Case N) → Method N → Method N
  do_match [] default w = default w
  do_match (x ∷ cases) default w =
      let later = do_match cases default w in if x.test then x.func w else later

-- Upper case for the key words of a raw text.
unfoldable pub upper_words : Str → Str
upper_words sql =
    replace (replace (replace sql (codes " and ") (codes " AND ")) (codes " or ") (codes " OR "))
      (codes " where ") (codes " WHERE ")

module _ {N : Type 0} where
  unfoldable pub set_sql : Str → Wrapper N → Wrapper N
  set_sql sql w = record w { sql = upper_words sql }

  unfoldable pub push_sql : Str → Wrapper N → Wrapper N
  push_sql sql w = push_str w (upper_words sql)

  unfoldable pub trim_sql : Str → Wrapper N → Wrapper N
  trim_sql sql w = record w { sql = trim w.sql }

  unfoldable pub trim_sql_start : Str → Wrapper N → Wrapper N
  trim_sql_start sql w = record w { sql = trim_start w.sql }

  unfoldable pub trim_sql_end : Str → Wrapper N → Wrapper N
  trim_sql_end sql w = record w { sql = trim_end w.sql }
