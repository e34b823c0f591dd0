-- ===== src/Wrapper/Tests.antt =====
-- Runs of the builder, and the theorems at concrete inputs. The numbers of JSON are ℕ here.
use Prim.Native.String.{String}
use rbatis.Driver.{DriverType, mysql, postgres, stmt_convert}
use rbatis.Json.{number, object, field, end}
use rbatis.Wrapper.Calls.{and, bound, bound_list, bind_each, eq_each}
use rbatis.Wrapper.Calls
use rbatis.Wrapper.Chain.{chain-IsBalanced}
use rbatis.Wrapper.Invocations.{Call, IsPlainCall, eq, in_array, order_by, chain, apply}
use rbatis.Wrapper.Check.{check-chain}
use rbatis.Wrapper.Links.{eq-and, all_eq_two}
use rbatis.Wrapper.Balance.{IsBalanced}
use rbatis.Wrapper.Defs.{
  Wrapper, new, from, do_if, trim_sql_end, add_and, add_or, trim_and, trim_or, check, is_linked,
  renumber, right_link, right_link_wrapper,
}
use rbatis.Prelude.{ℕ, ◌≡◌, refl, true, false, none, List, [], ◌∷◌, All, ok}
use rbatis.Text.{
  Str, codes, pop, trim_start, trim_end, is_whitespace, strip_prefix, starts_with, ends_with,
  replace_from, replace, strip_all, trim_start_matches, trim_end_matches,
}

wrapper : Unit {0}
unfolding new add_and add_or trim_and trim_or check is_linked Calls.and Calls.or bound bound_list
    bind_each eq_each Calls.in_array Calls.push_clause Calls.push_columns Calls.bound_between chain
    apply stmt_convert trim_end_matches trim_start_matches strip_all strip_prefix ends_with
    starts_with pop do_if trim_sql_end trim_end trim_start is_whitespace renumber replace
    replace_from right_link right_link_wrapper Calls.all_eq
wrapper = tt

abbrev calls : List (Call ℕ)
calls =
    eq (codes "id") (number 1)
    ∷ Call.or
    ∷ in_array (codes "id") (number 1 ∷ number 2 ∷ [])
    ∷ order_by true (codes "id" ∷ codes "name" ∷ [])
    ∷ Call.right_link_call mysql (codes "x =  ? ") (number 3 ∷ [])
    ∷ Call.do_if_call false Call.and
    ∷ Call.trim_sql_end_call []
    ∷ []

calls-plain : All (IsPlainCall mysql) calls
unfolding from
calls-plain = (
  refl,
  (tt, (refl, ((refl, (refl, tt)), (record { driver = refl; marks = refl }, (tt, (tt, tt)))))),
)

abbrev built : DriverType → Str → Wrapper ℕ
built d sql = record {
  driver_type = d;
  sql = sql;
  args = number 1 ∷ number 1 ∷ number 2 ∷ number 3 ∷ [];
  error = none;
}

abbrev mysql_text : String
mysql_text = " AND id =  ?  OR  OR id IN (  ?  ,  ?  ) ORDER BY id ASC , name ASCx =  ?"

chain_test : chain calls (new mysql) ≡ ok (built mysql (codes mysql_text))
unfolding wrapper
chain_test = refl

abbrev checked : Wrapper ℕ
checked = built mysql (codes "id =  ?  OR  OR id IN (  ?  ,  ?  ) ORDER BY id ASC , name ASCx =  ?")

check_test : (check (built mysql (codes mysql_text))).0 ≡ ok checked
unfolding wrapper
check_test = refl

chain-IsBalanced_example : (w : Wrapper ℕ) × (chain calls (new mysql) ≡ ok w) × IsBalanced mysql w
chain-IsBalanced_example = chain-IsBalanced mysql (cc) calls calls-plain

check-chain_example :
    IsBalanced mysql checked
    × (starts_with checked.sql (codes " OR ") ≡ false)
    × (ends_with checked.sql (codes " OR ") ≡ false)
check-chain_example =
    check-chain mysql calls (built mysql (codes mysql_text)) checked (cc) calls-plain chain_test
      check_test

-- `Wrapper::new(&DriverType::Postgres).eq("a", 5)`, checked
abbrev one_condition : Wrapper ℕ
one_condition = record {
  driver_type = postgres;
  sql = codes "a =  $1 ";
  args = number 5 ∷ [];
  error = none;
}

abbrev two_sets : Wrapper ℕ
two_sets = record {
  driver_type = postgres;
  sql = codes "UPDATE t SET  x =  $1 , y =  $2  WHERE ";
  args = number 1 ∷ number 2 ∷ [];
  error = none;
}

eq-and_example :
    Calls.eq (codes "b") (number 7) (and one_condition)
    ≡ ok (record one_condition {
      sql = codes "a =  $1  AND  AND b =  $2 ";
      args = number 5 ∷ number 7 ∷ [];
    })
unfolding is_linked ends_with starts_with strip_prefix stmt_convert
eq-and_example = eq-and one_condition (codes "b") (codes " $2 ") (number 7) refl refl

all_eq_two_example :
    Calls.all_eq {N = ℕ}
      (object (field (codes "a") (number 1) (field (codes "b") (number 2) end)))
      (new mysql)
    ≡ ok (record {
      driver_type = mysql;
      sql = codes " AND a =  ?  ,  AND b =  ? ";
      args = number 1 ∷ number 2 ∷ [];
      error = none;
    })
unfolding new add_and is_linked ends_with starts_with strip_prefix stmt_convert
all_eq_two_example =
    all_eq_two (new mysql) (codes "a") (codes "b") (codes " ? ") (codes " ? ") (number 1) (number 2)
      refl refl
