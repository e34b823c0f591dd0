-- ===== src/Wrapper/Invocations.antt =====
-- Calls of the builder's methods as data, and chains of them.
use rbatis.Driver.{DriverType}
use rbatis.Json.{Value}
use rbatis.Wrapper.Calls
use rbatis.Wrapper.Calls.{bound}
use rbatis.Wrapper.Defs.{
  Wrapper, Method, from, trim_and, trim_or, push_sql, trim_sql, trim_sql_start, trim_sql_end,
  right_link, right_link_wrapper, do_if,
}
use rbatis.Wrapper.Marks.{IsPlain}
use rbatis.Wrapper.Balance.{IsBalanced}
use rbatis.Wrapper.BalanceLists.{IsPlainObject}
use rbatis.Prelude.{Bool, List, [], ◌∷◌, All, ok, ◌>>=◌}
use rbatis.Text.{Str}

-- A call of one of the methods, but for `set_sql` and `do_match`; that of `do_if` is given a call.
pub data Call (N : Type 0) : Type 0 where
  and or trim_and_call trim_or_call : Call N
  having push_sql_call is_null is_not_null : Str → Call N
  eq ne gt ge lt le like like_left like_right not_like : Str → Value N → Call N
  between not_between : Str → Value N → Value N → Call N
  in_array not_in : Str → List (Value N) → Call N
  all_eq : Value N → Call N
  order_by : Bool → List Str → Call N
  group_by : List Str → Call N
  trim_sql_call trim_sql_start_call trim_sql_end_call : Str → Call N
  right_link_call : DriverType → Str → List (Value N) → Call N
  right_link_wrapper_call : Wrapper N → Call N
  do_if_call : Bool → Call N → Call N

module _ {N : Type 0} where
  unfoldable pub apply : Call N → Method N
  apply and w = ok (Calls.and w)
  apply or w = ok (Calls.or w)
  apply trim_and_call w = ok (trim_and w)
  apply trim_or_call w = ok (trim_or w)
  apply (having s) w = ok (Calls.having s w)
  apply (push_sql_call s) w = ok (push_sql s w)
  apply (is_null c) w = ok (Calls.is_null c w)
  apply (is_not_null c) w = ok (Calls.is_not_null c w)
  apply (eq c v) w = Calls.eq c v w
  apply (ne c v) w = Calls.ne c v w
  apply (gt c v) w = Calls.gt c v w
  apply (ge c v) w = Calls.ge c v w
  apply (lt c v) w = Calls.lt c v w
  apply (le c v) w = Calls.le c v w
  apply (like c v) w = Calls.like c v w
  apply (like_left c v) w = Calls.like_left c v w
  apply (like_right c v) w = Calls.like_right c v w
  apply (not_like c v) w = Calls.not_like c v w
  apply (between c u v) w = Calls.between c u v w
  apply (not_between c u v) w = Calls.not_between c u v w
  apply (in_array c vec) w = Calls.in_array c vec w
  apply (not_in c vec) w = Calls.not_in c vec w
  apply (all_eq v) w = Calls.all_eq v w
  apply (order_by is_asc columns) w = ok (Calls.order_by is_asc columns w)
  apply (group_by columns) w = ok (Calls.group_by columns w)
  apply (trim_sql_call s) w = ok (trim_sql s w)
  apply (trim_sql_start_call s) w = ok (trim_sql_start s w)
  apply (trim_sql_end_call s) w = ok (trim_sql_end s w)
  apply (right_link_call e s args) w = right_link e s args w
  apply (right_link_wrapper_call arg) w = right_link_wrapper arg w
  apply (do_if_call test call) w = do_if test (apply call) w

  unfoldable pub chain : List (Call N) → Method N
  chain [] w = ok w
  chain (c ∷ cs) w = do w' ← apply c w; chain cs w'

  -- The columns and the raw texts of a call hold no placeholder of their own, and a condition that
  -- is linked is of this driver and has as many as arguments.
  abbrev pub IsPlainCall : DriverType → Call N → Type 0
  IsPlainCall d and = Unit
  IsPlainCall d or = Unit
  IsPlainCall d trim_and_call = Unit
  IsPlainCall d trim_or_call = Unit
  IsPlainCall d (having s) = IsPlain d s
  IsPlainCall d (push_sql_call s) = IsPlain d s
  IsPlainCall d (is_null c) = IsPlain d c
  IsPlainCall d (is_not_null c) = IsPlain d c
  IsPlainCall d (eq c v) = IsPlain d c
  IsPlainCall d (ne c v) = IsPlain d c
  IsPlainCall d (gt c v) = IsPlain d c
  IsPlainCall d (ge c v) = IsPlain d c
  IsPlainCall d (lt c v) = IsPlain d c
  IsPlainCall d (le c v) = IsPlain d c
  IsPlainCall d (like c v) = IsPlain d c
  IsPlainCall d (like_left c v) = IsPlain d c
  IsPlainCall d (like_right c v) = IsPlain d c
  IsPlainCall d (not_like c v) = IsPlain d c
  IsPlainCall d (between c u v) = IsPlain d c
  IsPlainCall d (not_between c u v) = IsPlain d c
  IsPlainCall d (in_array c vec) = IsPlain d c
  IsPlainCall d (not_in c vec) = IsPlain d c
  IsPlainCall d (all_eq v) = IsPlainObject d v
  IsPlainCall d (order_by is_asc columns) = All (IsPlain d) columns
  IsPlainCall d (group_by columns) = All (IsPlain d) columns
  IsPlainCall d (trim_sql_call s) = Unit
  IsPlainCall d (trim_sql_start_call s) = Unit
  IsPlainCall d (trim_sql_end_call s) = Unit
  IsPlainCall d (right_link_call e s args) = IsBalanced d (from e s args)
  IsPlainCall d (right_link_wrapper_call arg) = IsBalanced d arg
  IsPlainCall d (do_if_call test call) = IsPlainCall d call
