-- ===== src/Engine/Eval.antt =====
-- src/engine/eval.rs: the operators on values. What the code uses of serde_json's numbers and of
-- `f64` is the record `Numeric`, a parameter.
use rbatis.Json.{Value, null, bool, number, string}
use rbatis.Prelude.{
  unwrap, Bool, true, false, not, Option, none, some, ◌++◌, if◌then◌else◌, Outcome, ok, err, ◌>>=◌,
}
use rbatis.Text.{Str, codes, str_eq}

-- `as_f64` of a number always succeeds; `from_f64` fails on infinities and NaN.
pub record Numeric (N F : Type 0) : Type 0 where
  pub as_f64 : N → F
  pub from_f64 : F → Option N
  pub add : F → F → F
  pub sub : F → F → F
  pub mul : F → F → F
  pub div : F → F → F
  pub same : F → F → Bool
  pub less : F → F → Bool
  pub at_most : F → F → Bool
  -- `str::parse::<f64>` and `str::parse::<i64>`
  pub parse_f64 : Str → Option F
  pub parse_i64 : Str → Option N

module _ {N : Type 0} where
  unfoldable pub as_bool : Value N → Option Bool
  as_bool (bool b) = some b
  as_bool _ = none

  unfoldable pub as_str : Value N → Option Str
  as_str (string s) = some s
  as_str _ = none

module _ {N F : Type 0} (ops : Numeric N F) where
  -- Both values as `f64`, if both are numbers.
  unfoldable pub both_f64 : Value N → Value N → Option (F × F)
  both_f64 (number a) (number b) = some (ops.as_f64 a, ops.as_f64 b)
  both_f64 _ _ = none

  unfoldable pub eq : Value N → Value N → Bool
  eq null null = true
  eq (number a) (number b) = ops.same (ops.as_f64 a) (ops.as_f64 b)
  eq (string a) (string b) = str_eq a b
  eq (bool true) (bool b) = b
  eq (bool false) (bool b) = not b
  eq _ _ = false

  unfoldable pub unsupported : Str → Outcome (Value N)
  unsupported op = err (codes "[rbatis] un support opt = " ++ op)

  unfoldable pub compare_values : (F → F → Bool) → Str → Value N → Value N → Outcome (Value N)
  compare_values test op left right = elim (both_f64 left right) [
    | none ↦ unsupported op
    | some (a, b) ↦ ok (bool (test a b))
  ]

  -- A result that is no finite number makes `from_f64(..).unwrap()` panic.
  unfoldable pub number_of : F → Outcome (Value N)
  number_of f = do n ← unwrap (ops.from_f64 f); ok (number n)

  unfoldable pub calculate : (F → F → F) → Str → Value N → Value N → Outcome (Value N)
  calculate op_f64 op left right = elim (both_f64 left right) [
    | none ↦ unsupported op
    | some (a, b) ↦ number_of (op_f64 a b)
  ]

  unfoldable pub add_values : Value N → Value N → Outcome (Value N)
  add_values (number a) (number b) = number_of (ops.add (ops.as_f64 a) (ops.as_f64 b))
  add_values (string a) (string b) = ok (string (a ++ b))
  add_values _ _ = err (codes "[rbatis] un support diffrent type '+' opt")

  -- The right side is not looked at where the left one decides.
  unfoldable pub and_values : Value N → Value N → Outcome (Value N)
  and_values left right = do
    a ← unwrap (as_bool left)
    (if a then (do b ← unwrap (as_bool right); ok (bool b)) else ok (bool false))

  unfoldable pub or_values : Value N → Value N → Outcome (Value N)
  or_values left right = do
    a ← unwrap (as_bool left)
    (if a then ok (bool true) else (do b ← unwrap (as_bool right); ok (bool b)))

  unfoldable pub eval : Value N → Value N → Str → Outcome (Value N)
  eval left right op =
      if str_eq op (codes "&&")
      then and_values left right
      else if str_eq op (codes "||")
      then or_values left right
      else if str_eq op (codes "==")
      then ok (bool (eq left right))
      else if str_eq op (codes "!=")
      then ok (bool (not (eq left right)))
      else if str_eq op (codes ">=")
      then compare_values (λ a b. ops.at_most b a) op left right
      else if str_eq op (codes "<=")
      then compare_values ops.at_most op left right
      else if str_eq op (codes ">")
      then compare_values (λ a b. ops.less b a) op left right
      else if str_eq op (codes "<")
      then compare_values ops.less op left right
      else if str_eq op (codes "+")
      then add_values left right
      else if str_eq op (codes "-")
      then calculate ops.sub op left right
      else if str_eq op (codes "*")
      then calculate ops.mul op left right
      else if str_eq op (codes "/")
      then calculate ops.div op left right
      else unsupported op
