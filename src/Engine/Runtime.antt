-- ===== src/Engine/Runtime.antt =====
-- `RbatisEngine` of src/engine/runtime.rs: evaluation with a cache of parsed expressions. The cache
-- is a state that the calls pass on, a map as its entries with the last insertion in front; whether
-- a lock is free (`try_read`, `try_write`) is an argument.
use rbatis.Engine.Operators.{OptMap}
use rbatis.Engine.Eval.{Numeric}
use rbatis.Engine.Node as Node
use rbatis.Engine.Node.{Node}
use rbatis.Engine.Parser.{parser}
use rbatis.Json.{Value}
use rbatis.Prelude.{
  Bool, Option, none, some, List, [], ◌∷◌, if◌then◌else◌, Outcome, ok, err, panic, ◌>>=◌,
}
use rbatis.Text.{Str, codes, str_eq, contains, replace}

abbrev pub Cache : Type 0 → Type 0
Cache N = List (Str × Node N)

module _ {N : Type 0} where
  unfoldable pub lookup : Str → Cache N → Option (Node N)
  lookup key [] = none
  lookup key ((k, node) ∷ cache) = if str_eq k key then some node else lookup key cache

  unfoldable pub cache_read : Bool → Str → Cache N → Option (Node N)
  cache_read free arg cache = if free then lookup arg cache else none

  unfoldable pub cache_insert : Bool → Str → Node N → Cache N → Cache N
  cache_insert free key node cache = if free then (key, node) ∷ cache else cache

-- What `eval` reads of an expression: " and " is the operator &&.
unfoldable pub lexer_arg : Str → Str
lexer_arg expr =
    if contains expr (codes " and ") then replace expr (codes " and ") (codes " && ") else expr

-- The locks' state for the two accesses of a call.
pub record Locks : Type 0 where
  pub can_read : Bool
  pub can_write : Bool

module _ {N F : Type 0} (ops : Numeric N F) where
  -- Without a cached node: parse, insert, evaluate.
  unfoldable pub eval_new :
      OptMap → Bool → Str → Value N → Cache N → Outcome (Node N) → Outcome (Value N) × Cache N
  eval_new opt_map free key arg cache (ok node) =
      (Node.eval ops node arg, cache_insert free key node cache)
  eval_new opt_map free key arg cache (err message) = (err message, cache)
  eval_new opt_map free key arg cache panic = (panic, cache)

  -- With what the cache holds for the expression.
  unfoldable pub eval_cached :
      OptMap → Bool → Str → Value N → Cache N → Option (Node N) → Outcome (Value N) × Cache N
  eval_cached opt_map free key arg cache (some node) = (Node.eval ops node arg, cache)
  eval_cached opt_map free key arg cache none =
      eval_new opt_map free key arg cache (parser ops opt_map key)

  unfoldable pub eval : OptMap → Locks → Str → Value N → Cache N → Outcome (Value N) × Cache N
  eval opt_map locks expr arg cache =
      eval_cached opt_map locks.can_write (lexer_arg expr) arg cache
        (cache_read locks.can_read (lexer_arg expr) cache)

  unfoldable pub eval_no_cache : OptMap → Str → Value N → Outcome (Value N)
  eval_no_cache opt_map expr arg = do node ← parser ops opt_map expr; Node.eval ops node arg
