-- ===== src/Engine/Caching.antt =====
-- src/engine/runtime.rs: what the cache of expressions changes.
use rbatis.Engine.Eval.{Numeric}
use rbatis.Engine.Node.{Node}
use rbatis.Engine.Operators.{OptMap}
use rbatis.Engine.Parser.{parser}
use rbatis.Engine.Runtime.{
  Cache, lookup, cache_read, cache_insert, lexer_arg, Locks, eval_new, eval_cached, eval,
  eval_no_cache,
}
use rbatis.Json.{Value}
use rbatis.Prelude.{
  ◌≡◌, refl, sym, ap, ◌∙◌, inl, inr, Bool, true, false, Option, none, some, [], ◌∷◌, Bool-cases,
  All, Outcome, ok, err, panic,
}
use rbatis.Text.{Str, str_eq, str_eq_iff}

module _ {N : Type 0} where
  lookup_hit :
      (key k : Str) (node : Node N) (cache : Cache N)
      → str_eq k key ≡ true
      → lookup key ((k, node) ∷ cache) ≡ some node
  unfolding lookup
  lookup_hit key k node cache same = rw same refl

  lookup_miss :
      (key k : Str) (node : Node N) (cache : Cache N)
      → str_eq k key ≡ false
      → lookup key ((k, node) ∷ cache) ≡ lookup key cache
  unfolding lookup
  lookup_miss key k node cache other = rw other refl

  same_node : {a b : Node N} → some a ≡ some b → a ≡ b
  same_node h = cc

module _ {N F : Type 0} (ops : Numeric N F) (opt_map : OptMap) where
  -- An entry holds what the parser makes of its key.
  unfoldable pub IsParsed : Str × Node N → Type 0
  IsParsed (key, node) = parser ops opt_map key ≡ ok node

  unfoldable pub IsCoherent : Cache N → Type 0
  IsCoherent cache = All IsParsed cache

  IsCoherent-lookup :
      (key : Str) (cache : Cache N) (node : Node N)
      → IsCoherent cache
      → lookup key cache ≡ some node
      → parser ops opt_map key ≡ ok node
  unfolding lookup IsCoherent IsParsed
  IsCoherent-lookup key [] node h e = cc
  IsCoherent-lookup key ((k, found) ∷ cache) node (p, h) e = elim (Bool-cases (str_eq k key)) [
    | inl same ↦
        ap (λ t. parser ops opt_map t) (sym ((str_eq_iff k key).0 same))
        ∙ p
        ∙ ap (λ n. ok n) (same_node (sym (lookup_hit key k found cache same) ∙ e))
    | inr other ↦ IsCoherent-lookup key cache node h (sym (lookup_miss key k found cache other) ∙ e)
  ]

  IsCoherent-insert :
      (free : Bool) (key : Str) (node : Node N) (cache : Cache N)
      → parser ops opt_map key ≡ ok node
      → IsCoherent cache
      → IsCoherent (cache_insert free key node cache)
  unfolding IsCoherent IsParsed cache_insert
  IsCoherent-insert true key node cache e h = (e, h)
  IsCoherent-insert false key node cache e h = h

  -- The result and the cache of a call.
  IsFaithful : Str → Value N → Outcome (Value N) × Cache N → Type 0
  IsFaithful key arg (result, cache) =
      (result ≡ eval_no_cache ops opt_map key arg) × IsCoherent cache

  eval_new-IsFaithful :
      (free : Bool) (key : Str) (arg : Value N) (cache : Cache N) (parsed : Outcome (Node N))
      → parser ops opt_map key ≡ parsed
      → IsCoherent cache
      → IsFaithful key arg (eval_new ops opt_map free key arg cache parsed)
  unfolding IsFaithful eval_new eval_no_cache
  eval_new-IsFaithful free key arg cache (ok node) e h =
      (rw e refl, IsCoherent-insert free key node cache e h)
  eval_new-IsFaithful free key arg cache (err message) e h = (rw e refl, h)
  eval_new-IsFaithful free key arg cache panic e h = (rw e refl, h)

  read-IsParsed :
      (free : Bool) (key : Str) (cache : Cache N) (node : Node N)
      → IsCoherent cache
      → cache_read free key cache ≡ some node
      → parser ops opt_map key ≡ ok node
  unfolding cache_read
  read-IsParsed true key cache node h e = IsCoherent-lookup key cache node h e
  read-IsParsed false key cache node h e = cc

  eval_cached-IsFaithful :
      (locks : Locks) (key : Str) (arg : Value N) (cache : Cache N) (found : Option (Node N))
      → cache_read locks.can_read key cache ≡ found
      → IsCoherent cache
      → IsFaithful key arg (eval_cached ops opt_map locks.can_write key arg cache found)
  unfolding IsFaithful eval_cached eval_no_cache
  eval_cached-IsFaithful locks key arg cache none e h =
      eval_new-IsFaithful locks.can_write key arg cache (parser ops opt_map key) refl h
  eval_cached-IsFaithful locks key arg cache (some node) e h =
      (rw (read-IsParsed locks.can_read key cache node h e) refl, h)

  -- If each entry of the cache holds what the parser makes of its key, `eval` returns what
  -- `eval_no_cache` returns for the expression with && for " and ", whichever locks are free, and each
  -- entry of the cache it leaves is such an entry again.
  pub eval-eval_no_cache :
      (locks : Locks) (expr : Str) (arg : Value N) (cache : Cache N)
      → IsCoherent cache
      → ((eval ops opt_map locks expr arg cache).0 ≡ eval_no_cache ops opt_map (lexer_arg expr) arg)
        × IsCoherent (eval ops opt_map locks expr arg cache).1
  unfolding eval IsFaithful
  eval-eval_no_cache locks expr arg cache h =
      eval_cached-IsFaithful locks (lexer_arg expr) arg cache
        (cache_read locks.can_read (lexer_arg expr) cache) refl h
