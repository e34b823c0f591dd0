-- ===== src/Engine/Parser.antt =====
-- src/engine/parser.rs: from tokens to one node. `find_replace_opt` looks for the first node of an
-- operator and puts a binary node in the place of it and its two neighbours.
use rbatis.Engine.Operators.{OptMap, is_allow_opt}
use rbatis.Engine.Tokens.{parser_tokens}
use rbatis.Engine.Eval.{Numeric}
use rbatis.Engine.Node as Node
use rbatis.Engine.Node.{Node, new_binary, new_opt}
use rbatis.Prelude.{
  ℕ, zero, suc, Bool, true, false, Option, none, some, List, [], ◌∷◌, if◌then◌else◌, length,
  Outcome, ok, err, panic, ◌>>=◌,
}
use rbatis.Text.{Str, codes, str_eq}

module _ {N : Type 0} where
  unfoldable pub is_operator : Str → Node N → Bool
  is_operator operator (new_opt opt) = str_eq operator opt
  is_operator operator _ = false

  unfoldable pub have_opt : List (Node N) → Bool
  have_opt [] = false
  have_opt (new_opt _ ∷ nodes) = true
  have_opt (_ ∷ nodes) = have_opt nodes

  -- The nodes behind an operator's node: an index out of bounds where there is none.
  unfoldable pub join_right : Node N → Str → List (Node N) → Outcome (Option (List (Node N)))
  join_right left operator [] = panic
  join_right left operator (right ∷ nodes) = ok (some (new_binary left right operator ∷ nodes))

  unfoldable pub prepend : Node N → Option (List (Node N)) → Option (List (Node N))
  prepend left none = none
  prepend left (some nodes) = some (left ∷ nodes)

  -- The loop behind the node `left`; nothing if the operator is not found.
  unfoldable pub replace_after : Str → Node N → List (Node N) → Outcome (Option (List (Node N)))
  unfolding join_right prepend
  replace_after operator left [] = ok none
  replace_after operator left (item ∷ nodes) =
      let later = replace_after operator item nodes in
      if is_operator operator item
      then join_right left operator nodes
      else (later >>= λ found. ok (prepend left found))

  -- An operator in front has no left neighbour: the index 0 - 1 is out of bounds.
  unfoldable pub replace_first : Str → List (Node N) → Outcome (Option (List (Node N)))
  replace_first operator [] = ok none
  replace_first operator (item ∷ nodes) =
      if is_operator operator item then panic else replace_after operator item nodes

  unfoldable pub again_if : Bool → List (Node N) → Outcome (List (Node N)) → Outcome (List (Node N))
  again_if more nodes again = if more then again else ok nodes

  -- Each call removes two nodes, so the number of nodes is enough fuel.
  unfoldable pub find_replace_opt : ℕ → Str → List (Node N) → Outcome (List (Node N))
  find_replace_opt zero operator nodes = panic
  find_replace_opt (suc fuel) operator nodes = do
    found ← replace_first operator nodes
    elim found [
      | none ↦ ok nodes
      | some rest ↦ again_if (have_opt rest) rest (find_replace_opt fuel operator rest)
    ]

  unfoldable pub replace_all : List Str → List (Node N) → Outcome (List (Node N))
  replace_all [] nodes = ok nodes
  replace_all (item ∷ items) nodes = do
    rest ← find_replace_opt (suc (length nodes)) item nodes
    replace_all items rest

  unfoldable pub first_node : List (Node N) → Outcome (Node N)
  first_node [] = err (codes "[rbatis] parser express fail")
  first_node (node ∷ nodes) = ok node

  -- The loop's `panic!` on an operator that is not allowed.
  unfoldable pub check_opt : OptMap → Node N → Outcome (Node N)
  check_opt opt_map (new_opt opt) = if is_allow_opt opt_map opt then ok (new_opt opt) else panic
  check_opt opt_map node = ok node

module _ {N F : Type 0} (ops : Numeric N F) where
  unfoldable pub parse_tokens : OptMap → List Str → Outcome (List (Node N))
  parse_tokens opt_map [] = ok []
  parse_tokens opt_map (item ∷ tokens) = do
    node ← Node.parser ops opt_map item
    checked ← check_opt opt_map node
    nodes ← parse_tokens opt_map tokens
    ok (checked ∷ nodes)

  unfoldable pub parser : OptMap → Str → Outcome (Node N)
  parser opt_map express = do
    nodes ← parse_tokens opt_map (parser_tokens opt_map express)
    rest ← replace_all opt_map.allow_priority_array nodes
    first_node rest
