-- ===== src/Engine/Chains.antt =====
-- Operands and operators in turn, as the parser of src/engine/parser.rs gets them, and one pass over
-- them that takes an operator from the left: the description that the parser's loops are held to.
use rbatis.Engine.Node.{Node, new_binary, new_opt}
use rbatis.Prelude.{Option, none, some, List, [], ◌∷◌, ◌++◌, if◌then◌else◌}
use rbatis.Text.{Str, str_eq}

pub data Chain (N : Type 0) : Type 0 where
  last : Node N → Chain N
  link : Node N → Str → Chain N → Chain N

module _ {N : Type 0} where
  unfoldable pub head : Chain N → Node N
  head (last x) = x
  head (link x o s) = x

  unfoldable pub rest : Chain N → List (Node N)
  unfolding head
  rest (last x) = []
  rest (link x o s) = new_opt o ∷ head s ∷ rest s

  abbrev pub nodes : Chain N → List (Node N)
  nodes s = head s ∷ rest s

  unfoldable pub operators_of : Chain N → List Str
  operators_of (last x) = []
  operators_of (link x o s) = o ∷ operators_of s

  unfoldable pub IsOperand : Node N → Type 0
  IsOperand (new_opt o) = ⊥
  IsOperand _ = Unit

  unfoldable pub AllOperands : Chain N → Type 0
  unfolding IsOperand
  AllOperands (last x) = IsOperand x
  AllOperands (link x o s) = IsOperand x × AllOperands s

  -- The operand `x` behind the left side of a pending operation.
  unfoldable pub attach : Str → Option (Node N) → Node N → Node N
  attach op none x = x
  attach op (some left) x = new_binary left x op

  -- One pass that takes each `op`, the leftmost first.
  unfoldable pub merge_with : Str → Option (Node N) → Chain N → Chain N
  unfolding attach
  merge_with op left (last x) = last (attach op left x)
  merge_with op left (link x o s) =
      let joined = merge_with op (some (attach op left x)) s in
      let kept = merge_with op none s in
      if str_eq op o then joined else link (attach op left x) o kept

  unfoldable pub merge : Str → Chain N → Chain N
  unfolding merge_with
  merge op s = merge_with op none s

  unfoldable pub merge_all : List Str → Chain N → Chain N
  unfolding merge
  merge_all [] s = s
  merge_all (op ∷ ops) s = merge_all ops (merge op s)

  -- The operands and operators of a node, from left to right.
  unfoldable pub yield : Node N → List (Node N)
  yield (new_binary left right op) = yield left ++ new_opt op ∷ yield right
  yield node = node ∷ []

  unfoldable pub yields : Chain N → List (Node N)
  unfolding yield
  yields (last x) = yield x
  yields (link x o s) = yield x ++ new_opt o ∷ yields s
