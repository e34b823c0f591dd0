-- ===== src/Engine/Precedence.antt =====
-- src/engine/parser.rs: the loop over the operators reduces a chain to one node.
use rbatis.Engine.Chains.{
  Chain, last, link, head, rest, nodes, operators_of, IsOperand, AllOperands, attach, merge_with,
  merge, merge_all, yield, yields,
}
use rbatis.Engine.Node.{Node, new_binary, new_opt}
use rbatis.Engine.Operators.{is_member, priorities}
use rbatis.Engine.Parser.{replace_all}
use rbatis.Engine.Replace.{find_replace_opt-merge}
use rbatis.Prelude.{
  suc, ◌<◌, ◌≡◌, refl, sym, ap, ◌∙◌, inl, inr, true, false, ◌||◌, Option, none, some, List, [], ◌∷◌,
  ◌++◌, append_assoc, arith, if◌then◌else◌, Bool-cases, length, All, ok,
}
use rbatis.Text.{Str, codes, str_eq, str_eq_iff}

remove : Str → List Str → List Str
remove op [] = []
remove op (o ∷ l) = let left = remove op l in if str_eq op o then left else o ∷ left

unfoldable pub IsPending : List Str → Str → Type 0
IsPending ops o = is_member o ops ≡ true

str_eq_comm : (s t : Str) → str_eq s t ≡ str_eq t s
unfolding str_eq
str_eq_comm [] [] = refl
str_eq_comm [] (b ∷ t) = refl
str_eq_comm (a ∷ s) [] = refl
str_eq_comm (a ∷ s) (b ∷ t) = rw (str_eq_comm s t) (ground arith)

is_member_other :
    (op o : Str) (ops : List Str)
    → str_eq op o ≡ false
    → is_member o (op ∷ ops) ≡ true
    → is_member o ops ≡ true
unfolding is_member
is_member_other op o ops e p = sym (ap (λ b. b || is_member o ops) (str_eq_comm o op ∙ e)) ∙ p

All-remove :
    (op : Str) (ops : List Str) (l : List Str)
    → All (IsPending (op ∷ ops)) l
    → All (IsPending ops) (remove op l)
unfolding remove IsPending
All-remove op ops [] h = tt
All-remove op ops (o ∷ l) (p, h) = elim (Bool-cases (str_eq op o)) [
  | inl same ↦ rw same (All-remove op ops l h)
  | inr other ↦ rw other (is_member_other op o ops other p, All-remove op ops l h)
]

false-true : false ≡ true → ⊥
false-true h = cc

module _ {N : Type 0} where
  IsOperand-attach :
      (op : Str) (left : Option (Node N)) (x : Node N) → IsOperand x → IsOperand (attach op left x)
  unfolding attach IsOperand
  IsOperand-attach op none x h = h
  IsOperand-attach op (some l) x h = tt

  AllOperands-merge_with :
      (op : Str) (left : Option (Node N)) (s : Chain N)
      → AllOperands s
      → AllOperands (merge_with op left s)
  unfolding AllOperands merge_with
  AllOperands-merge_with op left (last x) h = IsOperand-attach op left x h
  AllOperands-merge_with op left (link x o s) (p, h) = elim (Bool-cases (str_eq op o)) [
    | inl same ↦ rw same (AllOperands-merge_with op (some (attach op left x)) s h)
    | inr other ↦ rw other (IsOperand-attach op left x p, AllOperands-merge_with op none s h)
  ]

  operators_of-merge_with :
      (op : Str) (left : Option (Node N)) (s : Chain N)
      → operators_of (merge_with op left s) ≡ remove op (operators_of s)
  unfolding operators_of merge_with remove
  operators_of-merge_with op left (last x) = refl
  operators_of-merge_with op left (link x o s) = elim (Bool-cases (str_eq op o)) [
    | inl same ↦ rw same (operators_of-merge_with op (some (attach op left x)) s)
    | inr other ↦ rw other (ap (λ l. o ∷ l) (operators_of-merge_with op none s))
  ]

  before : Str → Option (Node N) → List (Node N)
  before op none = []
  before op (some left) = yield left ++ new_opt op ∷ []

  yield-attach :
      (op : Str) (left : Option (Node N)) (x : Node N)
      → yield (attach op left x) ≡ before op left ++ yield x
  unfolding before attach yield
  yield-attach op none x = refl
  yield-attach op (some l) x = sym (append_assoc (yield l) (new_opt op ∷ []) (yield x))

  yields-merge_with :
      (op : Str) (left : Option (Node N)) (s : Chain N)
      → yields (merge_with op left s) ≡ before op left ++ yields s
  unfolding yields merge_with before
  yields-merge_with op left (last x) = yield-attach op left x
  yields-merge_with op left (link x o s) = elim (Bool-cases (str_eq op o)) [
    | inl same ↦ rw same (
        yields-merge_with op (some (attach op left x)) s
        ∙ ap (λ l. l ++ new_opt op ∷ [] ++ yields s) (yield-attach op left x)
        ∙ append_assoc (before op left ++ yield x) (new_opt op ∷ []) (yields s)
        ∙ append_assoc (before op left) (yield x) (new_opt op ∷ yields s)
        ∙ ap (λ q. before op left ++ (yield x ++ new_opt q ∷ yields s)) ((str_eq_iff op o).0 same))
    | inr other ↦ rw other (
        ap (λ l. l ++ new_opt o ∷ yields (merge_with op none s)) (yield-attach op left x)
        ∙ append_assoc (before op left) (yield x) (new_opt o ∷ yields (merge_with op none s))
        ∙ ap (λ l. before op left ++ (yield x ++ new_opt o ∷ l)) (yields-merge_with op none s))
  ]

  length-rest : (s : Chain N) → length (operators_of s) < suc (length (nodes s))
  unfolding operators_of rest head
  length-rest (last x) = omega arith
  length-rest (link x o s) = omega (arith, length-rest s)

  -- The parser's loop over the operators does one pass per operator, if no operand is an operator.
  pub replace_all-merge_all :
      (ops : List Str) (s : Chain N)
      → AllOperands s
      → replace_all ops (nodes s) ≡ ok (nodes (merge_all ops s))
  unfolding replace_all merge_all merge
  replace_all-merge_all [] s h = refl
  replace_all-merge_all (op ∷ ops) s h =
      rw (find_replace_opt-merge op (suc (length (nodes s))) s h (length-rest s))
        (replace_all-merge_all ops (merge_with op none s) (AllOperands-merge_with op none s h))

  -- For operands and operators in turn, each operator one of `ops`, the parser's loop returns one
  -- node, and its operands and operators from left to right are the given ones.
  pub replace_all_one :
      (ops : List Str) (s : Chain N)
      → AllOperands s
      → All (IsPending ops) (operators_of s)
      → (node : Node N) × (replace_all ops (nodes s) ≡ ok (node ∷ [])) × (yield node ≡ yields s)
  unfolding replace_all operators_of IsPending is_member rest head yields merge before
  replace_all_one [] (last x) h pending = (x, refl, refl)
  replace_all_one [] (link x o s) h (p, pending) = elim (false-true p) [ ]
  replace_all_one (op ∷ ops) s h pending =
      let (node, e, y) =
        replace_all_one ops (merge_with op none s) (AllOperands-merge_with op none s h)
          (rw (operators_of-merge_with op none s) (All-remove op ops (operators_of s) pending)) in
      (
        node,
        rw (find_replace_opt-merge op (suc (length (nodes s))) s h (length-rest s)) e,
        y ∙ yields-merge_with op none s,
      )

  -- An operand, "-", an operand, "+" and an operand are read as a difference whose right side is the
  -- sum; with "/" and "*" in their place, as a quotient whose right side is the product.
  pub replace_all_right :
      (a b c : Node N)
      → IsOperand a
      → IsOperand b
      → IsOperand c
      → (replace_all priorities (a ∷ new_opt (codes "-") ∷ b ∷ new_opt (codes "+") ∷ c ∷ [])
          ≡ ok (new_binary a (new_binary b c (codes "+")) (codes "-") ∷ []))
        × (replace_all priorities (a ∷ new_opt (codes "/") ∷ b ∷ new_opt (codes "*") ∷ c ∷ [])
            ≡ ok (new_binary a (new_binary b c (codes "*")) (codes "/") ∷ []))
  unfolding head rest AllOperands merge_all merge merge_with attach str_eq priorities
  replace_all_right a b c p q r = (
    replace_all-merge_all priorities (link a (codes "-") (link b (codes "+") (last c))) (p, (q, r)),
    replace_all-merge_all priorities (link a (codes "/") (link b (codes "*") (last c))) (p, (q, r)),
  )
