-- ===== src/Engine/Replace.antt =====
-- src/engine/parser.rs: `find_replace_opt` against one pass over a chain.
use rbatis.Engine.Chains.{
  Chain, last, link, head, rest, nodes, operators_of, IsOperand, AllOperands, attach, merge_with,
  merge,
}
use rbatis.Engine.Node.{
  Node, new_binary, new_opt, new_null, new_arg, new_string, new_number, new_bool,
}
use rbatis.Engine.Parser.{
  is_operator, prepend, have_opt, join_right, replace_after, replace_first, again_if,
  find_replace_opt,
}
use rbatis.Prelude.{
  ℕ, zero, suc, ◌<◌, ◌≡◌, refl, sym, ap, ◌∙◌, inl, inr, true, false, Option, none, some, List, ◌∷◌,
  arith, if◌then◌else◌, Bool-cases, Option-cases, length, ok,
}
use rbatis.Text.{Str, str_eq}

true-false : true ≡ false → ⊥
true-false h = cc

impossible : {n : ℕ} → n < 0 → ⊥
impossible h = omega (arith, h)

module _ {N : Type 0} where
  graft : Node N → Str → Chain N → Chain N
  graft x op (last y) = last (new_binary x y op)
  graft x op (link y o s) = link (new_binary x y op) o s

  linked : Node N → Str → Option (Chain N) → Option (Chain N)
  linked x o none = none
  linked x o (some s) = some (link x o s)

  AllOperands-link : (x : Node N) (o : Str) (s : Chain N) → AllOperands (link x o s) → AllOperands s
  unfolding AllOperands
  AllOperands-link x o s h = h.1

  -- One replacement.
  step : Str → Chain N → Option (Chain N)
  unfolding graft linked
  step op (last x) = none
  step op (link x o s) =
      let later = step op s in if str_eq op o then some (graft x op s) else linked x o later

  nodes_of : Option (Chain N) → Option (List (Node N))
  unfolding head rest
  nodes_of none = none
  nodes_of (some s) = some (nodes s)

  IsOperand-is_operator : (op : Str) (x : Node N) → IsOperand x → is_operator op x ≡ false
  unfolding IsOperand is_operator
  IsOperand-is_operator op (new_opt o) h = elim h [ ]
  IsOperand-is_operator op new_null h = refl
  IsOperand-is_operator op (new_arg _) h = refl
  IsOperand-is_operator op (new_string _) h = refl
  IsOperand-is_operator op (new_number _) h = refl
  IsOperand-is_operator op (new_bool _) h = refl
  IsOperand-is_operator op (new_binary _ _ _) h = refl

  IsOperand-head : (s : Chain N) → AllOperands s → IsOperand (head s)
  unfolding AllOperands head
  IsOperand-head (last x) h = h
  IsOperand-head (link x o s) h = h.0

  nodes-graft :
      (x : Node N) (op : Str) (s : Chain N)
      → nodes (graft x op s) ≡ new_binary x (head s) op ∷ rest s
  unfolding graft head rest
  nodes-graft x op (last y) = refl
  nodes-graft x op (link y o s) = refl

  nodes_of-linked :
      (x : Node N) (o : Str) (later : Option (Chain N))
      → prepend x (prepend (new_opt o) (nodes_of later)) ≡ nodes_of (linked x o later)
  unfolding nodes_of linked head rest prepend
  nodes_of-linked x o none = refl
  nodes_of-linked x o (some s) = refl

  replace_after-step :
      (op : Str) (s : Chain N)
      → AllOperands s
      → replace_after op (head s) (rest s) ≡ ok (nodes_of (step op s))
  unfolding AllOperands rest replace_after step nodes_of is_operator join_right
  replace_after-step op (last x) h = refl
  replace_after-step op (link x o s) h =
      rw (IsOperand-is_operator op (head s) (IsOperand-head s h.1), replace_after-step op s h.1)
        (elim (Bool-cases (str_eq op o)) [
          | inl same ↦ rw (same, nodes-graft x op s) refl
          | inr other ↦ rw (other, sym (nodes_of-linked x o (step op s))) refl
        ])

  replace_first-step :
      (op : Str) (s : Chain N)
      → AllOperands s
      → replace_first op (nodes s) ≡ ok (nodes_of (step op s))
  unfolding replace_first
  replace_first-step op s h =
      rw (IsOperand-is_operator op (head s) (IsOperand-head s h)) (replace_after-step op s h)

  merge_with-graft :
      (x : Node N) (op : Str) (s : Chain N)
      → merge_with op none (graft x op s) ≡ merge_with op (some x) s
  unfolding merge_with graft attach
  merge_with-graft x op (last y) = refl
  merge_with-graft x op (link y o s) = refl

  AllOperands-graft :
      (x : Node N) (op : Str) (s : Chain N) → AllOperands s → AllOperands (graft x op s)
  unfolding AllOperands graft IsOperand
  AllOperands-graft x op (last y) h = tt
  AllOperands-graft x op (link y o s) (p, h) = (tt, h)

  operators_of-graft :
      (x : Node N) (op : Str) (s : Chain N) → operators_of (graft x op s) ≡ operators_of s
  unfolding operators_of graft
  operators_of-graft x op (last y) = refl
  operators_of-graft x op (link y o s) = refl

  -- What one replacement leaves to the pass, and that it takes one operator.
  Merges : Str → Chain N → Option (Chain N) → Type 0
  Merges op s none = merge op s ≡ s
  Merges op s (some t) =
      (merge op t ≡ merge op s)
      × (length (operators_of s) ≡ suc (length (operators_of t)))
      × (AllOperands s → AllOperands t)

  Merges-linked :
      (op : Str) (x : Node N) (o : Str) (s : Chain N) (later : Option (Chain N))
      → str_eq op o ≡ false
      → Merges op s later
      → Merges op (link x o s) (linked x o later)
  unfolding Merges linked merge merge_with attach operators_of AllOperands
  Merges-linked op x o s none other h = rw (other, h) refl
  Merges-linked op x o s (some t) other (m, size, k) =
      (rw (other, m) refl, omega (arith, size), λ (p, q). (p, k q))

  Merges-step : (op : Str) (s : Chain N) → Merges op s (step op s)
  unfolding step Merges merge merge_with attach operators_of
  Merges-step op (last x) = refl
  Merges-step op (link x o s) = elim (Bool-cases (str_eq op o)) [
    | inl same ↦ rw same (
      rw same (merge_with-graft x op s),
      rw (operators_of-graft x op s) refl,
      λ h. AllOperands-graft x op s (AllOperands-link x o s h),
    )
    | inr other ↦ rw other (Merges-linked op x o s (step op s) other (Merges-step op s))
  ]

  have_opt-operand :
      (x : Node N) (ns : List (Node N)) → IsOperand x → have_opt (x ∷ ns) ≡ have_opt ns
  unfolding IsOperand have_opt
  have_opt-operand (new_opt o) ns h = elim h [ ]
  have_opt-operand new_null ns h = refl
  have_opt-operand (new_arg _) ns h = refl
  have_opt-operand (new_string _) ns h = refl
  have_opt-operand (new_number _) ns h = refl
  have_opt-operand (new_bool _) ns h = refl
  have_opt-operand (new_binary _ _ _) ns h = refl

  have_opt-operators :
      (s : Chain N) → AllOperands s → have_opt (nodes s) ≡ false → (op : Str) → merge op s ≡ s
  unfolding AllOperands head rest have_opt merge merge_with attach
  have_opt-operators (last x) h e op = refl
  have_opt-operators (link x o s) (p, h) e op =
      elim (true-false (sym (have_opt-operand x (new_opt o ∷ nodes s) p) ∙ e)) [ ]

  Merges-of :
      (op : Str) (s : Chain N) (found : Option (Chain N)) → step op s ≡ found → Merges op s found
  Merges-of op s found e = rw (sym e) (Merges-step op s)

  find_replace_opt_more :
      (op : Str) (fuel : ℕ) (ns more : List (Node N))
      → replace_first op ns ≡ ok (some more)
      → have_opt more ≡ true
      → find_replace_opt (suc fuel) op ns ≡ find_replace_opt fuel op more
  unfolding find_replace_opt again_if
  find_replace_opt_more op fuel ns more e h = rw (e, h) refl

  find_replace_opt_done :
      (op : Str) (fuel : ℕ) (ns more : List (Node N))
      → replace_first op ns ≡ ok (some more)
      → have_opt more ≡ false
      → find_replace_opt (suc fuel) op ns ≡ ok more
  unfolding find_replace_opt again_if
  find_replace_opt_done op fuel ns more e h = rw (e, h) refl

  find_replace_opt-none :
      (op : Str) (fuel : ℕ) (ns : List (Node N))
      → replace_first op ns ≡ ok none
      → find_replace_opt (suc fuel) op ns ≡ ok ns
  unfolding find_replace_opt
  find_replace_opt-none op fuel ns e = rw e refl

  replace_first_found :
      (op : Str) (s : Chain N) (found : Option (Chain N))
      → AllOperands s
      → step op s ≡ found
      → replace_first op (nodes s) ≡ ok (nodes_of found)
  replace_first_found op s found h e = replace_first-step op s h ∙ ap (λ o. ok (nodes_of o)) e

  -- The loop and its recursion are one pass.
  pub find_replace_opt-merge :
      (op : Str) (fuel : ℕ) (s : Chain N)
      → AllOperands s
      → length (operators_of s) < fuel
      → find_replace_opt fuel op (nodes s) ≡ ok (nodes (merge op s))
  unfolding nodes_of Merges
  find_replace_opt-merge op zero s h enough = elim (impossible enough) [ ]
  find_replace_opt-merge op (suc fuel) s h enough = elim (Option-cases (step op s)) [
    | inl missed ↦
        find_replace_opt-none op fuel (nodes s) (replace_first_found op s none h missed)
        ∙ ap (λ u. ok (nodes u)) (sym (Merges-of op s none missed))
    | inr (t, found) ↦
        let (m, size, k) = Merges-of op s (some t) found in
        let first = replace_first_found op s (some t) h found in
        elim (Bool-cases (have_opt (nodes t))) [
          | inl more ↦
              find_replace_opt_more op fuel (nodes s) (nodes t) first more
              ∙ find_replace_opt-merge op fuel t (k h) (omega (arith, size, enough))
              ∙ ap (λ u. ok (nodes u)) m
          | inr done ↦
              find_replace_opt_done op fuel (nodes s) (nodes t) first done
              ∙ ap (λ u. ok (nodes u)) (sym (have_opt-operators t (k h) done op) ∙ m)
        ]
  ]
