-- ===== src/Ast/Loops.antt =====
-- src/ast/node/foreach_node.rs and src/ast/node/choose_node.rs: what the loops return.
use rbatis.Ast.Defs.{ForEach, Nodes, OtherwiseNode, n_when, n_choose, cons, whens}
use rbatis.Ast.Eval.{eval}
use rbatis.Ast.Nodes.{
  and_then, run_if, when_node, or_else, first_ok, with_env, run_round, separated, rounds, over,
  for_each_node, loop_env,
}
use rbatis.Ast.StringNode.{State, Step}
use rbatis.Driver.{DriverType}
use rbatis.Json.{Value, Items, bool, number, array, items}
use rbatis.Utils.ValueUtil.{get_deep_value}
use rbatis.Prelude.{
  ℕ, ◌+◌, ◌≡◌, refl, sym, ap, ◌∙◌, false, List, [], ◌∷◌, ◌++◌, append_assoc, append-nil, Outcome,
  ok,
}
use rbatis.Text.{Str}

-- The texts with the separator between them.
unfoldable pub join : Str → List Str → Str
join separator [] = []
join separator (s ∷ []) = s
join separator (s ∷ t ∷ texts) = s ++ separator ++ join separator (t ∷ texts)

module _ {N : Type 0} where
  -- What is made of each item and its number.
  unfoldable pub each {ℓ} : {A : Type ℓ} → (ℕ → Value N → A) → ℕ → List (Value N) → List A
  each f index [] = []
  each f index (v ∷ vs) = f index v ∷ each f (index + 1) vs

  unfoldable pub concat : List (List (Value N)) → List (Value N)
  concat [] = []
  concat (l ∷ ls) = l ++ concat ls

module _ {N : Type 0} where
  join-cons :
      (separator s : Str) (text : ℕ → Value N → Str) (i : ℕ) (vs : List (Value N))
      → s ++ separated separator vs ++ join separator (each text i vs)
        ≡ join separator (s ∷ each text i vs)
  unfolding join each separated
  join-cons separator s text i [] = append-nil (s ++ []) ∙ append-nil s
  join-cons separator s text i (v ∷ vs) = refl

module _ {N : Type 0} (from_nat : ℕ → N) where
  -- The children return the text `text` and add the arguments `added`, of the number and the item.
  unfoldable pub IsBody : (ℕ → Value N → Str) → (ℕ → Value N → List (Value N)) → Step N → Type 0
  IsBody text added childs =
      (i : ℕ) (v : Value N) (st : State N)
      → st.env ≡ loop_env (number (from_nat i)) v
      → childs st ≡ (ok (text i v), record st { arg_array = st.arg_array ++ added i v })

  module _ (text : ℕ → Value N → Str) (added : ℕ → Value N → List (Value N)) (childs : Step N)
      (body : IsBody text added childs) where
    run_round-body :
        (i : ℕ) (v : Value N) (st : State N)
        → run_round from_nat childs i v st
          ≡ (ok (text i v), record st { arg_array = st.arg_array ++ added i v })
    unfolding run_round with_env IsBody
    run_round-body i v st = ap (λ r. with_env st.env r) (body i v _ refl)

    rounds-join :
        (separator : Str) (i : ℕ) (vs : List (Value N)) (st : State N)
        → rounds from_nat childs separator i vs st ≡ (
          ok (join separator (each text i vs)),
          record st { arg_array = st.arg_array ++ concat (each added i vs) },
        )
    unfolding rounds and_then join each concat separated
    rounds-join separator i [] st =
        ap (λ l. (ok [], record st { arg_array = l })) (sym (append-nil st.arg_array))
    rounds-join separator i (v ∷ vs) st =
        rw
          (
            run_round-body i v st,
            rounds-join separator (i + 1) vs (record st { arg_array = st.arg_array ++ added i v }),
          )
          (ap
              (λ l. (
                ok (text i v ++ separated separator vs ++ join separator (each text (i + 1) vs)),
                record st { arg_array = l },
              ))
              (append_assoc st.arg_array (added i v) (concat (each added (i + 1) vs)))
            ∙ ap
                (λ s. (
                  ok s,
                  record st {
                    arg_array = st.arg_array ++ (added i v ++ concat (each added (i + 1) vs));
                  },
                ))
                (join-cons separator (text i v) text (i + 1) vs))

    -- If the children return a text and add arguments that depend on the item and its number only,
    -- `foreach` over an array returns the texts of all items in order with the separator between
    -- them, within its opening and closing text, adds the arguments of all items in order, and
    -- leaves the variables as they were.
    pub for_each_node-join :
        (f : ForEach) (vs : Items N) (st : State N)
        → get_deep_value f.collection st.env ≡ array vs
        → for_each_node from_nat childs f st ≡ (
          ok (f.open_text ++ join f.separator (each text 0 (items vs)) ++ f.close),
          record st { arg_array = st.arg_array ++ concat (each added 0 (items vs)) },
        )
    unfolding for_each_node over and_then
    for_each_node-join f vs st e = rw (e, rounds-join f.separator 0 (items vs) st) refl

module _ {N : Type 0} (engine : Str → Value N → Outcome (Value N)) (from_nat : ℕ → N)
    (d : DriverType) where
  -- A `choose` whose first `when` has a false test returns no text and changes nothing, whatever its
  -- other branches are.
  pub eval-choose :
      (test : Str) (childs more : Nodes) (otherwise_node : OtherwiseNode) (st : State N)
      → engine test st.env ≡ ok (bool false)
      → eval engine from_nat d (n_choose (whens (cons (n_when childs test) more)) otherwise_node) st
        ≡ (ok [], st)
  unfolding eval first_ok or_else when_node run_if
  eval-choose test childs more otherwise_node st e = rw e refl
