-- ===== src/Ast/TreeArguments.antt =====
-- src/ast/node: no node takes an argument back.
use rbatis.Ast.Arguments.{
  Extends, Grows, Extends-refl, append_child-Grows, run_if-Grows, or_else-Extends, where_node-Grows,
  trim_node-Grows, over-Grows,
}
use rbatis.Ast.Defs.{
  StringNode, NodeType, Nodes, WhenNodes, OtherwiseNode, n_null, n_string, n_if, n_trim, n_for_each,
  n_choose, n_otherwise, n_when, n_bind, n_include, n_set, n_where, n_sql_node, n_insert_node,
  n_update_node, n_delete_node, n_select_node, n_result_map_node, n_result_map_id_node,
  n_result_map_result_node, nil, cons, no_whens, whens, no_otherwise, otherwise,
}
use rbatis.Ast.Eval.{eval, do_child_nodes, eval_whens, eval_each, eval_otherwise}
use rbatis.Ast.Nodes.{
  set_index, assigned, if_node, when_node, bind_to, bind_node, first_ok, for_each_node,
}
use rbatis.Ast.StringNode as Text
use rbatis.Ast.StringNode.{State, Step, argument, mark_entries, push_args, finish}
use rbatis.Driver.{DriverType, stmt_convert}
use rbatis.Json.{Value, get}
use mathlib.Core.Path.{subst}
use rbatis.Utils.StringUtil.{find_convert_string}
use rbatis.Utils.ValueUtil.{get_deep_value}
use rbatis.Prelude.{
  ℕ, ◌⊎◌, inl, inr, Option-cases, none, some, arith, ◌≡◌, refl, sym, ap, ◌∙◌, List, [], ◌∷◌, ◌++◌,
  append_assoc, append-nil, length, Outcome, ok, err, panic, ◌>>=◌,
}
use rbatis.Text.{Str, codes}

engine_value :
    {N : Type 0} {v : Value N} (r : Outcome (Value N))
    → elim r [ ok u ↦ ok u | err message ↦ panic | panic ↦ panic ] ≡ ok v
    → r ≡ ok v
engine_value (ok u) h = h
engine_value (err message) h = cc
engine_value panic h = cc

module _ {N : Type 0} (engine : Str → Value N → Outcome (Value N)) where
  -- The variable of that name, or else what the engine makes of the expression.
  abbrev pub IsValue : Value N → Str → Value N → Type 0
  IsValue env item v = (get env item ≡ some v) ⊎ ((get env item ≡ none) × (engine item env ≡ ok v))

  -- The values of the items, one by one.
  abbrev pub AreValues : Value N → List Str → List (Value N) → Type 0
  AreValues env [] [] = Unit
  AreValues env (item ∷ items) (v ∷ values) = IsValue env item v × AreValues env items values
  AreValues env [] (v ∷ values) = ⊥
  AreValues env (item ∷ items) [] = ⊥

  argument-IsValue :
      (env : Value N) (item : Str) (v : Value N)
      → argument engine env item ≡ ok v
      → IsValue env item v
  unfolding argument
  argument-IsValue env item v h = elim (Option-cases (get env item)) [
    | inl missed ↦ inr (missed, engine_value (engine item env) (rw (missed, argument) at h))
    | inr (u, found) ↦ inl (found ∙ ap (λ o. some o) (ground (arith, rw (found, argument) at h)))
  ]

  -- The values of the items are added in their order.
  Adds : List Str → State N → Outcome (Str × State N) → Type 0
  Adds items st (ok (s, after)) =
      (more : List (Value N)) × (after.arg_array ≡ st.arg_array ++ more)
      × AreValues st.env items more
      × (after.env ≡ st.env)
  Adds items st (err message) = Unit
  Adds items st panic = Unit

  Adds-bind {ℓ} :
      {B : Type ℓ} (items : List Str) (st : State N) (m : Outcome B)
      (next : B → Outcome (Str × State N))
      → ((b : B) → m ≡ ok b → Adds items st (next b))
      → Adds items st (m >>= next)
  unfolding Adds
  Adds-bind items st (ok b) next h = h b refl
  Adds-bind items st (err message) next h = tt
  Adds-bind items st panic next h = tt

  Adds-cons :
      (item : Str) (items : List Str) (st : State N) (v : Value N) (r : Outcome (Str × State N))
      → IsValue st.env item v
      → Adds items (record st { arg_array = st.arg_array ++ v ∷ [] }) r
      → Adds (item ∷ items) st r
  unfolding Adds
  Adds-cons item items st v (ok (s, after)) found (more, e, values, env) =
      (v ∷ more, e ∙ append_assoc st.arg_array (v ∷ []) more, (found, values), env)
  Adds-cons item items st v (err message) found h = tt
  Adds-cons item items st v panic found h = tt

  abbrev names : List (Str × Str) → List Str
  names [] = []
  names ((item, value) ∷ entries) = item ∷ names entries

  names-mark_entries : (mark : Str) (items : List Str) → names (mark_entries mark items) ≡ items
  unfolding mark_entries
  names-mark_entries mark [] = refl
  names-mark_entries mark (item ∷ items) = ap (λ l. item ∷ l) (names-mark_entries mark items)

  push_args-Adds :
      (d : DriverType) (entries : List (Str × Str)) (result : Str) (st : State N)
      → Adds (names entries) st (push_args engine d entries result st)
  unfolding push_args Adds
  push_args-Adds d [] result st = ([], sym (append-nil st.arg_array), tt, refl)
  push_args-Adds d ((item, value) ∷ entries) result st =
      Adds-bind (item ∷ names entries) st (stmt_convert d (length st.arg_array)) _ (λ mark placed.
        Adds-bind (item ∷ names entries) st (argument engine st.env item) _ (λ v found.
          Adds-cons item (names entries) st v _ (argument-IsValue st.env item v found)
            (push_args-Adds d entries _ _)))

  finish-Adds :
      (items : List Str) (node : StringNode) (st : State N) (r : Outcome (Str × State N))
      → Adds items st r
      → {s : Str} {after : State N} → finish engine node st r ≡ (ok s, after)
      → (more : List (Value N)) × (after.arg_array ≡ st.arg_array ++ more)
        × AreValues st.env items more
        × (after.env ≡ st.env)
  unfolding Adds finish
  finish-Adds items node st (ok (t, end)) (more, e, values, env) h =
      (more, sym (ap (λ p. p.1.arg_array) h) ∙ e, values, sym (ap (λ p. p.1.env) h) ∙ env)
  finish-Adds items node st (err message) k h = cc
  finish-Adds items node st panic k h = cc

  -- If the node of a text returns a text, it has added the values of the expressions that
  -- `find_convert_string` lists for the text's markers #{...}, in that order, behind the arguments
  -- that were there, and has changed no variable; a value is the variable of that name, or, if there
  -- is none, what the engine makes of the expression.
  pub eval_adds :
      (d : DriverType) (order : List Str → List Str) (v : Str) (st : State N) {s : Str}
      {after : State N}
      → Text.eval engine d (Text.new order v) st ≡ (ok s, after)
      → (more : List (Value N)) × (after.arg_array ≡ st.arg_array ++ more)
        × AreValues st.env (find_convert_string order v) more
        × (after.env ≡ st.env)
  unfolding Text.eval Text.new
  eval_adds d order v st h =
      finish-Adds (find_convert_string order v) (Text.new order v) st _
        (subst
          (λ items.
            Adds items st
              (push_args engine d (mark_entries (codes "#{") (find_convert_string order v)) v st))
          (names-mark_entries (codes "#{") (find_convert_string order v))
          (push_args-Adds d (mark_entries (codes "#{") (find_convert_string order v)) v st))
        h

  finish-Extends :
      (items : List Str) (node : StringNode) (st : State N) (r : Outcome (Str × State N))
      → Adds items st r
      → Extends st (finish engine node st r).1
  unfolding Adds finish Extends
  finish-Extends items node st (ok (s, after)) (more, e, _, _) = (more, e)
  finish-Extends items node st (err message) h = Extends-refl st
  finish-Extends items node st panic h = Extends-refl st

  assigned-Grows : (r : Outcome (Value N)) → Grows (assigned r)
  unfolding assigned Grows Extends
  assigned-Grows (ok env) st = Extends-refl st
  assigned-Grows (err message) st = Extends-refl st
  assigned-Grows panic st = Extends-refl st

  bind_to-Grows : (name : Str) (r : Outcome (Value N)) → Grows (bind_to name r)
  unfolding bind_to Grows
  bind_to-Grows name (ok r) st = assigned-Grows (set_index name r st.env) st
  bind_to-Grows name (err message) st = Extends-refl st
  bind_to-Grows name panic st = Extends-refl st

  module _ (from_nat : ℕ → N) (d : DriverType) where
    mutual
      unfolding eval do_child_nodes eval_whens eval_each eval_otherwise Grows if_node when_node
          bind_node for_each_node first_ok Text.eval

      grow_eval : (node : NodeType) → Grows (eval engine from_nat d node)
      grow_eval n_null st = Extends-refl st
      grow_eval (n_string node) st =
          finish-Extends (names node.express_map) node st _
            (push_args-Adds d node.express_map node.value st)
      grow_eval (n_if nodes test) st =
          run_if-Grows (do_child_nodes engine from_nat d nodes) _ (engine test st.env)
            (grow_nodes nodes) st
      grow_eval (n_trim nodes t) st =
          trim_node-Grows (do_child_nodes engine from_nat d nodes) t (grow_nodes nodes) st
      grow_eval (n_for_each nodes f) st =
          over-Grows from_nat (do_child_nodes engine from_nat d nodes) f
            (get_deep_value f.collection st.env) (grow_nodes nodes) st
      grow_eval (n_choose when_nodes otherwise_node) st =
          grow_whens when_nodes (eval_otherwise engine from_nat d otherwise_node)
            (grow_otherwise otherwise_node) st
      grow_eval (n_otherwise nodes) st = grow_nodes nodes st
      grow_eval (n_when nodes test) st =
          run_if-Grows (do_child_nodes engine from_nat d nodes) _ (engine test st.env)
            (grow_nodes nodes) st
      grow_eval (n_bind name value) st = bind_to-Grows name (engine value st.env) st
      grow_eval (n_include _ nodes) st = grow_nodes nodes st
      grow_eval (n_set nodes) st = grow_nodes nodes st
      grow_eval (n_where nodes) st =
          where_node-Grows (do_child_nodes engine from_nat d nodes) (grow_nodes nodes) st
      grow_eval (n_sql_node _ nodes) st = grow_nodes nodes st
      grow_eval (n_insert_node _ nodes) st = grow_nodes nodes st
      grow_eval (n_update_node _ nodes) st = grow_nodes nodes st
      grow_eval (n_delete_node _ nodes) st = grow_nodes nodes st
      grow_eval (n_select_node _ nodes) st = grow_nodes nodes st
      grow_eval (n_result_map_node _) st = Extends-refl st
      grow_eval (n_result_map_id_node _) st = Extends-refl st
      grow_eval (n_result_map_result_node _) st = Extends-refl st

      grow_nodes : (nodes : Nodes) → Grows (do_child_nodes engine from_nat d nodes)
      grow_nodes nil st = Extends-refl st
      grow_nodes (cons item nodes) st =
          append_child-Grows (eval engine from_nat d item) (do_child_nodes engine from_nat d nodes)
            (grow_eval item) (grow_nodes nodes) st

      grow_whens :
          (when_nodes : WhenNodes) (later : Step N)
          → Grows later
          → Grows (eval_whens engine from_nat d when_nodes later)
      grow_whens no_whens later h st = h st
      grow_whens (whens nodes) later h st = grow_each nodes later h st

      grow_each :
          (nodes : Nodes) (later : Step N)
          → Grows later
          → Grows (eval_each engine from_nat d nodes later)
      grow_each nil later h st = h st
      grow_each (cons item nodes) later h st =
          or_else-Extends st (eval engine from_nat d item st)
            (eval_each engine from_nat d nodes later) (grow_eval item st) (grow_each nodes later h)

      grow_otherwise :
          (otherwise_node : OtherwiseNode) → Grows (eval_otherwise engine from_nat d otherwise_node)
      grow_otherwise no_otherwise st = Extends-refl st
      grow_otherwise (otherwise node) st = grow_eval node st

    -- However a node's evaluation ends, the arguments that were collected before it are kept, in
    -- their order, and new ones stand behind them.
    pub eval-Extends :
        (node : NodeType) (st : State N) → Extends st (eval engine from_nat d node st).1
    unfolding Grows
    eval-Extends node st = grow_eval node st
