-- ===== src/Ast/Tests.antt =====
-- Runs of the nodes, and the theorems at concrete inputs. Numbers are ℕ here, and the expression
-- engine looks the variable of the expression's name up.
use rbatis.Ast.Arguments.{Extends}
use rbatis.Ast.Defs.{
  StringNode, NodeType, Nodes, ForEach, n_string, n_where, n_when, n_choose, n_for_each, nil, cons,
  whens, otherwise,
}
use rbatis.Ast.Eval as Tree
use rbatis.Ast.Eval.{do_child_nodes, eval_whens, eval_each, eval_otherwise}
use rbatis.Ast.Loops.{IsBody, join, each, concat, for_each_node-join, eval-choose}
use rbatis.Ast.Nodes
use rbatis.Ast.StringNode as Text
use rbatis.Ast.StringNode.{State, Step}
use rbatis.Ast.TreeArguments.{eval-Extends, eval_adds, AreValues}
use rbatis.Driver.{mysql, stmt_convert}
use rbatis.Json.{Value, bool, number, array, object, field, end, cons, nil, get, get_field, is_null}
use rbatis.Utils.StringUtil as StringUtil
use rbatis.Utils.ValueUtil.{get_deep_value, walk, step_into}
use Prim.Native.String.{String}
use rbatis.Prelude.{
  ℕ, ◌≡◌, refl, sym, ap, ◌∙◌, false, none, some, List, [], ◌∷◌, ◌++◌, Outcome, ok, err,
}
use rbatis.Text.{
  Str, codes, str_eq, is_empty, strip_prefix, starts_with, ends_with, replace_from, replace,
  split_from, split, trim_start, trim_end, trim, strip_all, trim_start_matches, trim_end_matches,
}

abbrev variable : Str → Value ℕ → Outcome (Value ℕ)
variable name env = elim (get env name) [ none ↦ err name | some v ↦ ok v ]

ast : Unit {0}
unfolding Tree.eval do_child_nodes eval_whens eval_each eval_otherwise Nodes.and_then
    Nodes.append_child Nodes.precedes Nodes.insert_field Nodes.set_index Nodes.run_if Nodes.if_node
    Nodes.when_node Nodes.assigned Nodes.bind_to Nodes.bind_node Nodes.where_text Nodes.where_node
    Nodes.trim_text Nodes.cut_start Nodes.cut_end Nodes.trim_starts Nodes.trim_ends Nodes.trim_node
    Nodes.or_else Nodes.first_ok Nodes.with_env Nodes.loop_env Nodes.run_round Nodes.separated
    Nodes.rounds Nodes.over Nodes.for_each_node Text.new Text.mark_entries Text.text_of
    Text.replace_texts Text.argument Text.push_args Text.finish Text.eval
    StringUtil.find_convert_string StringUtil.find_no_convert_string StringUtil.find_marked
    StringUtil.before_comma StringUtil.distinct StringUtil.is_listed stmt_convert get_deep_value
    walk step_into get get_field is_null str_eq is_empty split split_from replace replace_from
    starts_with ends_with strip_prefix strip_all trim trim_start trim_end trim_start_matches
    trim_end_matches join each concat IsBody
ast = tt

abbrev text : String → NodeType
text s = n_string (Text.new (λ finds. finds) (codes s))

abbrev env : Value ℕ
env = object (
    field (codes "ids") (array (cons (number 5) (cons (number 6) nil)))
      (field (codes "no") (bool false) end))

abbrev state : State ℕ
state = record { env = env; arg_array = number 1 ∷ [] }

abbrev loop : ForEach
loop = record {
  collection = codes "ids";
  index = codes "index";
  item = codes "item";
  open_text = codes "(";
  close = codes ")";
  separator = codes ",";
}

abbrev body : Nodes
body = cons (text "#{item}") nil

abbrev tree : NodeType
tree = n_where (cons (text "and id in ") (cons (n_for_each body loop) nil))

tree_test : Tree.eval variable (λ n. n) mysql tree state ≡ (
  ok (codes " WHERE  id in ( ? , ? )"),
  record state { arg_array = number 1 ∷ number 5 ∷ number 6 ∷ [] },
)
unfolding ast
tree_test = refl

-- The name of a column loses its first letters.
where_test : Nodes.where_text (codes "order_id = 1") ≡ codes " WHERE der_id = 1"
unfolding ast
where_test = refl

-- A brace at the start of a text counts as a marker: an argument without a placeholder.
brace_test :
    Text.eval variable mysql (Text.new (λ finds. finds) (codes "{no}")) state
    ≡ (ok (codes "{no}"), record state { arg_array = number 1 ∷ bool false ∷ [] })
unfolding ast
brace_test = refl

eval-Extends_example : Extends state (Tree.eval variable (λ n. n) mysql tree state).1
eval-Extends_example = eval-Extends variable (λ n. n) mysql tree state

abbrev twice : StringNode
twice = Text.new (λ finds. finds) (codes "#{no} or #{no}")

eval_adds_example :
    (more : List (Value ℕ)) × (number 1 ∷ bool false ∷ [] ≡ number 1 ∷ [] ++ more)
    × AreValues variable env
        (StringUtil.find_convert_string (λ finds. finds) (codes "#{no} or #{no}"))
        more
    × (env ≡ env)
unfolding ast
eval_adds_example =
    eval_adds variable mysql (λ finds. finds) (codes "#{no} or #{no}") state
      {s = codes " ?  or  ? "} {after = record state { arg_array = number 1 ∷ bool false ∷ [] }}
      refl

body_run :
    IsBody
      (λ n. n)
      (λ i v. codes " ? ")
      (λ i v. v ∷ [])
      (do_child_nodes variable (λ n. n) mysql body)
unfolding ast
body_run i v st e =
    ap
      (λ env.
        do_child_nodes variable (λ n. n) mysql body
          (record { env = env; arg_array = st.arg_array }))
      e
    ∙ ap (λ env. (ok (codes " ? "), record { env = env; arg_array = st.arg_array ++ v ∷ [] }))
        (sym e)

for_each_node-join_example :
    Nodes.for_each_node (λ n. n) (do_child_nodes variable (λ n. n) mysql body) loop state
    ≡ (ok (codes "( ? , ? )"), record state { arg_array = number 1 ∷ number 5 ∷ number 6 ∷ [] })
unfolding ast
for_each_node-join_example =
    for_each_node-join (λ n. n) (λ i v. codes " ? ") (λ i v. v ∷ [])
      (do_child_nodes variable (λ n. n) mysql body) body_run loop
      (cons (number 5) (cons (number 6) nil)) state refl

eval-choose_example :
    Tree.eval variable
      (λ n. n)
      mysql
      (n_choose (whens (cons (n_when body (codes "no")) nil)) (otherwise (text "1 = 1")))
      state
    ≡ (ok [], state)
unfolding ast
eval-choose_example =
    eval-choose variable (λ n. n) mysql (codes "no") body nil (otherwise (text "1 = 1")) state refl
