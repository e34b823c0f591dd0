-- ===== src/Ast/Eval.antt =====
-- src/ast/node: `eval` of `NodeType` and `do_child_nodes`. The expression engine and the number that
-- `Number::from_f64` makes of an index are parameters.
use rbatis.Ast.Defs.{
  NodeType, Nodes, WhenNodes, OtherwiseNode, n_null, n_string, n_if, n_trim, n_for_each, n_choose,
  n_otherwise, n_when, n_bind, n_include, n_set, n_where, n_sql_node, n_insert_node, n_update_node,
  n_delete_node, n_select_node, n_result_map_node, n_result_map_id_node, n_result_map_result_node,
  nil, cons, no_whens, whens, no_otherwise, otherwise,
}
use rbatis.Ast.Nodes.{
  append_child, if_node, when_node, bind_node, where_node, trim_node, for_each_node, first_ok,
}
use rbatis.Ast.StringNode as StringNode
use rbatis.Ast.StringNode.{Step}
use rbatis.Driver.{DriverType}
use rbatis.Json.{Value}
use rbatis.Prelude.{ℕ, [], Outcome, ok}
use rbatis.Text.{Str}

module _ {N : Type 0} (engine : Str → Value N → Outcome (Value N)) (from_nat : ℕ → N)
    (d : DriverType) where
  unfoldable mutual
    pub eval : NodeType → Step N
    eval n_null st = (ok [], st)
    eval (n_string node) st = StringNode.eval engine d node st
    eval (n_if nodes test) st = if_node engine (do_child_nodes nodes) test st
    eval (n_trim nodes t) st = trim_node (do_child_nodes nodes) t st
    eval (n_for_each nodes f) st = for_each_node from_nat (do_child_nodes nodes) f st
    eval (n_choose when_nodes otherwise_node) st =
        eval_whens when_nodes (eval_otherwise otherwise_node) st
    eval (n_otherwise nodes) st = do_child_nodes nodes st
    eval (n_when nodes test) st = when_node engine (do_child_nodes nodes) test st
    eval (n_bind name value) st = bind_node engine name value st
    eval (n_include _ nodes) st = do_child_nodes nodes st
    eval (n_set nodes) st = do_child_nodes nodes st
    eval (n_where nodes) st = where_node (do_child_nodes nodes) st
    eval (n_sql_node _ nodes) st = do_child_nodes nodes st
    eval (n_insert_node _ nodes) st = do_child_nodes nodes st
    eval (n_update_node _ nodes) st = do_child_nodes nodes st
    eval (n_delete_node _ nodes) st = do_child_nodes nodes st
    eval (n_select_node _ nodes) st = do_child_nodes nodes st
    eval (n_result_map_node _) st = (ok [], st)
    eval (n_result_map_id_node _) st = (ok [], st)
    eval (n_result_map_result_node _) st = (ok [], st)

    pub do_child_nodes : Nodes → Step N
    do_child_nodes nil st = (ok [], st)
    do_child_nodes (cons item nodes) st = append_child (eval item) (do_child_nodes nodes) st

    pub eval_whens : WhenNodes → Step N → Step N
    eval_whens no_whens later st = later st
    eval_whens (whens nodes) later st = eval_each nodes later st

    pub eval_each : Nodes → Step N → Step N
    eval_each nil later st = later st
    eval_each (cons item nodes) later st = first_ok (eval item) (eval_each nodes later) st

    pub eval_otherwise : OtherwiseNode → Step N
    eval_otherwise no_otherwise st = (ok [], st)
    eval_otherwise (otherwise node) st = eval node st
