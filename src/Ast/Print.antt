-- ===== src/Ast/Print.antt =====
-- src/ast/node: `print` of `NodeType`. A function of a node's kind gets the printed children.
use rbatis.Ast.Defs.{
  NodeType, Nodes, WhenNodes, OtherwiseNode, Overrides, ForEach, StringNode, ResultMapNode,
  ResultMapIdNode, ResultMapResultNode, n_null, n_string, n_if, n_trim, n_for_each, n_choose,
  n_otherwise, n_when, n_bind, n_include, n_set, n_where, n_sql_node, n_insert_node, n_update_node,
  n_delete_node, n_select_node, n_result_map_node, n_result_map_id_node, n_result_map_result_node,
  nil, cons, no_whens, whens, no_otherwise, otherwise,
}
use rbatis.Prelude.{ℕ, zero, suc, ◌+◌, none, some, List, [], ◌∷◌, ◌++◌, Outcome, ok, panic, ◌>>=◌}
use rbatis.Text.{Str, codes, replace}

-- An attribute: a space, its name, and its value in quotes.
unfoldable pub attribute : Str → Str → Str
attribute name value = codes " " ++ name ++ codes "=\"" ++ value ++ codes "\""

unfoldable pub indent : ℕ → Str
indent zero = []
indent (suc deep) = indent deep ++ codes "  "

unfoldable pub create_deep : ℕ → Str
create_deep deep = codes "\n" ++ indent deep

unfoldable pub print_string : ℕ → StringNode → Str
print_string deep node = create_deep deep ++ node.value

unfoldable pub print_if : ℕ → Str → Str → Str
print_if deep test childs =
    create_deep deep
    ++ codes "<if "
    ++ attribute (codes "test") test
    ++ codes " >"
    ++ childs
    ++ create_deep deep
    ++ codes "</if>"

unfoldable pub print_when : ℕ → Str → Str → Str
print_when deep test childs =
    create_deep deep
    ++ codes "<when "
    ++ attribute (codes "test") test
    ++ codes " >"
    ++ childs
    ++ create_deep deep
    ++ codes "</when>"

unfoldable pub print_trim : ℕ → Overrides → Str → Str
print_trim deep t childs =
    create_deep deep
    ++ codes "<trim "
    ++ attribute (codes "prefix") t.prefix
    ++ attribute (codes "suffix") t.suffix
    ++ attribute (codes "suffix_overrides") t.suffix_overrides
    ++ attribute (codes "prefix_overrides") t.prefix_overrides
    ++ childs
    ++ create_deep deep
    ++ codes "</trim>"

unfoldable pub print_for_each : ℕ → ForEach → Str → Str
print_for_each deep f childs =
    create_deep deep
    ++ codes "<foreach"
    ++ attribute (codes "collection") f.collection
    ++ attribute (codes "index") f.index
    ++ attribute (codes "item") f.item
    ++ attribute (codes "open") f.open_text
    ++ attribute (codes "close") f.close
    ++ attribute (codes "separator") f.separator
    ++ codes " >"
    ++ childs
    ++ create_deep deep
    ++ codes "</foreach>"

unfoldable pub print_otherwise : ℕ → Str → Str
print_otherwise deep childs =
    create_deep deep ++ codes "<otherwise>" ++ childs ++ create_deep deep ++ codes "</otherwise>"

unfoldable pub print_set : ℕ → Str → Str
print_set deep childs =
    create_deep deep ++ codes "<set>" ++ childs ++ create_deep deep ++ codes "</set>"

unfoldable pub print_where : ℕ → Str → Str
print_where deep childs =
    create_deep deep
    ++ codes "<where"
    ++ codes ">"
    ++ childs
    ++ create_deep deep
    ++ codes "</where>"

unfoldable pub print_bind : ℕ → Str → Str → Str
print_bind deep name value =
    replace
      (create_deep deep
        ++ replace (codes "<bind #{attr}>#{body}</bind>") (codes "#{attr}")
            (name ++ codes "=\"" ++ value ++ codes "\""))
      (codes "#{body}") (create_deep deep)

unfoldable pub print_include : ℕ → Str → Str → Str
print_include deep refid childs =
    create_deep deep
    ++ codes "<include "
    ++ codes "refid=\""
    ++ refid
    ++ codes "\""
    ++ codes " >"
    ++ childs
    ++ create_deep deep
    ++ codes "</include>"

unfoldable pub print_sql : ℕ → Str → Str → Str
print_sql deep id childs =
    create_deep deep
    ++ codes "<sql "
    ++ codes "id=\""
    ++ id
    ++ codes "\""
    ++ codes " >"
    ++ childs
    ++ create_deep deep
    ++ codes "</sql>"

-- The statements' nodes print alike, under their own name.
unfoldable pub print_statement : Str → ℕ → Str → Str → Str
print_statement name deep id childs =
    create_deep deep
    ++ codes "<"
    ++ name
    ++ codes " "
    ++ codes "id=\""
    ++ id
    ++ codes "\""
    ++ codes ">"
    ++ childs
    ++ create_deep deep
    ++ codes "</"
    ++ name
    ++ codes ">"

unfoldable pub print_insert : ℕ → Str → Str → Str
print_insert = print_statement (codes "insert")

unfoldable pub print_update : ℕ → Str → Str → Str
print_update = print_statement (codes "update")

unfoldable pub print_delete : ℕ → Str → Str → Str
print_delete = print_statement (codes "delete")

unfoldable pub print_select : ℕ → Str → Str → Str
print_select = print_statement (codes "select")

unfoldable pub print_id : ℕ → ResultMapIdNode → Str
print_id deep node =
    create_deep deep
    ++ codes "<id "
    ++ attribute (codes "column") node.column
    ++ attribute (codes "lang_type") node.lang_type
    ++ codes "></id>"

unfoldable pub print_result : ℕ → ResultMapResultNode → Str
print_result deep node =
    create_deep deep
    ++ codes "<result "
    ++ attribute (codes "column") node.column
    ++ attribute (codes "lang_type") node.lang_type
    ++ codes "></result>"

unfoldable pub print_results : ℕ → List ResultMapResultNode → Str
print_results deep [] = []
print_results deep (item ∷ results) = print_result deep item ++ print_results deep results

unfoldable pub print_result_map : ℕ → ResultMapNode → Str
print_result_map deep node =
    create_deep deep
    ++ codes "<result_map id=\""
    ++ node.id
    ++ codes "\">"
    ++ elim node.id_node [ none ↦ [] | some id_node ↦ print_id deep id_node ]
    ++ print_results (deep + 1) node.results
    ++ create_deep deep
    ++ codes "</result_map>"

-- A `choose` without `when` nodes or without `otherwise` makes `unwrap` panic.
unfoldable pub print_choose : ℕ → Outcome Str → Outcome Str → Outcome Str
print_choose deep when_nodes otherwise_node = do
  first ← when_nodes
  last ← otherwise_node
  ok (
      create_deep deep
      ++ codes "<choose>"
      ++ first
      ++ last
      ++ create_deep deep
      ++ codes "</choose>")

-- Prints around what the children print.
abbrev around : (Str → Str) → Outcome Str → Outcome Str
around shape childs = childs >>= λ s. ok (shape s)

unfoldable mutual
  pub print : ℕ → NodeType → Outcome Str
  print deep n_null = ok (codes "null")
  print deep (n_string node) = ok (print_string deep node)
  print deep (n_if nodes test) = around (print_if deep test) (print_child (deep + 1) nodes)
  print deep (n_trim nodes t) = around (print_trim deep t) (print_child (deep + 1) nodes)
  print deep (n_for_each nodes f) = around (print_for_each deep f) (print_child (deep + 1) nodes)
  print deep (n_choose when_nodes otherwise_node) =
      print_choose deep (print_whens (deep + 1) when_nodes) (print_last deep otherwise_node)
  print deep (n_otherwise nodes) = around (print_otherwise deep) (print_child (deep + 1) nodes)
  print deep (n_when nodes test) = around (print_when deep test) (print_child (deep + 1) nodes)
  print deep (n_bind name value) = ok (print_bind deep name value)
  print deep (n_include refid nodes) =
      around (print_include deep refid) (print_child (deep + 1) nodes)
  print deep (n_set nodes) = around (print_set deep) (print_child (deep + 1) nodes)
  print deep (n_where nodes) = around (print_where deep) (print_child (deep + 1) nodes)
  print deep (n_sql_node id nodes) = around (print_sql deep id) (print_child (deep + 1) nodes)
  print deep (n_insert_node id nodes) = around (print_insert deep id) (print_child (deep + 1) nodes)
  print deep (n_update_node id nodes) = around (print_update deep id) (print_child (deep + 1) nodes)
  print deep (n_delete_node id nodes) = around (print_delete deep id) (print_child (deep + 1) nodes)
  print deep (n_select_node id nodes) = around (print_select deep id) (print_child (deep + 1) nodes)
  print deep (n_result_map_node node) = ok (print_result_map deep node)
  print deep (n_result_map_id_node node) = ok (print_id deep node)
  print deep (n_result_map_result_node node) = ok (print_result deep node)

  pub print_child : ℕ → Nodes → Outcome Str
  print_child deep nil = ok []
  print_child deep (cons item nodes) = do
    s ← print deep item
    t ← print_child deep nodes
    ok (s ++ t)

  pub print_whens : ℕ → WhenNodes → Outcome Str
  print_whens deep no_whens = panic
  print_whens deep (whens nodes) = print_child deep nodes

  pub print_last : ℕ → OtherwiseNode → Outcome Str
  print_last deep no_otherwise = panic
  print_last deep (otherwise node) = print deep node
