-- ===== src/Xml/Decode.antt =====
-- src/ast/lang/xml.rs: `loop_decode_xml`, the nodes of elements.
use rbatis.Ast.Defs.{
  to_nodes, NodeType, n_string, n_if, n_trim, n_for_each, n_choose, n_otherwise, n_when, n_bind,
  n_include, n_set, n_where, n_sql_node, n_insert_node, n_update_node, n_delete_node, n_select_node,
  n_result_map_node, n_result_map_id_node, n_result_map_result_node, nil, WhenNodes, no_whens,
  whens, OtherwiseNode, no_otherwise, otherwise, ResultMapIdNode, ResultMapResultNode,
  new_result_map,
}
use rbatis.Ast.StringNode.{new}
use rbatis.Xml.Loader.{element, Elements, no_elements, elements, find_attr}
use rbatis.Prelude.{
  Option, none, some, List, [], ◌∷◌, ◌++◌, if◌then◌else◌, Outcome, ok, panic, ◌>>=◌,
}
use rbatis.Text.{Str, codes, str_eq}

unfoldable pub filter_result_map_result_nodes : List NodeType → List ResultMapResultNode
filter_result_map_result_nodes [] = []
filter_result_map_result_nodes (n_result_map_result_node node ∷ arg) =
    node ∷ filter_result_map_result_nodes arg
filter_result_map_result_nodes (_ ∷ arg) = filter_result_map_result_nodes arg

unfoldable pub filter_result_map_id_nodes : List NodeType → Option ResultMapIdNode
filter_result_map_id_nodes [] = none
filter_result_map_id_nodes (n_result_map_id_node node ∷ arg) = some node
filter_result_map_id_nodes (_ ∷ arg) = filter_result_map_id_nodes arg

unfoldable pub only_whens : List NodeType → List NodeType
only_whens [] = []
only_whens (n_when nodes test ∷ arg) = n_when nodes test ∷ only_whens arg
only_whens (_ ∷ arg) = only_whens arg

unfoldable pub some_whens : List NodeType → WhenNodes
some_whens [] = no_whens
some_whens (node ∷ nodes) = whens (to_nodes (node ∷ nodes))

unfoldable pub filter_when_nodes : List NodeType → WhenNodes
filter_when_nodes arg = some_whens (only_whens arg)

unfoldable pub only_otherwise : List NodeType → List NodeType
only_otherwise [] = []
only_otherwise (n_otherwise nodes ∷ arg) = n_otherwise nodes ∷ only_otherwise arg
only_otherwise (_ ∷ arg) = only_otherwise arg

-- Two of them are a panic.
unfoldable pub one_otherwise : List NodeType → Outcome OtherwiseNode
one_otherwise [] = ok no_otherwise
one_otherwise (node ∷ []) = ok (otherwise node)
one_otherwise (node ∷ second ∷ nodes) = panic

unfoldable pub filter_otherwise_nodes : List NodeType → Outcome OtherwiseNode
filter_otherwise_nodes arg = one_otherwise (only_otherwise arg)

-- An include node must have no childs.
unfoldable pub include_node : Str → List NodeType → Outcome (Option NodeType)
include_node refid [] = ok (some (n_include refid nil))
include_node refid (node ∷ nodes) = panic

unfoldable pub choose_node : List NodeType → Outcome (Option NodeType)
choose_node child_nodes = do
  otherwise_node ← filter_otherwise_nodes child_nodes
  ok (some (n_choose (filter_when_nodes child_nodes) otherwise_node))

unfoldable pub node : NodeType → Outcome (Option NodeType)
node decoded = ok (some decoded)

module _ (order : List Str → List Str) where
  -- The `match` on the tag, but for "mapper"; another tag has no node.
  unfoldable pub decode_tag : Str → Str → (Str → Str) → List NodeType → Outcome (Option NodeType)
  decode_tag tag data_text attr child_nodes =
      let childs = to_nodes child_nodes in
      if str_eq tag (codes "select")
      then node (n_select_node (attr (codes "id")) childs)
      else if str_eq tag (codes "update")
      then node (n_update_node (attr (codes "id")) childs)
      else if str_eq tag (codes "insert")
      then node (n_insert_node (attr (codes "id")) childs)
      else if str_eq tag (codes "delete")
      then node (n_delete_node (attr (codes "id")) childs)
      else if str_eq tag (codes "if")
      then node (n_if childs (attr (codes "test")))
      else if str_eq tag (codes "trim")
      then node (
          n_trim childs (record {
            prefix = attr (codes "prefix");
            suffix = attr (codes "suffix");
            suffix_overrides = attr (codes "suffix_overrides");
            prefix_overrides = attr (codes "prefix_overrides");
          }))
      else if str_eq tag (codes "foreach")
      then node (
          n_for_each childs (record {
            collection = attr (codes "collection");
            index = attr (codes "index");
            item = attr (codes "item");
            open_text = attr (codes "open");
            close = attr (codes "close");
            separator = attr (codes "separator");
          }))
      else if str_eq tag (codes "choose")
      then choose_node child_nodes
      else if str_eq tag (codes "when")
      then node (n_when childs (attr (codes "test")))
      else if str_eq tag (codes "where")
      then node (n_where childs)
      else if str_eq tag (codes "otherwise")
      then node (n_otherwise childs)
      else if str_eq tag (codes "bind")
      then node (n_bind (attr (codes "name")) (attr (codes "value")))
      else if str_eq tag (codes "include")
      then include_node (attr (codes "refid")) child_nodes
      else if str_eq tag (codes "set")
      then node (n_set childs)
      else if str_eq tag (codes "id")
      then node (
          n_result_map_id_node
            (record { column = attr (codes "column"); lang_type = attr (codes "lang_type") }))
      else if str_eq tag (codes "result")
      then node (
          n_result_map_result_node (record {
            column = attr (codes "column");
            lang_type = attr (codes "lang_type");
            version_enable = attr (codes "version_enable");
            logic_enable = attr (codes "logic_enable");
            logic_undelete = attr (codes "logic_undelete");
            logic_deleted = attr (codes "logic_deleted");
          }))
      else if str_eq tag (codes "result_map")
      then node (
          n_result_map_node (
            new_result_map (attr (codes "id")) (attr (codes "table"))
              (filter_result_map_id_nodes child_nodes)
              (filter_result_map_result_nodes child_nodes)))
      else if str_eq tag (codes "sql")
      then node (n_sql_node (attr (codes "id")) childs)
      else if str_eq tag []
      then node (n_string (new order data_text))
      else ok none

  unfoldable pub push_some : List NodeType → Option NodeType → List NodeType
  push_some nodes none = nodes
  push_some nodes (some decoded) = nodes ++ decoded ∷ []

  -- The loop, with the nodes so far; a mapper's nodes are returned at once, without them.
  unfoldable pub decode_into : List NodeType → Elements → Outcome (List NodeType)
  decode_into nodes no_elements = ok nodes
  decode_into nodes (elements (element tag data_text attributes childs) rest) = do
    child_nodes ← decode_into [] childs
    if str_eq tag (codes "mapper") then ok child_nodes else (do
      decoded ← decode_tag tag data_text (λ arg. find_attr arg attributes) child_nodes
      decode_into (push_some nodes decoded) rest)

  unfoldable pub loop_decode_xml : Elements → Outcome (List NodeType)
  loop_decode_xml xml_vec = decode_into [] xml_vec
