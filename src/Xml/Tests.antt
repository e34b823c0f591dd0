-- ===== src/Xml/Tests.antt =====
-- Decoded mappers, and the theorems at concrete inputs.
use rbatis.Ast.Defs.{
  NodeType, n_null, n_string, n_if, n_include, n_select_node, n_sql_node, nil, cons, to_nodes,
  new_result_map, add_results, add_result,
}
use rbatis.Ast.StringNode as Text
use rbatis.Xml.Decode.{
  filter_result_map_result_nodes, filter_result_map_id_nodes, only_whens, some_whens,
  filter_when_nodes, only_otherwise, one_otherwise, filter_otherwise_nodes, include_node,
  choose_node, node, decode_tag, push_some, decode_into, loop_decode_xml,
}
use rbatis.Xml.Loader.{
  element, elements, no_elements, start_element, characters, end_element, ignored, find_attr, reset,
  push_element, push_child, text_element, start, close, add_text, parser_events, parser_func,
}
use rbatis.Xml.Defined.{defined}
use rbatis.Xml.Inclusion.{CanReplace, IsReplaced}
use rbatis.Xml.Includes.{do_replace_include_node-Replaced}
use rbatis.Xml.Loads.{parser_func-events}
use rbatis.Xml.Mapper.{
  MapperMap, remove_key, insert, find_node, insert_result_maps, statement_entry, insert_statements,
  included, replace_include, replace_entry, replace_entries, do_replace_include_node, to_elements,
  parser,
}
use rbatis.Xml.RoundTrip.{mapper_events, parser-mapper}
use rbatis.Xml.Template.{
  Template, done, text_then, comment_then, leaf_then, block_then, select_block, sql_block, if_block,
  include_leaf, block_tag, leaf_tag, block_node, leaf_node, plain_text, events, tree,
  first_otherwise, template_nodes, IsTemplate,
}
use rbatis.Utils.StringUtil as StringUtil
use rbatis.Prelude.{◌≡◌, refl, All, Option, none, some, List, [], ◌∷◌, Outcome, ok, panic, Ensures}
use rbatis.Text.{
  Str, codes, str_eq, is_empty, strip_prefix, starts_with, ends_with, replace_from, replace,
  split_from, split, is_whitespace, trim_start, trim_end, trim,
}

xml : Unit {0}
unfolding to_nodes new_result_map add_results add_result Text.new Text.mark_entries
    filter_result_map_result_nodes filter_result_map_id_nodes only_whens some_whens
    filter_when_nodes only_otherwise one_otherwise filter_otherwise_nodes include_node choose_node
    node decode_tag push_some decode_into loop_decode_xml find_attr reset push_element push_child
    text_element start close add_text parser_events parser_func remove_key insert find_node
    insert_result_maps statement_entry insert_statements included replace_include replace_entry
    replace_entries do_replace_include_node to_elements parser block_tag leaf_tag block_node
    leaf_node plain_text events tree first_otherwise template_nodes IsTemplate
    StringUtil.find_convert_string StringUtil.find_no_convert_string StringUtil.find_marked
    StringUtil.before_comma StringUtil.distinct StringUtil.is_listed str_eq is_empty split
    split_from starts_with ends_with strip_prefix is_whitespace trim trim_start trim_end replace
    replace_from
xml = tt

abbrev same : List Str → List Str
same finds = finds

abbrev text : Str → NodeType
text s = n_string (Text.new same s)

-- A mapper with a fragment and a statement.
abbrev mapper_of : Template → Template → Template
mapper_of fragment statement =
    block_then (sql_block (codes "cols")) fragment
      (block_then (select_block (codes "all")) statement done)

abbrev include : Template → Template
include rest = leaf_then (include_leaf (codes "cols")) rest

abbrev simple : Template
simple =
    mapper_of (text_then (codes " a, b\n") done)
      (comment_then (include (text_then (codes "from t") done)))

abbrev fragment : NodeType
fragment = n_sql_node (codes "cols") (cons (text (codes " a, b")) nil)

abbrev found : Str → Outcome MapperMap → Option NodeType
found id (ok m) = find_node m id
found id _ = none

parse_simple :
    found (codes "all") (parser same (mapper_events [] simple))
    ≡ some (
        n_select_node
          (codes "all")
          (cons (n_include (codes "cols") (cons fragment nil)) (cons (text (codes " from t")) nil)))
unfolding xml
parse_simple = refl

-- The search for include nodes ends with the first node that has childs.
missed_include :
    found (codes "all") (
      parser same (
        mapper_events [] (
          mapper_of
            (text_then (codes "a, b") done)
            (block_then (if_block (codes "x")) (text_then (codes "y") done) (include done)))))
    ≡ some (
        n_select_node (codes "all") (
          cons
            (n_if (cons (text (codes " y")) nil) (codes "x"))
            (cons (n_include (codes "cols") nil) nil)))
unfolding xml
missed_include = refl

-- Nodes beside the mapper are lost, and unknown ones share one entry.
parse_siblings :
    parser same (
      start_element (codes "mapper") []
      ∷ characters (codes "x")
      ∷ end_element (codes "mapper")
      ∷ [])
    ≡ ok ((codes "unknow", n_null) ∷ [])
unfolding xml
parse_siblings = refl

-- A document without elements has no father for its text.
lone_text : parser same (characters (codes "x") ∷ []) ≡ panic
unfolding xml
lone_text = refl

parser_func-events_example :
    parser_func (
      start_element (codes "sql") []
      ∷ characters (codes "a")
      ∷ ignored
      ∷ end_element (codes "sql")
      ∷ [])
    ≡ ok (
        element (codes "sql") [] [] (elements (element [] (codes " a") [] no_elements) no_elements)
        ∷ [])
unfolding xml
parser_func-events_example =
    parser_func-events (codes "sql") [] (text_then (codes "a") (comment_then done))

simple-IsTemplate : IsTemplate same simple
unfolding IsTemplate
simple-IsTemplate = (tt, (tt, tt))

simple-CanReplace :
    All (CanReplace (defined (template_nodes same simple))) (template_nodes same simple)
unfolding xml defined
simple-CanReplace = (tt, ((refl, (fragment, refl), tt), tt))

parser-mapper_example :
    (m : MapperMap) × (parser same (mapper_events [] simple) ≡ ok m)
    × ((id : Str)
        → IsReplaced
            (defined (template_nodes same simple))
            (defined (template_nodes same simple) id)
            (find_node m id))
parser-mapper_example = parser-mapper same [] simple simple-IsTemplate simple-CanReplace

abbrev small : MapperMap
small =
    (codes "all", n_select_node (codes "all") (cons (n_include (codes "cols") nil) nil))
    ∷ (codes "cols", fragment)
    ∷ []

do_replace_include_node-Replaced_example :
    Ensures
      (λ after.
        IsReplaced
          (find_node small)
          (find_node small (codes "all"))
          (find_node after (codes "all")))
      (do_replace_include_node small)
do_replace_include_node-Replaced_example = do_replace_include_node-Replaced small (codes "all")
