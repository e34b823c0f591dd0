-- ===== src/Xml/Mapper.antt =====
-- src/ast/lang/xml.rs: `parser`, the map from the ids of a mapper to its nodes, and the replacement of
-- the include nodes.
use rbatis.Ast.Defs.{
  NodeType, n_null, n_if, n_trim, n_for_each, n_otherwise, n_when, n_include, n_set, n_where,
  n_sql_node, n_insert_node, n_update_node, n_delete_node, n_select_node, n_result_map_node, Nodes,
  nil, cons,
}
use rbatis.Xml.Decode.{loop_decode_xml}
use rbatis.Xml.Loader.{Element, Elements, no_elements, elements, XmlEvent, parser_func}
use rbatis.Prelude.{
  unwrap, Option, none, some, List, [], ◌∷◌, if◌then◌else◌, Outcome, ok, panic, ◌>>=◌,
}
use rbatis.Text.{Str, codes, str_eq, is_empty}

-- `HashMap<String, NodeType>`: its entries, the last one inserted in front.
abbrev pub MapperMap : Type 0
MapperMap = List (Str × NodeType)

unfoldable pub remove_key : Str → MapperMap → MapperMap
remove_key id [] = []
remove_key id ((k, v) ∷ m) =
    let rest = remove_key id m in if str_eq k id then rest else (k, v) ∷ rest

unfoldable pub insert : Str → NodeType → MapperMap → MapperMap
insert id v m = (id, v) ∷ remove_key id m

unfoldable pub find_node : MapperMap → Str → Option NodeType
find_node [] id = none
find_node ((k, v) ∷ arg) id = if str_eq k id then some v else find_node arg id

-- The first loop of `parser`: the result maps.
unfoldable pub insert_result_maps : List NodeType → MapperMap → MapperMap
insert_result_maps [] m = m
insert_result_maps (n_result_map_node node ∷ data_nodes) m =
    insert_result_maps data_nodes (insert node.id (n_result_map_node node) m)
insert_result_maps (_ ∷ data_nodes) m = insert_result_maps data_nodes m

-- The key of a statement; all other nodes share one.
unfoldable pub statement_entry : NodeType → Str × NodeType
statement_entry (n_select_node id childs) = (id, n_select_node id childs)
statement_entry (n_delete_node id childs) = (id, n_delete_node id childs)
statement_entry (n_update_node id childs) = (id, n_update_node id childs)
statement_entry (n_insert_node id childs) = (id, n_insert_node id childs)
statement_entry (n_sql_node id childs) = (id, n_sql_node id childs)
statement_entry _ = (codes "unknow", n_null)

unfoldable pub insert_statements : List NodeType → MapperMap → MapperMap
insert_statements [] m = m
insert_statements (node ∷ data_nodes) m =
    let (id, v) = statement_entry node in insert_statements data_nodes (insert id v m)

-- What takes the place of an include node's childs; `panic!` without a refid or a node of that id.
unfoldable pub included : MapperMap → Str → Outcome NodeType
included arg refid = if is_empty refid then panic else unwrap (find_node arg refid)

-- `loop_find_include_node` and the replacement of what it finds: a node that has childs and is no
-- include node ends the search.
unfoldable pub replace_include : MapperMap → Nodes → Outcome Nodes
replace_include arg nil = ok nil
replace_include arg (cons (n_include refid _) rest) = do
  v ← included arg refid
  after ← replace_include arg rest
  ok (cons (n_include refid (cons v nil)) after)
replace_include arg (cons (n_if nodes test) rest) = do
  childs ← replace_include arg nodes
  ok (cons (n_if childs test) rest)
replace_include arg (cons (n_trim nodes overrides) rest) = do
  childs ← replace_include arg nodes
  ok (cons (n_trim childs overrides) rest)
replace_include arg (cons (n_for_each nodes for_each) rest) = do
  childs ← replace_include arg nodes
  ok (cons (n_for_each childs for_each) rest)
replace_include arg (cons (n_otherwise nodes) rest) = do
  childs ← replace_include arg nodes
  ok (cons (n_otherwise childs) rest)
replace_include arg (cons (n_when nodes test) rest) = do
  childs ← replace_include arg nodes
  ok (cons (n_when childs test) rest)
replace_include arg (cons (n_set nodes) rest) = do
  childs ← replace_include arg nodes
  ok (cons (n_set childs) rest)
replace_include arg (cons (n_where nodes) rest) = do
  childs ← replace_include arg nodes
  ok (cons (n_where childs) rest)
replace_include arg (cons (n_sql_node id nodes) rest) = do
  childs ← replace_include arg nodes
  ok (cons (n_sql_node id childs) rest)
replace_include arg (cons (n_insert_node id nodes) rest) = do
  childs ← replace_include arg nodes
  ok (cons (n_insert_node id childs) rest)
replace_include arg (cons (n_update_node id nodes) rest) = do
  childs ← replace_include arg nodes
  ok (cons (n_update_node id childs) rest)
replace_include arg (cons (n_delete_node id nodes) rest) = do
  childs ← replace_include arg nodes
  ok (cons (n_delete_node id childs) rest)
replace_include arg (cons (n_select_node id nodes) rest) = do
  childs ← replace_include arg nodes
  ok (cons (n_select_node id childs) rest)
replace_include arg (cons leaf rest) = do after ← replace_include arg rest; ok (cons leaf after)

-- One entry of the map; only a statement has childs.
unfoldable pub replace_entry : MapperMap → NodeType → Outcome NodeType
replace_entry arg (n_select_node id nodes) = do
  childs ← replace_include arg nodes
  ok (n_select_node id childs)
replace_entry arg (n_delete_node id nodes) = do
  childs ← replace_include arg nodes
  ok (n_delete_node id childs)
replace_entry arg (n_update_node id nodes) = do
  childs ← replace_include arg nodes
  ok (n_update_node id childs)
replace_entry arg (n_insert_node id nodes) = do
  childs ← replace_include arg nodes
  ok (n_insert_node id childs)
replace_entry arg (n_sql_node id nodes) = do
  childs ← replace_include arg nodes
  ok (n_sql_node id childs)
replace_entry arg v = ok v

unfoldable pub replace_entries : MapperMap → MapperMap → Outcome MapperMap
replace_entries arg [] = ok []
replace_entries arg ((k, v) ∷ m) = do
  after ← replace_entry arg v
  rest ← replace_entries arg m
  ok ((k, after) ∷ rest)

-- The nodes are found in the map as it was before.
unfoldable pub do_replace_include_node : MapperMap → Outcome MapperMap
do_replace_include_node arg = replace_entries arg arg

unfoldable pub to_elements : List Element → Elements
to_elements [] = no_elements
to_elements (first ∷ rest) = elements first (to_elements rest)

module _ (order : List Str → List Str) where
  unfoldable pub parser : List XmlEvent → Outcome MapperMap
  parser events = do
    nodes ← parser_func events
    data_nodes ← loop_decode_xml order (to_elements nodes)
    do_replace_include_node (insert_statements data_nodes (insert_result_maps data_nodes []))
