-- ===== src/Xml/Template.antt =====
-- Mappers as trees, the events of their text, their elements and their nodes: what
-- src/utils/xml_loader.rs and src/ast/lang/xml.rs should make of such a mapper.
use rbatis.Ast.Defs.{
  Overrides, ForEach, ResultMapIdNode, ResultMapResultNode, NodeType, n_string, n_if, n_trim,
  n_for_each, n_choose, n_otherwise, n_when, n_bind, n_include, n_set, n_where, n_sql_node,
  n_insert_node, n_update_node, n_delete_node, n_select_node, n_result_map_node,
  n_result_map_id_node, n_result_map_result_node, nil, WhenNodes, no_whens, whens, OtherwiseNode,
  no_otherwise, otherwise, to_nodes, new_result_map,
}
use rbatis.Ast.StringNode.{new}
use rbatis.Xml.Loader.{
  Element, element, Elements, no_elements, elements, XmlEvent, start_element, characters,
  end_element, ignored,
}
use rbatis.Prelude.{◌≤◌, Option, none, some, List, [], ◌∷◌, ◌++◌, length}
use rbatis.Text.{Str, codes, replace, trim}

-- The elements with childs, and their attributes.
pub data Block : Type 0 where
  select_block update_block insert_block delete_block sql_block : Str → Block
  if_block when_block : Str → Block
  trim_block : Overrides → Block
  foreach_block : ForEach → Block
  where_block otherwise_block set_block : Block
  result_map_block : Str → Str → Block

-- The elements without childs.
pub data Leaf : Type 0 where
  bind_leaf : Str → Str → Leaf
  include_leaf : Str → Leaf
  id_leaf : ResultMapIdNode → Leaf
  result_leaf : ResultMapResultNode → Leaf

-- A comment is an event that the loader passes over.
pub data Template : Type 0 where
  done : Template
  text_then : Str → Template → Template
  comment_then : Template → Template
  leaf_then : Leaf → Template → Template
  block_then : Block → Template → Template → Template
  choose_then : Template → Template → Template

-- A tag and its attributes.
abbrev pub Tag : Type 0
Tag = Str × List (Str × Str)

unfoldable pub block_tag : Block → Tag
block_tag (select_block id) = (codes "select", (codes "id", id) ∷ [])
block_tag (update_block id) = (codes "update", (codes "id", id) ∷ [])
block_tag (insert_block id) = (codes "insert", (codes "id", id) ∷ [])
block_tag (delete_block id) = (codes "delete", (codes "id", id) ∷ [])
block_tag (sql_block id) = (codes "sql", (codes "id", id) ∷ [])
block_tag (if_block test) = (codes "if", (codes "test", test) ∷ [])
block_tag (when_block test) = (codes "when", (codes "test", test) ∷ [])
block_tag (trim_block overrides) = (
  codes "trim",
  (codes "prefix", overrides.prefix)
      ∷ (codes "suffix", overrides.suffix)
      ∷ (codes "suffix_overrides", overrides.suffix_overrides)
      ∷ (codes "prefix_overrides", overrides.prefix_overrides)
      ∷ [],
)
block_tag (foreach_block each) = (
  codes "foreach",
  (codes "collection", each.collection)
      ∷ (codes "index", each.index)
      ∷ (codes "item", each.item)
      ∷ (codes "open", each.open_text)
      ∷ (codes "close", each.close)
      ∷ (codes "separator", each.separator)
      ∷ [],
)
block_tag where_block = (codes "where", [])
block_tag otherwise_block = (codes "otherwise", [])
block_tag set_block = (codes "set", [])
block_tag (result_map_block id table) =
    (codes "result_map", (codes "id", id) ∷ (codes "table", table) ∷ [])

unfoldable pub leaf_tag : Leaf → Tag
leaf_tag (bind_leaf name value) = (codes "bind", (codes "name", name) ∷ (codes "value", value) ∷ [])
leaf_tag (include_leaf refid) = (codes "include", (codes "refid", refid) ∷ [])
leaf_tag (id_leaf id) =
    (codes "id", (codes "column", id.column) ∷ (codes "lang_type", id.lang_type) ∷ [])
leaf_tag (result_leaf result) = (
  codes "result",
  (codes "column", result.column)
      ∷ (codes "lang_type", result.lang_type)
      ∷ (codes "version_enable", result.version_enable)
      ∷ (codes "logic_enable", result.logic_enable)
      ∷ (codes "logic_undelete", result.logic_undelete)
      ∷ (codes "logic_deleted", result.logic_deleted)
      ∷ [],
)

-- What is picked from the nodes, in their order.
abbrev pub collect {ℓ} : {A : Type ℓ} → (NodeType → List A) → List NodeType → List A
collect pick [] = []
collect pick (node ∷ nodes) = pick node ++ collect pick nodes

abbrev pub pick_when : NodeType → List NodeType
pick_when (n_when nodes test) = n_when nodes test ∷ []
pick_when _ = []

abbrev pub pick_otherwise : NodeType → List NodeType
pick_otherwise (n_otherwise nodes) = n_otherwise nodes ∷ []
pick_otherwise _ = []

abbrev pub pick_id : NodeType → List ResultMapIdNode
pick_id (n_result_map_id_node node) = node ∷ []
pick_id _ = []

abbrev pub pick_result : NodeType → List ResultMapResultNode
pick_result (n_result_map_result_node node) = node ∷ []
pick_result _ = []

abbrev pub first_id : List ResultMapIdNode → Option ResultMapIdNode
first_id [] = none
first_id (id ∷ ids) = some id

abbrev pub branches : List NodeType → WhenNodes
branches [] = no_whens
branches (node ∷ nodes) = whens (to_nodes (node ∷ nodes))

unfoldable pub block_node : Block → List NodeType → NodeType
block_node (select_block id) nodes = n_select_node id (to_nodes nodes)
block_node (update_block id) nodes = n_update_node id (to_nodes nodes)
block_node (insert_block id) nodes = n_insert_node id (to_nodes nodes)
block_node (delete_block id) nodes = n_delete_node id (to_nodes nodes)
block_node (sql_block id) nodes = n_sql_node id (to_nodes nodes)
block_node (if_block test) nodes = n_if (to_nodes nodes) test
block_node (when_block test) nodes = n_when (to_nodes nodes) test
block_node (trim_block overrides) nodes = n_trim (to_nodes nodes) overrides
block_node (foreach_block each) nodes = n_for_each (to_nodes nodes) each
block_node where_block nodes = n_where (to_nodes nodes)
block_node otherwise_block nodes = n_otherwise (to_nodes nodes)
block_node set_block nodes = n_set (to_nodes nodes)
block_node (result_map_block id table) nodes =
    n_result_map_node
      (new_result_map id table (first_id (collect pick_id nodes)) (collect pick_result nodes))

unfoldable pub leaf_node : Leaf → NodeType
leaf_node (bind_leaf name value) = n_bind name value
leaf_node (include_leaf refid) = n_include refid nil
leaf_node (id_leaf id) = n_result_map_id_node id
leaf_node (result_leaf result) = n_result_map_result_node result

-- A text without its line ends and outer spaces, after one space.
unfoldable pub plain_text : Str → Str
plain_text s = codes " " ++ trim (replace (replace s (codes "\r") []) (codes "\n") [])

abbrev pub tag_events : Tag → List XmlEvent → List XmlEvent → List XmlEvent
tag_events (tag, attributes) inner rest =
    start_element tag attributes ∷ (inner ++ end_element tag ∷ rest)

abbrev pub tag_element : Tag → Elements → Element
tag_element (tag, attributes) childs = element tag [] attributes childs

unfoldable pub events : Template → List XmlEvent
events done = []
events (text_then s rest) = characters s ∷ events rest
events (comment_then rest) = ignored ∷ events rest
events (leaf_then leaf rest) = tag_events (leaf_tag leaf) [] (events rest)
events (block_then block children rest) =
    tag_events (block_tag block) (events children) (events rest)
events (choose_then children rest) = tag_events (codes "choose", []) (events children) (events rest)

unfoldable pub tree : Template → Elements
tree done = no_elements
tree (text_then s rest) = elements (element [] (plain_text s) [] no_elements) (tree rest)
tree (comment_then rest) = tree rest
tree (leaf_then leaf rest) = elements (tag_element (leaf_tag leaf) no_elements) (tree rest)
tree (block_then block children rest) =
    elements (tag_element (block_tag block) (tree children)) (tree rest)
tree (choose_then children rest) =
    elements (tag_element (codes "choose", []) (tree children)) (tree rest)

-- The last branch of a choice: the first otherwise node.
unfoldable pub first_otherwise : List NodeType → OtherwiseNode
first_otherwise [] = no_otherwise
first_otherwise (node ∷ nodes) = otherwise node

module _ (order : List Str → List Str) where
  unfoldable pub template_nodes : Template → List NodeType
  template_nodes done = []
  template_nodes (text_then s rest) = n_string (new order (plain_text s)) ∷ template_nodes rest
  template_nodes (comment_then rest) = template_nodes rest
  template_nodes (leaf_then leaf rest) = leaf_node leaf ∷ template_nodes rest
  template_nodes (block_then block children rest) =
      block_node block (template_nodes children) ∷ template_nodes rest
  template_nodes (choose_then children rest) =
      n_choose (branches (collect pick_when (template_nodes children)))
        (first_otherwise (collect pick_otherwise (template_nodes children)))
      ∷ template_nodes rest

  -- No choice has two otherwise nodes.
  unfoldable pub IsTemplate : Template → Type 0
  IsTemplate done = Unit
  IsTemplate (text_then s rest) = IsTemplate rest
  IsTemplate (comment_then rest) = IsTemplate rest
  IsTemplate (leaf_then leaf rest) = IsTemplate rest
  IsTemplate (block_then block children rest) = IsTemplate children × IsTemplate rest
  IsTemplate (choose_then children rest) =
      (length (collect pick_otherwise (template_nodes children)) ≤ 1)
      × IsTemplate children
      × IsTemplate rest
