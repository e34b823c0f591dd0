-- ===== src/Ast/Defs.antt =====
-- src/ast/node/node_type.rs: `NodeType`, whose constructors carry the fields of the nodes' structs.
-- `Option<Vec<NodeType>>` and `Option<Box<NodeType>>` of `ChooseNode` are types of their own.
use rbatis.Prelude.{Option, none, some, List, [], ◌∷◌, if◌then◌else◌}
use rbatis.Text.{Str, codes, str_eq, is_empty}

-- The two maps are their entries, in the order in which the maps list them.
pub record StringNode : Type 0 where
  pub value : Str
  pub express_map : List (Str × Str)
  pub no_convert_express_map : List (Str × Str)

pub record Overrides : Type 0 where
  pub prefix : Str
  pub suffix : Str
  pub suffix_overrides : Str
  pub prefix_overrides : Str

pub record ForEach : Type 0 where
  pub collection : Str
  pub index : Str
  pub item : Str
  pub open_text : Str
  pub close : Str
  pub separator : Str

pub record ResultMapIdNode : Type 0 where
  pub column : Str
  pub lang_type : Str

pub record ResultMapResultNode : Type 0 where
  pub column : Str
  pub lang_type : Str
  pub version_enable : Str
  pub logic_enable : Str
  pub logic_undelete : Str
  pub logic_deleted : Str

-- `column_map` is its entries, the last one inserted in front.
pub record ResultMapNode : Type 0 where
  pub id : Str
  pub table : Option Str
  pub id_node : Option ResultMapIdNode
  pub results : List ResultMapResultNode
  pub column_map : List (Str × ResultMapResultNode)
  pub delete_node : Option ResultMapResultNode
  pub version_node : Option ResultMapResultNode

mutual
  pub data NodeType : Type 0 where
    n_null : NodeType
    n_string : StringNode → NodeType
    n_if : Nodes → Str → NodeType
    n_trim : Nodes → Overrides → NodeType
    n_for_each : Nodes → ForEach → NodeType
    n_choose : WhenNodes → OtherwiseNode → NodeType
    n_otherwise : Nodes → NodeType
    n_when : Nodes → Str → NodeType
    n_bind : Str → Str → NodeType
    n_include : Str → Nodes → NodeType
    n_set : Nodes → NodeType
    n_where : Nodes → NodeType
    n_sql_node n_insert_node n_update_node : Str → Nodes → NodeType
    n_delete_node n_select_node : Str → Nodes → NodeType
    n_result_map_node : ResultMapNode → NodeType
    n_result_map_id_node : ResultMapIdNode → NodeType
    n_result_map_result_node : ResultMapResultNode → NodeType

  pub data Nodes : Type 0 where
    nil : Nodes
    cons : NodeType → Nodes → Nodes

  pub data WhenNodes : Type 0 where
    no_whens : WhenNodes
    whens : Nodes → WhenNodes

  pub data OtherwiseNode : Type 0 where
    no_otherwise : OtherwiseNode
    otherwise : NodeType → OtherwiseNode

unfoldable pub to_result_map_node : NodeType → Option ResultMapNode
to_result_map_node (n_result_map_node node) = some node
to_result_map_node _ = none

unfoldable pub childs : NodeType → Option Nodes
childs (n_if nodes _) = some nodes
childs (n_trim nodes _) = some nodes
childs (n_for_each nodes _) = some nodes
childs (n_otherwise nodes) = some nodes
childs (n_when nodes _) = some nodes
childs (n_include _ nodes) = some nodes
childs (n_set nodes) = some nodes
childs (n_where nodes) = some nodes
childs (n_sql_node _ nodes) = some nodes
childs (n_insert_node _ nodes) = some nodes
childs (n_update_node _ nodes) = some nodes
childs (n_delete_node _ nodes) = some nodes
childs (n_select_node _ nodes) = some nodes
childs _ = none

-- The loop of `ResultMapNode::new`: the last column of a kind wins.
unfoldable pub add_result : ResultMapNode → ResultMapResultNode → ResultMapNode
add_result node item = record node {
  column_map = (item.column, item) ∷ node.column_map;
  delete_node = if str_eq item.logic_enable (codes "true") then some item else node.delete_node;
  version_node = if str_eq item.version_enable (codes "true") then some item else node.version_node;
}

unfoldable pub add_results : ResultMapNode → List ResultMapResultNode → ResultMapNode
add_results node [] = node
add_results node (item ∷ results) = add_results (add_result node item) results

unfoldable pub new_result_map :
    Str → Str → Option ResultMapIdNode → List ResultMapResultNode → ResultMapNode
new_result_map id table_str id_node results =
    add_results
      (record {
        id = id;
        table = if is_empty table_str then none else some table_str;
        id_node = id_node;
        results = results;
        column_map = [];
        delete_node = none;
        version_node = none;
      })
      results

-- A `Vec<NodeType>` as the childs of a node.
unfoldable pub to_nodes : List NodeType → Nodes
to_nodes [] = nil
to_nodes (node ∷ nodes) = cons node (to_nodes nodes)
