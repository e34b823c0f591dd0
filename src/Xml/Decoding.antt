-- ===== src/Xml/Decoding.antt =====
-- src/ast/lang/xml.rs: the elements of a mapper give its nodes.
use rbatis.Ast.Defs.{NodeType, n_string, n_choose, n_result_map_node, new_result_map}
use rbatis.Ast.StringNode.{new}
use rbatis.Xml.Decode.{
  decode_into, decode_tag, push_some, node, include_node, choose_node, one_otherwise,
  filter_otherwise_nodes,
}
use rbatis.Xml.Loader.{element, Elements, no_elements, elements, find_attr}
use mathlib.Core.Path.{ap₂}
use rbatis.Xml.Picks.{
  filter_when_nodes-collect, only_otherwise-collect, filter_result_map_id_nodes-collect,
  filter_result_map_result_nodes-collect,
}
use rbatis.Xml.Template.{
  collect, pick_when, pick_otherwise, branches, Tag, Block, select_block, update_block,
  insert_block, delete_block, sql_block, if_block, when_block, trim_block, foreach_block,
  where_block, otherwise_block, set_block, result_map_block, Leaf, bind_leaf, include_leaf, id_leaf,
  result_leaf, Template, done, text_then, comment_then, leaf_then, block_then, choose_then,
  block_tag, leaf_tag, block_node, leaf_node, plain_text, tree, first_otherwise, template_nodes,
  IsTemplate,
}
use rbatis.Prelude.{
  ◌≤◌, ◌≡◌, refl, ap, ◌∙◌, false, some, List, [], ◌∷◌, ◌++◌, append_assoc, append-nil, arith,
  length, ok,
}
use rbatis.Text.{Str, codes, str_eq}

module _ (order : List Str → List Str) where
  abbrev attr : Tag → Str → Str
  attr (tag, attributes) arg = find_attr arg attributes

  decode_tag-block :
      (block : Block) (nodes : List NodeType)
      → (str_eq (block_tag block).0 (codes "mapper") ≡ false)
        × (decode_tag order (block_tag block).0 [] (attr (block_tag block)) nodes
            ≡ ok (some (block_node block nodes)))
  unfolding decode_tag block_tag block_node find_attr str_eq node
  decode_tag-block (select_block id) nodes = (refl, refl)
  decode_tag-block (update_block id) nodes = (refl, refl)
  decode_tag-block (insert_block id) nodes = (refl, refl)
  decode_tag-block (delete_block id) nodes = (refl, refl)
  decode_tag-block (sql_block id) nodes = (refl, refl)
  decode_tag-block (if_block test) nodes = (refl, refl)
  decode_tag-block (when_block test) nodes = (refl, refl)
  decode_tag-block (trim_block overrides) nodes = (refl, refl)
  decode_tag-block (foreach_block each) nodes = (refl, refl)
  decode_tag-block where_block nodes = (refl, refl)
  decode_tag-block otherwise_block nodes = (refl, refl)
  decode_tag-block set_block nodes = (refl, refl)
  decode_tag-block (result_map_block id table) nodes = (
    refl,
    ap₂ (λ ids results. ok (some (n_result_map_node (new_result_map id table ids results))))
        (filter_result_map_id_nodes-collect nodes) (filter_result_map_result_nodes-collect nodes),
  )

  decode_tag-leaf :
      (leaf : Leaf)
      → (str_eq (leaf_tag leaf).0 (codes "mapper") ≡ false)
        × (decode_tag order (leaf_tag leaf).0 [] (attr (leaf_tag leaf)) []
            ≡ ok (some (leaf_node leaf)))
  unfolding decode_tag leaf_tag leaf_node find_attr str_eq node include_node
  decode_tag-leaf (bind_leaf name value) = (refl, refl)
  decode_tag-leaf (include_leaf refid) = (refl, refl)
  decode_tag-leaf (id_leaf id) = (refl, refl)
  decode_tag-leaf (result_leaf result) = (refl, refl)

  one_otherwise-first :
      (nodes : List NodeType) → length nodes ≤ 1 → one_otherwise nodes ≡ ok (first_otherwise nodes)
  unfolding one_otherwise first_otherwise
  one_otherwise-first [] h = refl
  one_otherwise-first (node ∷ []) h = refl
  one_otherwise-first (node ∷ second ∷ nodes) h = absurd (omega arith)

  decode_into-element :
      (nodes : List NodeType) (tag data_text : Str) (attributes : List (Str × Str))
      (childs rest : Elements) (child_nodes : List NodeType) (decoded : NodeType)
      → decode_into order [] childs ≡ ok child_nodes
      → (str_eq tag (codes "mapper") ≡ false)
        × (decode_tag order tag data_text (attr (tag, attributes)) child_nodes ≡ ok (some decoded))
      → decode_into order nodes (elements (element tag data_text attributes childs) rest)
        ≡ decode_into order (nodes ++ decoded ∷ []) rest
  unfolding decode_into push_some
  decode_into-element nodes tag data_text attributes childs rest child_nodes decoded h (other, e) =
      rw (decode_into, h, other, e) refl

  -- An element, then the others.
  decode_into-then :
      (nodes : List NodeType) (tag data_text : Str) (attributes : List (Str × Str))
      (childs rest : Elements) (child_nodes : List NodeType) (decoded : NodeType)
      (others : List NodeType)
      → decode_into order [] childs ≡ ok child_nodes
      → (str_eq tag (codes "mapper") ≡ false)
        × (decode_tag order tag data_text (attr (tag, attributes)) child_nodes ≡ ok (some decoded))
      → decode_into order (nodes ++ decoded ∷ []) rest ≡ ok (nodes ++ decoded ∷ [] ++ others)
      → decode_into order nodes (elements (element tag data_text attributes childs) rest)
        ≡ ok (nodes ++ decoded ∷ others)
  decode_into-then nodes tag data_text attributes childs rest child_nodes decoded others h good
        later =
      decode_into-element nodes tag data_text attributes childs rest child_nodes decoded h good
      ∙ later
      ∙ ap ok (append_assoc nodes (decoded ∷ []) others)

  abbrev chosen : List NodeType → NodeType
  chosen nodes =
      n_choose (branches (collect pick_when nodes)) (first_otherwise (collect pick_otherwise nodes))

  decode_tag-choose :
      (nodes : List NodeType)
      → length (collect pick_otherwise nodes) ≤ 1
      → (str_eq (codes "choose") (codes "mapper") ≡ false)
        × (decode_tag order (codes "choose") [] (attr (codes "choose", [])) nodes
            ≡ ok (some (chosen nodes)))
  unfolding decode_tag str_eq choose_node filter_otherwise_nodes
  decode_tag-choose nodes h = (
    refl,
    rw
        (
          only_otherwise-collect nodes,
          one_otherwise-first (collect pick_otherwise nodes) h,
          filter_when_nodes-collect nodes,
        )
        refl,
  )

  -- What the loop has so far stands before the nodes of the elements.
  pub decode_into-tree :
      (t : Template) (nodes : List NodeType)
      → IsTemplate order t
      → decode_into order nodes (tree t) ≡ ok (nodes ++ template_nodes order t)
  unfolding tree template_nodes IsTemplate
  decode_into-tree done nodes good = unfold decode_into in rw append-nil refl
  decode_into-tree (text_then s rest) nodes good =
      decode_into-then nodes [] (plain_text s) [] no_elements (tree rest) []
        (n_string (new order (plain_text s))) (template_nodes order rest)
        (unfold decode_into in refl) (unfold decode_tag str_eq node in (refl, refl))
        (decode_into-tree rest (nodes ++ n_string (new order (plain_text s)) ∷ []) good)
  decode_into-tree (comment_then rest) nodes good = decode_into-tree rest nodes good
  decode_into-tree (leaf_then leaf rest) nodes good =
      decode_into-then nodes (leaf_tag leaf).0 [] (leaf_tag leaf).1 no_elements (tree rest) []
        (leaf_node leaf) (template_nodes order rest) (unfold decode_into in refl)
        (decode_tag-leaf leaf) (decode_into-tree rest (nodes ++ leaf_node leaf ∷ []) good)
  decode_into-tree (block_then block children rest) nodes (inner, good) =
      let childs = template_nodes order children in
      decode_into-then nodes (block_tag block).0 [] (block_tag block).1 (tree children) (tree rest)
        childs (block_node block childs) (template_nodes order rest)
        (decode_into-tree children [] inner) (decode_tag-block block childs)
        (decode_into-tree rest (nodes ++ block_node block childs ∷ []) good)
  decode_into-tree (choose_then children rest) nodes (one, inner, good) =
      let childs = template_nodes order children in
      decode_into-then nodes (codes "choose") [] [] (tree children) (tree rest) childs
        (chosen childs) (template_nodes order rest) (decode_into-tree children [] inner)
        (decode_tag-choose childs one) (decode_into-tree rest (nodes ++ chosen childs ∷ []) good)
