-- ===== src/Xml/Picks.antt =====
-- src/ast/lang/xml.rs: what the filter functions pick from the nodes.
use rbatis.Ast.Defs.{NodeType, n_otherwise, n_when, n_result_map_id_node, n_result_map_result_node}
use rbatis.Xml.Decode.{
  filter_result_map_result_nodes, filter_result_map_id_nodes, only_whens, some_whens,
  filter_when_nodes, only_otherwise,
}
use rbatis.Xml.Template.{
  collect, pick_when, pick_otherwise, pick_id, pick_result, first_id, branches,
}
use rbatis.Prelude.{◌≡◌, refl, ap, ◌∙◌, List, [], ◌∷◌}

only_whens-collect : (nodes : List NodeType) → only_whens nodes ≡ collect pick_when nodes
unfolding only_whens
only_whens-collect [] = refl
only_whens-collect (n_when nodes test ∷ arg) =
    ap (λ l. n_when nodes test ∷ l) (only_whens-collect arg)
only_whens-collect (_ ∷ arg) = only_whens-collect arg

some_whens-branches : (nodes : List NodeType) → some_whens nodes ≡ branches nodes
unfolding some_whens
some_whens-branches [] = refl
some_whens-branches (node ∷ nodes) = refl

pub filter_when_nodes-collect :
    (nodes : List NodeType) → filter_when_nodes nodes ≡ branches (collect pick_when nodes)
unfolding filter_when_nodes
filter_when_nodes-collect nodes =
    some_whens-branches (only_whens nodes) ∙ ap branches (only_whens-collect nodes)

pub only_otherwise-collect :
    (nodes : List NodeType) → only_otherwise nodes ≡ collect pick_otherwise nodes
unfolding only_otherwise
only_otherwise-collect [] = refl
only_otherwise-collect (n_otherwise nodes ∷ arg) =
    ap (λ l. n_otherwise nodes ∷ l) (only_otherwise-collect arg)
only_otherwise-collect (_ ∷ arg) = only_otherwise-collect arg

pub filter_result_map_id_nodes-collect :
    (nodes : List NodeType) → filter_result_map_id_nodes nodes ≡ first_id (collect pick_id nodes)
unfolding filter_result_map_id_nodes
filter_result_map_id_nodes-collect [] = refl
filter_result_map_id_nodes-collect (n_result_map_id_node node ∷ arg) = refl
filter_result_map_id_nodes-collect (_ ∷ arg) = filter_result_map_id_nodes-collect arg

pub filter_result_map_result_nodes-collect :
    (nodes : List NodeType) → filter_result_map_result_nodes nodes ≡ collect pick_result nodes
unfolding filter_result_map_result_nodes
filter_result_map_result_nodes-collect [] = refl
filter_result_map_result_nodes-collect (n_result_map_result_node node ∷ arg) =
    ap (λ l. node ∷ l) (filter_result_map_result_nodes-collect arg)
filter_result_map_result_nodes-collect (_ ∷ arg) = filter_result_map_result_nodes-collect arg
