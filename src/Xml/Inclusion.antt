-- ===== src/Xml/Inclusion.antt =====
-- The replacement of include nodes, which src/ast/lang/xml.rs does by a search, as relations between
-- the nodes before it and after it.
use rbatis.Ast.Defs.{
  NodeType, n_if, n_trim, n_for_each, n_otherwise, n_when, n_include, n_set, n_where, n_sql_node,
  n_insert_node, n_update_node, n_delete_node, n_select_node, Nodes, nil, cons, Overrides, ForEach,
}
use rbatis.Prelude.{◌≡◌, false, Option, none, some}
use rbatis.Text.{Str, is_empty}

-- A statement's node, of its id, with its childs to be filled in.
pub data IsStatement : Str → (Nodes → NodeType) → Type 0 where
  sql_statement : (id : Str) → IsStatement id (λ nodes. n_sql_node id nodes)
  insert_statement : (id : Str) → IsStatement id (λ nodes. n_insert_node id nodes)
  update_statement : (id : Str) → IsStatement id (λ nodes. n_update_node id nodes)
  delete_statement : (id : Str) → IsStatement id (λ nodes. n_delete_node id nodes)
  select_statement : (id : Str) → IsStatement id (λ nodes. n_select_node id nodes)

-- A node with childs that is no include node, with its childs to be filled in.
pub data IsBlock : (Nodes → NodeType) → Type 0 where
  in_if : (test : Str) → IsBlock (λ nodes. n_if nodes test)
  in_trim : (overrides : Overrides) → IsBlock (λ nodes. n_trim nodes overrides)
  in_foreach : (each : ForEach) → IsBlock (λ nodes. n_for_each nodes each)
  in_otherwise : IsBlock (λ nodes. n_otherwise nodes)
  in_when : (test : Str) → IsBlock (λ nodes. n_when nodes test)
  in_set : IsBlock (λ nodes. n_set nodes)
  in_where : IsBlock (λ nodes. n_where nodes)
  in_statement : (id : Str) (fill : Nodes → NodeType) → IsStatement id fill → IsBlock fill

-- The nodes that are passed over: those without childs, and a choice.
abbrev pub IsPassed : NodeType → Type 0
IsPassed (n_if _ _) = ⊥
IsPassed (n_trim _ _) = ⊥
IsPassed (n_for_each _ _) = ⊥
IsPassed (n_otherwise _) = ⊥
IsPassed (n_when _ _) = ⊥
IsPassed (n_include _ _) = ⊥
IsPassed (n_set _) = ⊥
IsPassed (n_where _) = ⊥
IsPassed (n_sql_node _ _) = ⊥
IsPassed (n_insert_node _ _) = ⊥
IsPassed (n_update_node _ _) = ⊥
IsPassed (n_delete_node _ _) = ⊥
IsPassed (n_select_node _ _) = ⊥
IsPassed _ = Unit

-- From the front on, each include node has the node of its refid as its only child; the first other
-- node with childs is entered instead, and what stands behind it is as it was.
pub data IsIncluded (find : Str → Option NodeType) : Nodes → Nodes → Type 0 where
  ended : IsIncluded find nil nil
  replaced :
      (refid : Str) (old rest after : Nodes) (v : NodeType)
      → find refid ≡ some v
      → IsIncluded find rest after
      → IsIncluded find
          (cons (n_include refid old) rest)
          (cons (n_include refid (cons v nil)) after)
  entered :
      (fill : Nodes → NodeType) (nodes childs rest : Nodes)
      → IsBlock fill
      → IsIncluded find nodes childs
      → IsIncluded find (cons (fill nodes) rest) (cons (fill childs) rest)
  passed :
      (node : NodeType) (rest after : Nodes)
      → IsPassed node
      → IsIncluded find rest after
      → IsIncluded find (cons node rest) (cons node after)

-- The nodes that are no statements.
abbrev pub IsOther : NodeType → Type 0
IsOther (n_sql_node _ _) = ⊥
IsOther (n_insert_node _ _) = ⊥
IsOther (n_update_node _ _) = ⊥
IsOther (n_delete_node _ _) = ⊥
IsOther (n_select_node _ _) = ⊥
IsOther _ = Unit

-- The nodes of an id before and after the replacement.
pub data IsReplaced (find : Str → Option NodeType)
    : Option NodeType → Option NodeType → Type 0 where
  missing : IsReplaced find none none
  filled :
      (id : Str) (fill : Nodes → NodeType) (nodes childs : Nodes)
      → IsStatement id fill
      → IsIncluded find nodes childs
      → IsReplaced find (some (fill nodes)) (some (fill childs))
  as_before : (node : NodeType) → IsOther node → IsReplaced find (some node) (some node)

-- The search meets no include node whose refid is empty or has no node.
abbrev pub CanInclude : (Str → Option NodeType) → Nodes → Type 0
CanInclude find nil = Unit
CanInclude find (cons (n_include refid _) rest) =
    (is_empty refid ≡ false) × ((v : NodeType) × (find refid ≡ some v)) × CanInclude find rest
CanInclude find (cons (n_if nodes _) rest) = CanInclude find nodes
CanInclude find (cons (n_trim nodes _) rest) = CanInclude find nodes
CanInclude find (cons (n_for_each nodes _) rest) = CanInclude find nodes
CanInclude find (cons (n_otherwise nodes) rest) = CanInclude find nodes
CanInclude find (cons (n_when nodes _) rest) = CanInclude find nodes
CanInclude find (cons (n_set nodes) rest) = CanInclude find nodes
CanInclude find (cons (n_where nodes) rest) = CanInclude find nodes
CanInclude find (cons (n_sql_node _ nodes) rest) = CanInclude find nodes
CanInclude find (cons (n_insert_node _ nodes) rest) = CanInclude find nodes
CanInclude find (cons (n_update_node _ nodes) rest) = CanInclude find nodes
CanInclude find (cons (n_delete_node _ nodes) rest) = CanInclude find nodes
CanInclude find (cons (n_select_node _ nodes) rest) = CanInclude find nodes
CanInclude find (cons _ rest) = CanInclude find rest

-- Of an entry of the map, its childs are searched if it is a statement.
abbrev pub CanReplace : (Str → Option NodeType) → NodeType → Type 0
CanReplace find (n_sql_node _ nodes) = CanInclude find nodes
CanReplace find (n_insert_node _ nodes) = CanInclude find nodes
CanReplace find (n_update_node _ nodes) = CanInclude find nodes
CanReplace find (n_delete_node _ nodes) = CanInclude find nodes
CanReplace find (n_select_node _ nodes) = CanInclude find nodes
CanReplace find _ = Unit
