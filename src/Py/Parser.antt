-- ===== src/Py/Parser.antt =====
-- src/ast/lang/py.rs: `parser`. One step reads one line; a block is parsed by the parser itself, which
-- is a parameter of the steps.
use rbatis.Ast.Defs.{
  NodeType, n_string, n_if, n_trim, n_for_each, n_choose, n_otherwise, n_when, n_include, n_set,
  n_where, Nodes, to_nodes, nil, cons, WhenNodes, no_whens, whens, OtherwiseNode, otherwise,
}
use rbatis.Ast.StringNode.{new}
use rbatis.Py.Lines.{LineSpaceMap, get_space, create_line_space_map, find_child_str}
use rbatis.Py.Node.{parser_node}
use rbatis.Text.Lines.{lines}
use rbatis.Prelude.{
  unwrap, ℕ, zero, suc, ◌+◌, Bool, false, ◌||◌, Option, none, some, List, [], ◌∷◌, ◌++◌, reverse,
  leb, ◌==◌, if◌then◌else◌, length, Outcome, ok, err, panic, ◌>>=◌,
}
use rbatis.Text.{Str, codes, is_empty}

-- The locals of the loop: `line` is the number of the next line, and `pys` has the last node in front.
pub record Progress : Type 0 where
  pub skip_line : Option ℕ
  pub space : Option ℕ
  pub line : ℕ
  pub pys : List NodeType

unfoldable pub push_node : Nodes → NodeType → Nodes
push_node nil node = cons node nil
push_node (cons first nodes) node = cons first (push_node nodes node)

unfoldable pub push_when : WhenNodes → NodeType → WhenNodes
push_when no_whens node = whens (cons node nil)
push_when (whens nodes) node = whens (push_node nodes node)

unfoldable pub adopt_choice : Str → List NodeType → WhenNodes → OtherwiseNode → Outcome NodeType
adopt_choice child_str [] when_nodes otherwise_node = ok (n_choose when_nodes otherwise_node)
adopt_choice child_str (n_when nodes test ∷ parserd) when_nodes otherwise_node =
    adopt_choice child_str parserd (push_when when_nodes (n_when nodes test)) otherwise_node
adopt_choice child_str (n_otherwise nodes ∷ parserd) when_nodes otherwise_node =
    adopt_choice child_str parserd when_nodes (otherwise (n_otherwise nodes))
adopt_choice child_str (_ ∷ parserd) when_nodes otherwise_node = err (
    codes "[rbatis] parser node fail,choose node' child must be when and otherwise nodes!: "
    ++ child_str)

unfoldable pub adopt_texts : Str → List NodeType → Str → Outcome Str
adopt_texts child_str [] news = ok news
adopt_texts child_str (n_string node ∷ parserd) news =
    adopt_texts child_str parserd (news ++ node.value)
adopt_texts child_str (_ ∷ parserd) news =
    err (
      codes "[rbatis] parser node fail,string node' child must be same string node!: " ++ child_str)

-- `skip_line != -1 && line <= skip_line`
unfoldable pub is_skipped : Option ℕ → ℕ → Bool
is_skipped none line = false
is_skipped (some last) line = leb line last

-- The skipped lines after a block, from what `find_child_str` says.
unfoldable pub new_skip : Option ℕ → Option ℕ → Option ℕ
new_skip none skip_line = skip_line
new_skip (some skip) skip_line = some skip

unfoldable pub first_space : Option ℕ → ℕ → ℕ
first_space none count_index = count_index
first_space (some space) count_index = space

module _ (order : List Str → List Str) where
  -- The node that a block belongs to, with the block's nodes.
  unfoldable pub adopt : NodeType → List NodeType → Str → Outcome NodeType
  adopt (n_trim _ overrides) parserd child_str = ok (n_trim (to_nodes parserd) overrides)
  adopt (n_if _ test) parserd child_str = ok (n_if (to_nodes parserd) test)
  adopt (n_for_each _ for_each) parserd child_str = ok (n_for_each (to_nodes parserd) for_each)
  adopt (n_otherwise _) parserd child_str = ok (n_otherwise (to_nodes parserd))
  adopt (n_when _ test) parserd child_str = ok (n_when (to_nodes parserd) test)
  adopt (n_include refid _) parserd child_str = ok (n_include refid (to_nodes parserd))
  adopt (n_set _) parserd child_str = ok (n_set (to_nodes parserd))
  adopt (n_where _) parserd child_str = ok (n_where (to_nodes parserd))
  adopt (n_choose when_nodes otherwise_node) parserd child_str =
      adopt_choice child_str parserd when_nodes otherwise_node
  adopt (n_string node) parserd child_str = do
    news ← adopt_texts child_str parserd node.value
    ok (n_string (if length news == length node.value then node else new order news))
  adopt _ parserd child_str = err (codes "[rbatis] not support node  type in sql!: " ++ child_str)

  -- The nodes so far, with the last one's block added unless it has no node.
  unfoldable pub adopt_parsed :
      NodeType → List NodeType → Str → List NodeType → Outcome (List NodeType)
  adopt_parsed last [] child_str pys = ok (last ∷ pys)
  adopt_parsed last (node ∷ parserd) child_str pys = do
    parent ← adopt last (node ∷ parserd) child_str
    ok (parent ∷ pys)

  -- The end of the loop's body: the line's own node, unless the block took the line.
  unfoldable pub read_node : Str → ℕ → Progress → Outcome Progress
  read_node x count_index st =
      if is_skipped st.skip_line st.line then ok (record st { line = 1 + st.line }) else (do
        node ← parser_node order x count_index
        ok (record st { line = 1 + st.line; pys = node ∷ st.pys }))

  module _ (parse : Str → Outcome (List NodeType)) where
    -- An empty block, and one with no node before it, is dropped.
    unfoldable pub adopt_block : Str → List NodeType → Outcome (List NodeType)
    adopt_block child_str [] = ok []
    adopt_block [] (last ∷ pys) = ok (last ∷ pys)
    adopt_block (c ∷ child_str) (last ∷ pys) = do
      parserd ← parse (c ∷ child_str)
      adopt_parsed last parserd (c ∷ child_str) pys

    -- The part under `if count_index > space`.
    unfoldable pub read_block : ℕ → ℕ → Str → LineSpaceMap → Progress → Outcome Progress
    read_block count_index space arg m st = if leb count_index space then ok st else (do
      (child_str, skip) ← find_child_str st.line count_index arg m
      pys ← adopt_block child_str st.pys
      ok (record st { skip_line = new_skip skip st.skip_line; pys = pys }))

    unfoldable pub read_line : Str → LineSpaceMap → Str → Progress → Outcome Progress
    read_line arg m x st =
        if is_empty x || is_skipped st.skip_line st.line
        then ok (record st { line = 1 + st.line })
        else (do
          count_index ← unwrap (get_space st.line m)
          let space = first_space st.space count_index
          after ← read_block count_index space arg m (record st { space = some space })
          read_node x count_index after)

    unfoldable pub read_lines : Str → LineSpaceMap → List Str → Progress → Outcome (List NodeType)
    read_lines arg m [] st = ok (reverse st.pys)
    read_lines arg m (x ∷ ls) st = do after ← read_line arg m x st; read_lines arg m ls after

    unfoldable pub parser_body : Str → Outcome (List NodeType)
    parser_body arg =
        read_lines arg (create_line_space_map arg) (lines arg)
          (record { skip_line = none; space = none; line = 0; pys = [] })

  unfoldable pub parser_fuel : ℕ → Str → Outcome (List NodeType)
  parser_fuel zero arg = panic
  parser_fuel (suc fuel) arg = parser_body (parser_fuel fuel) arg

  -- A block has fewer lines than the text it stands in, so the lines are enough fuel.
  unfoldable pub parser : Str → Outcome (List NodeType)
  parser arg = parser_fuel (suc (length (lines arg))) arg
