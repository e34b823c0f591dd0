-- ===== src/Py/Nesting.antt =====
-- src/ast/lang/py.rs: the loop of `parser` over an indented block and over the lines it skips.
use rbatis.Ast.Defs.{NodeType}
use rbatis.Py.Blocks.{
  block, Knows, Knows-drop, create_line_space_map-Knows, find_child_str-block, last_line,
}
use rbatis.Py.Lines.{LineSpaceMap, get_space, count_space, create_line_space_map, find_child_str}
use rbatis.Py.Node.{parser_node}
use rbatis.Py.Parser.{
  Progress, is_skipped, new_skip, first_space, adopt, adopt_parsed, adopt_block, read_block,
  read_node, read_line, read_lines,
}
use rbatis.Text.Joined.{joined}
use rbatis.Text.Lines.{lines}
use rbatis.Prelude.{
  ℕ, suc, ◌+◌, ◌≤◌, ◌<◌, ◌≡◌, refl, ap, ◌∙◌, true, false, ◌||◌, Option, some, List, [], ◌∷◌, ◌++◌,
  arith, leb, length, drop, drop-append, Outcome, ok,
}
use rbatis.Text.{Str, is_empty}

abbrev pub at : Option ℕ → Option ℕ → ℕ → List NodeType → Progress
at skip_line space line pys = record {
  skip_line = skip_line;
  space = space;
  line = line;
  pys = pys;
}

-- The lines of a text from a line on.
from_line :
    (arg : Str) (pre ls : List Str) → lines arg ≡ pre ++ ls → drop (length pre) (lines arg) ≡ ls
from_line arg pre ls h = rw h (drop-append pre ls)

get_space-line :
    (arg : Str) (pre : List Str) (x : Str) (ls : List Str)
    → lines arg ≡ pre ++ x ∷ ls
    → get_space (length pre) (create_line_space_map arg) ≡ some (count_space x)
get_space-line arg pre x ls h =
    let m = create_line_space_map arg in
    let known : Knows m (length pre) (drop (length pre) (lines arg)) =
      Knows-drop m (length pre) 0 (length pre) (lines arg) (omega arith)
        (create_line_space_map-Knows arg) in
    (rw (from_line arg pre (x ∷ ls) h) at known).0

module _ (order : List Str → List Str) (parse : Str → Outcome (List NodeType)) (arg : Str) where
  -- Lines up to the last one to skip are passed over.
  pub read_lines-skip :
      (m : LineSpaceMap) (last : ℕ) (space : Option ℕ) (pys : List NodeType) (ls after : List Str)
      (line next : ℕ)
      → length ls + line ≡ next
      → next ≤ suc last
      → read_lines order parse arg m (ls ++ after) (at (some last) space line pys)
        ≡ read_lines order parse arg m after (at (some last) space next pys)
  unfolding read_lines read_line is_skipped
  read_lines-skip m last space pys [] after line next e h =
      ap (λ n. read_lines order parse arg m after (at (some last) space n pys)) (omega arith)
  read_lines-skip m last space pys (x ∷ ls) after line next e h =
      let passed : (is_empty x || leb line last) ≡ true = ground arith in
      rw (read_line, passed)
        (read_lines-skip m last space pys ls after (1 + line) next (omega arith) h)

  -- A line at the depth of the first one that is not in a block.
  pub read_line-flat :
      (pre : List Str) (x : Str) (ls : List Str) (skip_line space : Option ℕ) (pys : List NodeType)
      (node : NodeType)
      → lines arg ≡ pre ++ x ∷ ls
      → is_empty x ≡ false
      → is_skipped skip_line (length pre) ≡ false
      → first_space space (count_space x) ≡ count_space x
      → parser_node order x (count_space x) ≡ ok node
      → read_line order parse arg
          (create_line_space_map arg)
          x
          (at skip_line space (length pre) pys)
        ≡ ok (record {
          skip_line = skip_line;
          space = some (count_space x);
          line = 1 + length pre;
          pys = node ∷ pys;
        })
  unfolding read_line read_block read_node
  read_line-flat pre x ls skip_line space pys node h full free same parsed =
      let flat : leb (count_space x) (count_space x) ≡ true = ground arith in
      rw (full, free, get_space-line arg pre x ls h, same, flat, free, parsed) refl

  -- The first line of a deeper block: the block is parsed and given to the node before it.
  pub read_line-deep :
      (pre : List Str) (c : ℕ) (x : Str) (ls after : List Str) (skip_line : Option ℕ) (depth : ℕ)
      (last : NodeType) (pys : List NodeType) (node : NodeType) (nodes : List NodeType)
      (parent : NodeType)
      → lines arg ≡ pre ++ ((c ∷ x) ∷ (ls ++ after))
      → is_skipped skip_line (length pre) ≡ false
      → depth < count_space (c ∷ x)
      → block (count_space (c ∷ x)) ((c ∷ x) ∷ (ls ++ after)) ≡ (c ∷ x) ∷ ls
      → parse (joined ((c ∷ x) ∷ ls)) ≡ ok (node ∷ nodes)
      → adopt order last (node ∷ nodes) (joined ((c ∷ x) ∷ ls)) ≡ ok parent
      → read_line order parse arg
          (create_line_space_map arg)
          (c ∷ x)
          (at skip_line (some depth) (length pre) (last ∷ pys))
        ≡ ok (at (some (length pre + length ls)) (some depth) (1 + length pre) (parent ∷ pys))
  unfolding read_line read_block read_node adopt_block adopt_parsed joined first_space is_skipped
      last_line new_skip is_empty
  read_line-deep pre c x ls after skip_line depth last pys node nodes parent h free deep taken
        parsed adopted =
      let flat : leb (count_space (c ∷ x)) depth ≡ false = ground arith in
      let own : leb (length pre) (length pre + length ls) ≡ true = ground arith in
      let found : find_child_str (length pre) (count_space (c ∷ x)) arg (create_line_space_map arg)
          ≡ ok (joined ((c ∷ x) ∷ ls), some (length pre + length ls)) =
        find_child_str-block arg (length pre) (count_space (c ∷ x))
        ∙ rw (from_line arg pre ((c ∷ x) ∷ (ls ++ after)) h, taken) refl in
      rw (free, get_space-line arg pre (c ∷ x) (ls ++ after) h, flat, found, parsed, adopted, own)
        refl
