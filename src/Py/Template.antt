-- ===== src/Py/Template.antt =====
-- Templates as trees, their text and their nodes: what src/ast/lang/py.rs should make of such a text.
use rbatis.Ast.Defs.{to_nodes, NodeType, Nodes, n_string, n_if, n_trim, n_for_each, n_when}
use rbatis.Ast.StringNode.{new}
use rbatis.Text.Joined.{joined, IsPlain}
use rbatis.Prelude.{
  ℕ, zero, suc, ◌+◌, ◌≡◌, Bool, true, false, not, List, [], ◌∷◌, ◌++◌, reverse, ◌==◌, All,
}
use rbatis.Text.{Str, codes, ends_with, is_whitespace, trim}

pub data Header : Type 0 where
  if_header : Str → Header
  when_header : Str → Header
  for_header : Str → Str → Header
  trim_header : Str → Header

-- A line of text or a header with its block, and what follows.
pub data Template : Type 0 where
  done : Template
  text_line : Str → Template → Template
  block_line : Header → Template → Template → Template

unfoldable pub spaces : ℕ → Str → Str
spaces zero s = s
spaces (suc n) s = b' ' ∷ spaces n s

unfoldable pub show_header : Header → Str
show_header (if_header test) = codes "if " ++ test
show_header (when_header test) = codes "when " ++ test
show_header (for_header item collection) = codes "for " ++ item ++ codes " in " ++ collection
show_header (trim_header overrides) = codes "trim '" ++ overrides ++ codes "'"

unfoldable pub header_node : Header → Nodes → NodeType
header_node (if_header test) nodes = n_if nodes test
header_node (when_header test) nodes = n_when nodes test
header_node (for_header item collection) nodes = n_for_each nodes (record {
  collection = collection;
  index = [];
  item = item;
  open_text = [];
  close = [];
  separator = [];
})
header_node (trim_header overrides) nodes = n_trim nodes (record {
  prefix = [];
  suffix = [];
  suffix_overrides = overrides;
  prefix_overrides = overrides;
})

-- Of the indentation of a text one space is kept.
unfoldable pub one_space : ℕ → Str → Str
one_space zero s = s
one_space (suc n) s = b' ' ∷ s

module _ (order : List Str → List Str) (width : ℕ) where
  -- The lines of a template whose blocks are indented by one more than `width`.
  unfoldable pub show_lines : ℕ → Template → List Str
  show_lines depth done = []
  show_lines depth (text_line s rest) = spaces depth s ∷ show_lines depth rest
  show_lines depth (block_line header children rest) =
      spaces depth (show_header header ++ codes ":")
      ∷ (show_lines (depth + suc width) children ++ show_lines depth rest)

  unfoldable pub show : Template → Str
  show template = joined (show_lines 0 template)

  unfoldable pub template_nodes : ℕ → Template → List NodeType
  template_nodes depth done = []
  template_nodes depth (text_line s rest) =
      n_string (new order (one_space depth s)) ∷ template_nodes depth rest
  template_nodes depth (block_line header children rest) =
      header_node header (to_nodes (template_nodes (depth + suc width) children))
      ∷ template_nodes depth rest

-- The first character is not a space.
unfoldable pub starts_solid : Str → Bool
starts_solid [] = false
starts_solid (c ∷ s) = not (is_whitespace c)

-- On one line, with something but spaces at both ends.
unfoldable pub IsWord : Str → Type 0
IsWord s = (starts_solid s ≡ true) × (starts_solid (reverse s) ≡ true) × IsPlain s

unfoldable pub IsHeader : Header → Type 0
IsHeader (if_header test) = IsWord test
IsHeader (when_header test) = IsWord test
IsHeader (for_header item collection) =
    IsWord item × All (λ c. (c == b' ') ≡ false) item × IsWord collection
IsHeader (trim_header overrides) = IsWord overrides

-- The texts begin with no space and do not end like a header.
unfoldable pub IsTemplate : Template → Type 0
IsTemplate done = Unit
IsTemplate (text_line s rest) =
    (starts_solid s ≡ true) × (ends_with (trim s) (codes ":") ≡ false) × IsPlain s × IsTemplate rest
IsTemplate (block_line header children rest) =
    IsHeader header × IsTemplate children × IsTemplate rest
