-- ===== src/Py/Node.antt =====
-- src/ast/lang/py.rs: `parser_node`, the node of one line without its block.
use rbatis.Ast.Defs.{
  NodeType, n_string, n_if, n_trim, n_for_each, n_choose, n_otherwise, n_when, n_bind, n_set,
  n_where, nil, no_whens, no_otherwise,
}
use rbatis.Ast.StringNode.{new}
use rbatis.Prelude.{
  unwrap, ℕ, ◌+◌, ◌-◌, ◌&&◌, not, List, [], ◌++◌, leb, if◌then◌else◌, length, take, drop, Outcome,
  ok, err, panic, ◌>>=◌,
}
use rbatis.Text.{Str, codes, starts_with, ends_with, find, contains, trim}

-- `s[from..to]`, which panics out of bounds.
unfoldable pub slice : ℕ → ℕ → Str → Outcome Str
slice from to s =
    if leb from to && leb to (length s) then ok (take (to - from) (drop from s)) else panic

unfoldable pub express_fail : Str → Str
express_fail trim_x = codes "[rbatis] parser express fail:" ++ trim_x

-- The text without the word it begins with.
unfoldable pub after_word : Str → Str → Str
after_word word trim_x = trim (drop (length word) trim_x)

-- What `parser_node` makes of the header that follows "for ".
unfoldable pub for_node : Str → Outcome NodeType
for_node trim_x = do
  in_index ← unwrap (find trim_x (codes " in "))
  ok (
      n_for_each nil (record {
        collection = trim (drop (in_index + 4) trim_x);
        index = [];
        item = trim (take in_index trim_x);
        open_text = [];
        close = [];
        separator = [];
      }))

unfoldable pub trim_node : Str → Outcome NodeType
trim_node trim_x =
    if starts_with trim_x (codes "'") && ends_with trim_x (codes "'")
    then (do
      inner ← slice 1 (length trim_x - 1) trim_x
      ok (
          n_trim nil (record {
            prefix = [];
            suffix = [];
            suffix_overrides = trim inner;
            prefix_overrides = trim inner;
          })))
    else err (express_fail trim_x)

-- A line that ends with a colon, without the colon and the spaces before it.
unfoldable pub tag_node : Str → Outcome NodeType
tag_node trim_x =
    if starts_with trim_x (codes "if ")
    then ok (n_if nil (after_word (codes "if ") trim_x))
    else if starts_with trim_x (codes "for ")
    then (if not (contains trim_x (codes " in "))
        then err (express_fail trim_x)
        else for_node (after_word (codes "for ") trim_x))
    else if starts_with trim_x (codes "trim ")
    then trim_node (after_word (codes "trim ") trim_x)
    else if starts_with trim_x (codes "choose ")
    then ok (n_choose no_whens no_otherwise)
    else if starts_with trim_x (codes "otherwise ")
    then ok (n_otherwise nil)
    else if starts_with trim_x (codes "when ")
    then ok (n_when nil (after_word (codes "when ") trim_x))
    else if starts_with trim_x (codes "bind ")
    then ok (n_bind [] [])
    else if starts_with trim_x (codes "set ")
    then ok (n_set nil)
    else if starts_with trim_x (codes "where ")
    then ok (n_where nil)
    else err (codes "[rbatis] unknow tag: " ++ trim_x)

module _ (order : List Str → List Str) where
  -- Of the spaces that a text begins with, one is kept.
  unfoldable pub string_node : Str → ℕ → Outcome NodeType
  string_node x space =
      if leb space 1
      then ok (n_string (new order x))
      else (do text ← slice (space - 1) (length x) x; ok (n_string (new order text)))

  unfoldable pub parser_node : Str → ℕ → Outcome NodeType
  parser_node x space =
      let trim_x = trim x in
      if ends_with trim_x (codes ":")
      then tag_node (trim (take (length trim_x - 1) trim_x))
      else string_node x space
