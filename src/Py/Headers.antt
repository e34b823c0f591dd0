-- ===== src/Py/Headers.antt =====
-- src/ast/lang/py.rs: `parser_node` on the lines of a template's text.
use rbatis.Ast.Defs.{to_nodes, NodeType, n_string, nil}
use rbatis.Ast.StringNode.{new}
use rbatis.Py.Node.{tag_node, string_node, parser_node}
use rbatis.Py.Parser.{adopt}
use rbatis.Py.Template.{
  Header, if_header, when_header, for_header, trim_header, spaces, show_header, header_node,
  one_space, starts_solid, IsWord, IsHeader,
}
use rbatis.Py.Words.{trim-spaces, trim-solid, slice-spaces}
use rbatis.Prelude.{
  ℕ, zero, suc, ◌≡◌, refl, ◌∙◌, true, false, ◌||◌, List, [], ◌∷◌, ◌++◌, arith, leb, ◌==◌,
  All-append, ok,
}
use rbatis.Text.{Str, codes, ends_with, is_whitespace, trim}
use rbatis.Text.Joined.{IsPlain}
use rbatis.Py.Tags.{parser_node-tag, tag_node-if, tag_node-when, tag_node-for, tag_node-trim}

tag_node-show :
    (header : Header)
    → IsHeader header
    → tag_node (show_header header) ≡ ok (header_node header nil)
unfolding show_header IsHeader
tag_node-show (if_header test) h = tag_node-if test h
tag_node-show (when_header test) h = tag_node-when test h
tag_node-show (for_header item collection) h = tag_node-for item collection (unfold IsHeader in h)
tag_node-show (trim_header overrides) h = tag_node-trim overrides h

pub show_header-solid : (header : Header) → starts_solid (show_header header) ≡ true
unfolding show_header starts_solid is_whitespace
show_header-solid (if_header test) = refl
show_header-solid (when_header test) = refl
show_header-solid (for_header item collection) = refl
show_header-solid (trim_header overrides) = refl

trim-show_header :
    (header : Header) → IsHeader header → trim (show_header header) ≡ show_header header
unfolding show_header IsHeader IsWord
trim-show_header (if_header test) (h, k, _) =
    trim-solid (codes "if ") [] test (unfold starts_solid is_whitespace in refl) k
trim-show_header (when_header test) (h, k, _) =
    trim-solid (codes "when ") [] test (unfold starts_solid is_whitespace in refl) k
trim-show_header (for_header item collection) (_, _, (h, k, _)) =
    trim-solid (codes "for ") (item ++ codes " in ") collection
      (unfold starts_solid is_whitespace in refl) k
trim-show_header (trim_header overrides) h =
    trim-solid (codes "trim '") overrides (codes "'") (unfold starts_solid is_whitespace in refl)
      (unfold starts_solid is_whitespace in refl)

module _ (order : List Str → List Str) where
  -- A header's line becomes the node of the header, without a block.
  pub parser_node-header :
      (n : ℕ) (header : Header) (count : ℕ)
      → IsHeader header
      → parser_node order (spaces n (show_header header ++ codes ":")) count
        ≡ ok (header_node header nil)
  parser_node-header n header count h =
      parser_node-tag order n (show_header header) count (show_header-solid header)
        (trim-show_header header h)
      ∙ tag_node-show header h

  -- A text's line becomes its text with one of the spaces.
  pub parser_node-text :
      (n : ℕ) (s : Str)
      → ends_with (trim s) (codes ":") ≡ false
      → parser_node order (spaces n s) n ≡ ok (n_string (new order (one_space n s)))
  unfolding parser_node string_node one_space spaces
  parser_node-text zero s h = rw h refl
  parser_node-text (suc zero) s h = rw (trim-spaces 1 s, h) refl
  parser_node-text (suc (suc n)) s h =
      let wide : leb (suc (suc n)) 1 ≡ false = ground arith in
      rw (trim-spaces (suc (suc n)) s, h, string_node, wide, slice-spaces n s) refl

  -- A header's node takes its block.
  pub adopt-header :
      (header : Header) (node : NodeType) (nodes : List NodeType) (child_str : Str)
      → adopt order (header_node header nil) (node ∷ nodes) child_str
        ≡ ok (header_node header (to_nodes (node ∷ nodes)))
  unfolding adopt header_node
  adopt-header (if_header test) node nodes child_str = refl
  adopt-header (when_header test) node nodes child_str = refl
  adopt-header (for_header item collection) node nodes child_str = refl
  adopt-header (trim_header overrides) node nodes child_str = refl

IsPlain-append : (s t : Str) → IsPlain s → IsPlain t → IsPlain (s ++ t)
IsPlain-append s t h k = All-append (λ c. (c == b'\n' || c == b'\r') ≡ false) s t h k

-- A header's text is on one line.
pub header-Plain : (header : Header) → IsHeader header → IsPlain (show_header header ++ codes ":")
unfolding show_header IsHeader IsWord
header-Plain (if_header test) (_, _, h) =
    (refl, (refl, (refl, IsPlain-append test (codes ":") h (refl, tt))))
header-Plain (when_header test) (_, _, h) =
    (refl, (refl, (refl, (refl, (refl, IsPlain-append test (codes ":") h (refl, tt))))))
header-Plain (for_header item collection) ((_, _, h), _, (_, _, k)) =
    let in_plain : IsPlain (codes " in ") = (refl, (refl, (refl, (refl, tt)))) in
    let named =
      IsPlain-append (item ++ codes " in ") collection
        (IsPlain-append item (codes " in ") h in_plain) k in
    (
      refl,
      (
        refl,
        (
          refl,
          (refl, IsPlain-append (item ++ codes " in " ++ collection) (codes ":") named (refl, tt)),
        ),
      ),
    )
header-Plain (trim_header overrides) (_, _, h) =
    let closed = IsPlain-append overrides (codes "'") h (refl, tt) in
    (
      refl,
      (
        refl,
        (
          refl,
          (
            refl,
            (refl, (refl, IsPlain-append (overrides ++ codes "'") (codes ":") closed (refl, tt))),
          ),
        ),
      ),
    )
