-- ===== src/Py/RoundTrip.antt =====
-- src/ast/lang/py.rs: the text of a template parses to the template's nodes.
use rbatis.Ast.Defs.{to_nodes, NodeType, n_string, nil}
use rbatis.Ast.StringNode.{new}
use rbatis.Py.Blocks.{block}
use mathlib.Core.List.{reverse-cons}
use rbatis.Py.Headers.{parser_node-header, parser_node-text, adopt-header}
use rbatis.Py.Lines.{count_space, create_line_space_map}
use rbatis.Py.Nesting.{at, read_lines-skip, read_line-flat, read_line-deep}
use rbatis.Py.Parser.{is_skipped, first_space, read_lines, parser_body, parser}
use rbatis.Py.Shapes.{
  header_line, count_space-header, is_empty-spaces, is_empty-header, block-append, show_lines-deep,
  show_lines-IsBelow, show_lines-Plain, HasFirst, first-cases,
}
use rbatis.Py.Template.{
  Header, Template, done, text_line, block_line, spaces, one_space, header_node, show_lines, show,
  template_nodes, IsTemplate,
}
use rbatis.Py.Termination.{parser-body}
use rbatis.Py.Words.{count_space-spaces}
use rbatis.Text.Joined.{joined, lines-joined}
use rbatis.Text.Lines.{lines}
use rbatis.Prelude.{
  ℕ, suc, ◌+◌, ◌≤◌, ◌≡◌, refl, sym, ap, ◌∙◌, inl, inr, false, Option, none, some, List, [], ◌∷◌,
  ◌++◌, reverse, append_assoc, append-nil, arith, length, length-append, ok,
}
use rbatis.Text.{Str}

reverse-onto {ℓ} :
    {A : Type ℓ} (x : A) (xs ys : List A) → reverse (x ∷ xs) ++ ys ≡ reverse xs ++ x ∷ ys
reverse-onto x xs ys = rw reverse-cons (append_assoc (reverse xs) (x ∷ []) ys)

module _ (order : List Str → List Str) (width : ℕ) where
  abbrev shown : ℕ → Template → List Str
  shown = show_lines order width

  abbrev nodes_of : ℕ → Template → List NodeType
  nodes_of = template_nodes order width

  -- Nothing is skipped from a line on.
  abbrev IsFree : Option ℕ → ℕ → Type 0
  IsFree skip_line line = (n : ℕ) → line ≤ n → is_skipped skip_line n ≡ false

  -- The last lines of a text, read after any others, add the template's nodes.
  abbrev Reads : ℕ → Template → Type 0
  Reads depth t =
      (arg : Str) (pre : List Str) (line : ℕ) (skip_line space : Option ℕ) (pys : List NodeType)
      → lines arg ≡ pre ++ shown depth t
      → line ≡ length pre
      → IsFree skip_line line
      → first_space space depth ≡ depth
      → read_lines order (parser order) arg (create_line_space_map arg) (shown depth t)
          (at skip_line space line pys)
        ≡ ok (reverse pys ++ nodes_of depth t)

  -- A template on its own.
  parser-Reads :
      (depth : ℕ) (t : Template)
      → IsTemplate t
      → Reads depth t
      → parser order (joined (shown depth t)) ≡ ok (nodes_of depth t)
  unfolding first_space is_skipped
  parser-Reads depth t good reads =
      let arg = joined (shown depth t) in
      let split : lines arg ≡ shown depth t =
        lines-joined (shown depth t) (show_lines-Plain order width depth t good) in
      parser-body order arg
      ∙ unfold parser_body in
        ap
          (λ ls.
            read_lines order (parser order) arg (create_line_space_map arg) ls (at none none 0 []))
          split
        ∙ reads arg [] 0 none none [] split refl (λ _ _. refl) refl

  Reads-text :
      (depth : ℕ) (s : Str) (rest : Template)
      → IsTemplate (text_line s rest)
      → Reads depth rest
      → Reads depth (text_line s rest)
  unfolding show_lines template_nodes IsTemplate read_lines first_space
  Reads-text depth s rest (p, tail, plain, good) reads arg pre line skip_line space pys h e free
        same =
      let x = spaces depth s in
      let count : count_space x ≡ depth = count_space-spaces depth s p in
      let node : NodeType = n_string (new order (one_space depth s)) in
      let first =
        read_line-flat order (parser order) arg pre x (shown depth rest) skip_line space pys node h
          (is_empty-spaces depth s p) (free (length pre) (omega arith)) (rw count same)
          (rw count (parser_node-text order depth s tail)) in
      rw (e, first)
        (reads arg (pre ++ x ∷ []) (1 + length pre) skip_line (some (count_space x)) (node ∷ pys)
            (h ∙ sym (append_assoc pre (x ∷ []) (shown depth rest)))
            (omega (arith, length-append pre (x ∷ []))) (λ n k. free n (omega arith)) count
          ∙ ap ok (reverse-onto node pys (nodes_of depth rest)))

  Reads-nested :
      (depth : ℕ) (header : Header) (children rest : Template)
      → IsTemplate children
      → IsTemplate rest
      → HasFirst order width (depth + suc width) children
      → Reads depth rest
      → Reads (depth + suc width) children
      → (arg : Str) (pre : List Str) (skip_line : Option ℕ) (pys : List NodeType)
      → lines arg ≡ pre ++ (shown (depth + suc width) children ++ shown depth rest)
      → IsFree skip_line (length pre)
      → read_lines order
          (parser order)
          arg
          (create_line_space_map arg)
          (shown (depth + suc width) children ++ shown depth rest)
          (at skip_line (some depth) (length pre) (header_node header nil ∷ pys))
        ≡ ok (
            reverse pys
            ++ header_node header (to_nodes (nodes_of (depth + suc width) children))
              ∷ nodes_of depth rest)
  unfolding read_lines first_space is_skipped
  Reads-nested depth header children rest inner good (c, x, ls, node, nodes, displayed, deep, named)
        reads inside arg pre skip_line pys h free =
      let below = depth + suc width in
      let parsed : parser order (joined ((c ∷ x) ∷ ls)) ≡ ok (node ∷ nodes) =
        rw (displayed, named) at (parser-Reads below children inner inside) in
      let taken : block (count_space (c ∷ x)) ((c ∷ x) ∷ (ls ++ shown depth rest)) ≡ (c ∷ x) ∷ ls =
        rw deep (
          rw displayed at (
            block-append below (shown below children) (shown depth rest)
              (show_lines-deep order width below below children (omega arith) inner)
              (show_lines-IsBelow order width depth rest good))) in
      let split : lines arg ≡ pre ++ ((c ∷ x) ∷ (ls ++ shown depth rest)) = rw displayed at h in
      let parent = header_node header (to_nodes (node ∷ nodes)) in
      let last = length pre + length ls in
      let first =
        read_line-deep order (parser order) arg pre c x ls (shown depth rest) skip_line depth
          (header_node header nil) pys node nodes parent split (free (length pre) (omega arith))
          (omega (arith, deep)) taken parsed
          (adopt-header order header node nodes (joined ((c ∷ x) ∷ ls))) in
      rw (displayed, named, first)
        (read_lines-skip order (parser order) arg (create_line_space_map arg) last (some depth)
            (parent ∷ pys) ls (shown depth rest) (1 + length pre) (suc last) (omega arith)
            (omega arith)
          ∙ reads arg (pre ++ (c ∷ x) ∷ ls) (suc last) (some last) (some depth) (parent ∷ pys)
              (split ∙ sym (append_assoc pre ((c ∷ x) ∷ ls) (shown depth rest)))
              (omega (arith, length-append pre ((c ∷ x) ∷ ls))) (λ n k. ground arith) refl
          ∙ ap ok (reverse-onto parent pys (nodes_of depth rest)))

  Reads-header :
      (depth : ℕ) (header : Header) (children rest : Template)
      → IsTemplate (block_line header children rest)
      → Reads depth rest
      → Reads (depth + suc width) children
      → Reads depth (block_line header children rest)
  unfolding show_lines template_nodes IsTemplate read_lines to_nodes first_space
  Reads-header depth header children rest (p, inner, good) reads inside arg pre line skip_line space
        pys h e free same =
      let x = header_line depth header in
      let below = shown (depth + suc width) children ++ shown depth rest in
      let node = header_node header nil in
      let count : count_space x ≡ depth = count_space-header depth header in
      let read : length (pre ++ x ∷ []) ≡ 1 + length pre =
        omega (arith, length-append pre (x ∷ [])) in
      let split : lines arg ≡ (pre ++ x ∷ []) ++ below =
        h ∙ sym (append_assoc pre (x ∷ []) below) in
      let first =
        read_line-flat order (parser order) arg pre x below skip_line space pys node h
          (is_empty-header depth header) (free (length pre) (omega arith)) (rw count same)
          (parser_node-header order depth header (count_space x) p) in
      elim (first-cases order width (depth + suc width) children inner) [
        | inl empty ↦
            rw (e, first, count, empty)
              (reads arg (pre ++ x ∷ []) (1 + length pre) skip_line (some depth) (node ∷ pys)
                  (rw empty at split) (sym read) (λ n k. free n (omega arith)) refl
                ∙ ap ok (reverse-onto node pys (nodes_of depth rest)))
        | inr filled ↦
            rw (e, first, count)
              (rw read at (
                Reads-nested depth header children rest inner good filled reads inside arg
                  (pre ++ x ∷ []) skip_line pys split (λ n k. free n (omega arith))))
      ]

  reads : (depth : ℕ) (t : Template) → IsTemplate t → Reads depth t
  unfolding show_lines template_nodes IsTemplate
  reads depth done good =
      λ arg pre line skip_line space pys h e free same. unfold read_lines in rw append-nil refl
  reads depth (text_line s rest) (p, tail, plain, good) =
      Reads-text depth s rest (p, tail, plain, good) (reads depth rest good)
  reads depth (block_line header children rest) (p, inner, good) =
      Reads-header depth header children rest (p, inner, good) (reads depth rest good)
        (reads (depth + suc width) children inner)

  -- If a template's texts begin with no space and do not end like a header, its words have a space
  -- at neither end, the item of a loop has none, and all stand on one line, the text of the
  -- template, with its blocks indented by any number of spaces, parses to the template's nodes.
  pub parser-show :
      (t : Template) → IsTemplate t → parser order (show order width t) ≡ ok (nodes_of 0 t)
  unfolding show
  parser-show t good = parser-Reads 0 t good (reads 0 t good)
