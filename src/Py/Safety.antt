-- ===== src/Py/Safety.antt =====
-- src/ast/lang/py.rs: where `parser` can panic.
use rbatis.Ast.Defs.{
  NodeType, n_string, n_choose, n_when, n_otherwise, otherwise, WhenNodes, OtherwiseNode,
}
use rbatis.Ast.StringNode.{new}
use rbatis.Py.Blocks.{block, Knows, create_line_space_map-Knows, find_child_str-block}
use rbatis.Py.Lines.{get_space, count_space, create_line_space_map}
use rbatis.Py.Node.{slice, string_node, parser_node}
use rbatis.Py.Parser.{
  Progress, is_skipped, first_space, push_when, adopt_choice, adopt_texts, adopt, adopt_parsed,
  adopt_block, read_block, read_node, read_line, read_lines, parser_body, parser,
}
use rbatis.Py.Termination.{
  IsWithin, IsAdvance, block-All, fewer_lines, read_line-Advance, parser-body,
}
use rbatis.Py.Words.{take_all}
use rbatis.Text.Joined.{joined, IsPlain, lines-joined}
use rbatis.Text.Lines.{lines}
use rbatis.Prelude.{
  ℕ, zero, suc, ◌-◌, ◌≤◌, ◌<◌, ◌≡◌, refl, ap, inl, inr, true, false, ◌||◌, none, some, List, [],
  ◌∷◌, ◌++◌, arith, leb, Bool-cases, length, drop, length-drop, All-drop, All, Outcome, ok,
  is_panic, >>=-safe,
}
use rbatis.Text.{Str, is_empty}

count_space-bound : (x : Str) → count_space x ≤ length x
unfolding count_space
count_space-bound [] = omega arith
count_space-bound (c ∷ x) = ground (arith, count_space-bound x)

-- The slice of a text is within its bounds: of the spaces it begins with, all but one are cut off.
pub string_node-bounds :
    (order : List Str → List Str) (x : Str)
    → string_node order x (count_space x) ≡ ok (n_string (new order (drop (count_space x - 1) x)))
unfolding string_node slice
string_node-bounds order x = elim (Bool-cases (leb (count_space x) 1)) [
  | inl narrow ↦ let kept : count_space x - 1 ≡ 0 = ground arith in rw (narrow, kept) refl
  | inr wide ↦
      let begins : leb (count_space x - 1) (length x) ≡ true =
        ground (arith, count_space-bound x) in
      let ends : leb (length x) (length x) ≡ true = ground arith in
      rw (wide, begins, ends)
        (ap (λ s. ok (n_string (new order s)))
          (take_all (drop (count_space x - 1) x) (length x - (count_space x - 1))
            (omega (arith, length-drop (count_space x - 1) x))))
]

adopt_choice-safe :
    (child_str : Str) (parserd : List NodeType) (w : WhenNodes) (o : OtherwiseNode)
    → is_panic (adopt_choice child_str parserd w o) ≡ false
unfolding adopt_choice
adopt_choice-safe child_str [] w o = refl
adopt_choice-safe child_str (n_when nodes test ∷ parserd) w o =
    adopt_choice-safe child_str parserd (push_when w (n_when nodes test)) o
adopt_choice-safe child_str (n_otherwise nodes ∷ parserd) w o =
    adopt_choice-safe child_str parserd w (otherwise (n_otherwise nodes))
adopt_choice-safe child_str (_ ∷ parserd) w o = refl

adopt_texts-safe :
    (child_str : Str) (parserd : List NodeType) (news : Str)
    → is_panic (adopt_texts child_str parserd news) ≡ false
unfolding adopt_texts
adopt_texts-safe child_str [] news = refl
adopt_texts-safe child_str (n_string node ∷ parserd) news =
    adopt_texts-safe child_str parserd (news ++ node.value)
adopt_texts-safe child_str (_ ∷ parserd) news = refl

module _ (order : List Str → List Str) where
  adopt-safe :
      (last : NodeType) (parserd : List NodeType) (child_str : Str)
      → is_panic (adopt order last parserd child_str) ≡ false
  unfolding adopt
  adopt-safe (n_choose w o) parserd child_str = adopt_choice-safe child_str parserd w o
  adopt-safe (n_string node) parserd child_str =
      >>=-safe (adopt_texts child_str parserd node.value) _
        (adopt_texts-safe child_str parserd node.value) (λ news _. refl)
  adopt-safe _ parserd child_str = refl

  adopt_parsed-safe :
      (last : NodeType) (parserd : List NodeType) (child_str : Str) (pys : List NodeType)
      → is_panic (adopt_parsed order last parserd child_str pys) ≡ false
  unfolding adopt_parsed
  adopt_parsed-safe last [] child_str pys = refl
  adopt_parsed-safe last (node ∷ parserd) child_str pys =
      >>=-safe (adopt order last (node ∷ parserd) child_str) _
        (adopt-safe last (node ∷ parserd) child_str) (λ parent _. refl)

  -- The line's own node does not make the parser panic.
  abbrev pub IsSafeLine : Str → Type 0
  IsSafeLine x = is_panic (parser_node order x (count_space x)) ≡ false

  read_node-safe :
      (x : Str) (count : ℕ) (st : Progress)
      → is_panic (parser_node order x count) ≡ false
      → is_panic (read_node order x count st) ≡ false
  unfolding read_node
  read_node-safe x count st h = elim (Bool-cases (is_skipped st.skip_line st.line)) [
    | inl skipped ↦ rw skipped refl
    | inr own ↦ rw own (>>=-safe (parser_node order x count) _ h (λ node _. refl))
  ]

  module _ (parse : Str → Outcome (List NodeType)) (arg : Str) where
    -- The blocks of the text are parsed without a panic.
    abbrev BlocksRun : Type 0
    BlocksRun =
        (line space : ℕ)
        → 1 ≤ line
        → 1 ≤ length (lines arg)
        → is_panic (parse (joined (block space (drop line (lines arg))))) ≡ false

    adopt_block-safe :
        (child_str : Str) (pys : List NodeType)
        → (1 ≤ length pys → is_panic (parse child_str) ≡ false)
        → is_panic (adopt_block order parse child_str pys) ≡ false
    unfolding adopt_block
    adopt_block-safe child_str [] h = refl
    adopt_block-safe [] (last ∷ pys) h = refl
    adopt_block-safe (c ∷ child_str) (last ∷ pys) h =
        >>=-safe (parse (c ∷ child_str)) _ (h (omega arith))
          (λ parserd _. adopt_parsed-safe last parserd (c ∷ child_str) pys)

    read_block-safe :
        (count_index space : ℕ) (st : Progress)
        → IsWithin st
        → BlocksRun
        → 1 ≤ length (lines arg)
        → is_panic (read_block order parse count_index space arg (create_line_space_map arg) st)
          ≡ false
    unfolding read_block IsWithin
    read_block-safe count_index space st h run k = elim (Bool-cases (leb count_index space)) [
      | inl flat ↦ rw flat refl
      | inr deep ↦
          rw (deep, find_child_str-block arg st.line count_index)
            (>>=-safe
              (adopt_block order parse (joined (block count_index (drop st.line (lines arg))))
                st.pys)
              _
              (adopt_block-safe (joined (block count_index (drop st.line (lines arg)))) st.pys
                (λ some_node. run st.line count_index (omega arith) k))
              (λ pys _. refl))
    ]

    read_line-safe :
        (x : Str) (st : Progress)
        → IsWithin st
        → BlocksRun
        → 1 ≤ length (lines arg)
        → get_space st.line (create_line_space_map arg) ≡ some (count_space x)
        → IsSafeLine x
        → is_panic (read_line order parse arg (create_line_space_map arg) x st) ≡ false
    unfolding read_line read_node IsWithin
    read_line-safe x st h run k count safe =
        elim (Bool-cases (is_empty x || is_skipped st.skip_line st.line)) [
          | inl passed ↦ rw passed refl
          | inr own ↦
              rw (own, count)
                (let space = first_space st.space (count_space x) in
                  let begun : Progress = record st { space = some space } in
                  >>=-safe
                    (read_block order parse (count_space x) space arg (create_line_space_map arg)
                      begun)
                    _ (read_block-safe (count_space x) space begun h run k)
                    λ after _. read_node-safe x (count_space x) after safe)
        ]

    read_lines-safe :
        (ls : List Str) (st : Progress)
        → IsWithin st
        → BlocksRun
        → length ls ≤ length (lines arg)
        → Knows (create_line_space_map arg) st.line ls
        → All IsSafeLine ls
        → is_panic (read_lines order parse arg (create_line_space_map arg) ls st) ≡ false
    unfolding read_lines
    read_lines-safe [] st h run k known safe = refl
    read_lines-safe (x ∷ ls) st h run k (here, known) (p, safe) =
        >>=-safe (read_line order parse arg (create_line_space_map arg) x st) _
          (read_line-safe x st h run (omega arith) here p)
          λ after e.
            let (line, within) : IsAdvance st after =
              rw e at (read_line-Advance order parse arg (create_line_space_map arg) x st h) in
            read_lines-safe ls after within run (omega arith) (rw line known) safe

    parser_body-safe :
        BlocksRun → All IsSafeLine (lines arg) → is_panic (parser_body order parse arg) ≡ false
    unfolding parser_body IsWithin
    parser_body-safe run safe =
        read_lines-safe (lines arg) (record { skip_line = none; space = none; line = 0; pys = [] })
          (omega arith) run (omega arith) (create_line_space_map-Knows arg) safe

  parser-safe_below :
      (n : ℕ) (arg : Str)
      → length (lines arg) < n
      → All IsPlain (lines arg)
      → All IsSafeLine (lines arg)
      → is_panic (parser order arg) ≡ false
  parser-safe_below zero arg below plain safe = absurd (omega arith)
  parser-safe_below (suc n) arg below plain safe = rw (parser-body order arg) (
      parser_body-safe (parser order) arg
        (λ line space late k.
          let taken = block space (drop line (lines arg)) in
          let plain_taken =
            block-All IsPlain space (drop line (lines arg))
              (All-drop IsPlain line (lines arg) plain) in
          let split : lines (joined taken) ≡ taken = lines-joined taken plain_taken in
          parser-safe_below n (joined taken) (omega (arith, fewer_lines arg line space late k))
            (rw split plain_taken)
            (rw split (
              block-All IsSafeLine space (drop line (lines arg))
                (All-drop IsSafeLine line (lines arg) safe))))
        safe)

  -- If no line holds a carriage return and none panics as a node of its own, the parser does not
  -- panic on the text: neither the map of spaces nor the nesting nor a block is a reason.
  pub parser-safe :
      (arg : Str)
      → All IsPlain (lines arg)
      → All IsSafeLine (lines arg)
      → is_panic (parser order arg) ≡ false
  parser-safe arg plain safe =
      parser-safe_below (suc (length (lines arg))) arg (omega arith) plain safe
