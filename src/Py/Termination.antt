-- ===== src/Py/Termination.antt =====
-- src/ast/lang/py.rs: `parser` calls itself on texts of fewer lines only.
use rbatis.Ast.Defs.{NodeType}
use rbatis.Py.Blocks.{block, find_child_str-block}
use rbatis.Py.Lines.{LineSpaceMap, get_space, count_space, create_line_space_map, find_child_str}
use rbatis.Py.Node.{parser_node}
use rbatis.Py.Parser.{
  Progress, is_skipped, first_space, adopt, adopt_parsed, adopt_block, read_block, read_node,
  read_line, read_lines, parser_body, parser_fuel, parser,
}
use rbatis.Text.Joined.{joined, IsLine, lines-All, length-lines-joined}
use rbatis.Text.Lines.{lines}
use rbatis.Prelude.{
  unwrap, ℕ, zero, suc, ◌+◌, ◌≤◌, ◌<◌, ◌≡◌, refl, sym, ap, ◌∙◌, inl, inr, ◌||◌, none, some, List,
  [], ◌∷◌, arith, leb, Bool-cases, length, drop, length-drop, All-drop, All, Outcome, ◌>>=◌,
  >>=-agree, Ensures, Ensures->>=, Ensures-after, >>=-ap,
}
use rbatis.Text.{Str, is_empty}

pub block-All : (P : Str → Type 0) (space : ℕ) (ls : List Str) → All P ls → All P (block space ls)
unfolding block
block-All P space [] h = tt
block-All P space (x ∷ ls) (p, h) = elim (Bool-cases (leb space (count_space x))) [
  | inl deep ↦ rw deep (p, block-All P space ls h)
  | inr flat ↦ rw flat tt
]

length-block : (space : ℕ) (ls : List Str) → length (block space ls) ≤ length ls
unfolding block
length-block space [] = omega arith
length-block space (x ∷ ls) = ground (arith, length-block space ls)

-- The block after the first line has fewer lines than the text.
pub fewer_lines :
    (arg : Str) (line space : ℕ)
    → 1 ≤ line
    → 1 ≤ length (lines arg)
    → length (lines (joined (block space (drop line (lines arg))))) < length (lines arg)
fewer_lines arg line space h k =
    let taken = drop line (lines arg) in
    omega (
      arith,
      length-lines-joined (block space taken)
          (block-All IsLine space taken (All-drop IsLine line (lines arg) (lines-All arg))),
      length-block space taken,
      length-drop line (lines arg),
    )

-- No more nodes than lines read.
unfoldable pub IsWithin : Progress → Type 0
IsWithin st = length st.pys ≤ st.line

module _ (order : List Str → List Str) (f g : Str → Outcome (List NodeType)) where
  adopt_block-agree :
      (child_str : Str) (pys : List NodeType)
      → ((1 ≤ length pys) → f child_str ≡ g child_str)
      → adopt_block order f child_str pys ≡ adopt_block order g child_str pys
  unfolding adopt_block
  adopt_block-agree child_str [] h = refl
  adopt_block-agree [] (last ∷ pys) h = refl
  adopt_block-agree (c ∷ child_str) (last ∷ pys) h = rw (h (omega arith)) refl

  read_block-agree :
      (count_index space : ℕ) (arg : Str) (st : Progress)
      → 1 ≤ length (lines arg)
      → IsWithin st
      → ((s : Str) → length (lines s) < length (lines arg) → f s ≡ g s)
      → read_block order f count_index space arg (create_line_space_map arg) st
        ≡ read_block order g count_index space arg (create_line_space_map arg) st
  unfolding read_block IsWithin
  read_block-agree count_index space arg st k h agree =
      let child_str = joined (block count_index (drop st.line (lines arg))) in
      rw
        (
          find_child_str-block arg st.line count_index,
          adopt_block-agree child_str st.pys
              (λ some_node. agree child_str (fewer_lines arg st.line count_index (omega arith) k)),
        )
        refl

length-adopt_parsed :
    (order : List Str → List Str) (last : NodeType) (parserd : List NodeType) (child_str : Str)
    (pys : List NodeType)
    → Ensures
        (λ after. length after ≡ suc (length pys))
        (adopt_parsed order last parserd child_str pys)
unfolding adopt_parsed
length-adopt_parsed order last [] child_str pys = omega arith
length-adopt_parsed order last (node ∷ parserd) child_str pys =
    Ensures-after _ (adopt order last (node ∷ parserd) child_str) _ (λ parent _. omega arith)

-- What one line does to the progress.
abbrev pub IsAdvance : Progress → Progress → Type 0
IsAdvance st after = (after.line ≡ 1 + st.line) × IsWithin after

module _ (order : List Str → List Str) (parse : Str → Outcome (List NodeType)) where
  length-adopt_block :
      (child_str : Str) (pys : List NodeType)
      → Ensures (λ after. length after ≡ length pys) (adopt_block order parse child_str pys)
  unfolding adopt_block
  length-adopt_block child_str [] = refl
  length-adopt_block [] (last ∷ pys) = refl
  length-adopt_block (c ∷ child_str) (last ∷ pys) =
      Ensures-after _ (parse (c ∷ child_str)) _
        (λ parserd _. length-adopt_parsed order last parserd (c ∷ child_str) pys)

  read_block-Within :
      (count_index space : ℕ) (arg : Str) (m : LineSpaceMap) (st : Progress)
      → IsWithin st
      → Ensures
          (λ after. (after.line ≡ st.line) × IsWithin after)
          (read_block order parse count_index space arg m st)
  unfolding read_block IsWithin
  read_block-Within count_index space arg m st h = elim (Bool-cases (leb count_index space)) [
    | inl flat ↦ rw flat (refl, h)
    | inr deep ↦ rw deep (
        Ensures-after _ (find_child_str st.line count_index arg m) _ λ (child_str, skip) _.
          Ensures->>= _ _ (adopt_block order parse child_str st.pys) _
            (length-adopt_block child_str st.pys) λ pys same. (refl, rw same h))
  ]

  read_node-Advance :
      (x : Str) (count_index : ℕ) (st : Progress)
      → IsWithin st
      → Ensures (IsAdvance st) (read_node order x count_index st)
  unfolding read_node IsWithin
  read_node-Advance x count_index st h = elim (Bool-cases (is_skipped st.skip_line st.line)) [
    | inl skipped ↦ rw skipped (refl, omega arith)
    | inr own ↦
        rw own (Ensures-after _ (parser_node order x count_index) _ λ node _. (refl, omega arith))
  ]

  pub read_line-Advance :
      (arg : Str) (m : LineSpaceMap) (x : Str) (st : Progress)
      → IsWithin st
      → Ensures (IsAdvance st) (read_line order parse arg m x st)
  unfolding read_line IsWithin
  read_line-Advance arg m x st h =
      elim (Bool-cases (is_empty x || is_skipped st.skip_line st.line)) [
        | inl passed ↦ rw passed (refl, omega arith)
        | inr own ↦ rw own (
            Ensures-after _ (unwrap (get_space st.line m)) _ λ count_index _.
              let space = first_space st.space count_index in
              let begun : Progress = record st { space = some space } in
              Ensures->>= _ _ (read_block order parse count_index space arg m begun) _
                (read_block-Within count_index space arg m begun h)
                λ after (same, within). rw (← same) (read_node-Advance x count_index after within))
      ]

module _ (order : List Str → List Str) (f g : Str → Outcome (List NodeType)) (arg : Str) where
  -- The two parsers agree on what has fewer lines.
  abbrev Agree : Type 0
  Agree = (s : Str) → length (lines s) < length (lines arg) → f s ≡ g s

  read_line-agree :
      (x : Str) (st : Progress)
      → 1 ≤ length (lines arg)
      → IsWithin st
      → Agree
      → read_line order f arg (create_line_space_map arg) x st
        ≡ read_line order g arg (create_line_space_map arg) x st
  unfolding read_line IsWithin read_node
  read_line-agree x st k h agree =
      elim (Bool-cases (is_empty x || is_skipped st.skip_line st.line)) [
        | inl passed ↦ rw passed refl
        | inr own ↦ rw own (
            >>=-ap (unwrap (get_space st.line (create_line_space_map arg))) _ _ λ count_index.
              let space = first_space st.space count_index in
              ap (λ o. o >>= read_node order x count_index)
                (read_block-agree order f g count_index space arg (record st { space = some space })
                  k h agree))
      ]

  read_lines-agree :
      (ls : List Str) (st : Progress)
      → length ls ≤ length (lines arg)
      → IsWithin st
      → Agree
      → read_lines order f arg (create_line_space_map arg) ls st
        ≡ read_lines order g arg (create_line_space_map arg) ls st
  unfolding read_lines
  read_lines-agree [] st k h agree = refl
  read_lines-agree (x ∷ ls) st k h agree =
      let m = create_line_space_map arg in
      ap (λ o. o >>= read_lines order f arg m ls) (read_line-agree x st (omega arith) h agree)
      ∙ >>=-agree (IsAdvance st) (read_line order g arg m x st) _ _
          (read_line-Advance order g arg m x st h)
          (λ after (_, within). read_lines-agree ls after (omega arith) within agree)

  parser_body-agree : Agree → parser_body order f arg ≡ parser_body order g arg
  unfolding parser_body IsWithin
  parser_body-agree agree =
      read_lines-agree (lines arg) (record { skip_line = none; space = none; line = 0; pys = [] })
        (omega arith) (omega arith) agree

parser_fuel-enough :
    (order : List Str → List Str) (n k : ℕ) (arg : Str)
    → length (lines arg) < n
    → length (lines arg) < k
    → parser_fuel order n arg ≡ parser_fuel order k arg
unfolding parser_fuel
parser_fuel-enough order zero k arg h e = absurd (omega arith)
parser_fuel-enough order (suc n) zero arg h e = absurd (omega arith)
parser_fuel-enough order (suc n) (suc k) arg h e =
    parser_body-agree order (parser_fuel order n) (parser_fuel order k) arg
      (λ s fewer. parser_fuel-enough order n k s (omega arith) (omega arith))

-- `parser` is the loop of the source with itself for the blocks: the fuel never runs out.
pub parser-body :
    (order : List Str → List Str) (arg : Str)
    → parser order arg ≡ parser_body order (parser order) arg
unfolding parser parser_fuel
parser-body order arg =
    parser_body-agree order (parser_fuel order (length (lines arg))) (parser order) arg (λ s fewer.
      parser_fuel-enough order (length (lines arg)) (suc (length (lines s))) s fewer (omega arith))

unique_below :
    (order : List Str → List Str) (f : Str → Outcome (List NodeType)) (n : ℕ)
    → ((s : Str) → f s ≡ parser_body order f s)
    → (arg : Str) → length (lines arg) < n
    → f arg ≡ parser order arg
unique_below order f zero h arg below = absurd (omega arith)
unique_below order f (suc n) h arg below =
    h arg
    ∙ parser_body-agree order f (parser order) arg
        (λ s fewer. unique_below order f n h s (omega arith))
    ∙ sym (parser-body order arg)

-- Any function that satisfies the source's recursive equation is `parser`, so the fuel never runs
-- out.
pub parser_unique :
    (order : List Str → List Str) (f : Str → Outcome (List NodeType))
    → ((s : Str) → f s ≡ parser_body order f s)
    → (arg : Str) → f arg ≡ parser order arg
parser_unique order f h arg = unique_below order f (suc (length (lines arg))) h arg (omega arith)
