-- ===== src/Py/Shapes.antt =====
-- The lines of a template's text: their depth, and that the reader finds each block whole.
use rbatis.Ast.Defs.{NodeType}
use rbatis.Py.Blocks.{block}
use rbatis.Py.Headers.{show_header-solid, header-Plain}
use rbatis.Py.Lines.{count_space}
use rbatis.Py.Template.{
  Header, Template, done, text_line, block_line, spaces, show_header, show_lines, template_nodes,
  starts_solid, IsTemplate,
}
use rbatis.Py.Words.{count_space-spaces, spaces-Plain}
use rbatis.Text.Joined.{IsPlain}
use rbatis.Prelude.{
  ℕ, zero, suc, ◌+◌, ◌≤◌, ◌<◌, ◌≡◌, refl, sym, ap, ◌∙◌, ◌⊎◌, inl, inr, true, false, List, [], ◌∷◌,
  ◌++◌, arith, leb, All, All-append,
}
use rbatis.Text.{Str, codes, is_empty}

solid_append : (s t : Str) → starts_solid s ≡ true → starts_solid (s ++ t) ≡ true
unfolding starts_solid
solid_append [] t h = absurd (ground arith)
solid_append (c ∷ s) t h = h

-- The line of a header, and its depth.
abbrev pub header_line : ℕ → Header → Str
header_line depth header = spaces depth (show_header header ++ codes ":")

pub count_space-header :
    (depth : ℕ) (header : Header) → count_space (header_line depth header) ≡ depth
count_space-header depth header =
    count_space-spaces depth (show_header header ++ codes ":")
      (solid_append (show_header header) (codes ":") (show_header-solid header))

-- A line that is not empty, as one character and what follows.
abbrev Filled : Str → Type 0
Filled s = (c : ℕ) × (t : Str) × (s ≡ c ∷ t)

spaces-Filled : (n : ℕ) (s : Str) → starts_solid s ≡ true → Filled (spaces n s)
unfolding spaces starts_solid
spaces-Filled zero [] h = absurd (ground arith)
spaces-Filled zero (c ∷ s) h = (c, s, refl)
spaces-Filled (suc n) s h = (b' ', spaces n s, refl)

pub is_empty-spaces : (n : ℕ) (s : Str) → starts_solid s ≡ true → is_empty (spaces n s) ≡ false
unfolding is_empty
is_empty-spaces n s h = let (c, t, e) = spaces-Filled n s h in rw e refl

pub is_empty-header : (depth : ℕ) (header : Header) → is_empty (header_line depth header) ≡ false
is_empty-header depth header =
    is_empty-spaces depth (show_header header ++ codes ":")
      (solid_append (show_header header) (codes ":") (show_header-solid header))

-- The lines after a block are none, or begin with one that is not as deep.
abbrev IsBelow : ℕ → List Str → Type 0
IsBelow depth [] = Unit
IsBelow depth (x ∷ ls) = count_space x < depth

pub block-append :
    (depth : ℕ) (ls after : List Str)
    → All (λ x. depth ≤ count_space x) ls
    → IsBelow depth after
    → block depth (ls ++ after) ≡ ls
unfolding block
block-append depth [] [] h below = refl
block-append depth [] (x ∷ after) h below =
    let flat : leb depth (count_space x) ≡ false = ground arith in rw flat refl
block-append depth (x ∷ ls) after (p, h) below =
    let deep : leb depth (count_space x) ≡ true = ground arith in
    rw (deep, block-append depth ls after h below) refl

module _ (order : List Str → List Str) (width : ℕ) where
  abbrev shown : ℕ → Template → List Str
  shown = show_lines order width

  pub show_lines-deep :
      (k depth : ℕ) (t : Template)
      → k ≤ depth
      → IsTemplate t
      → All (λ x. k ≤ count_space x) (shown depth t)
  unfolding show_lines IsTemplate
  show_lines-deep k depth done h good = tt
  show_lines-deep k depth (text_line s rest) h (p, _, _, good) =
      (rw (count_space-spaces depth s p) h, show_lines-deep k depth rest h good)
  show_lines-deep k depth (block_line header children rest) h (p, inner, good) = (
    rw (count_space-header depth header) h,
    All-append (λ x. k ≤ count_space x) (shown (depth + suc width) children) (shown depth rest)
        (show_lines-deep k (depth + suc width) children (omega arith) inner)
        (show_lines-deep k depth rest h good),
  )

  pub show_lines-IsBelow :
      (depth : ℕ) (t : Template) → IsTemplate t → IsBelow (depth + suc width) (shown depth t)
  unfolding show_lines IsTemplate
  show_lines-IsBelow depth done good = tt
  show_lines-IsBelow depth (text_line s rest) (p, _, _, good) =
      rw (count_space-spaces depth s p) (omega arith)
  show_lines-IsBelow depth (block_line header children rest) good =
      rw (count_space-header depth header) (omega arith)

  pub show_lines-Plain : (depth : ℕ) (t : Template) → IsTemplate t → All IsPlain (shown depth t)
  unfolding show_lines IsTemplate
  show_lines-Plain depth done good = tt
  show_lines-Plain depth (text_line s rest) (p, _, plain, good) =
      (spaces-Plain depth s plain, show_lines-Plain depth rest good)
  show_lines-Plain depth (block_line header children rest) (p, inner, good) = (
    spaces-Plain depth (show_header header ++ codes ":") (header-Plain header p),
    All-append IsPlain (shown (depth + suc width) children) (shown depth rest)
        (show_lines-Plain (depth + suc width) children inner) (show_lines-Plain depth rest good),
  )

  -- A template that is not empty has a first line at its depth and a first node.
  abbrev pub HasFirst : ℕ → Template → Type 0
  HasFirst depth t =
      (c : ℕ) × (x : Str) × (ls : List Str) × (node : NodeType) × (nodes : List NodeType) × (shown
          depth t
        ≡ (c ∷ x) ∷ ls)
      × (count_space (c ∷ x) ≡ depth)
      × (template_nodes order width depth t ≡ node ∷ nodes)

  pub first-cases : (depth : ℕ) (t : Template) → IsTemplate t → (t ≡ done) ⊎ HasFirst depth t
  unfolding show_lines IsTemplate template_nodes
  first-cases depth done good = inl refl
  first-cases depth (text_line s rest) (p, _, _, good) =
      let (c, x, e) = spaces-Filled depth s p in
      inr (
        c,
        x,
        _,
        _,
        _,
        ap (λ l. l ∷ shown depth rest) e,
        ap count_space (sym e) ∙ count_space-spaces depth s p,
        refl,
      )
  first-cases depth (block_line header children rest) good =
      let (c, x, e) =
        spaces-Filled depth (show_header header ++ codes ":")
          (solid_append (show_header header) (codes ":") (show_header-solid header)) in
      inr (
        c,
        x,
        _,
        _,
        _,
        ap (λ l. l ∷ (shown (depth + suc width) children ++ shown depth rest)) e,
        ap count_space (sym e) ∙ count_space-header depth header,
        refl,
      )
