-- ===== src/Text/Joined.antt =====
-- Texts put together from lines, and what `lines` makes of them.
use rbatis.Text.Lines.{starts_line_feed, onto_line, lines}
use rbatis.Prelude.{
  ℕ, ◌+◌, ◌≡◌, refl, ap, ◌∙◌, inl, inr, false, ◌&&◌, ◌||◌, List, [], ◌∷◌, ◌++◌, arith, ◌==◌,
  Bool-cases, length, All,
}
use rbatis.Text.{Str}

-- Each line followed by a line feed.
unfoldable pub joined : List Str → Str
joined [] = []
joined (x ∷ ls) = x ++ b'\n' ∷ joined ls

-- No line feed.
abbrev pub IsLine : Str → Type 0
IsLine = All (λ c. (c == b'\n') ≡ false)

-- Neither a line feed nor a carriage return.
abbrev pub IsPlain : Str → Type 0
IsPlain = All (λ c. (c == b'\n' || c == b'\r') ≡ false)

onto_line-All :
    (c : ℕ) (ls : List Str) → (c == b'\n') ≡ false → All IsLine ls → All IsLine (onto_line c ls)
unfolding onto_line
onto_line-All c [] h k = ((h, tt), tt)
onto_line-All c (x ∷ ls) h (p, k) = ((h, p), k)

-- A line holds no line feed.
pub lines-All : (s : Str) → All IsLine (lines s)
unfolding lines
lines-All [] = tt
lines-All (c ∷ s) = elim (Bool-cases (c == b'\n')) [
  | inl feed ↦ rw feed (tt, lines-All s)
  | inr other ↦ elim (Bool-cases (c == b'\r' && starts_line_feed s)) [
    | inl return ↦ rw (other, return) (lines-All s)
    | inr kept ↦ rw (other, kept) (onto_line-All c (lines s) other (lines-All s))
  ]
]

length-onto_line : (c n : ℕ) (ls : List Str) → length ls ≡ 1 + n → length (onto_line c ls) ≡ 1 + n
unfolding onto_line
length-onto_line c n [] h = absurd (omega arith)
length-onto_line c n (x ∷ ls) h = h

length-lines-append :
    (x s : Str) → IsLine x → length (lines (x ++ b'\n' ∷ s)) ≡ 1 + length (lines s)
unfolding lines
length-lines-append [] s h = omega arith
length-lines-append (c ∷ x) s (other, h) =
    elim (Bool-cases (c == b'\r' && starts_line_feed (x ++ b'\n' ∷ s))) [
      | inl return ↦ rw (other, return) (length-lines-append x s h)
      | inr kept ↦
          rw (other, kept)
            (length-onto_line c (length (lines s)) (lines (x ++ b'\n' ∷ s))
              (length-lines-append x s h))
    ]

-- A text has as many lines as it is put together from.
pub length-lines-joined : (ls : List Str) → All IsLine ls → length (lines (joined ls)) ≡ length ls
unfolding lines joined
length-lines-joined [] h = refl
length-lines-joined (x ∷ ls) (p, h) =
    omega (arith, length-lines-append x (joined ls) p, length-lines-joined ls h)

lines-append : (x s : Str) → IsPlain x → lines (x ++ b'\n' ∷ s) ≡ x ∷ lines s
unfolding lines onto_line
lines-append [] s h = refl
lines-append (c ∷ x) s (other, h) =
    let feed : (c == b'\n') ≡ false = ground arith in
    let return : (c == b'\r') ≡ false = ground arith in rw (feed, return, lines-append x s h) refl

-- Without carriage returns the lines are the ones it is put together from.
pub lines-joined : (ls : List Str) → All IsPlain ls → lines (joined ls) ≡ ls
unfolding lines joined
lines-joined [] h = refl
lines-joined (x ∷ ls) (p, h) =
    lines-append x (joined ls) p ∙ ap (λ rest. x ∷ rest) (lines-joined ls h)
