-- ===== src/Text/Blanks.antt =====
-- What `trim` leaves of a text between blanks.
use mathlib.Core.List.{reverse-cons}
use rbatis.Prelude.{
  ℕ, ◌≡◌, refl, ap, ◌∙◌, true, false, [], ◌∷◌, ◌++◌, reverse, reverse-append, reverse-reverse, All,
  All-append,
}
use rbatis.Text.Basic.{Str}
use rbatis.Text.Trim.{is_whitespace, trim_start, trim_end, trim}

abbrev pub IsBlank : ℕ → Type 0
IsBlank c = is_whitespace c ≡ true

abbrev pub IsSolid : Str → Type 0
IsSolid [] = ⊥
IsSolid (c ∷ s) = is_whitespace c ≡ false

-- A text that is not empty, with a blank at neither end.
abbrev pub IsTrimmed : Str → Type 0
IsTrimmed s = IsSolid s × IsSolid (reverse s)

IsBlank-reverse : (s : Str) → All IsBlank s → All IsBlank (reverse s)
IsBlank-reverse [] h = tt
IsBlank-reverse (c ∷ s) (p, h) =
    rw reverse-cons (All-append IsBlank (reverse s) (c ∷ []) (IsBlank-reverse s h) (p, tt))

trim_start-blanks : (lead s : Str) → All IsBlank lead → trim_start (lead ++ s) ≡ trim_start s
unfolding trim_start
trim_start-blanks [] s h = refl
trim_start-blanks (c ∷ lead) s (p, h) = rw p (trim_start-blanks lead s h)

trim_start-solid : (s : Str) → IsSolid s → trim_start s ≡ s
unfolding trim_start
trim_start-solid [] h = refl
trim_start-solid (c ∷ s) h = rw h refl

IsSolid-append : (s t : Str) → IsSolid s → IsSolid (s ++ t)
IsSolid-append [] t h = absurd h
IsSolid-append (c ∷ s) t h = h

pub trim-blanks :
    (lead s trail : Str)
    → All IsBlank lead
    → IsTrimmed s
    → All IsBlank trail
    → trim (lead ++ (s ++ trail)) ≡ s
unfolding trim trim_end
trim-blanks lead s trail before (first, last) behind =
    rw
      (
        trim_start-blanks lead (s ++ trail) before,
        trim_start-solid (s ++ trail) (IsSolid-append s trail first),
      )
      (ap (λ t. reverse (trim_start t)) (reverse-append s trail)
        ∙ ap reverse (trim_start-blanks (reverse trail) (reverse s) (IsBlank-reverse trail behind))
        ∙ ap reverse (trim_start-solid (reverse s) last)
        ∙ reverse-reverse s)
