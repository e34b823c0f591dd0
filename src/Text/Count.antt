-- ===== src/Text/Count.antt =====
-- How often a character occurs in a text, through the operations on texts.
use mathlib.Core.List.{reverse-cons}
use rbatis.Text.Basic.{decimal_digits}
use rbatis.Prelude.{
  ℕ, zero, suc, ◌+◌, ◌-◌, ◌/◌, ◌%◌, ◌<◌, ◌≡◌, refl, ap, ◌≢◌, inl, inr, some, [], ◌∷◌, ◌++◌, reverse,
  arith, ◌==◌, if◌then◌else◌, Option-cases, length, drop, drop-append,
}
use rbatis.Text.{
  Str, pop, strip_prefix, strip_prefix-eq-append, starts_with-cases, decimal, replace_from, replace,
  strip_all, trim_start_matches, trim_end_matches,
}

-- The occurrences of `c`.
abbrev pub count : ℕ → Str → ℕ
count c [] = 0
count c (d ∷ s) = (if d == c then 1 else 0) + count c s

pub count-append : (c : ℕ) (s t : Str) → count c (s ++ t) ≡ count c s + count c t
count-append c [] t = omega arith
count-append c (d ∷ s) t = omega (arith, count-append c s t)

pub count-reverse : (c : ℕ) (s : Str) → count c (reverse s) ≡ count c s
count-reverse c [] = refl
count-reverse c (d ∷ s) =
    rw reverse-cons (omega (arith, count-append c (reverse s) (d ∷ []), count-reverse c s))

pub ruleset count_laws = (count-append, count-reverse)

-- Taking a prefix away takes its occurrences away.
pub count-strip_prefix :
    (c : ℕ) (p s r : Str) → strip_prefix s p ≡ some r → count c s ≡ count c p + count c r
count-strip_prefix c p s r h = rw (strip_prefix-eq-append p s r h) (count-append c p r)

count-strip_all :
    (c : ℕ) (p : Str)
    → count c p ≡ 0
    → (fuel : ℕ) (s : Str) → count c (strip_all fuel s p) ≡ count c s
unfolding strip_all
count-strip_all c p h zero s = refl
count-strip_all c p h (suc fuel) s = elim (Option-cases (strip_prefix s p)) [
  | inl missed ↦ rw (missed, strip_all) refl
  | inr (r, found) ↦
      rw (found, strip_all)
        (omega (arith, count-strip_all c p h fuel r, count-strip_prefix c p s r found))
]

pub count-trim_start_matches :
    (c : ℕ) (s p : Str) → count c p ≡ 0 → count c (trim_start_matches s p) ≡ count c s
unfolding trim_start_matches
count-trim_start_matches c s [] h = refl
count-trim_start_matches c s (d ∷ p) h = count-strip_all c (d ∷ p) h (length s) s

pub count-trim_end_matches :
    (c : ℕ) (s p : Str) → count c p ≡ 0 → count c (trim_end_matches s p) ≡ count c s
unfolding trim_end_matches
count-trim_end_matches c s p h =
    rw (count-reverse, count-trim_start_matches c (reverse s) (reverse p) (rw count-reverse h))
      (count-reverse c s)

-- The digits of a number hold no other character.
count-decimal_digits : (c : ℕ) → c < b'0' → (fuel n : ℕ) → count c (decimal_digits fuel n) ≡ 0
unfolding decimal_digits
count-decimal_digits c h zero n = refl
count-decimal_digits c h (suc fuel) n = ground (
  arith,
  count-decimal_digits c h fuel (n / 10),
  count-append c (decimal_digits fuel (n / 10)) ((b'0' + n % 10) ∷ []),
)

pub count-decimal : (c n : ℕ) → c < b'0' → count c (decimal n) ≡ 0
unfolding decimal
count-decimal c n h = count-decimal_digits c h 20 n

pub count-pop : (c : ℕ) (s : Str) (d : ℕ) → c ≢ d → count c (pop (s ++ d ∷ [])) ≡ count c s
unfolding pop
count-pop c [] d h = refl
count-pop c (a ∷ []) d h = refl
count-pop c (a ∷ b ∷ s) d h = omega (arith, count-pop c (b ∷ s) d h)

-- What follows a prefix stands where the prefix ends.
drop-strip_prefix :
    (f d : ℕ) (p s r : Str)
    → strip_prefix (d ∷ s) (f ∷ p) ≡ some r
    → drop (length (f ∷ p) - 1) s ≡ r
unfolding strip_prefix
drop-strip_prefix f d p s r h =
    let rest : s ≡ p ++ r = ap (drop 1) (strip_prefix-eq-append (f ∷ p) (d ∷ s) r h) in
    let size : length (f ∷ p) - 1 ≡ length p = omega arith in rw (size, rest) (drop-append p r)

count-replace_from :
    (c : ℕ) (f : ℕ) (p to : Str)
    → count c (f ∷ p) ≡ count c to
    → (k : ℕ) (s : Str) → count c (replace_from (f ∷ p) to k s) ≡ count c (drop k s)
unfolding replace_from
count-replace_from c f p to h zero [] = refl
count-replace_from c f p to h (suc k) [] = refl
count-replace_from c f p to h (suc k) (d ∷ s) = count-replace_from c f p to h k s
count-replace_from c f p to h zero (d ∷ s) = elim (starts_with-cases (d ∷ s) (f ∷ p)) [
  | inl e ↦ rw (e, replace_from) (omega (arith, count-replace_from c f p to h zero s))
  | inr (r, found, e) ↦
      rw (e, replace_from)
        (omega (
          arith,
          h,
          count-append c to (replace_from (f ∷ p) to (length (f ∷ p) - 1) s),
          count-replace_from c f p to h (length (f ∷ p) - 1) s,
          ap (count c) (drop-strip_prefix f d p s r found),
          count-strip_prefix c (f ∷ p) (d ∷ s) r found,
        ))
]

-- Replacing a text by one with as many occurrences keeps their number.
pub count-replace :
    (c f : ℕ) (p to s : Str)
    → count c (f ∷ p) ≡ count c to
    → count c (replace s (f ∷ p) to) ≡ count c s
unfolding replace
count-replace c f p to s h = count-replace_from c f p to h 0 s
