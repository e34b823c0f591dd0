-- ===== src/Py/Words.antt =====
-- Spaces around words: what `trim`, `count_space` and slices leave of them.
use rbatis.Py.Lines.{count_space}
use rbatis.Py.Node.{slice}
use rbatis.Py.Template.{spaces, starts_solid}
use rbatis.Text.Joined.{IsPlain}
use rbatis.Prelude.{
  ℕ, zero, suc, ◌+◌, ◌-◌, ◌≤◌, ◌≡◌, refl, sym, ap, ◌∙◌, true, false, List, [], ◌∷◌, ◌++◌, reverse,
  reverse-append, reverse-reverse, append_assoc, append-nil, arith, leb, length, take, drop, ok,
}
use rbatis.Text.{Str, is_whitespace, trim_start, trim_end, trim}

pub trim_start-spaces : (n : ℕ) (s : Str) → trim_start (spaces n s) ≡ trim_start s
unfolding trim_start spaces is_whitespace
trim_start-spaces zero s = refl
trim_start-spaces (suc n) s = trim_start-spaces n s

pub trim-spaces : (n : ℕ) (s : Str) → trim (spaces n s) ≡ trim s
unfolding trim
trim-spaces n s = ap trim_end (trim_start-spaces n s)

solid : (c : ℕ) (s : Str) → starts_solid (c ∷ s) ≡ true → is_whitespace c ≡ false
unfolding starts_solid
solid c s h = ground arith

pub trim_start-solid : (s t : Str) → starts_solid s ≡ true → trim_start (s ++ t) ≡ s ++ t
unfolding trim_start
trim_start-solid [] t h = absurd (unfold starts_solid in ground arith)
trim_start-solid (c ∷ s) t h = rw (solid c s h) refl

pub trim_end-solid : (s t : Str) → starts_solid (reverse s) ≡ true → trim_end (t ++ s) ≡ t ++ s
unfolding trim_end
trim_end-solid s t h =
    rw (reverse-append t s, trim_start-solid (reverse s) (reverse t) h, ← reverse-append t s)
      (reverse-reverse (t ++ s))

-- A word between two others is left as it is.
pub trim-solid :
    (s t r : Str)
    → starts_solid s ≡ true
    → starts_solid (reverse r) ≡ true
    → trim (s ++ t ++ r) ≡ s ++ t ++ r
unfolding trim
trim-solid s t r h k =
    ap (λ u. trim_end (trim_start u)) (append_assoc s t r)
    ∙ ap trim_end (trim_start-solid s (t ++ r) h ∙ sym (append_assoc s t r))
    ∙ trim_end-solid r (s ++ t) k

pub trim-word : (s : Str) → starts_solid s ≡ true → starts_solid (reverse s) ≡ true → trim s ≡ s
unfolding trim
trim-word s h k =
    let start : trim_start s ≡ s = rw append-nil at (trim_start-solid s [] h) in
    rw start (trim_end-solid s [] k)

pub count_space-spaces : (n : ℕ) (s : Str) → starts_solid s ≡ true → count_space (spaces n s) ≡ n
unfolding count_space spaces
count_space-spaces zero [] h = refl
count_space-spaces zero (c ∷ s) h = unfold starts_solid is_whitespace in ground arith
count_space-spaces (suc n) s h = omega (arith, count_space-spaces n s h)

length-spaces : (n : ℕ) (s : Str) → length (spaces n s) ≡ n + length s
unfolding spaces
length-spaces zero s = omega arith
length-spaces (suc n) s = omega (arith, length-spaces n s)

pub spaces-Plain : (n : ℕ) (s : Str) → IsPlain s → IsPlain (spaces n s)
unfolding spaces
spaces-Plain zero s h = h
spaces-Plain (suc n) s h = (refl, spaces-Plain n s h)

module _ {ℓ} {A : Type ℓ} where
  pub take-append : (xs ys : List A) → take (length xs) (xs ++ ys) ≡ xs
  take-append [] ys = refl
  take-append (x ∷ xs) ys = ap (λ rest. x ∷ rest) (take-append xs ys)

drop-spaces : (n : ℕ) (s : Str) → drop n (spaces (suc n) s) ≡ b' ' ∷ s
unfolding spaces
drop-spaces zero s = refl
drop-spaces (suc n) s = drop-spaces n s

pub take_all : (s : Str) (n : ℕ) → length s ≤ n → take n s ≡ s
take_all [] zero h = refl
take_all [] (suc n) h = refl
take_all (c ∷ s) zero h = absurd (omega arith)
take_all (c ∷ s) (suc n) h = ap (λ rest. c ∷ rest) (take_all s n (omega arith))

-- All spaces but one are cut off.
pub slice-spaces :
    (n : ℕ) (s : Str)
    → slice (suc (suc n) - 1) (length (spaces (suc (suc n)) s)) (spaces (suc (suc n)) s)
      ≡ ok (b' ' ∷ s)
unfolding slice
slice-spaces n s =
    let x = spaces (suc (suc n)) s in
    let measured : length x ≡ suc (suc n) + length s = length-spaces (suc (suc n)) s in
    let from : suc (suc n) - 1 ≡ suc n = omega arith in
    let begins : leb (suc n) (length x) ≡ true = ground (arith, measured) in
    let ends : leb (length x) (length x) ≡ true = ground arith in
    rw (from, begins, ends, drop-spaces (suc n) s)
      (ap ok (take_all (b' ' ∷ s) (length x - suc n) (omega (arith, measured))))
