-- ===== src/Text/Trimmed.antt =====
-- What `trim_start_matches` and `trim_end_matches` leave.
use rbatis.Prelude.{
  ℕ, zero, suc, ◌≤◌, ◌<◌, ◌≡◌, refl, sym, ap, ◌∙◌, inl, inr, true, false, none, some, [], ◌∷◌, ◌++◌,
  reverse, reverse-append, reverse-reverse, append_assoc, arith, Option-cases, length,
  length-append,
}
use rbatis.Text.{
  Str, strip_prefix, starts_with, ends_with, strip_prefix-eq-append, strip_prefix-append, strip_all,
  trim_start_matches, trim_end_matches,
}

strip_prefix-extend :
    (p s r t : Str) → strip_prefix s p ≡ some r → strip_prefix (s ++ t) p ≡ some (r ++ t)
unfolding strip_prefix
strip_prefix-extend [] s r t h = ground arith
strip_prefix-extend (b ∷ p) [] r t h = cc
strip_prefix-extend (b ∷ p) (a ∷ s) r t h = ground (arith, strip_prefix-extend p s r t)

shorter_rest : (c : ℕ) (p s r : Str) → strip_prefix s (c ∷ p) ≡ some r → length r < length s
shorter_rest c p s r h =
    omega (arith, ap length (strip_prefix-eq-append (c ∷ p) s r h), length-append (c ∷ p) r)

-- With as much fuel as characters the loop ends because nothing matches.
strip_all-done :
    (c : ℕ) (p : Str) (fuel : ℕ) (s : Str)
    → length s ≤ fuel
    → strip_prefix (strip_all fuel s (c ∷ p)) (c ∷ p) ≡ none
unfolding strip_all
strip_all-done c p zero [] h = unfold strip_prefix in refl
strip_all-done c p zero (d ∷ s) h = absurd (omega arith)
strip_all-done c p (suc fuel) s h = elim (Option-cases (strip_prefix s (c ∷ p))) [
  | inl missed ↦ rw (missed, strip_all) missed
  | inr (r, found) ↦
      rw (found, strip_all) (strip_all-done c p fuel r (omega (arith, shorter_rest c p s r found)))
]

strip_all-suffix : (p : Str) (fuel : ℕ) (s : Str) → (q : Str) × (s ≡ q ++ strip_all fuel s p)
unfolding strip_all
strip_all-suffix p zero s = ([], refl)
strip_all-suffix p (suc fuel) s = elim (Option-cases (strip_prefix s p)) [
  | inl missed ↦ ([], rw (missed, strip_all) refl)
  | inr (r, found) ↦
      let (q, e) = strip_all-suffix p fuel r in
      (
        p ++ q,
        rw (found, strip_all)
            (strip_prefix-eq-append p s r found ∙ ap (λ t. p ++ t) e ∙ sym (append_assoc p q _)),
      )
]

-- Nothing is left to trim at the start.
pub trim_start_matches-done :
    (c : ℕ) (p s : Str) → strip_prefix (trim_start_matches s (c ∷ p)) (c ∷ p) ≡ none
unfolding trim_start_matches
trim_start_matches-done c p s = strip_all-done c p (length s) s (omega arith)

pub trim_start_matches-suffix :
    (c : ℕ) (p s : Str) → (q : Str) × (s ≡ q ++ trim_start_matches s (c ∷ p))
unfolding trim_start_matches
trim_start_matches-suffix c p s = strip_all-suffix (c ∷ p) (length s) s

-- Trimming the end keeps a prefix of the text.
pub trim_end_matches-prefix :
    (p : Str) (c : ℕ) (q s : Str) → reverse p ≡ c ∷ q → (t : Str) × (s ≡ trim_end_matches s p ++ t)
unfolding trim_end_matches
trim_end_matches-prefix p c q s e =
    let (t, split_at) = trim_start_matches-suffix c q (reverse s) in
    (
      reverse t,
      rw e (
          sym (reverse-reverse s)
          ∙ ap reverse split_at
          ∙ reverse-append t (trim_start_matches (reverse s) (c ∷ q))),
    )

none-of_longer : (p s t : Str) → strip_prefix (s ++ t) p ≡ none → strip_prefix s p ≡ none
none-of_longer p s t h = elim (Option-cases (strip_prefix s p)) [
  | inl missed ↦ missed
  | inr (r, found) ↦ cc (strip_prefix-extend p s r t found)
]

-- Trimmed at the start and then at the end, a text has the pattern at neither end.
pub trim_matches-ends :
    (c : ℕ) (p : Str) (d : ℕ) (q s : Str)
    → reverse (c ∷ p) ≡ d ∷ q
    → (starts_with (trim_end_matches (trim_start_matches s (c ∷ p)) (c ∷ p)) (c ∷ p) ≡ false)
      × (ends_with (trim_end_matches (trim_start_matches s (c ∷ p)) (c ∷ p)) (c ∷ p) ≡ false)
unfolding starts_with ends_with
trim_matches-ends c p d q s e =
    let x = trim_start_matches s (c ∷ p) in
    let (t, whole) = trim_end_matches-prefix (c ∷ p) d q x e in
    let at_start : strip_prefix (trim_end_matches x (c ∷ p)) (c ∷ p) ≡ none =
      none-of_longer (c ∷ p) (trim_end_matches x (c ∷ p)) t
        (rw (← whole) (trim_start_matches-done c p s)) in
    let at_end : strip_prefix (reverse (trim_end_matches x (c ∷ p))) (reverse (c ∷ p)) ≡ none =
      unfold trim_end_matches in
      rw (reverse-reverse, e) (trim_start_matches-done d q (reverse x)) in
    (rw at_start refl, rw at_end refl)

pub ends_with-append : (s p : Str) → ends_with (s ++ p) p ≡ true
unfolding ends_with starts_with
ends_with-append s p = rw (reverse-append s p, strip_prefix-append (reverse p) (reverse s)) refl
