-- ===== src/Text/Basic.antt =====
-- Literals, equality, prefixes and suffixes, and decimal numbers.
use Prim.Native.Char.{code}
use Prim.Native.String.{String}
use rbatis.Prelude.{
  ℕ, zero, suc, ◌+◌, ◌/◌, ◌%◌, ◌≡◌, refl, ◌↔◌, ◌⊎◌, inl, inr, Bool, true, false, ◌&&◌, Option, none,
  some, List, [], ◌∷◌, ◌++◌, reverse, arith, ltb, ◌==◌, if◌then◌else◌, Option-cases,
}

abbrev pub Str : Type 0
Str = List ℕ

abbrev pub codes : String → Str
codes String.[] = []
codes (String.◌∷◌ c s) = code c ∷ codes s

unfoldable pub str_eq : Str → Str → Bool
str_eq [] [] = true
str_eq (a ∷ s) (b ∷ t) = (a == b) && str_eq s t
str_eq _ _ = false

pub str_eq_iff : (s t : Str) → (str_eq s t ≡ true) ↔ (s ≡ t)
unfolding str_eq
str_eq_iff [] [] = ground arith
str_eq_iff [] (b ∷ t) = ground arith
str_eq_iff (a ∷ s) [] = ground arith
str_eq_iff (a ∷ s) (b ∷ t) = ground (arith, str_eq_iff s t)

pub str_eq_refl : (s : Str) → str_eq s s ≡ true
str_eq_refl s = (str_eq_iff s s).1 refl

unfoldable pub is_empty : Str → Bool
is_empty [] = true
is_empty (c ∷ s) = false

-- What follows the prefix `p`, if `s` starts with it.
unfoldable pub strip_prefix : Str → Str → Option Str
strip_prefix s [] = some s
strip_prefix [] (b ∷ p) = none
strip_prefix (a ∷ s) (b ∷ p) = if a == b then strip_prefix s p else none

is_found {ℓ} : {A : Type ℓ} → Option A → Bool
is_found none = false
is_found (some _) = true

unfoldable pub starts_with : Str → Str → Bool
unfolding strip_prefix is_found
starts_with s p = is_found (strip_prefix s p)

unfoldable pub ends_with : Str → Str → Bool
unfolding starts_with
ends_with s p = starts_with (reverse s) (reverse p)

pub strip_prefix-eq-append : (p s r : Str) → strip_prefix s p ≡ some r → s ≡ p ++ r
unfolding strip_prefix
strip_prefix-eq-append [] s r h = ground arith
strip_prefix-eq-append (b ∷ p) [] r h = cc
strip_prefix-eq-append (b ∷ p) (a ∷ s) r h = ground (arith, strip_prefix-eq-append p s r)

pub strip_prefix-append : (p r : Str) → strip_prefix (p ++ r) p ≡ some r
unfolding strip_prefix
strip_prefix-append [] r = refl
strip_prefix-append (b ∷ p) r = ground (arith, strip_prefix-append p r)

unfoldable pub decimal_digits : ℕ → ℕ → Str
decimal_digits zero n = []
decimal_digits (suc fuel) n =
    let high = decimal_digits fuel (n / 10) in
    if ltb n 10 then (b'0' + n) ∷ [] else high ++ (b'0' + n % 10) ∷ []

-- `format!("{}", n)`: a number below 2 ^ 64 has at most 20 digits.
unfoldable pub decimal : ℕ → Str
unfolding decimal_digits
decimal n = decimal_digits 20 n

-- `String::pop`, for what it leaves.
unfoldable pub pop : Str → Str
pop [] = []
pop (c ∷ []) = []
pop (c ∷ d ∷ s) = c ∷ pop (d ∷ s)

-- Whether a text starts with another, with what follows if it does.
pub starts_with-cases :
    (s p : Str)
    → (starts_with s p ≡ false)
      ⊎ ((r : Str) × (strip_prefix s p ≡ some r) × (starts_with s p ≡ true))
unfolding starts_with
starts_with-cases s p = elim (Option-cases (strip_prefix s p)) [
  | inl missed ↦ inl (rw missed refl)
  | inr (r, found) ↦ inr (r, found, rw found refl)
]
