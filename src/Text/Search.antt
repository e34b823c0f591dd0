-- ===== src/Text/Search.antt =====
-- `find`, `contains`, `replace` and `split`.
use rbatis.Prelude.{
  ℕ, zero, suc, ◌+◌, ◌-◌, Bool, true, false, Option, none, some, List, [], ◌∷◌, ◌++◌, length,
}
use rbatis.Text.Basic.{Str, starts_with}

unfoldable pub find_from : Str → Str → ℕ → Option ℕ
find_from p [] i = none
find_from p (c ∷ s) i = elim (starts_with (c ∷ s) p) [
  | true ↦ some i
  | false ↦ find_from p s (i + 1)
]

-- The position of the first match; `p` is not empty.
unfoldable pub find : Str → Str → Option ℕ
unfolding find_from
find s p = find_from p s 0

unfoldable pub contains : Str → Str → Bool
contains [] p = starts_with [] p
contains (c ∷ s) p = elim (starts_with (c ∷ s) p) [ true ↦ true | false ↦ contains s p ]

-- The number counts the characters of a match that are still to skip.
unfoldable pub replace_from : Str → Str → ℕ → Str → Str
replace_from from to k [] = []
replace_from from to (suc k) (c ∷ s) = replace_from from to k s
replace_from from to zero (c ∷ s) = elim (starts_with (c ∷ s) from) [
  | true ↦ to ++ replace_from from to (length from - 1) s
  | false ↦ c ∷ replace_from from to zero s
]

-- An empty pattern matches before each character and at the end.
unfoldable pub replace_empty : Str → Str → Str
replace_empty to [] = to
replace_empty to (c ∷ s) = to ++ c ∷ replace_empty to s

-- `s.replace(from, to)`: every match, from left to right.
unfoldable pub replace : Str → Str → Str → Str
unfolding replace_from replace_empty
replace s [] to = replace_empty to s
replace s (c ∷ from) to = replace_from (c ∷ from) to 0 s

abbrev onto_head : ℕ → List Str → List Str
onto_head c [] = (c ∷ []) ∷ []
onto_head c (part ∷ parts) = (c ∷ part) ∷ parts

unfoldable pub split_from : Str → ℕ → Str → List Str
split_from p k [] = [] ∷ []
split_from p (suc k) (c ∷ s) = split_from p k s
split_from p zero (c ∷ s) = elim (starts_with (c ∷ s) p) [
  | true ↦ [] ∷ split_from p (length p - 1) s
  | false ↦ onto_head c (split_from p zero s)
]

-- `s.split(p)`; `p` is not empty.
unfoldable pub split : Str → Str → List Str
unfolding split_from
split s p = split_from p 0 s
