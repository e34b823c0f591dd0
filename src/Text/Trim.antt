-- ===== src/Text/Trim.antt =====
-- `trim`, `trim_start_matches` and their kin.
use rbatis.Prelude.{
  ℕ, zero, suc, Bool, ◌&&◌, ◌||◌, none, some, [], ◌∷◌, reverse, leb, ◌==◌, length, if◌then◌else◌,
}
use rbatis.Text.Basic.{Str, strip_prefix}

-- `char::is_whitespace`: the Unicode property White_Space.
unfoldable pub is_whitespace : ℕ → Bool
is_whitespace c =
    leb 9 c && leb c 13
    || c == 32
    || c == 0x85
    || c == 0xa0
    || c == 0x1680
    || leb 0x2000 c && leb c 0x200a
    || c == 0x2028
    || c == 0x2029
    || c == 0x202f
    || c == 0x205f
    || c == 0x3000

unfoldable pub trim_start : Str → Str
unfolding is_whitespace
trim_start [] = []
trim_start (c ∷ s) = if is_whitespace c then trim_start s else c ∷ s

unfoldable pub trim_end : Str → Str
unfolding trim_start
trim_end s = reverse (trim_start (reverse s))

unfoldable pub trim : Str → Str
unfolding trim_end
trim s = trim_end (trim_start s)

-- Each round removes at least one character, so the length of the text is enough fuel.
unfoldable pub strip_all : ℕ → Str → Str → Str
unfolding strip_prefix
strip_all zero s p = s
strip_all (suc fuel) s p = elim (strip_prefix s p) [ none ↦ s | some r ↦ strip_all fuel r p ]

-- An empty pattern removes nothing.
unfoldable pub trim_start_matches : Str → Str → Str
unfolding strip_all
trim_start_matches s [] = s
trim_start_matches s (c ∷ p) = strip_all (length s) s (c ∷ p)

unfoldable pub trim_end_matches : Str → Str → Str
unfolding trim_start_matches
trim_end_matches s p = reverse (trim_start_matches (reverse s) (reverse p))
