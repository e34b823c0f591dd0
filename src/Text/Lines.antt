-- ===== src/Text/Lines.antt =====
-- `str::lines`: a line ends at a line feed, or at a carriage return and a line feed.
use rbatis.Prelude.{ℕ, Bool, false, ◌&&◌, List, [], ◌∷◌, ◌==◌, if◌then◌else◌}
use rbatis.Text.{Str}

unfoldable pub starts_line_feed : Str → Bool
starts_line_feed [] = false
starts_line_feed (c ∷ s) = c == b'\n'

-- A character in front of the first line, which begins with it if there is none.
unfoldable pub onto_line : ℕ → List Str → List Str
onto_line c [] = (c ∷ []) ∷ []
onto_line c (x ∷ ls) = (c ∷ x) ∷ ls

unfoldable pub lines : Str → List Str
unfolding starts_line_feed onto_line
lines [] = []
lines (c ∷ s) =
    let rest = lines s in
    if c == b'\n'
    then [] ∷ rest
    else if c == b'\r' && starts_line_feed s
    then rest
    else onto_line c rest
