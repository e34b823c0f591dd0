-- ===== src/Py/Blocks.antt =====
-- src/ast/lang/py.rs: the block that `find_child_str` finds, described by the list of lines.
use rbatis.Py.Lines.{
  LineSpaceMap, get_space, count_space, insert_spaces, create_line_space_map, gather,
  find_child_str,
}
use rbatis.Text.Joined.{joined}
use rbatis.Text.Lines.{lines}
use rbatis.Prelude.{
  ℕ, zero, suc, ◌+◌, ◌≤◌, ◌<◌, ◌≡◌, refl, ap, ◌∙◌, inl, inr, true, false, Option, none, some, List,
  [], ◌∷◌, ◌++◌, append_assoc, append-nil, arith, leb, if◌then◌else◌, ==_refl, Bool-cases, length,
  drop, ok,
}
use rbatis.Text.{Str}

-- The first lines, as long as they have the spaces.
unfoldable pub block : ℕ → List Str → List Str
block space [] = []
block space (x ∷ ls) =
    let rest = block space ls in if leb space (count_space x) then x ∷ rest else []

-- The number of the last of the lines taken from a line on.
unfoldable pub last_line : Option ℕ → ℕ → List Str → Option ℕ
last_line skip_line line [] = skip_line
last_line skip_line line (x ∷ taken) = some (line + length taken)

-- The map has the spaces of each line.
abbrev pub Knows : LineSpaceMap → ℕ → List Str → Type 0
Knows m line [] = Unit
Knows m line (x ∷ ls) = (get_space line m ≡ some (count_space x)) × Knows m (1 + line) ls

get_space-insert_spaces :
    (k line : ℕ) (ls : List Str) (m : LineSpaceMap)
    → k < line
    → get_space k (insert_spaces line ls m) ≡ get_space k m
unfolding insert_spaces get_space
get_space-insert_spaces k line [] m h = refl
get_space-insert_spaces k line (x ∷ ls) m h =
    rw (get_space-insert_spaces k (1 + line) ls ((line, count_space x) ∷ m) (omega arith))
      (ground arith)

insert_spaces-Knows :
    (line : ℕ) (ls : List Str) (m : LineSpaceMap) → Knows (insert_spaces line ls m) line ls
unfolding insert_spaces get_space
insert_spaces-Knows line [] m = tt
insert_spaces-Knows line (x ∷ ls) m = (
  rw
      (
        get_space-insert_spaces line (1 + line) ls ((line, count_space x) ∷ m) (omega arith),
        ==_refl line,
      )
      refl,
  insert_spaces-Knows (1 + line) ls ((line, count_space x) ∷ m),
)

-- Every line is in the map, with its spaces.
pub create_line_space_map-Knows : (arg : Str) → Knows (create_line_space_map arg) 0 (lines arg)
unfolding create_line_space_map
create_line_space_map-Knows arg = insert_spaces-Knows 0 (lines arg) []

pub Knows-drop :
    (m : LineSpaceMap) (d line li : ℕ) (ls : List Str)
    → d + line ≡ li
    → Knows m line ls
    → Knows m li (drop d ls)
Knows-drop m zero line li ls e h = let same : line ≡ li = omega arith in rw (← same) h
Knows-drop m (suc d) line li [] e h = tt
Knows-drop m (suc d) line li (x ∷ ls) e (_, h) = Knows-drop m d (1 + line) li ls (omega arith) h

gather-after :
    (d li si : ℕ) (m : LineSpaceMap) (line : ℕ) (ls : List Str)
    → d + line ≡ li
    → gather li si m line [] none ls ≡ gather li si m li [] none (drop d ls)
unfolding gather
gather-after zero li si m line ls e =
    let same : line ≡ li = omega arith in ap (λ n. gather li si m n [] none ls) same
gather-after (suc d) li si m line [] e = refl
gather-after (suc d) li si m line (x ∷ ls) e =
    let later : leb li line ≡ false = ground arith in
    rw (later, gather) (gather-after d li si m (1 + line) ls (omega arith))

last_line-next :
    (skip_line : Option ℕ) (line : ℕ) (x : Str) (taken : List Str)
    → last_line (some line) (1 + line) taken ≡ last_line skip_line line (x ∷ taken)
unfolding last_line
last_line-next skip_line line x [] = ap some (omega arith)
last_line-next skip_line line x (y ∷ taken) = ap some (omega arith)

append-joined :
    (result x : Str) (ls : List Str)
    → (result ++ x ++ b'\n' ∷ []) ++ joined ls ≡ result ++ joined (x ∷ ls)
unfolding joined
append-joined result x ls = simp append_assoc

gather-block :
    (li si : ℕ) (m : LineSpaceMap) (line : ℕ) (result : Str) (skip_line : Option ℕ) (ls : List Str)
    → li ≤ line
    → Knows m line ls
    → gather li si m line result skip_line ls
      ≡ ok (result ++ joined (block si ls), last_line skip_line line (block si ls))
unfolding gather joined block last_line
gather-block li si m line result skip_line [] h k = rw append-nil refl
gather-block li si m line result skip_line (x ∷ ls) h (here, k) =
    let now : leb li line ≡ true = ground arith in
    elim (Bool-cases (leb si (count_space x))) [
      | inl deep ↦
          rw (gather, now, here, deep)
            (gather-block li si m (1 + line) (result ++ x ++ b'\n' ∷ []) (some line) ls
                (omega arith) k
              ∙ ap (λ text. ok (text, last_line (some line) (1 + line) (block si ls)))
                  (append-joined result x (block si ls))
              ∙ ap (λ last. ok (result ++ joined (x ∷ block si ls), last))
                  (last_line-next skip_line line x (block si ls)))
      | inr flat ↦ rw (gather, now, here, flat, append-nil) refl
    ]

-- At a line of the text, the block that is found are the lines from there on that have the spaces,
-- up to the first that has not; the number is that of its last line.
pub find_child_str-block :
    (arg : Str) (line_index space_index : ℕ)
    → find_child_str line_index space_index arg (create_line_space_map arg)
      ≡ ok (
        joined (block space_index (drop line_index (lines arg))),
        last_line none line_index (block space_index (drop line_index (lines arg))),
      )
unfolding find_child_str
find_child_str-block arg li si =
    let m = create_line_space_map arg in
    gather-after li li si m 0 (lines arg) (omega arith)
    ∙ gather-block li si m li [] none (drop li (lines arg)) (omega arith)
        (Knows-drop m li 0 li (lines arg) (omega arith) (create_line_space_map-Knows arg))
