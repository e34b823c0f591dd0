-- ===== src/Py/Lines.antt =====
-- src/ast/lang/py.rs: the lines of a template and their indentation. The counters are `i32` in the
-- source and begin at -1, which is `none` here or the next line's number.
use rbatis.Text.Lines.{lines}
use rbatis.Prelude.{
  ℕ, ◌+◌, true, false, Option, none, some, List, [], ◌∷◌, ◌++◌, leb, ◌==◌, if◌then◌else◌, Outcome,
  ok, panic,
}
use rbatis.Text.{Str}

-- `HashMap<i32, i32>` from a line's number to its spaces, the last insertion in front.
abbrev pub LineSpaceMap : Type 0
LineSpaceMap = List (ℕ × ℕ)

unfoldable pub get_space : ℕ → LineSpaceMap → Option ℕ
get_space line [] = none
get_space line ((k, space) ∷ m) = if line == k then some space else get_space line m

unfoldable pub count_space : Str → ℕ
count_space [] = 0
count_space (c ∷ s) = let rest = count_space s in if c == b' ' then 1 + rest else 0

unfoldable pub insert_spaces : ℕ → List Str → LineSpaceMap → LineSpaceMap
insert_spaces line [] m = m
insert_spaces line (x ∷ ls) m = insert_spaces (1 + line) ls ((line, count_space x) ∷ m)

unfoldable pub create_line_space_map : Str → LineSpaceMap
create_line_space_map arg = insert_spaces 0 (lines arg) []

-- The loop of `find_child_str`, at the number of the next line.
unfoldable pub gather :
    ℕ → ℕ → LineSpaceMap → ℕ → Str → Option ℕ → List Str → Outcome (Str × Option ℕ)
gather line_index space_index m line result skip_line [] = ok (result, skip_line)
gather line_index space_index m line result skip_line (x ∷ ls) = elim (leb line_index line) [
  | false ↦ gather line_index space_index m (1 + line) result skip_line ls
  | true ↦ elim (get_space line m) [
    | none ↦ panic
    | some space ↦ elim (leb space_index space) [
      | true ↦ gather line_index space_index m (1 + line) (result ++ x ++ b'\n' ∷ []) (some line) ls
      | false ↦ ok (result, skip_line)
    ]
  ]
]

-- The block from a line on: its text, and the number of its last line.
unfoldable pub find_child_str : ℕ → ℕ → Str → LineSpaceMap → Outcome (Str × Option ℕ)
find_child_str line_index space_index arg m = gather line_index space_index m 0 [] none (lines arg)
