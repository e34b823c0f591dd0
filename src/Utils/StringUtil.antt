-- ===== src/Utils/StringUtil.antt =====
-- src/utils/string_util.rs: the markers #{...} and ${...} of a template's text.
use rbatis.Prelude.{
  ℕ, ◌+◌, Bool, true, false, ◌&&◌, ◌||◌, Option, none, some, List, [], ◌∷◌, ◌++◌, ◌==◌,
  if◌then◌else◌,
}
use rbatis.Text.{Str, str_eq}

-- A found name loses what follows its first comma.
unfoldable pub before_comma : Str → Str
before_comma [] = []
before_comma (c ∷ s) = if c == b',' then [] else c ∷ before_comma s

-- The loop behind one character: `marked` is whether the character before was the mark, and
-- `inside` what was read behind an opened brace. All the tests are on ASCII characters, so bytes and
-- characters agree.
unfoldable pub find_marked : ℕ → Bool → Option Str → Str → List Str
find_marked mark marked inside [] = []
find_marked mark marked inside (v ∷ s) =
    let opened = find_marked mark false (some []) s in
    let closed = find_marked mark (v == mark) none s in
    if v == b'{' && marked then opened else elim inside [
      | none ↦ closed
      | some item ↦
          let longer = find_marked mark (v == mark) (some (item ++ v ∷ [])) s in
          if v == b'}' then before_comma item ∷ closed else longer
    ]

-- The keys of a `HashMap` that the items were inserted in, in the order of their insertion.
unfoldable pub is_listed : Str → List Str → Bool
is_listed item [] = false
is_listed item (x ∷ xs) = str_eq item x || is_listed item xs

unfoldable pub distinct : List Str → List Str
distinct [] = []
distinct (x ∷ xs) = if is_listed x (distinct xs) then distinct xs else x ∷ distinct xs

-- `last_index` starts at -1, as if a mark stood in front of the text. `order` is the order in which
-- the map lists its keys.
unfoldable pub find_convert_string : (List Str → List Str) → Str → List Str
find_convert_string order arg = order (distinct (find_marked b'#' true none arg))

unfoldable pub find_no_convert_string : (List Str → List Str) → Str → List Str
find_no_convert_string order arg = order (distinct (find_marked b'$' true none arg))

unfoldable pub count_string_num : Str → ℕ → ℕ
count_string_num [] c = 0
count_string_num (x ∷ s) c = let num = count_string_num s c in if x == c then num + 1 else num
