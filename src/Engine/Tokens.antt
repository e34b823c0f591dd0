-- ===== src/Engine/Tokens.antt =====
-- The lexer of src/engine/runtime.rs: `parser_tokens`, `trim_push_back` and `is_number`.
use rbatis.Engine.Operators.{OptMap, is_opt}
use rbatis.Prelude.{
  ℕ, ◌+◌, Bool, true, false, ◌&&◌, ◌||◌, not, Option, none, some, List, [], ◌∷◌, ◌++◌, ltb, leb,
  ◌==◌, if◌then◌else◌,
}
use rbatis.Text.{Str, is_empty, trim}

unfoldable pub is_number : Str → Bool
is_number [] = true
is_number (c ∷ s) = (c == b'.' || leb b'0' c && leb c b'9') && is_number s

-- `String::len`: the bytes of a character in UTF-8.
unfoldable pub utf8_width : ℕ → ℕ
utf8_width c = if ltb c 0x80 then 1 else if ltb c 0x800 then 2 else if ltb c 0x10000 then 3 else 4

unfoldable pub utf8_len : Str → ℕ
utf8_len [] = 0
utf8_len (c ∷ s) = utf8_width c + utf8_len s

-- The variables of the loop. `index` is the number of characters that were read before, and
-- `result` is the linked list of the tokens, the first one first.
pub record Lexer : Type 0 where
  pub result : List Str
  pub find_str : Bool
  pub temp_str : Str
  pub temp_arg : Str
  pub index : ℕ

unfoldable pub trim_push_back : Str → List Str → List Str
trim_push_back arg list = if is_empty (trim arg) then list else list ++ trim arg ∷ []

unfoldable pub back : List Str → Option Str
back [] = none
back (x ∷ []) = some x
back (x ∷ y ∷ list) = back (y ∷ list)

unfoldable pub pop_back : List Str → List Str
pop_back [] = []
pop_back (x ∷ []) = []
pop_back (x ∷ y ∷ list) = x ∷ pop_back (y ∷ list)

-- An operator's character extends the operator before it.
unfoldable pub push_opt : OptMap → ℕ → List Str → List Str
push_opt opt_map item result = elim (back result) [
  | none ↦ trim_push_back (item ∷ []) result
  | some last ↦
      if not (is_empty last) && is_opt opt_map last
      then trim_push_back (last ++ item ∷ []) (pop_back result)
      else trim_push_back (item ∷ []) result
]

unfoldable pub is_quote : ℕ → Bool
is_quote item = item == b'\'' || item == b'`'

-- One round of the loop, for a text of `chars_len` bytes.
unfoldable pub read : OptMap → ℕ → ℕ → Lexer → Lexer
read opt_map chars_len item l =
    if is_quote item
    then (if l.find_str
        then record l {
          result = trim_push_back (l.temp_str ++ item ∷ []) l.result;
          find_str = false;
          temp_str = [];
          index = l.index + 1;
        }
        else record l { find_str = true; temp_str = l.temp_str ++ item ∷ []; index = l.index + 1 })
    else if l.find_str
    then record l { temp_str = l.temp_str ++ item ∷ []; index = l.index + 1 }
    else if is_opt opt_map (item ∷ [])
    then record l {
      result = push_opt opt_map item (trim_push_back l.temp_arg l.result);
      temp_arg = [];
      index = l.index + 1;
    }
    else record l {
      result =
          if l.index + 1 == chars_len
          then trim_push_back (l.temp_arg ++ item ∷ []) l.result
          else l.result;
      temp_arg = l.temp_arg ++ item ∷ [];
      index = l.index + 1;
    }

unfoldable pub read_all : OptMap → ℕ → Str → Lexer → Lexer
read_all opt_map chars_len [] l = l
read_all opt_map chars_len (item ∷ s) l =
    read_all opt_map chars_len s (read opt_map chars_len item l)

abbrev pub start : Lexer
start = record { result = []; find_str = false; temp_str = []; temp_arg = []; index = 0 }

unfoldable pub parser_tokens : OptMap → Str → List Str
parser_tokens opt_map s = (read_all opt_map (utf8_len s) s start).result
