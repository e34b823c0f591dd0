-- ===== src/Engine/Operators.antt =====
-- `OptMap` of src/engine/runtime.rs: the operators, and the order in which the parser takes them.
use rbatis.Prelude.{ℕ, Bool, true, false, ◌&&◌, ◌||◌, List, [], ◌∷◌, leb, if◌then◌else◌, length}
use rbatis.Text.{Str, codes, str_eq}

-- A `HashMap<&str, bool>` is its entries.
pub record OptMap : Type 0 where
  pub list : List Str
  pub map : List (Str × Bool)
  pub mul_ops_map : List (Str × Bool)
  pub single_opt_map : List (Str × Bool)
  pub allow_priority_array : List Str

unfoldable pub operators : List Str
operators =
    codes "*"
    ∷ codes "/"
    ∷ codes "%"
    ∷ codes "^"
    ∷ codes "+"
    ∷ codes "-"
    ∷ codes "("
    ∷ codes ")"
    ∷ codes "@"
    ∷ codes "#"
    ∷ codes "$"
    ∷ codes "&"
    ∷ codes "|"
    ∷ codes "="
    ∷ codes "!"
    ∷ codes ">"
    ∷ codes "<"
    ∷ codes "&&"
    ∷ codes "||"
    ∷ codes "=="
    ∷ codes "!="
    ∷ codes ">="
    ∷ codes "<="
    ∷ []

unfoldable pub priorities : List Str
priorities =
    codes "*"
    ∷ codes "/"
    ∷ codes "+"
    ∷ codes "-"
    ∷ codes "<="
    ∷ codes "<"
    ∷ codes ">="
    ∷ codes ">"
    ∷ codes "!="
    ∷ codes "=="
    ∷ codes "&&"
    ∷ codes "||"
    ∷ []

-- The entries for the operators of at least `least` and at most `most` characters.
unfoldable pub entries_of : ℕ → ℕ → List Str → List (Str × Bool)
entries_of least most [] = []
entries_of least most (item ∷ list) =
    let entries = entries_of least most list in
    if leb least (length item) && leb (length item) most then (item, true) ∷ entries else entries

unfoldable pub new : OptMap
unfolding operators priorities entries_of
new = record {
  list = operators;
  map = entries_of 0 2 operators;
  mul_ops_map = entries_of 2 2 operators;
  single_opt_map = entries_of 0 1 operators;
  allow_priority_array = priorities;
}

unfoldable pub has_key : Str → List (Str × Bool) → Bool
has_key key [] = false
has_key key ((k, v) ∷ entries) = str_eq k key || has_key key entries

unfoldable pub is_opt : OptMap → Str → Bool
is_opt opt_map arg = has_key arg opt_map.map

unfoldable pub is_member : Str → List Str → Bool
is_member arg [] = false
is_member arg (item ∷ items) = str_eq arg item || is_member arg items

unfoldable pub is_allow_opt : OptMap → Str → Bool
is_allow_opt opt_map arg = is_member arg opt_map.allow_priority_array
