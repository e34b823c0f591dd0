-- ===== src/Engine/Node.antt =====
-- src/engine/node.rs: the nodes of a parsed expression. `Node` has a constructor per function that
-- makes a node: only `new_binary` fills the fields left_binary_node and right_binary_node.
use rbatis.Engine.Operators.{OptMap, is_opt}
use rbatis.Engine.Tokens.{is_number}
use rbatis.Engine.Eval as Eval
use rbatis.Engine.Eval.{Numeric}
use rbatis.Json.{Value, null, bool, number, string, array, is_null, get, of_items}
use rbatis.Prelude.{
  unwrap, ℕ, ◌-◌, Bool, true, false, ◌&&◌, ◌||◌, not, Option, none, some, List, [], ◌∷◌, reverse,
  ◌==◌, if◌then◌else◌, length, Outcome, ok, err, ◌>>=◌,
}
use rbatis.Text.{Str, codes, str_eq, is_empty, find, replace, split}

pub data Node (N : Type 0) : Type 0 where
  new_null : Node N
  new_arg : List Str → Node N
  new_string : Str → Node N
  new_number : Value N → Node N
  new_bool : Bool → Node N
  new_binary : Node N → Node N → Str → Node N
  new_opt : Str → Node N

pub data NodeType : Type 0 where
  n_arg n_string n_number n_bool n_null n_binary n_opt : NodeType

module _ {N : Type 0} where
  unfoldable strings : List Str → List (Value N)
  strings [] = []
  strings (s ∷ parts) = string s ∷ strings parts

  -- The field `value`.
  unfoldable pub value : Node N → Value N
  unfolding strings
  value new_null = null
  value (new_arg parts) = array (of_items (strings parts))
  value (new_string s) = string s
  value (new_number v) = v
  value (new_bool b) = bool b
  value (new_binary left right opt) = string opt
  value (new_opt opt) = string opt

  unfoldable pub node_type : Node N → NodeType
  node_type new_null = n_null
  node_type (new_arg _) = n_arg
  node_type (new_string _) = n_string
  node_type (new_number _) = n_number
  node_type (new_bool _) = n_bool
  node_type (new_binary _ _ _) = n_binary
  node_type (new_opt _) = n_opt

  unfoldable pub is_value_node : Node N → Option (Value N)
  unfolding value
  is_value_node (new_binary _ _ _) = none
  is_value_node (new_arg _) = none
  is_value_node node = some (value node)

  -- `v.get(key).unwrap_or(&Value::Null)`
  unfoldable pub get_or_null : Value N → Str → Value N
  get_or_null v key = elim (get v key) [ none ↦ null | some found ↦ found ]

  -- The loop over the parts of an argument's name.
  unfoldable pub get_path : List Str → Value N → Value N
  unfolding get_or_null
  get_path [] v = null
  get_path (part ∷ []) v = get_or_null v part
  get_path (part ∷ next ∷ parts) v =
      let found = get_path (next ∷ parts) (get_or_null v part) in
      if is_null (get_or_null v part) then get_or_null v part else found

  -- `result.unwrap_or(Value::Null)`
  unfoldable pub or_null : Outcome (Value N) → Outcome (Value N)
  or_null (err message) = ok null
  or_null outcome = outcome

  unfoldable pub new_number_of : Option N → Node N
  new_number_of none = new_number null
  new_number_of (some n) = new_number (number n)

module _ {N F : Type 0} (ops : Numeric N F) where
  unfoldable pub eval : Node N → Value N → Outcome (Value N)
  eval (new_binary left right opt) env = do
    left_v ← or_null (eval left env)
    right_v ← or_null (eval right env)
    Eval.eval ops left_v right_v opt
  eval (new_arg parts) env = ok (get_path parts env)
  eval node env = ok (value node)

  -- `json!(f)` of an `f64` that is not finite is null.
  unfoldable pub new_number_f64 : F → Node N
  new_number_f64 f = new_number_of (ops.from_f64 f)

-- `s.rfind(p)` for a text of one character.
unfoldable pub rfind : Str → Str → Option ℕ
rfind s p = elim (find (reverse s) p) [ none ↦ none | some i ↦ some (length s - 1 - i) ]

unfoldable pub or_zero : Option ℕ → ℕ
or_zero none = 0
or_zero (some i) = i

-- The first and the last position of a quote, or what stands for them. A position is counted in
-- characters: it is compared with 0 and with the last position only.
unfoldable pub quote_span : Str → Str → ℕ × ℕ → ℕ × ℕ
quote_span text quote before =
    if or_zero (rfind text quote) == 0
    then before
    else (or_zero (find text quote), or_zero (rfind text quote))

unfoldable pub is_quoted : Str → Bool
is_quoted text =
    let span = quote_span text (codes "`") (quote_span text (codes "'") (0, 0)) in
    span.0 == 0 && span.1 == length text - 1 && not (span.0 == span.1)

module _ {N F : Type 0} (ops : Numeric N F) where
  unfoldable pub parse_number : Str → Outcome (Node N)
  parse_number text =
      if or_zero (find text (codes ".")) == 0
      then (do n ← unwrap (ops.parse_i64 text); ok (new_number (number n)))
      else (do f ← unwrap (ops.parse_f64 text); ok (new_number_f64 ops f))

  -- `Node::parser`; the number's `parse().unwrap()` panics on a text that is no number.
  unfoldable pub parser : OptMap → Str → Outcome (Node N)
  parser opt text =
      if is_empty text || str_eq text (codes "null")
      then ok new_null
      else if str_eq text (codes "true")
      then ok (new_bool true)
      else if str_eq text (codes "false")
      then ok (new_bool false)
      else if is_opt opt text
      then ok (new_opt text)
      else if is_quoted text
      then ok (new_string (replace (replace text (codes "'") []) (codes "`") []))
      else if is_number text
      then parse_number text
      else ok (new_arg (split text (codes ".")))
