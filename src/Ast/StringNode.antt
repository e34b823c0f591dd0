-- ===== src/Ast/StringNode.antt =====
-- src/ast/node/string_node.rs: a text with the markers #{...}, which become placeholders with an
-- argument, and ${...}, which are replaced by their value.
use rbatis.Ast.Defs.{StringNode}
use rbatis.Driver.{DriverType, stmt_convert}
use rbatis.Json.{Value, get, string}
use rbatis.Utils.StringUtil.{find_convert_string, find_no_convert_string}
use rbatis.Prelude.{Option, none, some, List, [], ◌∷◌, ◌++◌, length, Outcome, ok, err, panic, ◌>>=◌}
use rbatis.Text.{Str, codes, replace}

-- What a node is evaluated in: the variables, which `bind` changes, and the arguments so far.
pub record State (N : Type 0) : Type 0 where
  pub env : Value N
  pub arg_array : List (Value N)

-- An error leaves the changes that were made before it.
abbrev pub Step : Type 0 → Type 0
Step N = State N → Outcome Str × State N

unfoldable pub mark_entries : Str → List Str → List (Str × Str)
mark_entries mark [] = []
mark_entries mark (item ∷ finds) = (item, mark ++ item ++ codes "}") ∷ mark_entries mark finds

-- `StringNode::new`; `order` is the order in which a map lists its keys.
unfoldable pub new : (List Str → List Str) → Str → StringNode
new order v = record {
  value = v;
  express_map = mark_entries (codes "#{") (find_convert_string order v);
  no_convert_express_map = mark_entries (codes "${") (find_no_convert_string order v);
}

module _ {N : Type 0} where
  -- `env.get(item).unwrap_or(..).as_str().unwrap_or("")`
  unfoldable pub text_of : Option (Value N) → Str
  text_of (some (string s)) = s
  text_of _ = []

  unfoldable pub replace_texts : List (Str × Str) → Value N → Str → Str
  replace_texts [] env result = result
  replace_texts ((item, value) ∷ entries) env result =
      replace_texts entries env (replace result value (text_of (get env item)))

  module _ (engine : Str → Value N → Outcome (Value N)) where
    -- The variable of that name, or the value of the expression; its error makes `unwrap` panic.
    unfoldable pub argument : Value N → Str → Outcome (Value N)
    argument env item = elim (get env item) [
      | some v ↦ ok v
      | none ↦ elim (engine item env) [ ok v ↦ ok v | err message ↦ panic | panic ↦ panic ]
    ]

    unfoldable pub push_args :
        DriverType → List (Str × Str) → Str → State N → Outcome (Str × State N)
    push_args d [] result st = ok (result, st)
    push_args d ((item, value) ∷ entries) result st = do
      mark ← stmt_convert d (length st.arg_array)
      v ← argument st.env item
      push_args d entries (replace result value mark)
          (record st { arg_array = st.arg_array ++ v ∷ [] })

    unfoldable pub finish : StringNode → State N → Outcome (Str × State N) → Outcome Str × State N
    finish node st (ok (result, after)) =
        (ok (replace_texts node.no_convert_express_map after.env result), after)
    finish node st (err message) = (err message, st)
    finish node st panic = (panic, st)

    unfoldable pub eval : DriverType → StringNode → Step N
    eval d node st = finish node st (push_args d node.express_map node.value st)
