-- ===== src/Ast/Nodes.antt =====
-- src/ast/node: the evaluation of each kind of node, with the evaluation of its children, which
-- `do_child_nodes` runs, as an argument.
use rbatis.Ast.Defs.{Overrides, ForEach}
use rbatis.Ast.StringNode.{State, Step}
use rbatis.Json.{Value, Fields, null, bool, number, object, array, field, end, items}
use rbatis.Utils.ValueUtil.{get_deep_value}
use rbatis.Prelude.{
  ℕ, ◌+◌, Bool, true, false, ◌&&◌, ◌||◌, List, [], ◌∷◌, ◌++◌, ltb, ◌==◌, if◌then◌else◌, Outcome, ok,
  err, panic,
}
use rbatis.Text.{Str, codes, str_eq, is_empty, split, trim, trim_start_matches, trim_end_matches}

-- Key order of serde_json's maps: the order of the code points is the order of the UTF-8 bytes.
unfoldable pub precedes : Str → Str → Bool
precedes [] [] = false
precedes [] (b ∷ t) = true
precedes (a ∷ s) [] = false
precedes (a ∷ s) (b ∷ t) = ltb a b || a == b && precedes s t

module _ {N : Type 0} where
  unfoldable pub insert_field : Str → Value N → Fields N → Fields N
  insert_field key v end = field key v end
  insert_field key v (field k w fs) =
      let later = insert_field key v fs in
      if str_eq k key
      then field k v fs
      else if precedes key k
      then field key v (field k w fs)
      else field k w later

  -- `env[key] = v`: null becomes an object, and any other value panics.
  unfoldable pub set_index : Str → Value N → Value N → Outcome (Value N)
  set_index key v (object fs) = ok (object (insert_field key v fs))
  set_index key v null = ok (object (field key v end))
  set_index key v _ = panic

  -- The `?` operator on a result that comes with the state it leaves.
  unfoldable pub and_then : Outcome Str × State N → (Str → Step N) → Outcome Str × State N
  and_then (ok s, st) next = next s st
  and_then (err message, st) next = (err message, st)
  and_then (panic, st) next = (panic, st)

  -- One round of `do_child_nodes`: the first child's text, and that of the others.
  unfoldable pub append_child : Step N → Step N → Step N
  append_child item rest st =
      and_then (item st) (λ s st'. and_then (rest st') (λ t st''. (ok (s ++ t), st'')))

unfoldable pub where_text : Str → Str
where_text s =
    if is_empty (trim s)
    then codes " "
    else codes " WHERE "
      ++ trim_start_matches
          (trim_start_matches
            (trim_start_matches
              (trim_start_matches
                (trim_start_matches (trim_start_matches (trim s) (codes "and")) (codes "AND"))
                (codes "And"))
              (codes "or"))
            (codes "Or"))
          (codes "OR")

unfoldable pub trim_starts : List Str → Str → Str
trim_starts [] result = result
trim_starts (item ∷ splits) result = trim_starts splits (trim_start_matches result item)

unfoldable pub trim_ends : List Str → Str → Str
trim_ends [] result = result
trim_ends (item ∷ splits) result = trim_ends splits (trim_end_matches result item)

unfoldable pub cut_start : Str → Str → Str
cut_start overrides result =
    if is_empty overrides then result else trim_starts (split overrides (codes "|")) result

unfoldable pub cut_end : Str → Str → Str
cut_end overrides result =
    if is_empty overrides then result else trim_ends (split overrides (codes "|")) result

unfoldable pub trim_text : Overrides → Str → Str
trim_text t s =
    codes " "
    ++ t.prefix
    ++ codes " "
    ++ cut_end t.suffix_overrides (cut_start t.prefix_overrides (trim s))
    ++ codes " "
    ++ t.suffix

-- The variables of a round of the loop of `foreach`.
unfoldable pub loop_env : {N : Type 0} → Value N → Value N → Value N
loop_env index item = object (field (codes "index") index (field (codes "item") item end))

module _ {N : Type 0} where
  -- The children run if the test is true.
  unfoldable pub run_if : Step N → Str → Outcome (Value N) → Step N
  run_if childs message (ok (bool true)) st = childs st
  run_if childs message (ok (bool false)) st = (ok [], st)
  run_if childs message (ok _) st = (err message, st)
  run_if childs message (err e) st = (err e, st)
  run_if childs message panic st = (panic, st)

  unfoldable pub assigned : Outcome (Value N) → Step N
  assigned (ok env) st = (ok [], record st { env = env })
  assigned (err message) st = (err message, st)
  assigned panic st = (panic, st)

  unfoldable pub bind_to : Str → Outcome (Value N) → Step N
  bind_to name (ok r) st = assigned (set_index name r st.env) st
  bind_to name (err message) st = (err message, st)
  bind_to name panic st = (panic, st)

  unfoldable pub where_node : Step N → Step N
  where_node childs st = and_then (childs st) (λ s st'. (ok (where_text s), st'))

  unfoldable pub trim_node : Step N → Overrides → Step N
  trim_node childs t st = and_then (childs st) (λ s st'. (ok (trim_text t s), st'))

  unfoldable pub separated : Str → List (Value N) → Str
  separated separator [] = []
  separated separator (_ ∷ _) = separator

  unfoldable pub or_else : Outcome Str × State N → Step N → Outcome Str × State N
  or_else (ok s, st) later = (ok s, st)
  or_else (err message, st) later = later st
  or_else (panic, st) later = (panic, st)

  -- One round of the loop over the `when` nodes: the first one that returns no error ends it.
  unfoldable pub first_ok : Step N → Step N → Step N
  first_ok item later st = or_else (item st) later

  unfoldable pub with_env : Value N → Outcome Str × State N → Outcome Str × State N
  with_env env (result, st) = (result, record st { env = env })

module _ {N : Type 0} (engine : Str → Value N → Outcome (Value N)) where
  unfoldable pub if_node : Step N → Str → Step N
  if_node childs test st =
      run_if childs (codes "[rbatis] express:'" ++ test ++ codes "' is not return bool value!")
        (engine test st.env) st

  unfoldable pub when_node : Step N → Str → Step N
  when_node childs test st =
      run_if childs (codes "[rbatis] test:'" ++ test ++ codes "' is not return bool!")
        (engine test st.env) st

  unfoldable pub bind_node : Str → Str → Step N
  bind_node name value st = bind_to name (engine value st.env) st

module _ {N : Type 0} (from_nat : ℕ → N) where
  -- The children run on the loop's variables alone, and what they bind ends with the round.
  unfoldable pub run_round : Step N → ℕ → Value N → Step N
  run_round childs index item st =
      with_env st.env (childs (record st { env = loop_env (number (from_nat index)) item }))

  unfoldable pub rounds : Step N → Str → ℕ → List (Value N) → Step N
  rounds childs separator index [] st = (ok [], st)
  rounds childs separator index (item ∷ collection) st =
      and_then (run_round childs index item st) (λ s st'.
        and_then (rounds childs separator (index + 1) collection st')
          (λ t st''. (ok (s ++ separated separator collection ++ t), st'')))

  unfoldable pub over : Step N → ForEach → Value N → Step N
  over childs f null st =
      (err (codes "[rbatis] collection name:" ++ f.collection ++ codes " is none value!"), st)
  over childs f (array vs) st =
      and_then (rounds childs f.separator 0 (items vs) st)
        (λ s st'. (ok (f.open_text ++ s ++ f.close), st'))
  over childs f _ st = (
    err (codes "[rbatis] collection name:" ++ f.collection ++ codes " is not a array value!"),
    st,
  )

  unfoldable pub for_each_node : Step N → ForEach → Step N
  for_each_node childs f st = over childs f (get_deep_value f.collection st.env) st
