-- ===== src/Ast/Arguments.antt =====
-- src/ast/node: what an evaluation does to the arguments that were collected before it.
use rbatis.Ast.Defs.{Overrides, ForEach}
use rbatis.Ast.Nodes.{
  and_then, append_child, run_if, where_node, trim_node, or_else, with_env, run_round, rounds, over,
}
use rbatis.Ast.StringNode.{State, Step}
use rbatis.Json.{Value, null, bool, number, string, array, object, items}
use rbatis.Prelude.{
  ℕ, ◌+◌, ◌≡◌, sym, ap, ◌∙◌, true, false, List, [], ◌∷◌, ◌++◌, append_assoc, append-nil, Outcome,
  ok, err, panic,
}
use rbatis.Text.{Str}

module _ {N : Type 0} where
  -- The arguments of `after` are those of `before` with more behind them.
  unfoldable pub Extends : State N → State N → Type 0
  Extends before after = (more : List (Value N)) × (after.arg_array ≡ before.arg_array ++ more)

  unfoldable pub Grows : Step N → Type 0
  Grows m = (st : State N) → Extends st (m st).1

  pub Extends-refl : (st : State N) → Extends st st
  unfolding Extends
  Extends-refl st = ([], sym (append-nil st.arg_array))

  pub Extends-trans : (a b c : State N) → Extends a b → Extends b c → Extends a c
  unfolding Extends
  Extends-trans a b c (s, e) (t, h) =
      (s ++ t, h ∙ ap (λ l. l ++ t) e ∙ append_assoc a.arg_array s t)

  and_then-Extends :
      (st : State N) (r : Outcome Str × State N) (next : Str → Step N)
      → Extends st r.1
      → ((s : Str) → Grows (next s))
      → Extends st (and_then r next).1
  unfolding and_then Grows
  and_then-Extends st (ok s, after) next h k = Extends-trans st after (next s after).1 h (k s after)
  and_then-Extends st (err message, after) next h k = h
  and_then-Extends st (panic, after) next h k = h

  pub append_child-Grows :
      (item rest : Step N) → Grows item → Grows rest → Grows (append_child item rest)
  unfolding append_child Grows
  append_child-Grows item rest h k st =
      and_then-Extends st (item st) _ (h st)
        (λ s st'. and_then-Extends st' (rest st') _ (k st') (λ t st''. Extends-refl st''))

  pub run_if-Grows :
      (childs : Step N) (message : Str) (r : Outcome (Value N))
      → Grows childs
      → Grows (run_if childs message r)
  unfolding run_if Grows
  run_if-Grows childs message (ok (bool true)) h st = h st
  run_if-Grows childs message (ok (bool false)) h st = Extends-refl st
  run_if-Grows childs message (ok null) h st = Extends-refl st
  run_if-Grows childs message (ok (number _)) h st = Extends-refl st
  run_if-Grows childs message (ok (string _)) h st = Extends-refl st
  run_if-Grows childs message (ok (array _)) h st = Extends-refl st
  run_if-Grows childs message (ok (object _)) h st = Extends-refl st
  run_if-Grows childs message (err _) h st = Extends-refl st
  run_if-Grows childs message panic h st = Extends-refl st

  pub or_else-Extends :
      (st : State N) (r : Outcome Str × State N) (later : Step N)
      → Extends st r.1
      → Grows later
      → Extends st (or_else r later).1
  unfolding or_else Grows
  or_else-Extends st (ok s, after) later h k = h
  or_else-Extends st (err message, after) later h k =
      Extends-trans st after (later after).1 h (k after)
  or_else-Extends st (panic, after) later h k = h

  pub where_node-Grows : (childs : Step N) → Grows childs → Grows (where_node childs)
  unfolding where_node Grows
  where_node-Grows childs h st =
      and_then-Extends st (childs st) _ (h st) (λ s st'. Extends-refl st')

  pub trim_node-Grows :
      (childs : Step N) (t : Overrides) → Grows childs → Grows (trim_node childs t)
  unfolding trim_node Grows
  trim_node-Grows childs t h st =
      and_then-Extends st (childs st) _ (h st) (λ s st'. Extends-refl st')

  with_env-Extends :
      (st : State N) (env : Value N) (r : Outcome Str × State N)
      → Extends st r.1
      → Extends st (with_env env r).1
  unfolding with_env Extends
  with_env-Extends st env (result, after) h = h

  module _ (from_nat : ℕ → N) where
    run_round-Grows :
        (childs : Step N) (index : ℕ) (item : Value N)
        → Grows childs
        → Grows (run_round from_nat childs index item)
    unfolding run_round Grows Extends
    run_round-Grows childs index item h st = with_env-Extends st st.env _ (h _)

    rounds-Grows :
        (childs : Step N) (separator : Str) (index : ℕ) (collection : List (Value N))
        → Grows childs
        → Grows (rounds from_nat childs separator index collection)
    unfolding rounds Grows
    rounds-Grows childs separator index [] h st = Extends-refl st
    rounds-Grows childs separator index (item ∷ collection) h st =
        and_then-Extends st (run_round from_nat childs index item st) _
          (run_round-Grows childs index item h st)
          (λ s st'.
            and_then-Extends st' (rounds from_nat childs separator (index + 1) collection st') _
              (rounds-Grows childs separator (index + 1) collection h st')
              (λ t st''. Extends-refl st''))

    pub over-Grows :
        (childs : Step N) (f : ForEach) (v : Value N)
        → Grows childs
        → Grows (over from_nat childs f v)
    unfolding over Grows
    over-Grows childs f null h st = Extends-refl st
    over-Grows childs f (bool _) h st = Extends-refl st
    over-Grows childs f (number _) h st = Extends-refl st
    over-Grows childs f (string _) h st = Extends-refl st
    over-Grows childs f (object _) h st = Extends-refl st
    over-Grows childs f (array vs) h st =
        and_then-Extends st (rounds from_nat childs f.separator 0 (items vs) st) _
          (rounds-Grows childs f.separator 0 (items vs) h st) (λ s st'. Extends-refl st')
