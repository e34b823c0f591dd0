-- ===== src/Wrapper/Chain.antt =====
-- Chains of builder calls on a new wrapper (`Wrapper::new(d).eq(..).and()..check()`) keep it balanced.
use rbatis.Driver.{DriverType}
use rbatis.Json.{Value}
use rbatis.Wrapper.Calls
use rbatis.Wrapper.Calls.{bound}
use rbatis.Wrapper.Defs.{
  Wrapper, new, from, add_and, add_or, push_str, push_sql, upper_words, right_link_wrapper,
}
use rbatis.Wrapper.Marks.{mark_char, IsPlain, IsPlain-text}
use rbatis.Wrapper.Balance.{
  IsBalanced, Gives, push_str-IsBalanced, add_and-IsBalanced, add_or-IsBalanced,
  trim_and-IsBalanced, trim_or-IsBalanced, bound-IsBalanced,
}
use rbatis.Wrapper.Blanks.{
  trim_sql-IsBalanced, trim_sql_start-IsBalanced, trim_sql_end-IsBalanced, right_link_wrapper-Gives,
  do_if-Gives,
}
use rbatis.Wrapper.BalanceLists.{
  bound_between-IsBalanced, bound_list-IsBalanced, in_array-IsBalanced, all_eq-IsBalanced,
  push_clause-IsBalanced,
}
use rbatis.Wrapper.Invocations.{
  Call, and, or, trim_and_call, trim_or_call, having, push_sql_call, is_null, is_not_null, eq, ne,
  gt, ge, lt, le, like, like_left, like_right, not_like, between, not_between, in_array, not_in,
  all_eq, order_by, group_by, trim_sql_call, trim_sql_start_call, trim_sql_end_call,
  right_link_call, right_link_wrapper_call, do_if_call, apply, chain, IsPlainCall,
}
use rbatis.Text.Count.{count, count-append, count-replace}
use rbatis.Prelude.{◌≡◌, refl, sym, ◌∙◌, ◌≢◌, true, false, List, [], ◌∷◌, ◌++◌, arith, All, ok}
use rbatis.Text.{Str, codes, replace}

-- Two plain texts in a row are plain.
IsPlain-append : (d : DriverType) (s t : Str) → IsPlain d s → IsPlain d t → IsPlain d (s ++ t)
IsPlain-append d s t p q = omega (arith, count-append (mark_char d) s t)

-- Replacing a key word by a key word keeps a text plain; each begins with a space.
IsPlain-word :
    (d : DriverType) (word to s : Str)
    → (count b'$' (b' ' ∷ word) ≡ 0) × (count b'?' (b' ' ∷ word) ≡ 0)
    → (count b'$' to ≡ 0) × (count b'?' to ≡ 0)
    → IsPlain d s
    → IsPlain d (replace s (b' ' ∷ word) to)
IsPlain-word d word to s p q r =
    count-replace (mark_char d) b' ' word to s
      (IsPlain-text d (b' ' ∷ word) p ∙ sym (IsPlain-text d to q))
    ∙ r

upper_words-IsPlain : (d : DriverType) (s : Str) → IsPlain d s → IsPlain d (upper_words s)
unfolding upper_words
upper_words-IsPlain d s p =
    IsPlain-word d (codes "where ") (codes " WHERE ") _ (refl, refl) (refl, refl)
      (IsPlain-word d (codes "or ") (codes " OR ") _ (refl, refl) (refl, refl)
        (IsPlain-word d (codes "and ") (codes " AND ") s (refl, refl) (refl, refl) p))

module _ {N : Type 0} (d : DriverType) (connected : d ≢ DriverType.none) where
  -- The text of a clause of two parts after a link.
  linked_clause :
      (w : Wrapper N) (s t : Str)
      → IsPlain d s
      → IsPlain d t
      → IsBalanced d w
      → IsBalanced d (push_str (push_str (add_and w) s) t)
  linked_clause w s t p q b =
      push_str-IsBalanced d (push_str (add_and w) s) t q
        (push_str-IsBalanced d (add_and w) s p (add_and-IsBalanced d w b))

  one :
      (before after c : Str) (v : Value N) (w : Wrapper N)
      → (count b'$' before ≡ 0) × (count b'?' before ≡ 0)
      → (count b'$' after ≡ 0) × (count b'?' after ≡ 0)
      → IsPlain d c
      → IsBalanced d w
      → Gives d (bound before after c v w)
  one before after c v w p q r b =
      bound-IsBalanced d connected before after c v w (IsPlain-text d before p)
        (IsPlain-text d after q) r b

  pub apply-IsBalanced :
      (c : Call N) (w : Wrapper N) → IsPlainCall d c → IsBalanced d w → Gives d (apply c w)
  unfolding apply Calls.and Calls.or Calls.having Calls.is_null Calls.is_not_null push_sql
  apply-IsBalanced and w p b = (
    _,
    refl,
    push_str-IsBalanced d (add_and w) (codes " AND ") (IsPlain-text d (codes " AND ") (refl, refl))
        (add_and-IsBalanced d w b),
  )
  apply-IsBalanced or w p b = (
    _,
    refl,
    push_str-IsBalanced d (add_or w) (codes " OR ") (IsPlain-text d (codes " OR ") (refl, refl))
        (add_or-IsBalanced d w b),
  )
  apply-IsBalanced trim_and_call w p b = (_, refl, trim_and-IsBalanced d w b)
  apply-IsBalanced trim_or_call w p b = (_, refl, trim_or-IsBalanced d w b)
  apply-IsBalanced (having s) w p b = (
    _,
    refl,
    push_str-IsBalanced d (add_and w) (codes " HAVING " ++ s ++ codes " ")
        (IsPlain-append d (codes " HAVING " ++ s) (codes " ")
          (IsPlain-append d (codes " HAVING ") s (IsPlain-text d (codes " HAVING ") (refl, refl)) p)
          (IsPlain-text d (codes " ") (refl, refl)))
        (add_and-IsBalanced d w b),
  )
  apply-IsBalanced (push_sql_call s) w p b =
      (_, refl, push_str-IsBalanced d w (upper_words s) (upper_words-IsPlain d s p) b)
  apply-IsBalanced (is_null c) w p b = (
    _,
    refl,
    linked_clause w c (codes " IS NULL") p (IsPlain-text d (codes " IS NULL") (refl, refl)) b,
  )
  apply-IsBalanced (is_not_null c) w p b = (
    _,
    refl,
    linked_clause w c (codes " IS NOT NULL") p (IsPlain-text d (codes " IS NOT NULL") (refl, refl))
        b,
  )
  apply-IsBalanced (eq c v) w p b = one (codes " = ") [] c v w (refl, refl) (refl, refl) p b
  apply-IsBalanced (ne c v) w p b = one (codes " <> ") [] c v w (refl, refl) (refl, refl) p b
  apply-IsBalanced (gt c v) w p b = one (codes " > ") [] c v w (refl, refl) (refl, refl) p b
  apply-IsBalanced (ge c v) w p b = one (codes " >= ") [] c v w (refl, refl) (refl, refl) p b
  apply-IsBalanced (lt c v) w p b = one (codes " < ") [] c v w (refl, refl) (refl, refl) p b
  apply-IsBalanced (le c v) w p b = one (codes " <= ") [] c v w (refl, refl) (refl, refl) p b
  apply-IsBalanced (like c v) w p b =
      one (codes " LIKE '%") (codes "%'") c v w (refl, refl) (refl, refl) p b
  apply-IsBalanced (like_left c v) w p b =
      one (codes " LIKE '%") (codes "'") c v w (refl, refl) (refl, refl) p b
  apply-IsBalanced (like_right c v) w p b =
      one (codes " LIKE '") (codes "%'") c v w (refl, refl) (refl, refl) p b
  apply-IsBalanced (not_like c v) w p b =
      one (codes " NOT LIKE '%") (codes "%'") c v w (refl, refl) (refl, refl) p b
  apply-IsBalanced (between c u v) w p b =
      bound_between-IsBalanced d connected (codes " BETWEEN ") c u v w
        (IsPlain-text d (codes " BETWEEN ") (refl, refl)) p b
  apply-IsBalanced (not_between c u v) w p b =
      bound_between-IsBalanced d connected (codes " NOT BETWEEN ") c u v w
        (IsPlain-text d (codes " NOT BETWEEN ") (refl, refl)) p b
  apply-IsBalanced (in_array c vec) w p b = in_array-IsBalanced d connected c vec w p b
  apply-IsBalanced (not_in c vec) w p b =
      bound_list-IsBalanced d connected (codes " NOT IN ") c vec w
        (IsPlain-text d (codes " NOT IN ") (refl, refl)) p b
  apply-IsBalanced (all_eq v) w p b = all_eq-IsBalanced d connected v w p b
  apply-IsBalanced (order_by true columns) w p b = (
    _,
    refl,
    push_clause-IsBalanced d (codes " ORDER BY ") (codes " ASC") columns w
        (IsPlain-text d (codes " ORDER BY ") (refl, refl))
        (IsPlain-text d (codes " ASC") (refl, refl)) p b,
  )
  apply-IsBalanced (order_by false columns) w p b = (
    _,
    refl,
    push_clause-IsBalanced d (codes " ORDER BY ") (codes " DESC") columns w
        (IsPlain-text d (codes " ORDER BY ") (refl, refl))
        (IsPlain-text d (codes " DESC") (refl, refl)) p b,
  )
  apply-IsBalanced (group_by columns) w p b = (
    _,
    refl,
    push_clause-IsBalanced d (codes " GROUP BY ") [] columns w
        (IsPlain-text d (codes " GROUP BY ") (refl, refl)) (IsPlain-text d [] (refl, refl)) p b,
  )
  apply-IsBalanced (trim_sql_call s) w p b = (_, refl, trim_sql-IsBalanced d s w b)
  apply-IsBalanced (trim_sql_start_call s) w p b = (_, refl, trim_sql_start-IsBalanced d s w b)
  apply-IsBalanced (trim_sql_end_call s) w p b = (_, refl, trim_sql_end-IsBalanced d s w b)
  apply-IsBalanced (right_link_call e s args) w p b =
      unfold right_link_wrapper from in right_link_wrapper-Gives d (from e s args) w p b
  apply-IsBalanced (right_link_wrapper_call arg) w p b = right_link_wrapper-Gives d arg w p b
  apply-IsBalanced (do_if_call test call) w p b =
      do_if-Gives d test (apply call) w (apply-IsBalanced call w p b) b

  chain_from-IsBalanced :
      (cs : List (Call N)) (w : Wrapper N)
      → All (IsPlainCall d) cs
      → IsBalanced d w
      → Gives d (chain cs w)
  unfolding chain
  chain_from-IsBalanced [] w p b = (w, refl, b)
  chain_from-IsBalanced (c ∷ cs) w (p, ps) b =
      let (w', done, b') = apply-IsBalanced c w p b in rw done (chain_from-IsBalanced cs w' ps b')

  -- On a connected driver every chain of builder calls but `set_sql` and `do_match` on a new wrapper
  -- returns, and its text has as many placeholders as there are arguments, if no column and no raw
  -- text that is passed in holds the placeholder character, and each condition that is linked is of
  -- the same driver and has as many placeholders as arguments.
  pub chain-IsBalanced :
      (cs : List (Call N))
      → All (IsPlainCall d) cs
      → (w : Wrapper N) × (chain cs (new d) ≡ ok w) × IsBalanced d w
  unfolding new
  chain-IsBalanced cs p =
      chain_from-IsBalanced cs (new d) p (record { driver = refl; marks = refl })
