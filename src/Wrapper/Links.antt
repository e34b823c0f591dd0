-- ===== src/Wrapper/Links.antt =====
-- How conditions are joined: `and`, `all_eq` and `right_link_wrapper`.
use rbatis.Driver.{postgres, stmt_convert}
use rbatis.Json.{Value, object, field, end}
use rbatis.Text.Trimmed.{ends_with-append}
use rbatis.Wrapper.Calls.{and, eq, bound, eq_each, all_eq}
use rbatis.Wrapper.Defs.{Wrapper, push_str, push_arg, add_and, is_linked}
use rbatis.Wrapper.Marks.{IsPlain}
use rbatis.Prelude.{
  ℕ, ◌≡◌, refl, ap, inl, inr, true, false, none, [], ◌∷◌, ◌++◌, reverse-append, arith, Bool-cases,
  length, ok,
}
use rbatis.Text.{Str, codes, strip_prefix, starts_with, ends_with, replace_from}

-- After a link word nothing is added.
is_linked-append : (s : Str) → is_linked (s ++ codes " AND ") ≡ true
unfolding is_linked
is_linked-append s = ground (arith, ends_with-append s (codes " AND "))

module _ {N : Type 0} where
  add_and_unlinked :
      (w : Wrapper N) → is_linked w.sql ≡ false → add_and w ≡ push_str w (codes " AND ")
  unfolding add_and
  add_and_unlinked w h = rw h refl

  add_and_linked : (w : Wrapper N) → is_linked w.sql ≡ true → add_and w ≡ w
  unfolding add_and
  add_and_linked w h = rw h refl

  -- `and` on a text that ends in no link word writes " AND " twice, and the condition that `eq`
  -- adds next stands behind both.
  pub eq-and :
      (w : Wrapper N) (column m : Str) (v : Value N)
      → is_linked w.sql ≡ false
      → stmt_convert w.driver_type (length w.args) ≡ ok m
      → eq column v (and w)
        ≡ ok (record w {
          sql = w.sql ++ codes " AND " ++ codes " AND " ++ column ++ (codes " = " ++ m ++ []);
          args = w.args ++ v ∷ [];
        })
  unfolding and bound
  eq-and w column m v h e =
      rw
        (
          add_and_unlinked w h,
          add_and_linked (push_str (push_str w (codes " AND ")) (codes " AND "))
              (is_linked-append (w.sql ++ codes " AND ")),
          e,
        )
        refl

dollar_mismatch :
    (p s t : Str)
    → IsPlain postgres s
    → strip_prefix t (b'$' ∷ p) ≡ none
    → strip_prefix (s ++ t) (b'$' ∷ p) ≡ none
unfolding strip_prefix
dollar_mismatch p [] t h k = k
dollar_mismatch p (c ∷ s) t h k = ground arith

no_match :
    (p : Str) (c : ℕ) (s t : Str)
    → IsPlain postgres (c ∷ s)
    → strip_prefix t (b'$' ∷ p) ≡ none
    → starts_with (c ∷ (s ++ t)) (b' ' ∷ b'$' ∷ p) ≡ false
unfolding starts_with
no_match p c s t h k = ground (arith, dollar_mismatch p s t (omega (arith, h)) k)

-- A text without '$' is passed over by the search for a Postgres placeholder.
pub replace-append :
    (p to s t : Str)
    → IsPlain postgres s
    → strip_prefix t (b'$' ∷ p) ≡ none
    → replace_from (b' ' ∷ b'$' ∷ p) to 0 (s ++ t) ≡ s ++ replace_from (b' ' ∷ b'$' ∷ p) to 0 t
unfolding replace_from
replace-append p to [] t h k = refl
replace-append p to (c ∷ s) t h k =
    rw (no_match p c s t h k, replace_from)
      (ap (λ r. c ∷ r) (replace-append p to s t (omega (arith, h)) k))

-- A text that ends in a comma ends in no link word.
is_linked-comma : (s : Str) → is_linked (s ++ codes " , ") ≡ false
unfolding is_linked ends_with starts_with strip_prefix
is_linked-comma s = rw (reverse-append s (codes " , ")) refl

module _ {N : Type 0} where
  add_and_idem : (w : Wrapper N) → add_and (add_and w) ≡ add_and w
  add_and_idem w = elim (Bool-cases (is_linked w.sql)) [
    | inl yes_linked ↦ ap add_and (add_and_linked w yes_linked)
    | inr not_linked ↦
        rw (add_and_unlinked w not_linked)
          (add_and_linked (push_str w (codes " AND ")) (is_linked-append w.sql))
  ]

  eq_each-two :
      (w : Wrapper N) (k k' m m' : Str) (v v' : Value N)
      → add_and w ≡ w
      → stmt_convert w.driver_type (length w.args) ≡ ok m
      → stmt_convert w.driver_type (length (w.args ++ v ∷ [])) ≡ ok m'
      → eq_each 2 0 ((k, v) ∷ (k', v') ∷ []) w
        ≡ ok (record w {
          sql =
              (w.sql ++ k ++ (codes " = " ++ m ++ []) ++ codes " , " ++ codes " AND " ++ k')
              ++ (codes " = " ++ m' ++ []);
          args = w.args ++ v ∷ [] ++ v' ∷ [];
        })
  unfolding eq_each bound
  eq_each-two w k k' m m' v v' h e e' =
      rw
        (
          h,
          e,
          add_and_unlinked
              (push_str (push_arg (push_str (push_str w k) (codes " = " ++ m ++ [])) v)
                (codes " , "))
              (is_linked-comma (w.sql ++ k ++ (codes " = " ++ m ++ []))),
          e',
        )
        refl

  -- Between the conditions for two fields `all_eq` writes both a comma and " AND ".
  pub all_eq_two :
      (w : Wrapper N) (k k' m m' : Str) (v v' : Value N)
      → stmt_convert (add_and w).driver_type (length (add_and w).args) ≡ ok m
      → stmt_convert (add_and w).driver_type (length ((add_and w).args ++ v ∷ [])) ≡ ok m'
      → all_eq (object (field k v (field k' v' end))) w
        ≡ ok (record (add_and w) {
          sql =
              ((add_and w).sql
                ++ k
                ++ (codes " = " ++ m ++ [])
                ++ codes " , "
                ++ codes " AND "
                ++ k')
              ++ (codes " = " ++ m' ++ []);
          args = (add_and w).args ++ v ∷ [] ++ v' ∷ [];
        })
  unfolding all_eq
  all_eq_two w k k' m m' v v' e e' = eq_each-two (add_and w) k k' m m' v v' (add_and_idem w) e e'
