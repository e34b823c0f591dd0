-- ===== src/Wrapper/Balance.antt =====
-- Every method keeps as many placeholders in the SQL text as there are arguments.
use rbatis.Driver.{DriverType}
use rbatis.Json.{Value}
use rbatis.Text.Count.{count, count-append, count-trim_start_matches, count-trim_end_matches}
use rbatis.Wrapper.Defs.{Wrapper, push_str, push_arg, is_linked, add_and, add_or, trim_and, trim_or}
use rbatis.Wrapper.Calls.{bound}
use rbatis.Wrapper.Marks.{mark_char, IsPlain, IsPlain-text, mark_of}
use rbatis.Prelude.{
  ◌≡◌, refl, ◌≢◌, inl, inr, [], ◌∷◌, ◌++◌, arith, if-cases, length, length-append, Outcome, ok,
}
use rbatis.Text.{Str, codes}

module _ {N : Type 0} where
  pub record IsBalanced (d : DriverType) (w : Wrapper N) : Type 0 where
    pub driver : w.driver_type ≡ d
    pub marks : count (mark_char d) w.sql ≡ length w.args

  -- The call returns, and what it returns is balanced.
  abbrev pub Gives : DriverType → Outcome (Wrapper N) → Type 0
  Gives d o = (w : Wrapper N) × (o ≡ ok w) × IsBalanced d w

  module _ (d : DriverType) where
    pub push_str-IsBalanced :
        (w : Wrapper N) (s : Str) → IsPlain d s → IsBalanced d w → IsBalanced d (push_str w s)
    push_str-IsBalanced w s p b = record {
      driver = b.driver;
      marks = omega (arith, b.marks, count-append (mark_char d) w.sql s);
    }

    pub push_mark-IsBalanced :
        (w : Wrapper N) (s : Str) (v : Value N)
        → count (mark_char d) s ≡ 1
        → IsBalanced d w
        → IsBalanced d (push_arg (push_str w s) v)
    push_mark-IsBalanced w s v p b = record {
      driver = b.driver;
      marks =
          omega (arith, b.marks, count-append (mark_char d) w.sql s, length-append w.args (v ∷ []));
    }

module _ {N : Type 0} (d : DriverType) where
  pub add_and-IsBalanced : (w : Wrapper N) → IsBalanced d w → IsBalanced d (add_and w)
  unfolding add_and
  add_and-IsBalanced w b = elim (if-cases (is_linked w.sql) w (push_str w (codes " AND "))) [
    | inl same ↦ rw same b
    | inr more ↦
        rw more
          (push_str-IsBalanced d w (codes " AND ") (IsPlain-text d (codes " AND ") (refl, refl)) b)
  ]

  pub add_or-IsBalanced : (w : Wrapper N) → IsBalanced d w → IsBalanced d (add_or w)
  unfolding add_or
  add_or-IsBalanced w b = elim (if-cases (is_linked w.sql) w (push_str w (codes " OR "))) [
    | inl same ↦ rw same b
    | inr more ↦
        rw more
          (push_str-IsBalanced d w (codes " OR ") (IsPlain-text d (codes " OR ") (refl, refl)) b)
  ]

  pub trim_and-IsBalanced : (w : Wrapper N) → IsBalanced d w → IsBalanced d (trim_and w)
  unfolding trim_and
  trim_and-IsBalanced w b = record {
    driver = b.driver;
    marks =
        rw
          (
            count-trim_end_matches (mark_char d) _ (codes " AND ")
                (IsPlain-text d (codes " AND ") (refl, refl)),
            count-trim_start_matches (mark_char d) w.sql (codes " AND ")
                (IsPlain-text d (codes " AND ") (refl, refl)),
          )
          b.marks;
  }

  pub trim_or-IsBalanced : (w : Wrapper N) → IsBalanced d w → IsBalanced d (trim_or w)
  unfolding trim_or
  trim_or-IsBalanced w b = record {
    driver = b.driver;
    marks =
        rw
          (
            count-trim_end_matches (mark_char d) _ (codes " OR ")
                (IsPlain-text d (codes " OR ") (refl, refl)),
            count-trim_start_matches (mark_char d) w.sql (codes " OR ")
                (IsPlain-text d (codes " OR ") (refl, refl)),
          )
          b.marks;
  }

-- The placeholder of the next argument, between plain texts.
pub mark-count :
    (d : DriverType) (before m after : Str)
    → IsPlain d before
    → count (mark_char d) m ≡ 1
    → IsPlain d after
    → count (mark_char d) (before ++ m ++ after) ≡ 1
mark-count d before m after p e q =
    omega
      (arith, count-append (mark_char d) (before ++ m) after, count-append (mark_char d) before m)

module _ {N : Type 0} (d : DriverType) (connected : d ≢ DriverType.none) where
  pub bound-IsBalanced :
      (before after column : Str) (v : Value N) (w : Wrapper N)
      → IsPlain d before
      → IsPlain d after
      → IsPlain d column
      → IsBalanced d w
      → Gives d (bound before after column v w)
  unfolding bound
  bound-IsBalanced before after column v w p q r b =
      let b' = add_and-IsBalanced d w b in
      let (m, written, once) = mark_of b'.driver (length (add_and w).args) connected in
      (
        _,
        rw written refl,
        push_mark-IsBalanced d (push_str (add_and w) column) (before ++ m ++ after) v
            (mark-count d before m after p once q) (push_str-IsBalanced d (add_and w) column r b'),
      )
