-- ===== src/Wrapper/Blanks.antt =====
-- Trimming the blanks of a wrapper's text, linking a condition to it and making a call under a test
-- keep placeholders and arguments balanced.
use rbatis.Driver.{DriverType, mysql, postgres, sqlite}
use rbatis.Text.Count.{count, count-reverse}
use rbatis.Wrapper.Balance.{IsBalanced, Gives}
use rbatis.Wrapper.Defs.{
  Wrapper, Method, do_if, right_link_wrapper, trim_sql, trim_sql_start, trim_sql_end,
}
use rbatis.Wrapper.Marks.{mark_char}
use rbatis.Wrapper.RightLink.{right_link_wrapper-IsBalanced}
use rbatis.Prelude.{
  ℕ, ◌≡◌, refl, ◌∙◌, inl, inr, Bool, true, false, [], ◌∷◌, arith, ◌==◌, Bool-cases,
}
use rbatis.Prelude.{reverse}
use rbatis.Text.{Str, is_whitespace, trim_start, trim_end, trim}

mark_char-solid : (d : DriverType) → is_whitespace (mark_char d) ≡ false
unfolding is_whitespace
mark_char-solid DriverType.none = refl
mark_char-solid postgres = refl
mark_char-solid mysql = refl
mark_char-solid sqlite = refl

apart : (c k : ℕ) → is_whitespace c ≡ false → is_whitespace k ≡ true → (k == c) ≡ false
apart c k solid blank = elim (Bool-cases (k == c)) [
  | inl same ↦ let e : k ≡ c = ground (arith, same) in cc (solid, blank, e)
  | inr other ↦ other
]

count-trim_start : (c : ℕ) (s : Str) → is_whitespace c ≡ false → count c (trim_start s) ≡ count c s
unfolding trim_start
count-trim_start c [] h = refl
count-trim_start c (k ∷ s) h = elim (Bool-cases (is_whitespace k)) [
  | inl blank ↦ rw (trim_start, blank, apart c k h blank) (omega (arith, count-trim_start c s h))
  | inr solid ↦ rw (trim_start, solid) refl
]

count-trim_end : (c : ℕ) (s : Str) → is_whitespace c ≡ false → count c (trim_end s) ≡ count c s
unfolding trim_end
count-trim_end c s h =
    count-reverse c (trim_start (reverse s)) ∙ count-trim_start c (reverse s) h ∙ count-reverse c s

module _ {N : Type 0} (d : DriverType) (sql : Str) (w : Wrapper N) where
  pub trim_sql_start-IsBalanced : IsBalanced d w → IsBalanced d (trim_sql_start sql w)
  unfolding trim_sql_start
  trim_sql_start-IsBalanced b = record {
    driver = b.driver;
    marks = count-trim_start (mark_char d) w.sql (mark_char-solid d) ∙ b.marks;
  }

  pub trim_sql_end-IsBalanced : IsBalanced d w → IsBalanced d (trim_sql_end sql w)
  unfolding trim_sql_end
  trim_sql_end-IsBalanced b = record {
    driver = b.driver;
    marks = count-trim_end (mark_char d) w.sql (mark_char-solid d) ∙ b.marks;
  }

  pub trim_sql-IsBalanced : IsBalanced d w → IsBalanced d (trim_sql sql w)
  unfolding trim_sql trim
  trim_sql-IsBalanced b = record {
    driver = b.driver;
    marks =
        count-trim_end (mark_char d) (trim_start w.sql) (mark_char-solid d)
        ∙ count-trim_start (mark_char d) w.sql (mark_char-solid d)
        ∙ b.marks;
  }

pub right_link_wrapper-Gives :
    {N : Type 0} (d : DriverType) (arg w : Wrapper N)
    → IsBalanced d arg
    → IsBalanced d w
    → Gives d (right_link_wrapper arg w)
right_link_wrapper-Gives d arg w p b =
    let (r, done, balanced, args) = right_link_wrapper-IsBalanced d arg w p b in (r, done, balanced)

pub do_if-Gives :
    {N : Type 0} (d : DriverType) (test : Bool) (method : Method N) (w : Wrapper N)
    → Gives d (method w)
    → IsBalanced d w
    → Gives d (do_if test method w)
unfolding do_if
do_if-Gives d true method w h b = h
do_if-Gives d false method w h b = (w, refl, b)
