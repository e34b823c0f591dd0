-- ===== src/Page/Statements.antt =====
-- The statements that the page plugin makes.
use rbatis.Driver.{DriverType, page_limit_sql}
use mathlib.Core.Path.{ap₂}
use rbatis.Page.Defs.{IPageRequest, offset, normalize, is_select, create_page_sql}
use rbatis.Prelude.{
  ℕ, ◌≡◌, refl, sym, ap, ◌∙◌, inl, inr, true, false, [], ◌∷◌, ◌++◌, append_assoc, arith, Bool-cases,
  ok, panic,
}
use rbatis.Text.{Str, codes, strip_prefix, starts_with, contains, split_from, split}

-- A text that holds no match is not split.
split_from-single : (p s : Str) → contains s p ≡ false → split_from p 0 s ≡ s ∷ []
unfolding contains split_from
split_from-single p [] h = refl
split_from-single p (c ∷ s) h = elim (Bool-cases (starts_with (c ∷ s) p)) [
  | inl found ↦ cc (rw (found, contains) at h)
  | inr missed ↦
      rw (missed, split_from) (rw (split_from-single p s (rw (missed, contains) at h)) refl)
]

-- When a count is asked for and the statement with its limit starts with "SELECT " and has no
-- "FROM ", the page plugin panics.
pub create_page_sql-panic :
    (d : DriverType) (text limit_sql : Str) (page : IPageRequest)
    → page.is_serch_count ≡ true
    → page_limit_sql d (offset page) page.get_size ≡ ok limit_sql
    → starts_with (normalize text ++ limit_sql) (codes "SELECT ") ≡ true
    → contains (normalize text ++ limit_sql) (codes "FROM ") ≡ false
    → create_page_sql d text page ≡ panic
unfolding create_page_sql split is_select
create_page_sql-panic d text limit_sql page counts limited select no_from =
    rw
      (
        limited,
        select,
        counts,
        split_from-single (codes "FROM ") (normalize text ++ limit_sql) no_from,
      )
      refl

abbrev from_word : Str
from_word = codes "FROM "

-- A match of "FROM " does not reach over the end of a text into a "FROM " behind it.
starts_with-append :
    (c : ℕ) (a b : Str)
    → starts_with (c ∷ a ++ from_word ++ b) from_word ≡ starts_with (c ∷ a) from_word
unfolding starts_with strip_prefix
starts_with-append c [] b = ground arith
starts_with-append c (d ∷ []) b = ground arith
starts_with-append c (d ∷ e ∷ []) b = ground arith
starts_with-append c (d ∷ e ∷ f ∷ []) b = ground arith
starts_with-append c (d ∷ e ∷ f ∷ g ∷ a) b = ground arith

missed-head :
    (c : ℕ) (a b : Str)
    → contains (c ∷ a) from_word ≡ false
    → (starts_with (c ∷ a ++ from_word ++ b) from_word ≡ false) × (contains a from_word ≡ false)
unfolding contains
missed-head c a b h = elim (Bool-cases (starts_with (c ∷ a) from_word)) [
  | inl found ↦ cc (rw (found, contains) at h)
  | inr missed ↦ (starts_with-append c a b ∙ missed, rw (missed, contains) at h)
]

split_from-append :
    (a b : Str)
    → contains a from_word ≡ false
    → split_from from_word 0 (a ++ from_word ++ b) ≡ a ∷ split_from from_word 0 b
unfolding split_from starts_with strip_prefix
split_from-append [] b h = refl
split_from-append (c ∷ a) b h =
    let (missed, later) = missed-head c a b h in
    rw (missed, split_from) (rw (split_from-append a b later) refl)

contains-append :
    (a b : Str) → contains a from_word ≡ false → contains (a ++ from_word ++ b) from_word ≡ true
unfolding contains starts_with strip_prefix
contains-append [] b h = refl
contains-append (c ∷ a) b h =
    let (missed, later) = missed-head c a b h in rw (missed, contains) (contains-append a b later)

is_select-of_from : (s : Str) → contains s from_word ≡ true → is_select s ≡ true
unfolding is_select
is_select-of_from s h = ground arith

-- When a count is asked for, for a statement that holds "FROM " once when its key words are in
-- capitals, and whose limit clause holds none, the count statement keeps all that follows it, the
-- limit included, and the page statement is the whole with the limit.
pub create_page_sql-count :
    (d : DriverType) (text limit_sql a b : Str) (page : IPageRequest)
    → page.is_serch_count ≡ true
    → page_limit_sql d (offset page) page.get_size ≡ ok limit_sql
    → normalize text ≡ a ++ codes "FROM " ++ b
    → contains a (codes "FROM ") ≡ false
    → contains (b ++ limit_sql) (codes "FROM ") ≡ false
    → create_page_sql d text page
      ≡ ok (codes "SELECT count(1) FROM " ++ b ++ limit_sql, a ++ codes "FROM " ++ b ++ limit_sql)
unfolding create_page_sql split
create_page_sql-count d text limit_sql a b page counts limited normal first single =
    let whole : normalize text ++ limit_sql ≡ a ++ from_word ++ (b ++ limit_sql) =
      ap (λ t. t ++ limit_sql) normal ∙ append_assoc (a ++ from_word) b limit_sql in
    rw
      (
        limited,
        whole,
        is_select-of_from (a ++ from_word ++ (b ++ limit_sql))
            (contains-append a (b ++ limit_sql) first),
        counts,
        split_from-append a (b ++ limit_sql) first,
        split_from-single from_word (b ++ limit_sql) single,
      )
      (ap₂ (λ x y. ok (x, y)) (sym (append_assoc (codes "SELECT count(1) FROM ") b limit_sql))
        (sym (append_assoc (a ++ from_word) b limit_sql)))
