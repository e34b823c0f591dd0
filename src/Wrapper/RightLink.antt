-- ===== src/Wrapper/RightLink.antt =====
-- `right_link`: a condition with arguments of its own is appended to a wrapper.
use rbatis.Driver.{DriverType, none, postgres, mysql, sqlite, stmt_convert}
use rbatis.Text.Count.{count, count-append, count-replace}
use rbatis.Wrapper.Defs.{Wrapper, renumber, right_link, right_link_wrapper, is_postgres}
use rbatis.Wrapper.Marks.{mark_char, postgres_mark, postgres_mark-count}
use rbatis.Wrapper.Balance.{IsBalanced}
use rbatis.Prelude.{
  ℕ, zero, suc, ◌+◌, ◌≡◌, refl, sym, ◌∙◌, ◌++◌, arith, if◌then◌else◌, length, length-append, ok,
}
use rbatis.Text.{Str, codes, decimal, replace}

-- Renumbering replaces placeholders by placeholders.
renumber-count :
    (left index n : ℕ) (sql : Str)
    → (r : Str) × (renumber postgres left index n sql ≡ ok r) × (count b'$' r ≡ count b'$' sql)
unfolding renumber stmt_convert
renumber-count zero index n sql = (sql, refl, refl)
renumber-count (suc left) index n sql =
    let (r, done, same) =
      renumber-count left (index + 1) n
        (replace sql (postgres_mark index) (postgres_mark (index + n))) in
    (
      r,
      done,
      same
          ∙ count-replace b'$' b' ' (codes "$" ++ decimal (index + 1) ++ codes " ")
              (postgres_mark (index + n)) sql
              (postgres_mark-count index ∙ sym (postgres_mark-count (index + n))),
    )

relink :
    (d : DriverType) (n : ℕ) (sql : Str)
    → (r : Str) × ((if is_postgres d then renumber d n 0 n sql else ok sql) ≡ ok r)
      × (count (mark_char d) r ≡ count (mark_char d) sql)
relink postgres n sql = renumber-count n 0 n sql
relink mysql n sql = (sql, refl, refl)
relink sqlite n sql = (sql, refl, refl)
relink none n sql = (sql, refl, refl)

relink_of :
    {e d : DriverType} (same : e ≡ d) (n : ℕ) (sql : Str)
    → (r : Str) × ((if is_postgres e then renumber e n 0 n sql else ok sql) ≡ ok r)
      × (count (mark_char d) r ≡ count (mark_char d) sql)
relink_of {d} same n sql = rw same (relink d n sql)

pub right_link_wrapper-IsBalanced :
    {N : Type 0} (d : DriverType) (arg w : Wrapper N)
    → IsBalanced d arg
    → IsBalanced d w
    → (r : Wrapper N) × (right_link_wrapper arg w ≡ ok r)
      × IsBalanced d r
      × (r.args ≡ w.args ++ arg.args)
unfolding right_link_wrapper right_link
right_link_wrapper-IsBalanced d arg w a b =
    let (new_sql, done, same) = relink_of a.driver (length arg.args) arg.sql in
    (
      record w { sql = w.sql ++ new_sql; args = w.args ++ arg.args },
      rw done refl,
      record {
        driver = b.driver;
        marks = omega (
          arith,
          a.marks,
          b.marks,
          same,
          count-append (mark_char d) w.sql new_sql,
          length-append w.args arg.args,
        );
      },
      refl,
    )
