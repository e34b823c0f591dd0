-- ===== src/Page/Tests.antt =====
-- Runs of the page plugin, and the theorems at concrete inputs.
use rbatis.Driver.{mysql, page_limit_sql}
use rbatis.Page.Defs.{IPageRequest, get_pages, offset, normalize, is_select, create_page_sql}
use rbatis.Page.Request
use rbatis.Page.Rows.{OnPage, get_pages_least, OnPage-iff}
use rbatis.Page.Statements.{create_page_sql-panic, create_page_sql-count}
use rbatis.Prelude.{ℕ, ◌+◌, ◌*◌, ◌/◌, ◌≤◌, ◌≡◌, refl, ◌↔◌, true, arith, ok, panic}
use rbatis.Text.{codes, starts_with, contains, replace_from, replace, split_from, split, trim}

-- Page 2 of 25 rows, 10 to a page.
abbrev second : IPageRequest
second = record { get_size = 10; get_current = 2; get_total = 25; is_serch_count = true }

page_tests :
    (get_pages second ≡ 3)
    × (offset second ≡ 10)
    × (Request.getters (Request.new_total 0 10 25)
        ≡ record { get_size = 10; get_current = 1; get_total = 25; is_serch_count = true })
unfolding get_pages offset Request.new_total
page_tests = (refl, refl, refl)

create_page_sql_test :
    create_page_sql mysql (codes "select * from t ") second
    ≡ ok (codes "SELECT count(1) FROM t LIMIT 10,10", codes "SELECT * FROM t LIMIT 10,10")
unfolding create_page_sql normalize is_select page_limit_sql offset contains starts_with replace
    replace_from split split_from trim
create_page_sql_test = refl

get_pages_least_example : (get_pages second ≤ 3) ↔ (25 ≤ 3 * 10)
get_pages_least_example = get_pages_least second 3 (omega arith)

OnPage-iff_example :
    (OnPage 17 second ↔ (◌≡◌ {A = ℕ} 2 (17 / 10 + 1))) × (17 / 10 + 1 ≤ get_pages second)
OnPage-iff_example = OnPage-iff second 17 (omega arith) (omega arith) (omega arith) (omega arith)

create_page_sql-panic_example : create_page_sql mysql (codes "SELECT 1") second ≡ panic
unfolding normalize page_limit_sql offset contains starts_with replace replace_from trim
create_page_sql-panic_example =
    create_page_sql-panic mysql (codes "SELECT 1") (codes " LIMIT 10,10") second refl refl refl refl

create_page_sql-count_example :
    create_page_sql mysql (codes "SELECT id FROM t") second
    ≡ ok (codes "SELECT count(1) FROM t LIMIT 10,10", codes "SELECT id FROM t LIMIT 10,10")
unfolding normalize page_limit_sql offset contains starts_with replace replace_from trim
create_page_sql-count_example =
    create_page_sql-count mysql (codes "SELECT id FROM t") (codes " LIMIT 10,10")
      (codes "SELECT id ") (codes "t") second refl refl refl refl refl
