-- ===== src/Page/Defs.antt =====
-- src/plugin/page.rs: the trait `IPageRequest` and the plugin `RbatisPagePlugin`. A `u64` is a
-- number below 2 ^ 64, and a product wraps as in a release build.
use rbatis.Driver.{DriverType, page_limit_sql}
use rbatis.Prelude.{
  ℕ, ◌+◌, ◌-◌, ◌*◌, ◌/◌, ◌%◌, ◌^◌, Bool, ◌||◌, Option, none, some, ◌++◌, ltb, ◌==◌, if◌then◌else◌,
  get_elem?, Outcome, ok, err, panic, ◌>>=◌,
}
use rbatis.Text.{Str, codes, starts_with, contains, replace, split, trim}

-- What the plugin reads of a page request: the getters of the trait `IPageRequest`.
pub record IPageRequest : Type 0 where
  pub get_size : ℕ
  pub get_current : ℕ
  pub get_total : ℕ
  pub is_serch_count : Bool

unfoldable pub get_pages : IPageRequest → ℕ
get_pages p =
    if p.get_size == 0
    then 0
    else let pages = p.get_total / p.get_size in
      if p.get_total % p.get_size == 0 then pages else pages + 1

unfoldable pub offset : IPageRequest → ℕ
offset p = if ltb 0 p.get_current then (p.get_current - 1) * p.get_size % 2 ^ 64 else 0

-- The count statement: what stands behind the first "FROM ", or a panic where there is none.
abbrev pub count_statement : Option Str → Outcome Str
count_statement none = panic
count_statement (some part) = ok (codes "SELECT count(1) FROM " ++ part)

-- The statement with upper-case key words, trimmed.
unfoldable pub normalize : Str → Str
normalize sql =
    trim (replace (replace sql (codes "select ") (codes "SELECT ")) (codes "from ") (codes "FROM "))

-- The guard of the plugin, on the statement with its limit.
unfoldable pub is_select : Str → Bool
is_select sql = starts_with sql (codes "SELECT ") || contains sql (codes "FROM ")

-- `create_page_sql`: the count statement and the statement of the page. The arguments that the
-- plugin does not read are left out.
unfoldable pub create_page_sql : DriverType → Str → IPageRequest → Outcome (Str × Str)
create_page_sql d text page = do
  limit_sql ← page_limit_sql d (offset page) page.get_size
  let sql = normalize text ++ limit_sql
  (if is_select sql
      then (if page.is_serch_count
          then (do
            count_sql ← count_statement (get_elem? (split sql (codes "FROM ")) 1)
            ok (count_sql, sql))
          else ok (sql, sql))
      else err (codes "[rbatis] xml_fetch_page() sql must contains 'select ' And 'from '"))
