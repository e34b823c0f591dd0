-- ===== src/Session/Paging.antt =====
-- src/rbatis.rs: `fetch_page`. The plugin and the decoding of rows are arguments.
use rbatis.Driver.{DriverType}
use rbatis.Json.{Value}
use rbatis.Page.{IPageRequest, get_pages}
use rbatis.Page.Result as Page
use rbatis.Page.Result.{Page}
use rbatis.Session.{Database, Session}
use rbatis.Session.Prepared.{Queries, driver_type, fetch_prepare, and_then}
use rbatis.Prelude.{
  ℕ, Option, none, some, List, [], ◌==◌, if◌then◌else◌, Outcome, ok, err, panic, ◌>>=◌,
}
use rbatis.Text.{Str}

unfoldable pub unwrap_or {ℓ} : {A : Type ℓ} → Option A → A → A
unwrap_or none other = other
unwrap_or (some a) other = a

-- `page_result.pages = page_result.get_pages()`
unfoldable pub with_pages : {T : Type 0} → Page T → Page T
with_pages page = record page { pages = get_pages (Page.getters page) }

module _ {C W Q N T : Type 0} (db : Database C W) (queries : Queries C W Q N)
    (decode_rows : List (Value N) → Outcome (Option (List T))) where
  -- The second query: the records of the page.
  unfoldable pub fetch_records :
      Str → Str → List (Value N) → Page T → Session C W → Outcome (Page T) × Session C W
  fetch_records tx_id sql args page_result s =
      and_then (fetch_prepare db queries decode_rows tx_id sql args s)
        λ rows after. (ok (with_pages (Page.set_records (unwrap_or rows []) page_result)), after)

  -- Behind the first query, with its total; an empty page needs no second one.
  unfoldable pub counted :
      Str → Str → List (Value N) → Page T → Option ℕ → Session C W → Outcome (Page T) × Session C W
  counted tx_id sql args page_result total after =
      let counted_page = with_pages (Page.set_total (unwrap_or total 0) page_result) in
      if counted_page.total == 0
      then (ok counted_page, after)
      else fetch_records tx_id sql args counted_page after

module _ {C W Q N T : Type 0} (db : Database C W) (queries : Queries C W Q N)
    (create_page_sql : DriverType → Str → IPageRequest → Outcome (Str × Str))
    (decode_total : List (Value N) → Outcome (Option ℕ))
    (decode_rows : List (Value N) → Outcome (Option (List T))) where
  unfoldable pub fetch_both :
      Str
      → List (Value N)
      → IPageRequest
      → Session C W
      → Outcome (Str × Str)
      → Outcome (Page T) × Session C W
  fetch_both tx_id args page s (ok (count_sql, sql)) =
      let page_result = Page.new page.get_current page.get_size in
      if page.is_serch_count
      then and_then (fetch_prepare db queries decode_total tx_id count_sql args s)
          (counted db queries decode_rows tx_id sql args page_result)
      else fetch_records db queries decode_rows tx_id sql args page_result s
  fetch_both tx_id args page s (err message) = (err message, s)
  fetch_both tx_id args page s panic = (panic, s)

  unfoldable pub fetch_page :
      Str → Str → List (Value N) → IPageRequest → Session C W → Outcome (Page T) × Session C W
  fetch_page tx_id sql args page s =
      fetch_both tx_id args page s
        (driver_type db queries s >>= λ driver. create_page_sql driver sql page)
