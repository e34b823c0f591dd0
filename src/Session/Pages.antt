-- ===== src/Session/Pages.antt =====
-- src/rbatis.rs: what `fetch_page` returns.
use native.Mathlib.Nat.{zero-mod, zero-div}
use rbatis.Driver.{DriverType}
use rbatis.Json.{Value}
use rbatis.Page.{IPageRequest, get_pages}
use rbatis.Page.Result as Page
use rbatis.Page.Result.{Page}
use rbatis.Session.{Database, Session}
use rbatis.Session.Paging.{with_pages, unwrap_or, fetch_records, counted, fetch_both, fetch_page}
use rbatis.Session.Prepared.{Queries, driver_type, fetch_prepare, and_then}
use rbatis.Prelude.{
  ℕ, ◌≡◌, refl, ap, inl, inr, Bool, true, Option, List, [], ltb, ◌==◌, Bool-cases, Outcome, ok, err,
  panic, ◌>>=◌, Ensures,
}
use rbatis.Text.{Str}

new-size : (T : Type 0) (current size : ℕ) → (Page.new {T = T} current size).size ≡ size
unfolding Page.new Page.new_total
new-size T current size = elim (Bool-cases (ltb current 1)) [
  | inl low ↦ rw low refl
  | inr set ↦ rw set refl
]

no_pages :
    (size current : ℕ) (counts : Bool)
    → get_pages
        (record { get_size = size; get_current = current; get_total = 0; is_serch_count = counts })
      ≡ 0
unfolding get_pages
no_pages size current counts = elim (Bool-cases (size == 0)) [
  | inl zero_size ↦ rw zero_size refl
  | inr some_size ↦ rw (some_size, zero-mod size, zero-div size) refl
]

-- The empty page of a request.
unfoldable pub empty_page : (T : Type 0) → ℕ → ℕ → Page T
empty_page T current size = record (Page.new current size) { records = []; total = 0; pages = 0 }

new-empty :
    (T : Type 0) (current size : ℕ)
    → with_pages (Page.set_total 0 (Page.new {T = T} current size)) ≡ empty_page T current size
unfolding with_pages Page.new Page.new_total empty_page
new-empty T current size = elim (Bool-cases (ltb current 1)) [
  | inl low ↦ rw (low, no_pages size 1 true) refl
  | inr set ↦ rw (set, no_pages size current true) refl
]

module _ {T : Type 0} where
  -- The number of pages is what the page's size and total make it.
  unfoldable pub HasPages : Page T → Type 0
  HasPages page = page.pages ≡ get_pages (Page.getters page)

  -- A page of the size that was asked for, with the right number of pages.
  unfoldable pub IsPageOf : ℕ → Page T → Type 0
  IsPageOf size result = HasPages result × (result.size ≡ size)

  with_pages-HasPages : (page : Page T) → HasPages (with_pages page)
  unfolding HasPages with_pages get_pages
  with_pages-HasPages page = refl

module _ {ℓ κ} {A : Type ℓ} {B : Type κ} {W : Type 0} where
  and_then-Ensures :
      (P : B → Type 0) (m : Outcome A × W) (next : A → W → Outcome B × W)
      → ((a : A) (world : W) → Ensures P (next a world).0)
      → Ensures P (and_then m next).0
  unfolding and_then
  and_then-Ensures P (ok a, world) next h = h a world
  and_then-Ensures P (err message, world) next h = tt
  and_then-Ensures P (panic, world) next h = tt

module _ {C W Q N T : Type 0} (db : Database C W) (queries : Queries C W Q N)
    (decode_rows : List (Value N) → Outcome (Option (List T))) where
  fetch_records-IsPageOf :
      (tx_id sql : Str) (args : List (Value N)) (page : IPageRequest) (result : Page T)
      (s : Session C W)
      → result.size ≡ page.get_size
      → Ensures
          (IsPageOf page.get_size)
          (fetch_records db queries decode_rows tx_id sql args result s).0
  unfolding fetch_records IsPageOf with_pages
  fetch_records-IsPageOf tx_id sql args page result s h =
      and_then-Ensures (IsPageOf page.get_size)
        (fetch_prepare db queries decode_rows tx_id sql args s) _
        (λ rows after. (with_pages-HasPages (Page.set_records (unwrap_or rows []) result), h))

  counted-IsPageOf :
      (tx_id sql : Str) (args : List (Value N)) (page : IPageRequest) (result : Page T)
      (total : Option ℕ) (s : Session C W)
      → result.size ≡ page.get_size
      → Ensures
          (IsPageOf page.get_size)
          (counted db queries decode_rows tx_id sql args result total s).0
  unfolding counted IsPageOf with_pages
  counted-IsPageOf tx_id sql args page result total s h =
      let counted_page = with_pages (Page.set_total (unwrap_or total 0) result) in
      elim (Bool-cases (unwrap_or total 0 == 0)) [
        | inl empty ↦
            rw (counted, empty) (with_pages-HasPages (Page.set_total (unwrap_or total 0) result), h)
        | inr filled ↦
            rw (counted, filled) (fetch_records-IsPageOf tx_id sql args page counted_page s h)
      ]

module _ {C W Q N T : Type 0} (db : Database C W) (queries : Queries C W Q N)
    (create_page_sql : DriverType → Str → IPageRequest → Outcome (Str × Str))
    (decode_total : List (Value N) → Outcome (Option ℕ))
    (decode_rows : List (Value N) → Outcome (Option (List T))) where
  fetch_both-IsPageOf :
      (tx_id : Str) (args : List (Value N)) (page : IPageRequest) (s : Session C W)
      (sqls : Outcome (Str × Str))
      → Ensures
          (IsPageOf page.get_size)
          (fetch_both db queries create_page_sql decode_total decode_rows tx_id args page s sqls).0
  unfolding fetch_both
  fetch_both-IsPageOf tx_id args page s (err message) = tt
  fetch_both-IsPageOf tx_id args page s panic = tt
  fetch_both-IsPageOf tx_id args page s (ok (count_sql, sql)) =
      elim (Bool-cases page.is_serch_count) [
        | inl counts ↦ rw counts (
            and_then-Ensures (IsPageOf page.get_size)
              (fetch_prepare db queries decode_total tx_id count_sql args s) _
              λ total after.
                counted-IsPageOf db queries decode_rows tx_id sql args page _ total after
                  (new-size T page.get_current page.get_size))
        | inr plain ↦ rw plain (
            fetch_records-IsPageOf db queries decode_rows tx_id sql args page _ s
              (new-size T page.get_current page.get_size))
      ]

  -- A page that `fetch_page` returns has the size that was asked for and as many pages as that size
  -- and its total make.
  pub fetch_page-IsPageOf :
      (tx_id sql : Str) (args : List (Value N)) (page : IPageRequest) (s : Session C W)
      → Ensures
          (IsPageOf page.get_size)
          (fetch_page db queries create_page_sql decode_total decode_rows tx_id sql args page s).0
  unfolding fetch_page
  fetch_page-IsPageOf tx_id sql args page s = fetch_both-IsPageOf tx_id args page s _

  -- If the count query returns no total or 0, the page has no records and no pages, and no other
  -- query is run.
  pub fetch_page-empty :
      (tx_id sql count_sql page_sql : Str) (args : List (Value N)) (page : IPageRequest)
      (s after : Session C W) (total : Option ℕ)
      → page.is_serch_count ≡ true
      → (driver_type db queries s >>= λ driver. create_page_sql driver sql page)
        ≡ ok (count_sql, page_sql)
      → fetch_prepare db queries decode_total tx_id count_sql args s ≡ (ok total, after)
      → unwrap_or total 0 ≡ 0
      → fetch_page db queries create_page_sql decode_total decode_rows tx_id sql args page s ≡ (
        ok (record (Page.new page.get_current page.get_size) {
          records = [];
          total = 0;
          pages = 0;
        }),
        after,
      )
  unfolding fetch_page fetch_both and_then counted with_pages empty_page
  fetch_page-empty tx_id sql count_sql page_sql args page s after total counts made found empty =
      rw (made, counts, found, empty)
        (ap (λ result. (ok result, after)) (new-empty T page.get_current page.get_size))
