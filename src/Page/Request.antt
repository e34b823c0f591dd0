-- ===== src/Page/Request.antt =====
-- src/plugin/page.rs: `PageRequest`.
use rbatis.Page.Defs.{IPageRequest}
use rbatis.Prelude.{ℕ, Bool, true, ltb, if◌then◌else◌}

pub record PageRequest : Type 0 where
  pub total : ℕ
  pub size : ℕ
  pub current : ℕ
  pub serch_count : Bool

unfoldable pub new_total : ℕ → ℕ → ℕ → PageRequest
new_total current size total = record {
  total = total;
  size = size;
  current = if ltb current 1 then 1 else current;
  serch_count = true;
}

unfoldable pub new : ℕ → ℕ → PageRequest
unfolding new_total
new current size = new_total current size 0

abbrev pub default : PageRequest
default = record { total = 0; size = 10; current = 1; serch_count = true }

abbrev pub getters : PageRequest → IPageRequest
getters p = record {
  get_size = p.size;
  get_current = p.current;
  get_total = p.total;
  is_serch_count = p.serch_count;
}

abbrev pub set_total : ℕ → PageRequest → PageRequest
set_total arg p = record p { total = arg }

abbrev pub set_size : ℕ → PageRequest → PageRequest
set_size arg p = record p { size = arg }

abbrev pub set_current : ℕ → PageRequest → PageRequest
set_current arg p = record p { current = arg }

abbrev pub set_serch_count : Bool → PageRequest → PageRequest
set_serch_count arg p = record p { serch_count = arg }
