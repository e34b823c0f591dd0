-- ===== src/Page/Result.antt =====
-- src/plugin/page.rs: `Page`, the result of a paged query.
use rbatis.Page.Defs.{IPageRequest}
use rbatis.Prelude.{ℕ, Bool, true, List, [], ltb, if◌then◌else◌}

pub record Page (T : Type 0) : Type 0 where
  pub records : List T
  pub total : ℕ
  pub pages : ℕ
  pub size : ℕ
  pub current : ℕ
  pub serch_count : Bool

module _ {T : Type 0} where
  unfoldable pub new_total : ℕ → ℕ → ℕ → Page T
  new_total current size total =
      if ltb current 1
      then record {
        records = [];
        total = total;
        pages = 0;
        size = size;
        current = 1;
        serch_count = true;
      }
      else record {
        records = [];
        total = total;
        pages = 0;
        size = size;
        current = current;
        serch_count = true;
      }

  unfoldable pub new : ℕ → ℕ → Page T
  new current size = new_total current size 0

  abbrev pub default : Page T
  default = record {
    records = [];
    total = 0;
    pages = 0;
    size = 10;
    current = 1;
    serch_count = true;
  }

  abbrev pub getters : Page T → IPageRequest
  getters p = record {
    get_size = p.size;
    get_current = p.current;
    get_total = p.total;
    is_serch_count = p.serch_count;
  }

  abbrev pub set_total : ℕ → Page T → Page T
  set_total arg p = record p { total = arg }

  abbrev pub set_size : ℕ → Page T → Page T
  set_size arg p = record p { size = arg }

  abbrev pub set_current : ℕ → Page T → Page T
  set_current arg p = record p { current = arg }

  abbrev pub set_serch_count : Bool → Page T → Page T
  set_serch_count arg p = record p { serch_count = arg }

  abbrev pub set_records : List T → Page T → Page T
  set_records arg p = record p { records = arg }
