-- ===== src/Driver.antt =====
-- rbatis-core/src/db.rs (`DriverType`), rbatis-core/src/convert.rs, src/sql/limit.rs, src/sql/date.rs
use rbatis.Prelude.{ℕ, ◌+◌, ◌≡◌, refl, ◌++◌, Outcome, ok, err, panic}
use rbatis.Text.{Str, codes, decimal}

pub data DriverType : Type 0 where
  none mysql postgres sqlite : DriverType

-- The placeholder of the argument at position `index`, counted from 0.
unfoldable pub stmt_convert : DriverType → ℕ → Outcome Str
unfolding decimal
stmt_convert postgres index = ok (codes " $" ++ decimal (index + 1) ++ codes " ")
stmt_convert mysql index = ok (codes " ? ")
stmt_convert sqlite index = ok (codes " ? ")
stmt_convert none index = panic

unfoldable pub page_limit_sql : DriverType → ℕ → ℕ → Outcome Str
unfolding decimal
page_limit_sql mysql offset size =
    ok (codes " LIMIT " ++ decimal offset ++ codes "," ++ decimal size)
page_limit_sql postgres offset size =
    ok (codes " LIMIT " ++ decimal size ++ codes " OFFSET " ++ decimal offset)
page_limit_sql sqlite offset size =
    ok (codes " LIMIT " ++ decimal size ++ codes " OFFSET " ++ decimal offset)
page_limit_sql none offset size = err (codes "[rbatis] not support now for DriverType:None")

stmt_convert_11 : stmt_convert postgres 11 ≡ ok (codes " $12 ")
unfolding stmt_convert
stmt_convert_11 = refl
