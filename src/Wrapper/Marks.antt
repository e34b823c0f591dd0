-- ===== src/Wrapper/Marks.antt =====
-- Placeholders of a statement: the character that begins one, and how often it occurs.
use rbatis.Driver.{DriverType, mysql, postgres, sqlite, stmt_convert}
use rbatis.Text.Count.{count, count-append, count-decimal}
use rbatis.Prelude.{ℕ, ◌+◌, ◌≡◌, refl, sym, ap, ◌∙◌, ◌≢◌, ◌++◌, arith, ok}
use rbatis.Text.{Str, codes, decimal}

-- The character that stands once in each placeholder of the driver.
abbrev pub mark_char : DriverType → ℕ
mark_char postgres = b'$'
mark_char _ = b'?'

-- A text that holds no placeholder.
abbrev pub IsPlain : DriverType → Str → Type 0
IsPlain d s = count (mark_char d) s ≡ 0

-- A text with neither character is plain for every driver.
pub IsPlain-text :
    (d : DriverType) (s : Str) → (count b'$' s ≡ 0) × (count b'?' s ≡ 0) → IsPlain d s
IsPlain-text DriverType.none s h = h.1
IsPlain-text postgres s h = h.0
IsPlain-text mysql s h = h.1
IsPlain-text sqlite s h = h.1

-- The characters differ from those that the builder writes around a placeholder.
pub mark_char-ne-comma : (d : DriverType) → mark_char d ≢ b','
mark_char-ne-comma DriverType.none = omega arith
mark_char-ne-comma postgres = omega arith
mark_char-ne-comma mysql = omega arith
mark_char-ne-comma sqlite = omega arith

-- A connected driver writes every placeholder, with the character once.
stmt_convert-count :
    (d : DriverType) (index : ℕ)
    → d ≢ DriverType.none
    → (m : Str) × (stmt_convert d index ≡ ok m) × (count (mark_char d) m ≡ 1)
unfolding stmt_convert
stmt_convert-count DriverType.none index h = absurd (h refl)
stmt_convert-count mysql index h = (_, refl, refl)
stmt_convert-count sqlite index h = (_, refl, refl)
stmt_convert-count postgres index h = (
  _,
  refl,
  omega (
    arith,
    count-append b'$' (codes " $") (decimal (index + 1) ++ codes " "),
    count-append b'$' (decimal (index + 1)) (codes " "),
    count-decimal b'$' (index + 1) (omega arith),
  ),
)

-- The same, of a driver that is known by an equation.
pub mark_of :
    {e d : DriverType} (same : e ≡ d) (index : ℕ)
    → d ≢ DriverType.none
    → (m : Str) × (stmt_convert e index ≡ ok m) × (count (mark_char d) m ≡ 1)
mark_of {d} same index h = rw same (stmt_convert-count d index h)

-- The placeholder of Postgres.
abbrev pub postgres_mark : ℕ → Str
postgres_mark index = codes " $" ++ decimal (index + 1) ++ codes " "

pub postgres_mark-count : (index : ℕ) → count b'$' (postgres_mark index) ≡ 1
unfolding stmt_convert
postgres_mark-count index =
    let (m, written, once) = stmt_convert-count postgres index (cc) in
    let same : m ≡ postgres_mark index = ground (arith, written) in
    ap (count b'$') (sym same) ∙ once
