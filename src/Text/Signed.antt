-- ===== src/Text/Signed.antt =====
-- Signed integers, under the library's names over the native numbers, and their decimal text.
use rbatis.Prelude.{ℕ, ◌+◌, Bool, false, ◌∷◌, ◌==◌}
use rbatis.Text.{Str, decimal}

-- `negsuc n` is -(n + 1).
pub data ℤ : Type 0 where
  pos : ℕ → ℤ
  negsuc : ℕ → ℤ

-- `format!("{}", i)` for an `i32` or an `i64`.
unfoldable pub decimal_ℤ : ℤ → Str
unfolding decimal
decimal_ℤ (pos n) = decimal n
decimal_ℤ (negsuc n) = b'-' ∷ decimal (n + 1)

abbrev pub same_ℤ : ℤ → ℤ → Bool
same_ℤ (pos a) (pos b) = a == b
same_ℤ (negsuc a) (negsuc b) = a == b
same_ℤ _ _ = false
