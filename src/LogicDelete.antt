-- ===== src/LogicDelete.antt =====
-- src/plugin/logic_delete.rs: the plugin that turns a deletion into an update.
mod Tests
use rbatis.Text.Signed.{ℤ, pos, decimal_ℤ, same_ℤ}
use rbatis.Text.Count.{count}
use rbatis.Prelude.{
  ◌+◌, ◌-◌, ◌/◌, ◌≡◌, refl, ◌≢◌, ◌↔◌, ◌⊎◌, inl, inr, Bool, true, false, ◌||◌, not, List, [], ◌∷◌,
  ◌++◌, arith, if◌then◌else◌, Bool-cases, Outcome, ok, err, panic,
}
use rbatis.Text.{Str, codes, str_eq, str_eq_iff, is_empty, decimal, trim_start, trim}

pub record RbatisLogicDeletePlugin : Type 0 where
  pub column : Str
  pub deleted : ℤ
  pub un_deleted : ℤ

unfoldable pub new : Str → RbatisLogicDeletePlugin
new column = record { column = column; deleted = pos 0; un_deleted = pos 1 }

-- Equal marks for deleted and live rows are refused by a panic.
unfoldable pub new_opt : Str → ℤ → ℤ → Outcome RbatisLogicDeletePlugin
new_opt column deleted un_deleted =
    if same_ℤ deleted un_deleted
    then panic
    else ok (record { column = column; deleted = deleted; un_deleted = un_deleted })

unfoldable pub has_field : List Str → Str → Bool
has_field [] column = false
has_field (f ∷ fields) column = str_eq f column || has_field fields column

-- `create_sql`; the driver type is not read.
unfoldable pub create_sql : RbatisLogicDeletePlugin → Str → List Str → Str → Outcome Str
create_sql p table_name table_fields sql_where =
    if has_field table_fields p.column
    then ok (
        codes "UPDATE "
        ++ table_name
        ++ codes " SET "
        ++ p.column
        ++ codes " = "
        ++ decimal_ℤ p.deleted
        ++ sql_where)
    else if not (is_empty sql_where)
    then ok (codes "DELETE FROM " ++ table_name ++ codes " " ++ trim_start sql_where)
    else err (codes "[rbatis] del data must have where sql!")

same_ℤ_iff : (a b : ℤ) → (same_ℤ a b ≡ true) ↔ (a ≡ b)
same_ℤ_iff a b = ground arith

-- A plugin that `new_opt` returns has the given column and marks deleted and live rows
-- differently.
pub new_opt_distinct :
    (column : Str) (deleted un_deleted : ℤ) (p : RbatisLogicDeletePlugin)
    → new_opt column deleted un_deleted ≡ ok p
    → (p.deleted ≢ p.un_deleted) × (p.column ≡ column)
unfolding new_opt
new_opt_distinct column deleted un_deleted p h = ground (arith, same_ℤ_iff deleted un_deleted)
