-- ===== src/LogicDelete/Tests.antt =====
-- The cases of the source's own tests, and the theorems at concrete inputs.
use rbatis.Text.Signed.{pos, negsuc, decimal_ℤ}
use rbatis.LogicDelete.{new, new_opt, has_field, create_sql, new_opt_distinct}
use rbatis.Prelude.{◌≡◌, refl, ◌≢◌, [], ◌∷◌, ok, err}
use rbatis.Text.{Str, codes, str_eq, is_empty, trim_start}

abbrev condition : Str
condition = codes " WHERE name = 'zhangsan'"

create_sql_tests :
    (create_sql (new (codes "del")) (codes "test") (codes "name" ∷ codes "del" ∷ []) []
      ≡ ok (codes "UPDATE test SET del = 0"))
    × (create_sql (new (codes "del")) (codes "test") (codes "name" ∷ codes "del" ∷ []) condition
        ≡ ok (codes "UPDATE test SET del = 0 WHERE name = 'zhangsan'"))
    × (create_sql (new (codes "del")) (codes "test") (codes "name" ∷ codes "age" ∷ []) condition
        ≡ ok (codes "DELETE FROM test WHERE name = 'zhangsan'"))
    × (create_sql (new (codes "del")) (codes "test") (codes "name" ∷ codes "age" ∷ []) []
        ≡ err (codes "[rbatis] del data must have where sql!"))
unfolding create_sql new has_field decimal_ℤ str_eq is_empty trim_start
create_sql_tests = (refl, refl, refl, refl)

new_opt_test : (negsuc 0 ≢ pos 1) × (codes "del" ≡ codes "del")
unfolding new_opt
new_opt_test =
    new_opt_distinct (codes "del") (negsuc 0) (pos 1)
      (record { column = codes "del"; deleted = negsuc 0; un_deleted = pos 1 }) refl
