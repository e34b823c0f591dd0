-- ===== src/Crud/Rows.antt =====
-- src/crud.rs: the texts and the arguments of inserted rows.
use rbatis.Crud.Fields.{date_convert, is_date, sql_value, push_values, make_sql_arg}
use rbatis.Driver.{DriverType, mysql, postgres, sqlite}
use rbatis.Json.{Value}
use rbatis.Text.Count.{count, count-append, count-pop}
use rbatis.Wrapper.Marks.{mark_char, IsPlain-text, mark_char-ne-comma, mark_of}
use rbatis.Wrapper.Balance.{mark-count}
use rbatis.Prelude.{
  ℕ, suc, ◌+◌, ◌≡◌, refl, sym, ap, ◌∙◌, ◌≢◌, ◌⊎◌, inl, inr, List, [], ◌∷◌, ◌++◌, append_assoc,
  append-nil, arith, Bool-cases, length, ok,
}
use rbatis.Text.{Str, codes, pop}

-- Empty, or with a comma at its end.
unfoldable pub IsComma : Str → Type 0
IsComma s = (s ≡ []) ⊎ ((u : Str) × (s ≡ u ++ b',' ∷ []))

pub count-pop_comma :
    (d : DriverType) (s : Str) → IsComma s → count (mark_char d) (pop s) ≡ count (mark_char d) s
unfolding IsComma pop
count-pop_comma d s (inl e) = rw e refl
count-pop_comma d s (inr (u, e)) = rw e (
    omega (
      arith,
      count-pop (mark_char d) u b',' (mark_char-ne-comma d),
      count-append (mark_char d) u (b',' ∷ []),
      IsPlain-text d (codes ",") (refl, refl),
    ))

none-index : (index : ℕ) → index ≡ index + 0
none-index index = omega arith

next-index : (index n : ℕ) → index + 1 + n ≡ index + suc n
next-index index n = omega arith

module _ {N : Type 0} where
  date_convert-mark :
      (d : DriverType) (v : Value N) (index : ℕ)
      → d ≢ DriverType.none
      → (s : Str) × (date_convert d v index ≡ ok (s, v)) × (count (mark_char d) s ≡ 1)
  unfolding date_convert
  date_convert-mark DriverType.none v index connected = absurd (connected refl)
  date_convert-mark postgres v index connected =
      let same : postgres ≡ postgres = refl in
      let (m, written, once) = mark_of same index connected in
      (
        codes "cast(" ++ m ++ codes " as timestamp)",
        rw written refl,
        mark-count postgres (codes "cast(") m (codes " as timestamp)") refl once refl,
      )
  date_convert-mark mysql v index connected =
      let same : mysql ≡ mysql = refl in
      let (m, written, once) = mark_of same index connected in (m, rw written refl, once)
  date_convert-mark sqlite v index connected =
      let same : sqlite ≡ sqlite = refl in
      let (m, written, once) = mark_of same index connected in (m, rw written refl, once)

  unfoldable pub values : List (Str × Value N) → List (Value N)
  values [] = []
  values ((k, v) ∷ m) = v ∷ values m

  length-values : (m : List (Str × Value N)) → length (values m) ≡ length m
  unfolding values
  length-values [] = refl
  length-values ((k, v) ∷ m) = omega (arith, length-values m)

  module _ (d : DriverType) (connected : d ≢ DriverType.none) where
    sql_value-mark :
        (index : ℕ) (k : Str) (v : Value N)
        → (s : Str) × (sql_value d index k v ≡ ok (s, v)) × (count (mark_char d) s ≡ 1)
    unfolding sql_value
    sql_value-mark index k v =
        let same : d ≡ d = refl in
        let (m, written, once) = mark_of same index connected in
        let (s, converted, one) = date_convert-mark d v index connected in
        elim (Bool-cases (is_date k v)) [
          | inl dated ↦ (s, rw dated converted, one)
          | inr plain ↦ (m, rw (plain, written) refl, once)
        ]

    push_values-marks :
        (m : List (Str × Value N)) (index : ℕ) (sql : Str) (arr : List (Value N))
        → IsComma sql
        → (s : Str) × (push_values d m index sql arr ≡ ok (s, arr ++ values m, index + length m))
          × (count (mark_char d) s ≡ count (mark_char d) sql + length m)
          × IsComma s
    unfolding push_values values IsComma
    push_values-marks [] index sql arr h = (
      sql,
      ap (λ l. ok (sql, l, index)) (sym (append-nil arr))
          ∙ ap (λ n. ok (sql, arr ++ [], n)) (none-index index),
      omega arith,
      h,
    )
    push_values-marks ((k, v) ∷ m) index sql arr h =
        let (new_sql, e, once) = sql_value-mark index k v in
        let (s, pushed, marks, comma) =
          push_values-marks m (index + 1) (sql ++ new_sql ++ codes ",") (arr ++ v ∷ [])
            (inr (sql ++ new_sql, refl)) in
        (
          s,
          rw (e, pushed)
              (ap (λ l. ok (s, l, index + 1 + length m)) (append_assoc arr (v ∷ []) (values m))
                ∙ ap (λ n. ok (s, arr ++ v ∷ values m, n)) (next-index index (length m))),
          omega (
            arith,
            marks,
            once,
            count-append (mark_char d) (sql ++ new_sql) (codes ","),
            count-append (mark_char d) sql new_sql,
            IsPlain-text d (codes ",") (refl, refl),
          ),
          comma,
        )

    -- On a connected driver `make_sql_arg` returns a text with one placeholder per entry, the
    -- entries' values in order as the arguments, and the index behind the last of them.
    pub make_sql_arg-marks :
        (index : ℕ) (m : List (Str × Value N))
        → (s : Str) × (make_sql_arg index d m ≡ ok (s, values m, index + length m))
          × (count (mark_char d) s ≡ length (values m))
    unfolding make_sql_arg IsComma
    make_sql_arg-marks index m =
        let (s, pushed, marks, comma) = push_values-marks m index [] [] (inl refl) in
        (pop s, rw pushed refl, omega (arith, count-pop_comma d s comma, marks, length-values m))
