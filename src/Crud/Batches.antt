-- ===== src/Crud/Batches.antt =====
-- src/crud.rs: `save_batch`.
use rbatis.Crud.Fields.{Table, make_field_value_map, make_fields, push_keys}
use rbatis.Crud.Rows.{values, make_sql_arg-marks, IsComma, count-pop_comma}
use rbatis.Crud.Statements.{Rbatis, Statement, push_rows, save_batch}
use rbatis.Driver.{DriverType}
use rbatis.Json.{Value, Fields, object, entries}
use rbatis.Text.Count.{count, count-append, count-trim_end_matches}
use rbatis.Wrapper.Marks.{mark_char, IsPlain, IsPlain-text}
use rbatis.Prelude.{
  ℕ, ◌+◌, ◌≡◌, refl, sym, ap, ◌∙◌, ◌≢◌, inl, inr, Bool, true, false, some, List, [], ◌∷◌, ◌++◌,
  append_assoc, append-nil, arith, if◌then◌else◌, length, length-append, All, ok,
}
use rbatis.Text.{Str, codes, pop, is_empty}

if-IsPlain :
    (d : DriverType) (b : Bool) (s t : Str)
    → IsPlain d s
    → IsPlain d t
    → IsPlain d (if b then s else t)
if-IsPlain d true s t p q = p
if-IsPlain d false s t p q = q

module _ {N : Type 0} where
  unfoldable pub objects : List (Fields N) → List (Value N)
  objects [] = []
  objects (fs ∷ rows) = object fs ∷ objects rows

  unfoldable pub row_values : List (Fields N) → List (Value N)
  row_values [] = []
  row_values (fs ∷ rows) = values (entries fs) ++ row_values rows

  -- No placeholder in a row's column names.
  unfoldable pub IsPlainKeys : DriverType → Fields N → Type 0
  IsPlainKeys d fs = IsPlain d (push_keys (entries fs))

  module _ (d : DriverType) (connected : d ≢ DriverType.none) (rb : Rbatis)
      (driver : rb.driver_type ≡ ok d) where
    make_fields-IsPlain : (fs : Fields N) → IsPlainKeys d fs → IsPlain d (make_fields (entries fs))
    unfolding make_fields IsPlainKeys
    make_fields-IsPlain fs h =
        count-trim_end_matches (mark_char d) (push_keys (entries fs)) (codes ",")
          (IsPlain-text d (codes ",") (refl, refl))
        ∙ h

    push_rows-marks :
        (rows : List (Fields N)) (fields : Str) (index : ℕ) (value_arr : Str)
        (arg_arr : List (Value N))
        → IsPlain d fields
        → IsComma value_arr
        → All (IsPlainKeys d) rows
        → (f : Str) × (s : Str) × (push_rows rb (objects rows) fields index value_arr arg_arr
            ≡ ok (f, s, arg_arr ++ row_values rows))
          × IsPlain d f
          × (count (mark_char d) s ≡ count (mark_char d) value_arr + length (row_values rows))
          × IsComma s
    unfolding push_rows objects row_values make_field_value_map IsComma
    push_rows-marks [] fields index value_arr arg_arr p comma h = (
      fields,
      value_arr,
      ap (λ l. ok (fields, value_arr, l)) (sym (append-nil arg_arr)),
      p,
      omega arith,
      comma,
    )
    push_rows-marks (fs ∷ rows) fields index value_arr arg_arr p comma (q, h) =
        let (texts, made, marks) = make_sql_arg-marks d connected index (entries fs) in
        let (f, s, pushed, plain, total, ends) =
          push_rows-marks rows (if is_empty fields then make_fields (entries fs) else fields)
            (index + length (entries fs)) (value_arr ++ codes "(" ++ texts ++ codes "),")
            (arg_arr ++ values (entries fs))
            (if-IsPlain d (is_empty fields) (make_fields (entries fs)) fields
              (make_fields-IsPlain fs q) p)
            (inr (
              value_arr ++ codes "(" ++ texts ++ codes ")",
              sym (append_assoc (value_arr ++ codes "(" ++ texts) (codes ")") (codes ",")),
            ))
            h in
        (
          f,
          s,
          rw (driver, made, pushed)
              (ap (λ l. ok (f, s, l))
                (append_assoc arg_arr (values (entries fs)) (row_values rows))),
          plain,
          omega (
            arith,
            total,
            marks,
            count-append (mark_char d) (value_arr ++ codes "(" ++ texts) (codes "),"),
            count-append (mark_char d) (value_arr ++ codes "(") texts,
            count-append (mark_char d) value_arr (codes "("),
            IsPlain-text d (codes "(") (refl, refl),
            IsPlain-text d (codes "),") (refl, refl),
            length-append (values (entries fs)) (row_values rows),
          ),
          ends,
        )

    -- On a connected driver `save_batch` of at least one row that is an object returns a statement
    -- whose arguments are the rows' values in order, with one placeholder for each, if neither the
    -- table's name nor a column's name holds the placeholder character.
    pub save_batch-marks :
        (t : Table) (fs : Fields N) (rows : List (Fields N))
        → IsPlain d t.table_name
        → All (IsPlainKeys d) (fs ∷ rows)
        → (statement : Statement N) × (save_batch rb t (objects (fs ∷ rows)) ≡ ok (some statement))
          × (statement.args ≡ row_values (fs ∷ rows))
          × (count (mark_char d) statement.sql ≡ length statement.args)
    unfolding save_batch objects IsComma
    save_batch-marks t fs rows p h =
        let (f, s, pushed, plain, total, ends) =
          push_rows-marks (fs ∷ rows) [] 0 [] [] refl (inl refl) h in
        (
          record {
            sql =
                codes "INSERT INTO "
                ++ t.table_name
                ++ codes " ("
                ++ f
                ++ codes ") VALUES "
                ++ pop s;
            args = row_values (fs ∷ rows);
          },
          rw pushed refl,
          refl,
          omega (
            arith,
            p,
            plain,
            total,
            count-pop_comma d s ends,
            count-append (mark_char d)
                (codes "INSERT INTO " ++ t.table_name ++ codes " (" ++ f ++ codes ") VALUES ")
                (pop s),
            count-append (mark_char d) (codes "INSERT INTO " ++ t.table_name ++ codes " (" ++ f)
                (codes ") VALUES "),
            count-append (mark_char d) (codes "INSERT INTO " ++ t.table_name ++ codes " (") f,
            count-append (mark_char d) (codes "INSERT INTO " ++ t.table_name) (codes " ("),
            count-append (mark_char d) (codes "INSERT INTO ") t.table_name,
            IsPlain-text d (codes "INSERT INTO ") (refl, refl),
            IsPlain-text d (codes " (") (refl, refl),
            IsPlain-text d (codes ") VALUES ") (refl, refl),
          ),
        )
