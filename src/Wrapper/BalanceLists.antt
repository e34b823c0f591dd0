-- ===== src/Wrapper/BalanceLists.antt =====
-- The methods over two or more arguments or columns keep placeholders and arguments in step.
use rbatis.Driver.{DriverType}
use rbatis.Json.{Value, object, entries}
use rbatis.Text.Count.{count, count-append, count-pop, count-trim_end_matches}
use rbatis.Wrapper.Defs.{Wrapper, push_str, push_arg, add_and}
use rbatis.Wrapper.Calls.{
  bound_between, bind_each, bound_list, in_array, eq_each, all_eq, push_columns, push_clause,
}
use rbatis.Wrapper.Marks.{mark_char, IsPlain, IsPlain-text, mark_char-ne-comma, mark_of}
use rbatis.Wrapper.Balance.{
  IsBalanced, Gives, push_str-IsBalanced, add_and-IsBalanced, bound-IsBalanced,
}
use rbatis.Prelude.{
  ℕ, ◌+◌, ◌≡◌, refl, ◌≢◌, ◌⊎◌, inl, inr, List, [], ◌∷◌, ◌++◌, arith, ◌==◌, if◌then◌else◌, if-cases,
  length, length-append, All, ok,
}
use rbatis.Text.{Str, codes, pop, trim_end_matches}

-- The loop ends with the text that it began with, or with one that ends in a comma.
abbrev EndsOpen : Str → Type 0
EndsOpen sqls = (sqls ≡ []) ⊎ ((s : Str) × (sqls ≡ s ++ codes ","))

count-pop_open :
    (d : DriverType) (sqls : Str)
    → EndsOpen sqls
    → count (mark_char d) (pop sqls) ≡ count (mark_char d) sqls
unfolding pop
count-pop_open d sqls (inl e) = rw e refl
count-pop_open d sqls (inr (s, e)) = rw e (
    omega (
      arith,
      count-pop (mark_char d) s b',' (mark_char-ne-comma d),
      count-append (mark_char d) s (codes ","),
      IsPlain-text d (codes ",") (refl, refl),
    ))

-- The keys of an object hold no placeholder.
abbrev pub IsPlainObject : {N : Type 0} → DriverType → Value N → Type 0
IsPlainObject d (object fs) = All (λ f. IsPlain d f.0) (entries fs)
IsPlainObject d _ = Unit

module _ {N : Type 0} (d : DriverType) (connected : d ≢ DriverType.none) where
  pub bound_between-IsBalanced :
      (before column : Str) (u v : Value N) (w : Wrapper N)
      → IsPlain d before
      → IsPlain d column
      → IsBalanced d w
      → Gives d (bound_between before column u v w)
  unfolding bound_between
  bound_between-IsBalanced before column u v w p q b =
      let b' = add_and-IsBalanced d w b in
      let (m, low, once) = mark_of b'.driver (length (add_and w).args) connected in
      let (n, high, again) = mark_of b'.driver (length (add_and w).args + 1) connected in
      (
        push_arg
            (push_arg (push_str (push_str (add_and w) column) (before ++ m ++ codes " AND " ++ n))
              u)
            v,
        rw (low, high) refl,
        record {
          driver = b'.driver;
          marks = omega (
            arith,
            b'.marks,
            count-append (mark_char d) ((add_and w).sql ++ column)
                (before ++ m ++ codes " AND " ++ n),
            count-append (mark_char d) (add_and w).sql column,
            count-append (mark_char d) (before ++ m ++ codes " AND ") n,
            count-append (mark_char d) (before ++ m) (codes " AND "),
            count-append (mark_char d) before m,
            IsPlain-text d (codes " AND ") (refl, refl),
            length-append (add_and w).args (u ∷ []),
            length-append ((add_and w).args ++ u ∷ []) (v ∷ []),
          );
        },
      )

  -- The placeholders in hand and those already written stand for the arguments.
  record IsOpen (sqls : Str) (w : Wrapper N) : Type 0 where
    driver : w.driver_type ≡ d
    marks : count (mark_char d) w.sql + count (mark_char d) sqls ≡ length w.args

  push_mark-IsOpen :
      (sqls m : Str) (x : Value N) (w : Wrapper N)
      → count (mark_char d) m ≡ 1
      → IsOpen sqls w
      → IsOpen (sqls ++ codes " " ++ m ++ codes " " ++ codes ",") (push_arg w x)
  push_mark-IsOpen sqls m x w once o = record {
    driver = o.driver;
    marks = omega (
      arith,
      o.marks,
      once,
      count-append (mark_char d) (sqls ++ codes " " ++ m ++ codes " ") (codes ","),
      count-append (mark_char d) (sqls ++ codes " " ++ m) (codes " "),
      count-append (mark_char d) (sqls ++ codes " ") m,
      count-append (mark_char d) sqls (codes " "),
      IsPlain-text d (codes " ") (refl, refl),
      IsPlain-text d (codes ",") (refl, refl),
      length-append w.args (x ∷ []),
    );
  }

  bind_each-IsOpen :
      (sqls : Str) (xs : List (Value N)) (w : Wrapper N)
      → EndsOpen sqls
      → IsOpen sqls w
      → (r : Str × Wrapper N) × (bind_each sqls xs w ≡ ok r) × IsOpen r.0 r.1 × EndsOpen r.0
  unfolding bind_each
  bind_each-IsOpen sqls [] w e o = ((sqls, w), refl, o, e)
  bind_each-IsOpen sqls (x ∷ xs) w e o =
      let (m, written, once) = mark_of o.driver (length w.args) connected in
      let (r, done, o', e') =
        bind_each-IsOpen (sqls ++ codes " " ++ m ++ codes " " ++ codes ",") xs (push_arg w x)
          (inr (sqls ++ codes " " ++ m ++ codes " ", refl)) (push_mark-IsOpen sqls m x w once o) in
      (r, rw written done, o', e')

  pub bound_list-IsBalanced :
      (before column : Str) (vec : List (Value N)) (w : Wrapper N)
      → IsPlain d before
      → IsPlain d column
      → IsBalanced d w
      → Gives d (bound_list before column vec w)
  unfolding bound_list
  bound_list-IsBalanced before column vec w p q b =
      let b' = push_str-IsBalanced d (add_and w) column q (add_and-IsBalanced d w b) in
      let ((sqls, w'), done, o, e) =
        bind_each-IsOpen [] vec (push_str (add_and w) column) (inl refl)
          (record { driver = b'.driver; marks = omega (arith, b'.marks) }) in
      (
        push_str w' (before ++ codes "(" ++ pop sqls ++ codes ")"),
        rw done refl,
        record {
          driver = o.driver;
          marks = omega (
            arith,
            o.marks,
            count-append (mark_char d) w'.sql (before ++ codes "(" ++ pop sqls ++ codes ")"),
            count-append (mark_char d) (before ++ codes "(" ++ pop sqls) (codes ")"),
            count-append (mark_char d) (before ++ codes "(") (pop sqls),
            count-append (mark_char d) before (codes "("),
            IsPlain-text d (codes "(") (refl, refl),
            IsPlain-text d (codes ")") (refl, refl),
            count-pop_open d sqls e,
          );
        },
      )

  pub in_array-IsBalanced :
      (column : Str) (vec : List (Value N)) (w : Wrapper N)
      → IsPlain d column
      → IsBalanced d w
      → Gives d (in_array column vec w)
  unfolding in_array
  in_array-IsBalanced column [] w q b = (add_and w, refl, add_and-IsBalanced d w b)
  in_array-IsBalanced column (x ∷ xs) w q b =
      bound_list-IsBalanced (codes " IN ") column (x ∷ xs) w
        (IsPlain-text d (codes " IN ") (refl, refl)) q b

  eq_each-IsBalanced :
      (len index : ℕ) (fs : List (Str × Value N)) (w : Wrapper N)
      → All (λ f. IsPlain d f.0) fs
      → IsBalanced d w
      → Gives d (eq_each len index fs w)
  unfolding eq_each
  eq_each-IsBalanced len index [] w p b = (w, refl, b)
  eq_each-IsBalanced len index ((k, v) ∷ rest) w (p, ps) b =
      let (w', done, b') =
        bound-IsBalanced d connected (codes " = ") [] k v w
          (IsPlain-text d (codes " = ") (refl, refl)) (IsPlain-text d [] (refl, refl)) p b in
      rw done (
        eq_each-IsBalanced len (if index + 1 == len then index else index + 1) rest _ ps
          (joined w' b'))
    where
      joined :
          (w' : Wrapper N)
          → IsBalanced d w'
          → IsBalanced d (if index + 1 == len then w' else push_str w' (codes " , "))
      joined w' b' = elim (if-cases (index + 1 == len) w' (push_str w' (codes " , "))) [
        | inl same ↦ rw same b'
        | inr more ↦
            rw more (
              push_str-IsBalanced d w' (codes " , ") (IsPlain-text d (codes " , ") (refl, refl)) b')
      ]

  pub all_eq-IsBalanced :
      (v : Value N) (w : Wrapper N) → IsPlainObject d v → IsBalanced d w → Gives d (all_eq v w)
  unfolding all_eq
  all_eq-IsBalanced (object fs) w p b =
      eq_each-IsBalanced (length (entries fs)) 0 (entries fs) (add_and w) p
        (add_and-IsBalanced d w b)
  all_eq-IsBalanced _ w p b =
      let b' = add_and-IsBalanced d w b in
      (_, refl, record { driver = b'.driver; marks = b'.marks })

module _ {N : Type 0} (d : DriverType) where
  push_columns-IsBalanced :
      (after : Str) (len index : ℕ) (columns : List Str) (w : Wrapper N)
      → IsPlain d after
      → All (IsPlain d) columns
      → IsBalanced d w
      → IsBalanced d (push_columns after len index columns w)
  unfolding push_columns
  push_columns-IsBalanced after len index [] w q p b = b
  push_columns-IsBalanced after len index (x ∷ columns) w q (p, ps) b =
      push_columns-IsBalanced after len (if index + 1 == len then index else index + 1) columns _ q
        ps
        (push_str-IsBalanced d (push_str w (x ++ after)) _ comma (
          push_str-IsBalanced d w (x ++ after) (omega (arith, count-append (mark_char d) x after))
            b))
    where
      comma : IsPlain d (if index + 1 == len then [] else codes " , ")
      comma = elim (if-cases (index + 1 == len) [] (codes " , ")) [
        | inl e ↦ rw e (IsPlain-text d [] (refl, refl))
        | inr e ↦ rw e (IsPlain-text d (codes " , ") (refl, refl))
      ]

  pub push_clause-IsBalanced :
      (before after : Str) (columns : List Str) (w : Wrapper N)
      → IsPlain d before
      → IsPlain d after
      → All (IsPlain d) columns
      → IsBalanced d w
      → IsBalanced d (push_clause before after columns w)
  unfolding push_clause
  push_clause-IsBalanced before after [] w p q r b = b
  push_clause-IsBalanced before after (x ∷ columns) w p q r b =
      push_columns-IsBalanced after (length (x ∷ columns)) 0 (x ∷ columns) _ q r (record {
        driver = b.driver;
        marks = omega (
          arith,
          b.marks,
          count-append (mark_char d)
              (trim_end_matches (trim_end_matches w.sql (codes " WHERE")) (codes "WHERE ")) before,
          count-trim_end_matches (mark_char d) (trim_end_matches w.sql (codes " WHERE"))
              (codes "WHERE ") (IsPlain-text d (codes "WHERE ") (refl, refl)),
          count-trim_end_matches (mark_char d) w.sql (codes " WHERE")
              (IsPlain-text d (codes " WHERE") (refl, refl)),
        );
      })
