-- ===== src/Decode/Totals.antt =====
-- rbatis-core/src/decode.rs in src/rbatis.rs: the total that `fetch_page` decodes from the rows of its
-- count query.
use rbatis.Decode.{
  is_array, is_single, is_one_of, starts_with_one_of, too_many, one_row, js_of, json_decode,
}
use rbatis.Driver.{DriverType}
use rbatis.Json.{Value}
use rbatis.Page.{IPageRequest}
use rbatis.Session.{Database, Session, with_world, find_tx}
use rbatis.Session.Paging.{fetch_both, fetch_page}
use rbatis.Session.Prepared.{
  Queries, driver_type, acquired, and_then, bind_arg, decoded, fetch_prepare_found, fetch_bound,
  fetch_prepare,
}
use rbatis.Prelude.{
  ℕ, ◌≡◌, refl, inl, inr, true, false, Option, none, some, List, length, ltb, Bool-cases, Outcome,
  ok, err, panic, ◌>>=◌,
}
use rbatis.Text.{Str, codes, is_empty, str_eq, strip_prefix, starts_with}

module _ {C W Q N T : Type 0} (db : Database C W) (queries : Queries C W Q N)
    (decode : List (Value N) → Outcome T) (s : Session C W) where
  rows_to : List (Value N) → Session C W → Outcome T × Session C W
  rows_to rows after = (decode rows, after)

  with_world-decoded :
      (rows : Outcome (List (Value N)) × W)
      → with_world db s (decoded db queries decode rows)
        ≡ and_then (with_world db s (decoded db queries ok rows)) rows_to
  unfolding with_world decoded and_then rows_to
  with_world-decoded (ok json, world) = refl
  with_world-decoded (err message, world) = refl
  with_world-decoded (panic, world) = refl

  pooled :
      (conns : Outcome C × W) (q : Outcome Q)
      → with_world db s (
          and_then conns λ conn world.
            and_then
              (q, world)
              λ query after. decoded db queries decode (queries.fetch_parperd conn query after))
        ≡ and_then
            (with_world db s (
              and_then conns λ conn world.
                and_then
                  (q, world)
                  λ query after. decoded db queries ok (queries.fetch_parperd conn query after)))
            rows_to
  unfolding with_world and_then
  pooled (ok conn, world) (ok query) = with_world-decoded (queries.fetch_parperd conn query world)
  pooled (ok conn, world) (err message) = refl
  pooled (ok conn, world) panic = refl
  pooled (err message, world) q = refl
  pooled (panic, world) q = refl

  fetch_prepare_found-rows :
      (tx_id : Str) (query : Q) (conn : Option C)
      → fetch_prepare_found db queries decode tx_id s query conn
        ≡ and_then (fetch_prepare_found db queries ok tx_id s query conn) rows_to
  unfolding fetch_prepare_found and_then
  fetch_prepare_found-rows tx_id query none = refl
  fetch_prepare_found-rows tx_id query (some conn) =
      with_world-decoded (queries.fetch_parperd conn query s.world)

  fetch_bound-rows :
      (tx_id : Str) (q : Outcome Q)
      → fetch_bound db queries decode tx_id s q
        ≡ and_then (fetch_bound db queries ok tx_id s q) rows_to
  unfolding fetch_bound and_then
  fetch_bound-rows tx_id (ok query) = fetch_prepare_found-rows tx_id query (find_tx tx_id s.context)
  fetch_bound-rows tx_id (err message) = refl
  fetch_bound-rows tx_id panic = refl

  -- The decoder is applied to the rows of the query, in the session that the query leaves.
  fetch_prepare-rows :
      (tx_id sql : Str) (args : List (Value N))
      → fetch_prepare db queries decode tx_id sql args s
        ≡ and_then (fetch_prepare db queries ok tx_id sql args s) rows_to
  unfolding fetch_prepare
  fetch_prepare-rows tx_id sql args = elim (Bool-cases (is_empty tx_id)) [
    | inl default ↦ rw default (pooled (acquired db queries s) (bind_arg db queries sql args s))
    | inr named ↦ rw named (fetch_bound-rows tx_id (bind_arg db queries sql args s))
  ]

json_decode-many :
    {N T : Type 0}
    → (to_string : Value N → Str) (from_value : Value N → Outcome T) (type_name : Str)
      (rows : List (Value N))
    → is_array type_name ≡ false
    → is_single type_name ≡ true
    → ltb 1 (length rows) ≡ true
    → json_decode to_string from_value type_name rows ≡ err (too_many type_name)
unfolding json_decode js_of one_row
json_decode-many to_string from_value type_name rows plain single many =
    rw (plain, single, many) refl

-- The type of the total, `Option<u64>`.
abbrev pub total_type : Str
total_type = codes "core::option::Option<u64>"

total-many :
    {N : Type 0}
    → (to_string : Value N → Str) (from_value : Value N → Outcome (Option ℕ))
      (rows : List (Value N))
    → ltb 1 (length rows) ≡ true
    → json_decode to_string from_value total_type rows ≡ err (too_many total_type)
unfolding is_array is_single starts_with_one_of is_one_of starts_with strip_prefix str_eq
total-many to_string from_value rows many =
    json_decode-many to_string from_value total_type rows refl refl many

module _ {C W Q N T : Type 0} (db : Database C W) (queries : Queries C W Q N)
    (create_page_sql : DriverType → Str → IPageRequest → Outcome (Str × Str))
    (to_string : Value N → Str) (from_value : Value N → Outcome (Option ℕ))
    (decode_rows : List (Value N) → Outcome (Option (List T))) where
  -- If a count is asked for, the plugin makes its statement and that query returns more than one row,
  -- `fetch_page` returns the error of `json_decode` on many rows, in the session that the count query
  -- leaves: no other query is run.
  pub fetch_page-json_decode :
      (tx_id sql count_sql page_sql : Str) (args rows : List (Value N)) (page : IPageRequest)
      (s after : Session C W)
      → page.is_serch_count ≡ true
      → (driver_type db queries s >>= λ driver. create_page_sql driver sql page)
        ≡ ok (count_sql, page_sql)
      → fetch_prepare db queries ok tx_id count_sql args s ≡ (ok rows, after)
      → ltb 1 (length rows) ≡ true
      → fetch_page db queries create_page_sql
          (json_decode to_string from_value total_type)
          decode_rows
          tx_id
          sql
          args
          page
          s
        ≡ (err (too_many total_type), after)
  unfolding fetch_page fetch_both
  fetch_page-json_decode tx_id sql count_sql page_sql args rows page s after counts made found
        many =
      rw
        (
          made,
          counts,
          fetch_prepare-rows db queries (json_decode to_string from_value total_type) s tx_id
              count_sql args,
          found,
        )
        (unfold and_then rows_to in rw (total-many to_string from_value rows many) refl)
