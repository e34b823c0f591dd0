-- ===== src/Utils/ValueUtil.antt =====
-- src/utils/value_util.rs, src/utils/error_util.rs and src/decode/decoder.rs.
use rbatis.Json.{Value, null, array, items, get}
use rbatis.Prelude.{
  ℕ, Bool, ◌||◌, Option, none, some, List, [], ◌∷◌, if◌then◌else◌, length, Outcome, ok, err,
}
use rbatis.Text.{Str, codes, is_empty, starts_with, split}

module _ {N : Type 0} where
  unfoldable pub step_into : Value N → Str → Value N
  step_into v item =
      if is_empty item then v else elim (get v item) [ none ↦ null | some found ↦ found ]

  unfoldable pub walk : List Str → Value N → Value N
  unfolding step_into
  walk [] v = v
  walk (item ∷ splits) v = walk splits (step_into v item)

  unfoldable pub get_deep_value : Str → Value N → Value N
  get_deep_value arg value = walk (split arg (codes ".")) value

  unfoldable pub json_len : Value N → ℕ
  json_len null = 0
  json_len (array vs) = length (items vs)
  json_len _ = 1

unfoldable pub to_result {ℓ} : {T : Type ℓ} → Option T → Str → Outcome T
to_result none message = err message
to_result (some value) message = ok value

-- Whether the name of a Rust type is the name of a list type.
unfoldable pub is_array : Str → Bool
is_array type_name =
    starts_with type_name (codes "alloc::collections::linked_list")
    || starts_with type_name (codes "alloc::vec::Vec<")
    || starts_with type_name (codes "[")
    || starts_with type_name (codes "&[")
