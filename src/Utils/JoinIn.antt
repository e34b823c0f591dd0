-- ===== src/Utils/JoinIn.antt =====
-- src/utils/join_in.rs: a value under a key of a JSON object. What serde_json makes of the two
-- arguments, an error if it cannot, is a parameter.
use rbatis.Json.{Value, Fields, object, end, field, get_field}
use rbatis.Prelude.{
  ◌≡◌, refl, ap, ◌∙◌, inl, inr, Bool, true, false, some, [], ◌∷◌, ltb, ◌==◌, Bool-cases,
  if◌then◌else◌, Outcome, ok, err, panic, ◌>>=◌,
}
use rbatis.Text.{Str, codes, str_eq, str_eq_iff, str_eq_refl}

unfoldable pub unwrap_value {ℓ} : {A : Type ℓ} → Outcome A → Outcome A
unwrap_value (ok a) = ok a
unwrap_value (err e) = panic
unwrap_value panic = panic

-- The order of the keys of a `BTreeMap`.
unfoldable pub str_ltb : Str → Str → Bool
str_ltb [] [] = false
str_ltb [] (d ∷ other) = true
str_ltb (c ∷ s) [] = false
str_ltb (c ∷ s) (d ∷ other) = let rest = str_ltb s other in if c == d then rest else ltb c d

module _ {N : Type 0} where
  unfoldable pub insert : Str → Value N → Fields N → Fields N
  insert key value end = field key value end
  insert key value (field k v fs) =
      let rest = insert key value fs in
      if str_eq k key
      then field k value fs
      else if str_ltb key k
      then field key value (field k v fs)
      else field k v rest

  unfoldable pub join_object : Str → Outcome (Value N) → Value N → Outcome (Value N)
  join_object key join_in (object fs) = do
    value ← unwrap_value join_in
    ok (object (insert key value fs))
  join_object key join_in _ = err (codes "json_join value must be a object!")

  unfoldable pub json_join : Outcome (Value N) → Str → Outcome (Value N) → Outcome (Value N)
  json_join value key join_in = unwrap_value value >>= join_object key join_in

module _ {N : Type 0} (key : Str) (value : Value N) where
  get_field-insert : (fs : Fields N) → get_field key (insert key value fs) ≡ some value
  unfolding get_field insert
  get_field-insert end = rw (str_eq_refl key) refl
  get_field-insert (field k v fs) = elim (Bool-cases (str_eq k key)) [
    | inl same ↦ rw (same, same) refl
    | inr other ↦ elim (Bool-cases (str_ltb key k)) [
      | inl below ↦ rw (other, below, str_eq_refl key) refl
      | inr above ↦ rw (other, above, other) (get_field-insert fs)
    ]
  ]

  get_field-insert_other :
      (other : Str) (fs : Fields N)
      → str_eq key other ≡ false
      → get_field other (insert key value fs) ≡ get_field other fs
  unfolding get_field insert
  get_field-insert_other other end differs = rw differs refl
  get_field-insert_other other (field k v fs) differs = elim (Bool-cases (str_eq k key)) [
    | inl same ↦
        let skipped : str_eq k other ≡ false =
          ap (λ s. str_eq s other) ((str_eq_iff k key).0 same) ∙ differs in
        rw (same, skipped) refl
    | inr apart ↦ elim (Bool-cases (str_ltb key k)) [
      | inl below ↦ rw (apart, below, differs) refl
      | inr above ↦ rw (apart, above, get_field-insert_other other fs differs) refl
    ]
  ]

  -- The object that `json_join` returns has the joined value at the key, and at every other key what
  -- the object had.
  json_join_lem :
      (fs : Fields N)
      → (joined : Fields N) × (json_join (ok (object fs)) key (ok value) ≡ ok (object joined))
        × (get_field key joined ≡ some value)
        × ((other : Str) → str_eq key other ≡ false → get_field other joined ≡ get_field other fs)
  unfolding json_join join_object unwrap_value
  json_join_lem fs = (
    insert key value fs,
    refl,
    get_field-insert fs,
    λ other differs. get_field-insert_other other fs differs,
  )
