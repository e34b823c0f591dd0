-- ===== src/Json.antt =====
-- `serde_json::Value`, with the accessors that the sources call. The numbers of serde_json are a
-- parameter, and an object is its fields in the order of their keys (serde_json's `BTreeMap`).
use rbatis.Prelude.{Bool, true, false, Option, none, some, List, [], ◌∷◌, if◌then◌else◌}
use rbatis.Text.{Str, str_eq}

mutual
  pub data Value (N : Type 0) : Type 0 where
    null : Value N
    bool : Bool → Value N
    number : N → Value N
    string : Str → Value N
    array : Items N → Value N
    object : Fields N → Value N

  pub data Items (N : Type 0) : Type 0 where
    nil : Items N
    cons : Value N → Items N → Items N

  pub data Fields (N : Type 0) : Type 0 where
    end : Fields N
    field : Str → Value N → Fields N → Fields N

module _ {N : Type 0} where
  abbrev pub items : Items N → List (Value N)
  items nil = []
  items (cons v vs) = v ∷ items vs

  abbrev pub of_items : List (Value N) → Items N
  of_items [] = nil
  of_items (v ∷ vs) = cons v (of_items vs)

  abbrev pub entries : Fields N → List (Str × Value N)
  entries end = []
  entries (field k v fs) = (k, v) ∷ entries fs

  unfoldable pub is_null : Value N → Bool
  is_null null = true
  is_null _ = false

  unfoldable pub is_string : Value N → Bool
  is_string (string _) = true
  is_string _ = false

  unfoldable pub is_object : Value N → Bool
  is_object (object _) = true
  is_object _ = false

  unfoldable pub get_field : Str → Fields N → Option (Value N)
  unfolding str_eq
  get_field key end = none
  get_field key (field k v fs) = if str_eq k key then some v else get_field key fs

  -- `value.get(key)`: nothing on a value that is no object.
  unfoldable pub get : Value N → Str → Option (Value N)
  unfolding get_field
  get (object fs) key = get_field key fs
  get _ key = none
