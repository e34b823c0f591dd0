-- ===== src/Engine/Paths.antt =====
-- An argument's path: `Node::eval` of src/engine/node.rs against `get_deep_value` of
-- src/utils/value_util.rs.
use rbatis.Engine.Eval.{Numeric}
use rbatis.Engine.Node.{new_arg, get_or_null, get_path, eval}
use rbatis.Json.{Value, null, bool, number, string, array, object, get, is_null}
use rbatis.Utils.ValueUtil.{step_into, walk, get_deep_value}
use rbatis.Prelude.{
  ℕ, zero, suc, ◌-◌, ◌≡◌, refl, sym, ap, ◌∙◌, inl, inr, false, List, [], ◌∷◌, if◌then◌else◌,
  Bool-cases, length, All, ok,
}
use rbatis.Text.{Str, codes, is_empty, starts_with, split_from, split}

unfoldable pub IsPart : Str → Type 0
IsPart part = is_empty part ≡ false

split_from-cons :
    (p : Str) (k : ℕ) (s : Str)
    → (part : Str) × (parts : List Str) × (split_from p k s ≡ part ∷ parts)
unfolding split_from
split_from-cons p k [] = ([], [], refl)
split_from-cons p (suc k) (c ∷ s) = split_from-cons p k s
split_from-cons p zero (c ∷ s) =
    let (part, parts, e) = split_from-cons p zero s in
    elim (Bool-cases (starts_with (c ∷ s) p)) [
      | inl hit ↦ ([], split_from p (length p - 1) s, rw (hit, split_from) refl)
      | inr missed ↦ (c ∷ part, parts, rw (missed, split_from, e) refl)
    ]

module _ {N : Type 0} where
  step_into-part : (v : Value N) (part : Str) → IsPart part → step_into v part ≡ get_or_null v part
  unfolding IsPart step_into get_or_null
  step_into-part v part h = rw h refl

  abbrev nothing : Value N
  nothing = null

  step_into-null : (part : Str) → step_into nothing part ≡ null
  unfolding step_into get
  step_into-null part = elim (Bool-cases (is_empty part)) [ inl e ↦ rw e refl | inr e ↦ rw e refl ]

  walk-null : (parts : List Str) → walk parts nothing ≡ null
  unfolding walk
  walk-null [] = refl
  walk-null (part ∷ parts) = ap (λ v. walk parts v) (step_into-null part) ∙ walk-null parts

  -- The early return on null changes nothing.
  early_return :
      (parts : List Str) (w found : Value N)
      → found ≡ walk parts w
      → (if is_null w then w else found) ≡ walk parts w
  unfolding is_null
  early_return parts null found e = sym (walk-null parts)
  early_return parts (bool _) found e = e
  early_return parts (number _) found e = e
  early_return parts (string _) found e = e
  early_return parts (array _) found e = e
  early_return parts (object _) found e = e

  get_path-walk :
      (part : Str) (parts : List Str) (v : Value N)
      → IsPart part
      → All IsPart parts
      → get_path (part ∷ parts) v ≡ walk (part ∷ parts) v
  unfolding get_path walk
  get_path-walk part [] v p h = sym (step_into-part v part p)
  get_path-walk part (next ∷ parts) v p (q, h) =
      early_return (next ∷ parts) (get_or_null v part)
        (get_path (next ∷ parts) (get_or_null v part))
        (get_path-walk next parts (get_or_null v part) q h)
      ∙ ap (λ w. walk (next ∷ parts) w) (sym (step_into-part v part p))

  get_path-walk_of :
      (parts : List Str) (part : Str) (others : List Str) (v : Value N)
      → parts ≡ part ∷ others
      → All IsPart parts
      → get_path parts v ≡ walk parts v
  get_path-walk_of [] part others v e h = cc
  get_path-walk_of (p ∷ parts) part others v e (q, h) = get_path-walk p parts v q h

module _ {N F : Type 0} (ops : Numeric N F) where
  -- For a name with no empty part, the expression engine's argument has the value that
  -- `get_deep_value` finds.
  pub eval-get_deep_value :
      (name : Str) (env : Value N)
      → All IsPart (split name (codes "."))
      → eval ops (new_arg (split name (codes "."))) env ≡ ok (get_deep_value name env)
  unfolding eval get_deep_value split
  eval-get_deep_value name env h =
      let (part, parts, e) = split_from-cons (codes ".") 0 name in
      ap (λ v. ok v) (get_path-walk_of (split name (codes ".")) part parts env e h)
