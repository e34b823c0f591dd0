-- ===== src/Prelude/Outcomes.antt =====
-- Rust's `Result<T, rbatis_core::Error>`, with a third case for code that panics (an `unwrap` of
-- nothing, an index out of bounds, `panic!`). An error is its message.
use Prim.Native.Nat.{ℕ}
use mathlib.Core.List.{List}
use mathlib.Core.Path.{◌≡◌, refl}
use mathlib.Core.Bool.{Bool, true, false}
use mathlib.Core.Logic.{◌⊎◌, inl, inr}
use mathlib.Core.Option.{Option, none, some}

pub data Outcome {ℓ} (T : Type ℓ) : Type ℓ where
  panic : Outcome T
  err : List ℕ → Outcome T
  ok : T → Outcome T

module _ {ℓ κ} {T : Type ℓ} {U : Type κ} where
  infixl 5 ◌>>=◌
  -- The `?` operator; a panic stops everything.
  abbrev pub ◌>>=◌ : Outcome T → (T → Outcome U) → Outcome U
  m >>= next = elim m [ panic ↦ panic | err message ↦ err message | ok value ↦ next value ]

-- `option.unwrap()`
abbrev pub unwrap {ℓ} : {T : Type ℓ} → Option T → Outcome T
unwrap none = panic
unwrap (some value) = ok value

pub Outcome-cases {ℓ} :
    {T : Type ℓ} (o : Outcome T)
    → ((o ≡ panic) ⊎ ((message : List ℕ) × (o ≡ err message))) ⊎ ((value : T) × (o ≡ ok value))
Outcome-cases panic = inl (inl refl)
Outcome-cases (err message) = inl (inr (message, refl))
Outcome-cases (ok value) = inr (value, refl)

abbrev pub is_panic {ℓ} : {T : Type ℓ} → Outcome T → Bool
is_panic panic = true
is_panic _ = false

-- What holds of the value, if there is one.
abbrev pub Ensures {ℓ κ} : {T : Type ℓ} → (T → Type κ) → Outcome T → Type κ
Ensures P (ok value) = P value
Ensures P _ = Unit

module _ {ℓ κ ι} {T : Type ℓ} {U : Type κ} (P : T → Type ι) where
  pub Ensures->>= :
      (Q : U → Type ι) (m : Outcome T) (next : T → Outcome U)
      → Ensures P m
      → ((value : T) → P value → Ensures Q (next value))
      → Ensures Q (m >>= next)
  Ensures->>= Q panic next h k = tt
  Ensures->>= Q (err message) next h k = tt
  Ensures->>= Q (ok value) next h k = k value h

  -- What follows may be replaced by what agrees with it on the values that can occur.
  pub >>=-agree :
      (m : Outcome T) (f g : T → Outcome U)
      → Ensures P m
      → ((value : T) → P value → f value ≡ g value)
      → (m >>= f) ≡ (m >>= g)
  >>=-agree panic f g h k = refl
  >>=-agree (err message) f g h k = refl
  >>=-agree (ok value) f g h k = k value h

module _ {ℓ κ} {T : Type ℓ} {U : Type κ} where
  pub Ensures-after :
      (Q : U → Type κ) (m : Outcome T) (next : T → Outcome U)
      → ((value : T) → m ≡ ok value → Ensures Q (next value))
      → Ensures Q (m >>= next)
  Ensures-after Q panic next k = tt
  Ensures-after Q (err message) next k = tt
  Ensures-after Q (ok value) next k = k value refl

  pub >>=-ap :
      (m : Outcome T) (f g : T → Outcome U)
      → ((value : T) → f value ≡ g value)
      → (m >>= f) ≡ (m >>= g)
  >>=-ap panic f g k = refl
  >>=-ap (err message) f g k = refl
  >>=-ap (ok value) f g k = k value

  -- A chain panics only where one of its parts does.
  pub >>=-safe :
      (m : Outcome T) (f : T → Outcome U)
      → is_panic m ≡ false
      → ((value : T) → m ≡ ok value → is_panic (f value) ≡ false)
      → is_panic (m >>= f) ≡ false
  >>=-safe panic f h k = h
  >>=-safe (err message) f h k = refl
  >>=-safe (ok value) f h k = k value refl
