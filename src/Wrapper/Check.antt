-- ===== src/Wrapper/Check.antt =====
-- `Wrapper::check`: its result after a chain of calls.
use rbatis.Driver.{DriverType}
use rbatis.Wrapper.Defs.{Wrapper, new, trim_and, trim_or, check}
use rbatis.Wrapper.Balance.{IsBalanced, trim_and-IsBalanced, trim_or-IsBalanced}
use rbatis.Wrapper.Invocations.{Call, chain, IsPlainCall}
use rbatis.Wrapper.Chain.{chain-IsBalanced}
use rbatis.Text.Trimmed.{trim_matches-ends}
use rbatis.Prelude.{◌≡◌, refl, ◌≢◌, false, none, List, arith, All, ok}
use rbatis.Text.{codes, starts_with, ends_with}

module _ {N : Type 0} where
  -- A check that succeeds found no error, and returns the trimmed wrapper.
  check-eq-ok :
      (w w' : Wrapper N) → (check w).0 ≡ ok w' → (w.error ≡ none) × (w' ≡ trim_or (trim_and w))
  unfolding check
  check-eq-ok w w' e = ground arith

  trim_or-ends :
      (w : Wrapper N)
      → (starts_with (trim_or w).sql (codes " OR ") ≡ false)
        × (ends_with (trim_or w).sql (codes " OR ") ≡ false)
  unfolding trim_or
  trim_or-ends w = trim_matches-ends b' ' (codes "OR ") b' ' (codes "RO ") w.sql refl

-- What `check` returns after a chain of calls but `set_sql` and `do_match` on a connected driver, with
-- no placeholder character in a column or a raw text that is passed in, and with each condition that
-- is linked of the same driver and with as many placeholders as arguments, has as many placeholders
-- as arguments, and its text neither starts nor ends with " OR ".
pub check-chain :
    {N : Type 0} (d : DriverType) (cs : List (Call N)) (w w' : Wrapper N)
    → d ≢ DriverType.none
    → All (IsPlainCall d) cs
    → chain cs (new d) ≡ ok w
    → (check w).0 ≡ ok w'
    → IsBalanced d w'
      × (starts_with w'.sql (codes " OR ") ≡ false)
      × (ends_with w'.sql (codes " OR ") ≡ false)
check-chain d cs w w' connected plain built checked =
    let (v, same, b) = chain-IsBalanced d connected cs plain in
    let (_, trimmed) = check-eq-ok w w' checked in
    let same_w : v ≡ w = ground (arith, same, built) in
    let ends = trim_or-ends (trim_and w) in
    rw trimmed
      (trim_or-IsBalanced d (trim_and w) (trim_and-IsBalanced d w (rw same_w at b)), ends.0, ends.1)
