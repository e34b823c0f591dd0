-- ===== src/Page/Rows.antt =====
-- Which rows a page holds: rows `offset` up to `offset + size`, counted from 0.
use native.Mathlib.Decide.{ℕ_discrete}
use native.Mathlib.Nat.{
  div-add-mod', mod-lt, mod-eq_of_lt, mul-le-mul_right, le-div_iff_mul-le, div-lt_iff_lt-mul,
  div-mul-le_self,
}
use rbatis.Page.Defs.{IPageRequest, get_pages, offset}
use rbatis.Prelude.{ℕ, ◌+◌, ◌-◌, ◌*◌, ◌/◌, ◌%◌, ◌^◌, ◌≤◌, ◌<◌, ◌≡◌, ◌≢◌, ◌↔◌, arith}

-- The row `i` lies on the page.
abbrev pub OnPage : ℕ → IPageRequest → Type 0
OnPage i p = (offset p ≤ i) × (i < offset p + p.get_size)

under : (c s : ℕ) → 0 < c → c * s < 2 ^ 64 → (c - 1) * s < 2 ^ 64
under c s h k = grind arith

-- Where nothing overflows, the offset is the exact product.
offset-eq :
    (p : IPageRequest)
    → 0 < p.get_current
    → p.get_current * p.get_size < 2 ^ 64
    → offset p ≡ (p.get_current - 1) * p.get_size
unfolding offset
offset-eq p h k = ground (arith, mod-eq_of_lt (under p.get_current p.get_size h k))

ceiling_exact : (t s n : ℕ) → 0 < s → t % s ≡ 0 → (t / s ≤ n) ↔ (t ≤ n * s)
ceiling_exact t s n h e =
    let whole = div-add-mod' t s in
    (
      λ (le : t / s ≤ n). omega (arith, whole, mul-le-mul_right s le),
      λ (le : t ≤ n * s). grind (arith, whole),
    )

ceiling_more : (t s n : ℕ) → 0 < s → t % s ≢ 0 → (t / s + 1 ≤ n) ↔ (t ≤ n * s)
ceiling_more t s n h e =
    let whole = div-add-mod' t s in
    (
      λ (le : t / s + 1 ≤ n). omega (arith, whole, mul-le-mul_right s le, mod-lt t h),
      λ (le : t ≤ n * s). grind (arith, whole),
    )

-- For a positive size, `n` pages hold all rows exactly if `get_pages` is at most `n`.
pub get_pages_least :
    (p : IPageRequest) (n : ℕ) → 0 < p.get_size → (get_pages p ≤ n) ↔ (p.get_total ≤ n * p.get_size)
unfolding get_pages
get_pages_least p n h = elim (ℕ_discrete (p.get_total % p.get_size) 0) [
  | yes e ↦ ground (arith, ceiling_exact p.get_total p.get_size n h e)
  | no e ↦ ground (arith, ceiling_more p.get_total p.get_size n h e)
]

row_page : (c s i : ℕ) → 0 < s → 0 < c → ((c - 1) * s ≤ i) × (i < (c - 1) * s + s) ↔ (c ≡ i / s + 1)
row_page c s i h k =
    let low = le-div_iff_mul-le {k = s} {x = c - 1} {y = i} h in
    let high = div-lt_iff_lt-mul {k = s} {x = i} {y = c - 1 + 1} h in
    (
      λ on. omega (arith, low.1 on.0, high.1 (omega (arith, on.1))),
      λ (e : c ≡ i / s + 1). (low.0 (omega arith), omega (arith, high.0 (omega arith))),
    )

-- If a page's size and its number are positive and their product does not overflow, a row i of the
-- total lies on the page exactly if the page's number is i / size + 1, and `get_pages` counts the
-- page of that number.
pub OnPage-iff :
    (p : IPageRequest) (i : ℕ)
    → 0 < p.get_size
    → 0 < p.get_current
    → p.get_current * p.get_size < 2 ^ 64
    → i < p.get_total
    → (OnPage i p ↔ (p.get_current ≡ i / p.get_size + 1)) × (i / p.get_size + 1 ≤ get_pages p)
OnPage-iff p i h k small row =
    let place = row_page p.get_current p.get_size i h k in
    let least = get_pages_least p (i / p.get_size) h in
    (rw (offset-eq p k small) place, grind (arith, least, div-mul-le_self i p.get_size))
