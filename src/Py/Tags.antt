-- ===== src/Py/Tags.antt =====
-- src/ast/lang/py.rs: `tag_node` on the headers of a template's text.
use rbatis.Ast.Defs.{nil}
use rbatis.Py.Node.{slice, after_word, for_node, trim_node, tag_node, parser_node}
use rbatis.Py.Template.{
  if_header, when_header, for_header, trim_header, spaces, header_node, starts_solid, IsWord,
  IsHeader,
}
use rbatis.Py.Words.{
  trim-spaces, trim_start-solid, trim_end-solid, trim-solid, trim-word, take-append,
}
use rbatis.Text.Trimmed.{ends_with-append}
use rbatis.Prelude.{
  ℕ, zero, suc, ◌+◌, ◌-◌, ◌≡◌, refl, ap, ◌∙◌, inl, inr, true, false, some, List, [], ◌∷◌, ◌++◌,
  append_assoc, arith, leb, ◌==◌, Bool-cases, length, take, drop, length-append, All, ok,
}
use rbatis.Text.{
  Str, codes, strip_prefix, starts_with, ends_with, strip_prefix-append, find, find_from, contains,
  is_whitespace, trim,
}

starts_with-append : (p s : Str) → starts_with (p ++ s) p ≡ true
unfolding starts_with
starts_with-append p s = rw (strip_prefix-append p s) refl

-- A separator that begins with a space is found after a text without one.
find_from-append :
    (s p t : Str) (i : ℕ)
    → All (λ c. (c == b' ') ≡ false) s
    → find_from (b' ' ∷ p) (s ++ b' ' ∷ (p ++ t)) i ≡ some (i + length s)
unfolding find_from starts_with
find_from-append [] p t i h = rw (starts_with-append (b' ' ∷ p) t) (ap some (omega arith))
find_from-append (c ∷ s) p t i (other, h) =
    let missed : starts_with (c ∷ (s ++ b' ' ∷ (p ++ t))) (b' ' ∷ p) ≡ false =
      unfold starts_with strip_prefix in rw other refl in
    rw (find_from, missed) (find_from-append s p t (i + 1) h ∙ ap some (omega arith))

contains-find_from : (s p : Str) (i k : ℕ) → find_from p s i ≡ some k → contains s p ≡ true
unfolding find_from contains
contains-find_from [] p i k h = cc
contains-find_from (c ∷ s) p i k h = elim (Bool-cases (starts_with (c ∷ s) p)) [
  | inl found ↦ rw (contains, found) refl
  | inr missed ↦
      rw (contains, missed) (contains-find_from s p (i + 1) k (rw (find_from, missed) at h))
]

take-last : (s : Str) (c : ℕ) → take (length (s ++ c ∷ []) - 1) (s ++ c ∷ []) ≡ s
take-last s c =
    let measured : length (s ++ c ∷ []) - 1 ≡ length s = omega (arith, length-append s (c ∷ [])) in
    rw measured (take-append s (c ∷ []))

trim-colon : (s : Str) → starts_solid s ≡ true → trim (s ++ b':' ∷ []) ≡ s ++ b':' ∷ []
trim-colon s h =
    unfold trim in
    rw (trim_start-solid s (b':' ∷ []) h)
      (trim_end-solid (b':' ∷ []) s (unfold starts_solid is_whitespace in refl))

module _ (order : List Str → List Str) where
  -- The line of a header.
  pub parser_node-tag :
      (n : ℕ) (s : Str) (count : ℕ)
      → starts_solid s ≡ true
      → trim s ≡ s
      → parser_node order (spaces n (s ++ codes ":")) count ≡ tag_node s
  unfolding parser_node
  parser_node-tag n s count h k =
      rw
        (
          trim-spaces n (s ++ codes ":"),
          trim-colon s h,
          ends_with-append s (codes ":"),
          take-last s b':',
          k,
        )
        refl

module _ (test : Str) where
  pub tag_node-if :
      IsWord test → tag_node (codes "if " ++ test) ≡ ok (header_node (if_header test) nil)
  unfolding tag_node after_word header_node starts_with strip_prefix IsWord
  tag_node-if (h, k, _) = rw (trim-word test h k) refl

  pub tag_node-when :
      IsWord test → tag_node (codes "when " ++ test) ≡ ok (header_node (when_header test) nil)
  unfolding tag_node after_word header_node starts_with strip_prefix IsWord
  tag_node-when (h, k, _) = rw (trim-word test h k) refl

drop-past {ℓ} :
    {A : Type ℓ} (xs ys : List A) (n k : ℕ) → k ≡ length xs + n → drop k (xs ++ ys) ≡ drop n ys
drop-past [] ys n k e = ap (λ k. drop k ys) (omega arith)
drop-past (x ∷ xs) ys n zero e = absurd (omega arith)
drop-past (x ∷ xs) ys n (suc k) e = drop-past xs ys n k (omega arith)

find-header :
    (item collection : Str)
    → All (λ c. (c == b' ') ≡ false) item
    → find (item ++ (codes " in " ++ collection)) (codes " in ") ≡ some (length item)
unfolding find
find-header item collection plain =
    find_from-append item (codes "in ") collection 0 plain ∙ ap some (omega arith)

for_node-header :
    (item collection : Str)
    → IsHeader (for_header item collection)
    → for_node (item ++ (codes " in " ++ collection))
      ≡ ok (header_node (for_header item collection) nil)
unfolding for_node header_node IsHeader IsWord
for_node-header item collection ((h, k, _), plain, (p, q, _)) =
    rw
      (
        for_node,
        find-header item collection plain,
        drop-past item (codes " in " ++ collection) 4 (length item + 4) refl,
        take-append item (codes " in " ++ collection),
        trim-word item h k,
        trim-word collection p q,
      )
      refl

contains-cons : (c : ℕ) (s p : Str) → contains s p ≡ true → contains (c ∷ s) p ≡ true
unfolding contains
contains-cons c s p h = elim (Bool-cases (starts_with (c ∷ s) p)) [
  | inl found ↦ rw (contains, found) refl
  | inr missed ↦ rw (contains, missed) h
]

contains-header :
    (item collection : Str)
    → All (λ c. (c == b' ') ≡ false) item
    → contains (codes "for " ++ (item ++ (codes " in " ++ collection))) (codes " in ") ≡ true
contains-header item collection plain = contains-cons _ _ _ (
    contains-cons _ _ _ (
      contains-cons _ _ _ (
        contains-cons _ _ _ (
          contains-find_from (item ++ (codes " in " ++ collection)) (codes " in ") 0 _
            (find_from-append item (codes "in ") collection 0 plain)))))

pub tag_node-for :
    (item collection : Str)
    → IsHeader (for_header item collection)
    → tag_node (codes "for " ++ item ++ codes " in " ++ collection)
      ≡ ok (header_node (for_header item collection) nil)
unfolding tag_node after_word starts_with strip_prefix IsHeader IsWord
tag_node-for item collection ((h, k, plain_item), plain, (p, q, plain_collection)) =
    rw
      (
        append_assoc item (codes " in ") collection,
        contains-header item collection plain,
        ← append_assoc item (codes " in ") collection,
        trim-solid item (codes " in ") collection h q,
        append_assoc item (codes " in ") collection,
      )
      (for_node-header item collection ((h, k, plain_item), plain, (p, q, plain_collection)))

slice-inner :
    (c d : ℕ) (s : Str) → slice 1 (length (c ∷ (s ++ d ∷ [])) - 1) (c ∷ (s ++ d ∷ [])) ≡ ok s
unfolding slice
slice-inner c d s =
    let measured : length (s ++ d ∷ []) ≡ length s + 1 = omega (arith, length-append s (d ∷ [])) in
    let to : suc (length s + 1) - 1 ≡ length s + 1 = omega arith in
    let size : length s + 1 - 1 ≡ length s = omega arith in
    let begins : leb 1 (length s + 1) ≡ true = ground arith in
    let ends : leb (length s + 1) (suc (length s + 1)) ≡ true = ground arith in
    rw (slice, measured, to, begins, ends, size, take-append s (d ∷ [])) refl

pub tag_node-trim :
    (overrides : Str)
    → IsWord overrides
    → tag_node (codes "trim '" ++ overrides ++ codes "'")
      ≡ ok (header_node (trim_header overrides) nil)
unfolding tag_node trim_node after_word starts_with strip_prefix IsWord header_node
tag_node-trim overrides (h, k, _) =
    let quoted : trim (codes "'" ++ overrides ++ codes "'") ≡ codes "'" ++ overrides ++ codes "'" =
      trim-solid (codes "'") overrides (codes "'") (unfold starts_solid is_whitespace in refl)
        (unfold starts_solid is_whitespace in refl) in
    let closed : ends_with (codes "'" ++ overrides ++ codes "'") (codes "'") ≡ true =
      ends_with-append (codes "'" ++ overrides) (codes "'") in
    rw (quoted, closed, slice-inner b'\'' b'\'' overrides, trim-word overrides h k) refl
