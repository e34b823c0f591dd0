-- ===== src/Engine/Lexing.antt =====
-- src/engine/runtime.rs: the tokens of a text without quotes and operators.
use rbatis.Engine.Operators.{OptMap, is_opt}
use rbatis.Engine.Tokens.{
  utf8_width, utf8_len, Lexer, is_quote, trim_push_back, read, read_all, parser_tokens,
}
use rbatis.Prelude.{
  ℕ, suc, ◌+◌, ◌≤◌, ◌<◌, ◌≡◌, refl, ap, ◌∙◌, false, [], ◌∷◌, ◌++◌, append_assoc, arith, ◌==◌,
  if◌then◌else◌, length, All,
}
use rbatis.Text.Blanks.{IsBlank, IsTrimmed, trim-blanks}
use rbatis.Text.{Str, is_empty, trim_start, trim_end, trim}

moved : (n k : ℕ) → n + 1 + suc k ≡ n + suc (suc k)
moved n k = omega arith

from_zero : (k : ℕ) → 0 + k ≡ k
from_zero k = omega arith

one_token : (t s : Str) → IsTrimmed s → trim t ≡ s → trim_push_back t [] ≡ s ∷ []
unfolding trim_push_back is_empty
one_token t [] (first, last) e = absurd first
one_token t (c ∷ s) trimmed e = rw e refl

module _ (opt_map : OptMap) where
  -- Neither a quote nor an operator.
  unfoldable pub IsWord : ℕ → Type 0
  IsWord c = (is_quote c ≡ false) × (is_opt opt_map (c ∷ []) ≡ false)

  -- Inside a word: nothing was pushed, and `t` was read.
  word : ℕ → Str → Lexer
  word n t = record { result = []; find_str = false; temp_str = []; temp_arg = t; index = n }

  read-word :
      (len c n : ℕ) (t : Str)
      → IsWord c
      → read opt_map len c (word n t) ≡ record (word (n + 1) (t ++ c ∷ [])) {
        result = if n + 1 == len then trim_push_back (t ++ c ∷ []) [] else [];
      }
  unfolding IsWord read word
  read-word len c n t (quote, opt) = rw (quote, opt) refl

  not_last : (n len : ℕ) → n < len → (n == len) ≡ false
  not_last n len h = ground (arith, h)

  read_inside :
      (len c n : ℕ) (t : Str)
      → IsWord c
      → n + 1 < len
      → read opt_map len c (word n t) ≡ word (n + 1) (t ++ c ∷ [])
  unfolding word
  read_inside len c n t p h =
      read-word len c n t p
      ∙ ap
          (λ b. record (word (n + 1) (t ++ c ∷ [])) {
            result = if b then trim_push_back (t ++ c ∷ []) [] else [];
          })
          (not_last (n + 1) len h)

  read_all-word :
      (len c n : ℕ) (s t : Str)
      → IsWord c
      → All IsWord s
      → n + suc (length s) ≤ len
      → (read_all opt_map len (c ∷ s) (word n t)).result
        ≡ (if n + suc (length s) == len then trim_push_back (t ++ c ∷ s) [] else [])
  unfolding read_all
  read_all-word len c n [] t p h bound = ap (λ l. l.result) (read-word len c n t p)
  read_all-word len c n (d ∷ s) t p (q, h) bound =
      ap (λ l. (read_all opt_map len (d ∷ s) l).result)
        (read_inside len c n t p (omega (arith, bound)))
      ∙ read_all-word len d (n + 1) s (t ++ c ∷ []) q h (omega (arith, bound))
      ∙ ap (λ m. if m == len then trim_push_back (t ++ c ∷ [] ++ d ∷ s) [] else [])
          (moved n (length s))
      ∙ ap (λ u. if n + suc (suc (length s)) == len then trim_push_back u [] else [])
          (append_assoc t (c ∷ []) (d ∷ s))

  length-le-utf8_len : (s : Str) → length s ≤ utf8_len s
  unfolding utf8_len utf8_width
  length-le-utf8_len [] = omega arith
  length-le-utf8_len (c ∷ s) = ground (arith, length-le-utf8_len s)

  tokens_of_words :
      (s : Str)
      → All IsWord s
      → parser_tokens opt_map s ≡ (if length s == utf8_len s then trim_push_back s [] else [])
  unfolding parser_tokens word read_all trim_push_back trim trim_end trim_start is_empty utf8_len
  tokens_of_words [] h = refl
  tokens_of_words (c ∷ s) (p, h) =
      read_all-word (utf8_len (c ∷ s)) c 0 s [] p h (omega (arith, length-le-utf8_len (c ∷ s)))
      ∙ ap (λ m. if m == utf8_len (c ∷ s) then trim_push_back (c ∷ s) [] else [])
          (from_zero (suc (length s)))

  -- A text without quotes and operators that is more than blanks is one token, what stands between
  -- the blanks at its ends, if it has as many bytes as characters, and no token at all if a
  -- character of it takes more than one byte.
  pub parser_tokens_word :
      (lead s trail : Str)
      → All IsBlank lead
      → IsTrimmed s
      → All IsBlank trail
      → All IsWord (lead ++ (s ++ trail))
      → parser_tokens opt_map (lead ++ (s ++ trail))
        ≡ (if length (lead ++ (s ++ trail)) == utf8_len (lead ++ (s ++ trail)) then s ∷ [] else [])
  parser_tokens_word lead s trail before trimmed behind h =
      tokens_of_words (lead ++ (s ++ trail)) h
      ∙ ap
          (λ tokens.
            if length (lead ++ (s ++ trail)) == utf8_len (lead ++ (s ++ trail)) then tokens else [])
          (one_token (lead ++ (s ++ trail)) s trimmed
            (trim-blanks lead s trail before trimmed behind))
