-- ===== src/Signal/Versions/Tokens.antt =====
-- `compareSegments` against an independent description: cut both texts into tokens, a number for
-- each run of digits and one token for each other character, and compare the lists of tokens.
use chaotic_next.Base.{
  ℕ, zero, suc, ◌+◌, ◌*◌, ◌≤◌, ◌≡◌, refl, Ordering, compare, true, false, Option, none, some, List,
  [], ◌∷◌, Text, is_digit, digit_value, length, or_else, arith,
}
use chaotic_next.Signal.Versions.{run_value, skip_run, then_by, segments_from, compare_segments}

pub data Token : Type 0 where
  num : ℕ → Token
  chr : ℕ → Token

abbrev pub flush : Option ℕ → List Token → List Token
flush none ts = ts
flush (some n) ts = num n ∷ ts

-- The first argument is the number that is being read.
pub tokens_from : Option ℕ → Text → List Token
tokens_from pending [] = flush pending []
tokens_from pending (c ∷ s) = elim (is_digit c) [
  | true ↦ tokens_from (some (or_else pending 0 * 10 + digit_value c)) s
  | false ↦ flush pending (chr c ∷ tokens_from none s)
]

pub tokens : Text → List Token
unfolding tokens_from
tokens s = tokens_from none s

-- A number is above every other character.
abbrev pub compare_token : Token → Token → Ordering
compare_token (num n) (num m) = compare n m
compare_token (num n) (chr d) = Ordering.gt
compare_token (chr c) (num m) = Ordering.lt
compare_token (chr c) (chr d) = compare c d

unfoldable pub compare_tokens : List Token → List Token → Ordering
compare_tokens [] [] = Ordering.eq
compare_tokens [] (u ∷ us) = Ordering.lt
compare_tokens (t ∷ ts) [] = Ordering.gt
compare_tokens (t ∷ ts) (u ∷ us) = then_by (compare_token t u) (compare_tokens ts us)

tokens_run :
    (n : ℕ) (s : Text)
    → tokens_from (some n) s ≡ num (run_value n s) ∷ tokens_from none (skip_run s)
unfolding tokens_from run_value skip_run
tokens_run n [] = refl
tokens_run n (c ∷ s) = ground (arith, tokens_run (n * 10 + digit_value c) s)

length-skip_run : (s : Text) → length (skip_run s) ≤ length s
unfolding skip_run
length-skip_run [] = omega arith
length-skip_run (c ∷ s) = ground (arith, length-skip_run s)

segments_from-tokens :
    (f : ℕ) (a b : Text)
    → length a + length b ≤ f
    → segments_from f a b ≡ compare_tokens (tokens_from none a) (tokens_from none b)
unfolding segments_from compare_tokens tokens_from run_value skip_run
segments_from-tokens zero [] [] h = refl
segments_from-tokens zero [] (d ∷ t) h = absurd (omega arith)
segments_from-tokens zero (c ∷ s) t h = absurd (omega arith)
segments_from-tokens (suc f) [] [] h = refl
segments_from-tokens (suc f) [] (d ∷ t) h = ground (arith, tokens_run (digit_value d) t)
segments_from-tokens (suc f) (c ∷ s) [] h = ground (arith, tokens_run (digit_value c) s)
segments_from-tokens (suc f) (c ∷ s) (d ∷ t) h = ground (
  arith,
  segments_from-tokens f s t,
  tokens_run (digit_value c) s,
  tokens_run (digit_value d) t,
  segments_from-tokens f (skip_run s) (skip_run t),
  length-skip_run s,
  length-skip_run t,
)

-- `compareSegments` compares the texts token by token: runs of digits by value, other characters
-- by code, a number above a character, and a proper prefix below what it is a prefix of.
pub compare_segments-tokens :
    (a b : Text) → compare_segments a b ≡ compare_tokens (tokens a) (tokens b)
unfolding compare_segments tokens
compare_segments-tokens a b = segments_from-tokens (length a + length b) a b (omega arith)
