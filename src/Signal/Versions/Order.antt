-- ===== src/Signal/Versions/Order.antt =====
-- The order of `compareArchVersions`.
use chaotic_next.Base.{◌≡◌, ◌≢◌, ◌↔◌, refl, Ordering, true, List, [], ◌∷◌, Text, is_some, arith}
use chaotic_next.Signal.Versions.{
  then_by, epoch_number, split_arch_version, ArchVersion, compare_parts, compare_segments,
  compare_arch_versions,
}
use chaotic_next.Signal.Versions.Epochs.{
  flip, compare_epochs-self_iff, compare_epochs-flip, compare_epochs-chain,
}
use chaotic_next.Signal.Versions.Tokens.{
  Token, num, chr, tokens, compare_token, compare_tokens, compare_segments-tokens,
}

compare_token-flip : (t u : Token) → compare_token u t ≡ flip (compare_token t u)
compare_token-flip (num n) (num m) = ground arith
compare_token-flip (num n) (chr d) = refl
compare_token-flip (chr c) (num m) = refl
compare_token-flip (chr c) (chr d) = ground arith

compare_tokens-flip : (ts us : List Token) → compare_tokens us ts ≡ flip (compare_tokens ts us)
unfolding compare_tokens
compare_tokens-flip [] [] = refl
compare_tokens-flip [] (u ∷ us) = refl
compare_tokens-flip (t ∷ ts) [] = refl
compare_tokens-flip (t ∷ ts) (u ∷ us) =
    ground (arith, compare_token-flip t u, compare_tokens-flip ts us)

-- Along two steps that do not fall, the comparison of the ends is the first that is no tie.
compare_token-chain :
    (t u v : Token)
    → compare_token t u ≢ Ordering.gt
    → compare_token u v ≢ Ordering.gt
    → compare_token t v ≡ then_by (compare_token t u) (compare_token u v)
compare_token-chain (num n) (num m) (num k) p q = ground arith
compare_token-chain (num n) (num m) (chr d) p q = ground arith
compare_token-chain (num n) (chr c) v p q = ground arith
compare_token-chain (chr c) (num m) (num k) p q = ground arith
compare_token-chain (chr c) (num m) (chr d) p q = ground arith
compare_token-chain (chr c) (chr d) (num k) p q = ground arith
compare_token-chain (chr c) (chr d) (chr e) p q = ground arith

compare_tokens-chain :
    (ts us vs : List Token)
    → compare_tokens ts us ≢ Ordering.gt
    → compare_tokens us vs ≢ Ordering.gt
    → compare_tokens ts vs ≡ then_by (compare_tokens ts us) (compare_tokens us vs)
unfolding compare_tokens
compare_tokens-chain [] [] vs p q = refl
compare_tokens-chain [] (u ∷ us) [] p q = ground arith
compare_tokens-chain [] (u ∷ us) (v ∷ vs) p q = refl
compare_tokens-chain (t ∷ ts) [] vs p q = ground arith
compare_tokens-chain (t ∷ ts) (u ∷ us) [] p q = ground arith
compare_tokens-chain (t ∷ ts) (u ∷ us) (v ∷ vs) p q =
    ground (arith, compare_token-chain t u v, compare_tokens-chain ts us vs)

compare_tokens_self : (ts : List Token) → compare_tokens ts ts ≡ Ordering.eq
unfolding compare_tokens
compare_tokens_self [] = refl
compare_tokens_self (num n ∷ ts) = ground (arith, compare_tokens_self ts)
compare_tokens_self (chr c ∷ ts) = ground (arith, compare_tokens_self ts)

compare_segments-flip : (a b : Text) → compare_segments b a ≡ flip (compare_segments a b)
compare_segments-flip a b = simp compare_segments-tokens (compare_tokens-flip (tokens a) (tokens b))

compare_segments-chain :
    (a b c : Text)
    → compare_segments a b ≢ Ordering.gt
    → compare_segments b c ≢ Ordering.gt
    → compare_segments a c ≡ then_by (compare_segments a b) (compare_segments b c)
compare_segments-chain a b c p q = ground (
  arith,
  compare_segments-tokens a b,
  compare_segments-tokens b c,
  compare_segments-tokens a c,
  compare_tokens-chain (tokens a) (tokens b) (tokens c),
)

compare_segments_self : (a : Text) → compare_segments a a ≡ Ordering.eq
compare_segments_self a = simp compare_segments-tokens (compare_tokens_self (tokens a))

abbrev HasNumber : ArchVersion → Type 0
HasNumber p = is_some (epoch_number p.epoch) ≡ true

compare_parts-flip :
    (p q : ArchVersion) → HasNumber p → HasNumber q → compare_parts q p ≡ flip (compare_parts p q)
unfolding compare_parts
compare_parts-flip p q hp hq = ground (
  arith,
  compare_epochs-flip (epoch_number p.epoch) (epoch_number q.epoch),
  compare_segments-flip p.version q.version,
  compare_segments-flip p.pkgrel q.pkgrel,
)

compare_parts-self_iff : (p : ArchVersion) → (compare_parts p p ≡ Ordering.eq) ↔ HasNumber p
unfolding compare_parts
compare_parts-self_iff p = ground (
  arith,
  compare_epochs-self_iff (epoch_number p.epoch),
  compare_segments_self p.version,
  compare_segments_self p.pkgrel,
)

compare_parts-chain :
    (p q r : ArchVersion)
    → HasNumber p
    → HasNumber q
    → HasNumber r
    → compare_parts p q ≢ Ordering.gt
    → compare_parts q r ≢ Ordering.gt
    → compare_parts p r ≡ then_by (compare_parts p q) (compare_parts q r)
unfolding compare_parts
compare_parts-chain p q r hp hq hr up on = ground (
  arith,
  compare_epochs-chain (epoch_number p.epoch) (epoch_number q.epoch) (epoch_number r.epoch),
  compare_segments-chain p.version q.version r.version,
  compare_segments-chain p.pkgrel q.pkgrel r.pkgrel,
)

-- The epoch of the version is absent, blank or a text that `Number` reads as a number.
abbrev pub HasEpoch : Text → Type 0
HasEpoch a = HasNumber (split_arch_version a)

-- Swapping the arguments of `compareArchVersions` swaps -1 and 1, for versions whose epoch is a
-- number.
pub compare_arch_versions-flip :
    (a b : Text)
    → HasEpoch a
    → HasEpoch b
    → compare_arch_versions b a ≡ flip (compare_arch_versions a b)
unfolding compare_arch_versions
compare_arch_versions-flip a b p q =
    compare_parts-flip (split_arch_version a) (split_arch_version b) p q

-- `compareArchVersions(a, a)` is 0 exactly when the epoch of `a` is absent, blank or a text that
-- `Number` reads as a number: decimal, with a sign, a point or an exponent too, hexadecimal, octal,
-- binary, or `Infinity`.
pub compare_arch_versions-self_iff :
    (a : Text) → (compare_arch_versions a a ≡ Ordering.eq) ↔ HasEpoch a
unfolding compare_arch_versions
compare_arch_versions-self_iff a = compare_parts-self_iff (split_arch_version a)

-- For versions whose epochs are absent, blank or numbers: if `a` is not above `b` and `b` not above
-- `c`, then `a` is not above `c`, and they are equal in
-- the order only if both steps are: the comparison is the first of the two that is not 0.
pub compare_arch_versions-chain :
    (a b c : Text)
    → HasEpoch a
    → HasEpoch b
    → HasEpoch c
    → compare_arch_versions a b ≢ Ordering.gt
    → compare_arch_versions b c ≢ Ordering.gt
    → compare_arch_versions a c ≡ then_by (compare_arch_versions a b) (compare_arch_versions b c)
unfolding compare_arch_versions
compare_arch_versions-chain a b c ha hb hc p q =
    compare_parts-chain (split_arch_version a) (split_arch_version b) (split_arch_version c) ha hb
      hc p q
