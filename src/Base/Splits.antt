-- ===== src/Base/Splits.antt =====
-- Texts split at a code unit and joined again.
use Prim.Native.Nat.{ℕ}
use mathlib.Core.Path.{◌≡◌, refl, ◌∙◌}
use mathlib.Core.Logic.{inl, inr, ◌≢◌}
use mathlib.Core.Bool.{not, true, false}
use mathlib.Core.List.{List, [], ◌∷◌, ◌++◌}
use native.Mathlib.Omega.{arith}
use chaotic_next.Base.Tests.{Bool-cases, nat_beq_iff}
use chaotic_next.Base.Lists.{All, all}
use chaotic_next.Base.Equality.{◌==◌, nat_eq}
use chaotic_next.Base.Texts.{Text, split, join}

module _ (c : ℕ) where
  abbrev pub Without : Text → Type 0
  Without s = All (λ d. (d == c) ≡ false) s

  pub split-Without : (s : Text) → Without s → split c s ≡ s ∷ []
  unfolding split
  split-Without [] h = refl
  split-Without (d ∷ s) h = rw (h.0, split-Without s h.1) refl

  -- There is always a first part.
  pub split-cons : (s : Text) → (part : Text) × (parts : List Text) × (split c s ≡ part ∷ parts)
  unfolding split
  split-cons [] = ([], [], refl)
  split-cons (d ∷ s) = elim (Bool-cases (d == c)) [
    | inl cut ↦ rw cut ([], split c s, refl)
    | inr on ↦ let (part, parts, e) = split-cons s in rw (on, e) (d ∷ part, parts, refl)
  ]

  -- A text cut at one separator.
  pub split-append : (s t : Text) → split c (s ++ (c ∷ t)) ≡ split c s ++ split c t
  unfolding split
  split-append [] t = ground (arith, nat_beq_iff c c)
  split-append (d ∷ s) t = elim (Bool-cases (d == c)) [
    | inl cut ↦ rw (cut, split-append s t) refl
    | inr on ↦ let (part, parts, e) = split-cons s in rw (on, split-append s t, e) refl
  ]

  pub split-join :
      (part : Text) (parts : List Text)
      → All Without (part ∷ parts)
      → split c (join (c ∷ []) (part ∷ parts)) ≡ part ∷ parts
  unfolding join
  split-join part [] h = split-Without part h.0
  split-join part (next ∷ parts) h =
      split-append part (join (c ∷ []) (next ∷ parts))
      ∙ rw (split-Without part h.0, split-join next parts h.1) refl

  pub split-All : (s : Text) → All Without (split c s)
  unfolding split
  split-All [] = (tt, tt)
  split-All (d ∷ s) = elim (Bool-cases (d == c)) [
    | inl cut ↦ rw cut (tt, split-All s)
    | inr on ↦
        let (part, parts, e) = split-cons s in
        let (h, rest) = rw e at (split-All s) in rw (on, e) ((on, h), rest)
  ]

  -- The same of any lines, of which there is at least one.
  pub split-join_lines :
      (lines : List Text) → lines ≢ [] → All Without lines → split c (join (c ∷ []) lines) ≡ lines
  split-join_lines [] some_line h = absurd (some_line refl)
  split-join_lines (line ∷ lines) some_line h = split-join line lines h

-- A text of the source, checked by evaluation.
pub Without-check : (c : ℕ) (s : Text) → all (λ d. not (d == c)) s ≡ true → Without c s
Without-check c [] h = tt
Without-check c (d ∷ s) h = (ground arith, Without-check c s (ground arith))
