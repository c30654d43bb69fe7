-- ===== src/DiffScan/Heredocs/Masks.antt =====
-- What masking leaves alone.
use chaotic_next.Base.{
  ℕ, ◌≡◌, ◌≢◌, ◌⊎◌, refl, ap, Bool-cases, inl, inr, true, Option, none, some, List, [], ◌∷◌, Text,
  text_eq, codes, ◌==◌, nat_eq, nat_beq_iff, starts_with, split, trim, All, arith,
}
use chaotic_next.Base.Splits.{Without, split-cons, split-All, split-join_lines}
use chaotic_next.DiffScan.Heredocs.{
  is_added_line, mask_content, mask_line, mask_lines, mask_echo_heredocs,
}

-- A line stays as it is, or an added line is left empty.
abbrev IsMasked : Text → Text → Type 0
IsMasked raw masked = (masked ≡ raw) ⊎ ((is_added_line raw ≡ true) × (masked ≡ codes "+"))

abbrev pub AreMasked : List Text → List Text → Type 0
AreMasked [] [] = Unit {0}
AreMasked (raw ∷ raws) (masked ∷ rest) = IsMasked raw masked × AreMasked raws rest
AreMasked _ _ = ⊥

is_added_line-plus : (c : ℕ) (content : Text) → is_added_line (c ∷ content) ≡ true → b'+' ≡ c
unfolding starts_with
is_added_line-plus c content h = ground (arith, nat_beq_iff b'+' c)

mask_content-cases :
    (terminator : Option Text) (c : ℕ) (content : Text)
    → is_added_line (c ∷ content) ≡ true
    → ((mask_content terminator content).0 ≡ c ∷ content)
      ⊎ ((mask_content terminator content).0 ≡ codes "+")
unfolding mask_content
mask_content-cases none c content h = inl (ap (λ d. d ∷ content) (is_added_line-plus c content h))
mask_content-cases (some t) c content h = elim (Bool-cases (trim content == t)) [
  | inl end ↦ rw end (inl (ap (λ d. d ∷ content) (is_added_line-plus c content h)))
  | inr inside ↦ rw inside (inr refl)
]

mask_line-IsMasked :
    (terminator : Option Text) (raw : Text) → IsMasked raw (mask_line terminator raw).0
unfolding mask_line
mask_line-IsMasked terminator [] = inl refl
mask_line-IsMasked terminator (c ∷ content) = elim (Bool-cases (is_added_line (c ∷ content))) [
  | inr other ↦ rw other (inl refl)
  | inl plus ↦ rw plus (elim (mask_content-cases terminator c content plus) [
    | inl e ↦ inl e
    | inr e ↦ inr (refl, e)
  ])
]

mask_lines-AreMasked :
    (terminator : Option Text) (raws : List Text) → AreMasked raws (mask_lines terminator raws)
unfolding mask_lines
mask_lines-AreMasked terminator [] = tt
mask_lines-AreMasked terminator (raw ∷ raws) =
    (mask_line-IsMasked terminator raw, mask_lines-AreMasked (mask_line terminator raw).1 raws)

AreMasked-Without :
    (raws rest : List Text)
    → AreMasked raws rest
    → All (Without b'\n') raws
    → All (Without b'\n') rest
AreMasked-Without [] [] h all = tt
AreMasked-Without [] (m ∷ rest) h all = absurd h
AreMasked-Without (r ∷ raws) [] h all = absurd h
AreMasked-Without (r ∷ raws) (m ∷ rest) (inl same, h) all =
    (rw same all.0, AreMasked-Without raws rest h all.1)
AreMasked-Without (r ∷ raws) (m ∷ rest) (inr (plus, empty), h) all =
    (rw empty (refl, tt), AreMasked-Without raws rest h all.1)

-- Masking keeps the number of lines and leaves every line of the diff as it is, except that an added
-- line that is no file header may be left with its sign alone.
pub mask_echo_heredocs-AreMasked :
    (diff : Text) → AreMasked (split b'\n' diff) (split b'\n' (mask_echo_heredocs diff))
unfolding mask_echo_heredocs
mask_echo_heredocs-AreMasked diff =
    let masked = mask_lines-AreMasked none (split b'\n' diff) in
    let (first, others, parts) = split-cons b'\n' diff in
    let some_line : mask_lines none (split b'\n' diff) ≢ [] =
      unfold mask_lines in rw parts (λ e. cc e) in
    rw
      (split-join_lines b'\n' (mask_lines none (split b'\n' diff)) some_line
        (AreMasked-Without _ _ masked (split-All b'\n' diff)))
      masked
