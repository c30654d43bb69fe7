-- ===== src/Signal/Sections/Wrapped.antt =====
-- Continuation lines of relocations, and the fuel of their loop.
use chaotic_next.Base.{
  ℕ, zero, suc, ◌≤◌, ◌<◌, ◌≡◌, refl, ap, Bool-cases, Option-cases, inl, inr, false, some, List, [],
  ◌∷◌, Text, length, trim, arith,
}
use chaotic_next.Base.Regex.{test}
use chaotic_next.Signal.Abi.{RelocationEntry}
use chaotic_next.Signal.Sections.{
  next_entry, skip_wrapped, relocation_at, relocations_from, relocation_entries,
}

length-skip_wrapped : (lines : List Text) → length (skip_wrapped lines) ≤ length lines
unfolding skip_wrapped
length-skip_wrapped [] = omega arith
length-skip_wrapped (line ∷ lines) = elim (Bool-cases (test next_entry (trim line))) [
  | inl stop ↦ rw stop (omega arith)
  | inr go ↦ rw go (omega (arith, length-skip_wrapped lines))
]

-- More fuel than lines changes nothing.
relocations_from-fuel :
    (f g : ℕ) (lines : List Text)
    → length lines < f
    → length lines < g
    → relocations_from f lines ≡ relocations_from g lines
unfolding relocations_from
relocations_from-fuel zero g lines h k = absurd (omega arith)
relocations_from-fuel (suc f) zero lines h k = absurd (omega arith)
relocations_from-fuel (suc f) (suc g) [] h k = refl
relocations_from-fuel (suc f) (suc g) (line ∷ lines) h k =
    elim (Option-cases (relocation_at (trim line))) [
      | inl e ↦ rw e (relocations_from-fuel f g lines (omega arith) (omega arith))
      | inr (entry, e) ↦ rw e (
          ap (λ r. entry ∷ r)
            (relocations_from-fuel f g (skip_wrapped lines)
              (omega (arith, length-skip_wrapped lines))
              (omega (arith, length-skip_wrapped lines))))
    ]

-- A line that does not begin an entry, behind a line that is read as one, changes nothing of what is
-- parsed: the rest of a symbol that readelf wraps into such a line is not read.
pub relocation_entries-wrapped :
    (line wrapped : Text) (lines : List Text) (entry : RelocationEntry)
    → relocation_at (trim line) ≡ some entry
    → test next_entry (trim wrapped) ≡ false
    → relocation_entries (line ∷ wrapped ∷ lines) ≡ relocation_entries (line ∷ lines)
unfolding relocation_entries relocations_from skip_wrapped
relocation_entries-wrapped line wrapped lines entry e w =
    let short = length-skip_wrapped lines in
    rw (e, w)
      (ap (λ r. entry ∷ r)
        (relocations_from-fuel (suc (suc (length lines))) (suc (length lines)) (skip_wrapped lines)
          (omega arith) (omega arith)))
