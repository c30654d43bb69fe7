-- ===== src/DiffScan/Typosquat/Bounded.antt =====
-- `boundedEditDistance` is the edit distance up to its bound.
use mathlib.Core.List.{reverse_aux, reverse_aux-eq, reverse_aux-reverse_aux-nil, reverse}
use mathlib.Core.Option.{some-injective, none-ne-some}
use mathlib.Core.Path.{subst}
use chaotic_next.Base.{
  ℕ, suc, ◌≤◌, ◌<◌, ◌≡◌, ◌≢◌, ◌↔◌, refl, sym, ap, List, [], ◌∷◌, Text, length, arith, ltb, leb,
  Option, some, none, Bool-cases, inl, inr, text_eq, text_beq_iff, ◌==◌, ltb→lt, leb→le,
  Option-cases,
}
use chaotic_next.DiffScan.Typosquat.{
  next_cells, minimum, fill_rows, indices, bounded_edit_distance, difference, at_most, last_cell,
}
use chaotic_next.DiffScan.Typosquat.Edits.{
  Edits, IsDistance, IsDistance-nil_right, Edits-difference, Edits-reverse_aux, done,
}
use chaotic_next.DiffScan.Typosquat.Rows.{
  IsRow, indices-IsRow, next_cells-IsRow, IsRow-last, minimum-Beyond,
}

module _ (bound : ℕ) (right : Text) where
  -- The row that one round of the outer loop fills.
  filled-IsRow :
      (i c : ℕ) (xs : Text) (row : List ℕ)
      → IsRow xs [] right row
      → i ≡ suc (length xs)
      → IsRow (c ∷ xs) [] right (i ∷ next_cells c i row right)
  filled-IsRow i c xs row r p =
      next_cells-IsRow c i xs [] right row r
        (subst (IsDistance _ _) (sym p) (IsDistance-nil_right (c ∷ xs)))

  fill_rows-IsRow :
      (left xs : Text) (i : ℕ) (row : List ℕ) {end : List ℕ}
      → IsRow xs [] right row
      → i ≡ suc (length xs)
      → fill_rows bound i left right row ≡ some end
      → IsRow (reverse_aux left xs) [] right end
  unfolding fill_rows
  fill_rows-IsRow [] xs i row r p e = subst (IsRow xs [] right) (some-injective _ _ e) r
  fill_rows-IsRow (c ∷ left) xs i row r p e =
      elim (Bool-cases (ltb bound (minimum i (next_cells c i row right)))) [
        | inl over ↦ absurd (none-ne-some _ (rw over at e))
        | inr within ↦
            fill_rows-IsRow left (c ∷ xs) (suc i) (i ∷ next_cells c i row right)
              (filled-IsRow i c xs row r p) (omega arith) (rw within at e)
      ]

  fill_rows-none :
      (left xs : Text) (i : ℕ) (row : List ℕ) {n : ℕ}
      → IsRow xs [] right row
      → i ≡ suc (length xs)
      → fill_rows bound i left right row ≡ none
      → Edits (reverse_aux left xs) (reverse_aux right []) n
      → bound < n
  unfolding fill_rows
  fill_rows-none [] xs i row r p e s = absurd (none-ne-some _ (sym e))
  fill_rows-none (c ∷ left) xs i row r p e s =
      elim (Bool-cases (ltb bound (minimum i (next_cells c i row right)))) [
        | inl over ↦
            minimum-Beyond bound i (reverse left) (c ∷ xs) right (next_cells c i row right)
              (filled-IsRow i c xs row r p) over (rw (← reverse_aux-eq left (c ∷ xs)) s)
        | inr within ↦
            fill_rows-none left (c ∷ xs) (suc i) (i ∷ next_cells c i row right)
              (filled-IsRow i c xs row r p) (omega arith) (rw within at e) s
      ]

-- A distance read backwards.
turned : (xs ys : Text) {n : ℕ} → Edits (reverse xs) (reverse ys) n → Edits xs ys n
turned xs ys e =
    rw (← reverse_aux-reverse_aux-nil xs [], ← reverse_aux-reverse_aux-nil ys [])
      (Edits-reverse_aux e done (omega arith))

turned-IsDistance :
    (xs ys : Text) {n : ℕ} → IsDistance (reverse xs) (reverse ys) n → IsDistance xs ys n
turned-IsDistance xs ys d = record {
  script = turned xs ys d.script;
  least = λ m e. d.least m (Edits-reverse_aux e done (omega arith));
}

-- The table's answer, whichever way the loop ends.
table : Text → Text → ℕ → Option ℕ
table left right bound =
    last_cell bound (length right) (fill_rows bound 1 left right (indices 0 right))

-- Either there is a distance within the bound, which is the answer, or no script is cheap enough.
abbrev Answers : Text → Text → ℕ → Option ℕ → Type 0
Answers left right bound (some n) = IsDistance left right n × (n ≤ bound)
Answers left right bound none = (n : ℕ) → Edits left right n → bound < n

at_most-Answers :
    (left right : Text) (bound v : ℕ)
    → IsDistance left right v
    → Answers left right bound (at_most bound (some v))
at_most-Answers left right bound v d = elim (Bool-cases (leb v bound)) [
  | inl le ↦ rw le (d, leb→le v bound le)
  | inr gt ↦ rw gt (λ n e. ground (arith, d.least n e))
]

table-Answers : (left right : Text) (bound : ℕ) → Answers left right bound (table left right bound)
unfolding table
table-Answers left right bound =
    let start = indices-IsRow 0 [] right refl in
    elim (Option-cases (fill_rows bound 1 left right (indices 0 right))) [
      | inl gone ↦ rw gone (λ n e.
          fill_rows-none bound right left [] 1 (indices 0 right) start refl gone
            (Edits-reverse_aux e done (omega arith)))
      | inr (row, filled) ↦
          let (v, last, d) =
            IsRow-last _ [] right row (fill_rows-IsRow bound right left [] 1 _ start refl filled) in
          rw (filled, last) (at_most-Answers left right bound v (turned-IsDistance left right d))
    ]

-- The answer is right whichever it is.
Answers-some :
    (left right : Text) (bound n : ℕ) (answer : Option ℕ)
    → Answers left right bound answer
    → (answer ≡ some n) ↔ (IsDistance left right n × (n ≤ bound))
Answers-some left right bound n none beyond =
    (λ e. absurd (none-ne-some _ e), λ h. absurd (omega (arith, beyond n h.0.script)))
Answers-some left right bound n (some v) a = (
  λ e. subst (λ k. IsDistance left right k × (k ≤ bound)) (some-injective _ _ e) a,
  λ h. ap some (omega (arith, a.0.least n h.0.script, h.0.least v a.0.script)),
)

-- The bounded edit distance of two names is a number exactly where the names differ and that number
-- is the least number of single changes, removals and additions that turn the one into the other,
-- and is at most the bound.
pub bounded_edit_distance-IsDistance_iff :
    (left right : Text) (bound n : ℕ)
    → (bounded_edit_distance left right bound ≡ some n)
      ↔ ((left ≢ right) × IsDistance left right n × (n ≤ bound))
unfolding bounded_edit_distance table
bounded_edit_distance-IsDistance_iff left right bound n = elim (Bool-cases (left == right)) [
  | inl same ↦
      rw same (λ e. absurd (none-ne-some _ e), λ h. absurd (h.0 ((text_beq_iff left right).0 same)))
  | inr other ↦
      let differ : left ≢ right = λ p. cc (other, (text_beq_iff left right).1 p) in
      elim (Bool-cases (ltb bound (difference (length left) (length right)))) [
        | inl far ↦
            rw (other, far)
              (
                λ e. absurd (none-ne-some _ e),
                λ h. absurd (omega (arith, h.2, Edits-difference h.1.script, ltb→lt _ _ far)),
              )
        | inr near ↦
            let iff = Answers-some left right bound n _ (table-Answers left right bound) in
            rw (other, near) (λ e. let (d, le) = iff.0 e in (differ, d, le), λ h. iff.1 (h.1, h.2))
      ]
]
