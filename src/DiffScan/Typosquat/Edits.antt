-- ===== src/DiffScan/Typosquat/Edits.antt =====
-- What a distance is: the least number of edits that turn one name into the other.
use mathlib.Core.List.{reverse_aux}
use mathlib.Core.Path.{subst}
use chaotic_next.Base.{
  ℕ, suc, ◌+◌, ◌≤◌, ◌≡◌, [], ◌∷◌, Text, length, min, arith, true, false, if◌then◌else◌, nat_eq,
  ◌==◌, nat_beq_iff, ◌⊎◌, inl, inr, leb, Bool-cases,
}
use chaotic_next.DiffScan.Typosquat.{cell, difference}

-- A script of `n` edits: a code unit is kept, changed, dropped or added.
pub data Edits : Text → Text → ℕ → Type 0 where
  done : Edits [] [] 0
  keep : {c d : ℕ} {xs ys : Text} {n : ℕ} → c ≡ d → Edits xs ys n → Edits (c ∷ xs) (d ∷ ys) n
  change : {c d : ℕ} {xs ys : Text} {n : ℕ} → Edits xs ys n → Edits (c ∷ xs) (d ∷ ys) (suc n)
  drop : {c : ℕ} {xs ys : Text} {n : ℕ} → Edits xs ys n → Edits (c ∷ xs) ys (suc n)
  add : {d : ℕ} {xs ys : Text} {n : ℕ} → Edits xs ys n → Edits xs (d ∷ ys) (suc n)

pub record IsDistance (xs ys : Text) (n : ℕ) : Type 0 where
  pub script : Edits xs ys n
  pub least : (m : ℕ) → Edits xs ys m → n ≤ m

pub Edits-difference :
    {xs ys : Text} {n : ℕ} → Edits xs ys n → difference (length xs) (length ys) ≤ n
Edits-difference done = omega arith
Edits-difference (keep p e) = omega (arith, Edits-difference e)
Edits-difference (change e) = omega (arith, Edits-difference e)
Edits-difference (drop e) = omega (arith, Edits-difference e)
Edits-difference (add e) = omega (arith, Edits-difference e)

-- A script with its number of edits written in another way.
recount : {xs ys : Text} {n m : ℕ} → Edits xs ys n → n ≡ m → Edits xs ys m
recount e p = subst (Edits _ _) p e

-- Two scripts after each other, the first one backwards.
pub Edits-reverse_aux :
    {xs ys us vs : Text} {n m k : ℕ}
    → Edits xs ys n
    → Edits us vs m
    → k ≡ n + m
    → Edits (reverse_aux xs us) (reverse_aux ys vs) k
Edits-reverse_aux done f p = recount f (omega arith)
Edits-reverse_aux (keep q e) f p = Edits-reverse_aux e (keep q f) p
Edits-reverse_aux (change e) f p = Edits-reverse_aux e (change f) (omega arith)
Edits-reverse_aux (drop e) f p = Edits-reverse_aux e (drop f) (omega arith)
Edits-reverse_aux (add e) f p = Edits-reverse_aux e (add f) (omega arith)

-- The borders of the table.
pub IsDistance-nil : (ys : Text) → IsDistance [] ys (length ys)
IsDistance-nil [] = record { script = done; least = λ m e. omega arith }
IsDistance-nil (d ∷ ys) = record {
  script = add (IsDistance-nil ys).script;
  least = λ m e. omega (arith, Edits-difference e);
}

pub IsDistance-nil_right : (xs : Text) → IsDistance xs [] (length xs)
IsDistance-nil_right [] = record { script = done; least = λ m e. omega arith }
IsDistance-nil_right (c ∷ xs) = record {
  script = drop (IsDistance-nil_right xs).script;
  least = λ m e. omega (arith, Edits-difference e);
}

Edits-min : {xs ys : Text} {n m : ℕ} → Edits xs ys n → Edits xs ys m → Edits xs ys (min n m)
Edits-min {n = n} {m = m} e f = elim (Bool-cases (leb n m)) [
  | inl le ↦ recount e (ground arith)
  | inr gt ↦ recount f (ground arith)
]

module _ (c d : ℕ) {xs ys : Text} {above left diagonal : ℕ} (up : IsDistance xs (d ∷ ys) above)
    (across : IsDistance (c ∷ xs) ys left) (corner : IsDistance xs ys diagonal) where
  cell-least : (m : ℕ) → Edits (c ∷ xs) (d ∷ ys) m → cell above left diagonal (c == d) ≤ m
  cell-least m (keep p e) = ground (arith, corner.least m e, nat_beq_iff c d)
  cell-least _ (change {n = m} e) = ground (arith, corner.least m e)
  cell-least _ (drop {n = m} e) = ground (arith, up.least m e)
  cell-least _ (add {n = m} e) = ground (arith, across.least m e)

  corner-script :
      ((c == d) ≡ true) ⊎ ((c == d) ≡ false)
      → Edits (c ∷ xs) (d ∷ ys) (diagonal + (if c == d then 0 else 1))
  corner-script (inl same) = recount (keep ((nat_beq_iff c d).0 same) corner.script) (ground arith)
  corner-script (inr other) = recount (change corner.script) (ground arith)

  cell-script : Edits (c ∷ xs) (d ∷ ys) (cell above left diagonal (c == d))
  cell-script =
      let vertical : Edits (c ∷ xs) (d ∷ ys) (above + 1) = recount (drop up.script) (omega arith) in
      let horizontal : Edits (c ∷ xs) (d ∷ ys) (left + 1) =
        recount (add across.script) (omega arith) in
      Edits-min (Edits-min vertical horizontal) (corner-script (Bool-cases (c == d)))

  pub cell-IsDistance : IsDistance (c ∷ xs) (d ∷ ys) (cell above left diagonal (c == d))
  cell-IsDistance = record { script = cell-script; least = cell-least }
