-- ===== src/DiffScan/Typosquat/Rows.antt =====
-- The rows of the table of `boundedEditDistance`: each cell is a distance of two prefixes, which are
-- written backwards, and a row that is too expensive ends the search rightly.
use mathlib.Core.List.{reverse_aux}
use chaotic_next.Base.{
  ℕ, suc, ◌<◌, ◌≡◌, refl, List, [], ◌∷◌, ◌++◌, Text, length, min, arith, nat_eq, ◌==◌, ltb, ltb→lt,
  get_elem?, some, true,
}
use chaotic_next.DiffScan.Typosquat.{cell, next_cells, minimum, indices}
use chaotic_next.DiffScan.Typosquat.Edits.{
  Edits, done, keep, change, drop, add, IsDistance, IsDistance-nil, cell-IsDistance,
}

-- A row for the left prefix `xs`, from the place behind the right prefix `ys`, with `right` to come.
abbrev pub IsRow : Text → Text → Text → List ℕ → Type 0
IsRow xs ys [] (v ∷ []) = IsDistance xs ys v
IsRow xs ys (d ∷ right) (v ∷ row) = IsDistance xs ys v × IsRow xs (d ∷ ys) right row
IsRow xs ys right row = ⊥

pub indices-IsRow : (i : ℕ) (ys right : Text) → i ≡ length ys → IsRow [] ys right (indices i right)
unfolding indices
indices-IsRow i ys [] p = rw p (IsDistance-nil ys)
indices-IsRow i ys (d ∷ right) p =
    (rw p (IsDistance-nil ys), indices-IsRow (suc i) (d ∷ ys) right (omega arith))

pub next_cells-IsRow :
    (c left : ℕ) (xs ys right : Text) (row : List ℕ)
    → IsRow xs ys right row
    → IsDistance (c ∷ xs) ys left
    → IsRow (c ∷ xs) ys right (left ∷ next_cells c left row right)
unfolding next_cells
next_cells-IsRow c left xs ys [] (v ∷ []) r h = h
next_cells-IsRow c left xs ys [] [] r h = absurd r
next_cells-IsRow c left xs ys [] (v ∷ w ∷ row) r h = absurd r
next_cells-IsRow c left xs ys (d ∷ right) [] r h = absurd r
next_cells-IsRow c left xs ys (d ∷ []) (v ∷ []) r h = absurd r.1
next_cells-IsRow c left xs ys (d ∷ e ∷ right) (v ∷ []) r h = absurd r.1
next_cells-IsRow c left xs ys (d ∷ []) (v ∷ w ∷ []) r h = (h, cell-IsDistance c d r.1 h r.0)
next_cells-IsRow c left xs ys (d ∷ []) (v ∷ w ∷ u ∷ row) r h = absurd r.1
next_cells-IsRow c left xs ys (d ∷ e ∷ right) (v ∷ w ∷ row) r h = (
  h,
  next_cells-IsRow c (cell w left v (c == d)) xs (d ∷ ys) (e ∷ right) (w ∷ row) r.1
      (cell-IsDistance c d r.1.0 h r.0),
)

-- The last cell of a row.
pub IsRow-last :
    (xs ys right : Text) (row : List ℕ)
    → IsRow xs ys right row
    → (v : ℕ) × (get_elem? row (length right) ≡ some v) × IsDistance xs (reverse_aux right ys) v
IsRow-last xs ys [] [] r = absurd r
IsRow-last xs ys [] (v ∷ []) r = (v, refl, r)
IsRow-last xs ys [] (v ∷ w ∷ row) r = absurd r
IsRow-last xs ys (d ∷ right) [] r = absurd r
IsRow-last xs ys (d ∷ right) (v ∷ row) r = IsRow-last xs (d ∷ ys) right row r.1

-- Every script from `xs` to a suffix of the second text costs more than the bound.
abbrev Beyond : ℕ → Text → Text → Type 0
Beyond bound xs ys = (n : ℕ) → Edits xs ys n → bound < n

abbrev AllBeyond : ℕ → Text → Text → Type 0
AllBeyond bound xs [] = Unit {0}
AllBeyond bound xs (d ∷ ys) = Beyond bound xs ys × AllBeyond bound xs ys

abbrev AllAbove : ℕ → List ℕ → Type 0
AllAbove bound [] = Unit {0}
AllAbove bound (v ∷ row) = (bound < v) × AllAbove bound row

minimum-AllAbove :
    (bound least : ℕ) (row : List ℕ)
    → bound < minimum least row
    → (bound < least) × AllAbove bound row
unfolding minimum
minimum-AllAbove bound least [] h = (h, tt)
minimum-AllAbove bound least (v ∷ row) h =
    let (below, rest) = minimum-AllAbove bound (min least v) row h in
    (ground arith, (ground arith, rest))

IsRow-Beyond :
    (bound : ℕ) (xs ys right : Text) (row : List ℕ)
    → IsRow xs ys right row
    → AllAbove bound row
    → AllBeyond bound xs ys
    → Beyond bound xs (reverse_aux right ys) × AllBeyond bound xs (reverse_aux right ys)
IsRow-Beyond bound xs ys [] [] r a b = absurd r
IsRow-Beyond bound xs ys [] (v ∷ []) r a b = (λ n e. omega (arith, r.least n e), b)
IsRow-Beyond bound xs ys [] (v ∷ w ∷ row) r a b = absurd r
IsRow-Beyond bound xs ys (d ∷ right) [] r a b = absurd r
IsRow-Beyond bound xs ys (d ∷ right) (v ∷ row) r a b =
    IsRow-Beyond bound xs (d ∷ ys) right row r.1 a.1 (λ n e. omega (arith, r.0.least n e), b)

-- A script for a longer left text goes through the row.
Edits-Beyond :
    (bound : ℕ) (zs xs ys : Text) {ws : Text} {n : ℕ}
    → Beyond bound xs ys
    → AllBeyond bound xs ys
    → Edits ws ys n
    → ws ≡ zs ++ xs
    → bound < n
Edits-Beyond bound [] xs ys b all e p = b _ (rw (← p) e)
Edits-Beyond bound (z ∷ zs) xs ys b all done p = cc
Edits-Beyond bound (z ∷ zs) xs (y ∷ ys) b all (keep q e) p =
    Edits-Beyond bound zs xs ys all.0 all.1 e (cc)
Edits-Beyond bound (z ∷ zs) xs (y ∷ ys) b all (change e) p =
    omega (arith, Edits-Beyond bound zs xs ys all.0 all.1 e (cc))
Edits-Beyond bound (z ∷ zs) xs ys b all (drop e) p =
    omega (arith, Edits-Beyond bound zs xs ys b all e (cc))
Edits-Beyond bound (z ∷ zs) xs (y ∷ ys) b all (add e) p =
    omega (arith, Edits-Beyond bound (z ∷ zs) xs ys all.0 all.1 e p)

-- The early return: no script for a longer left text is cheap enough.
pub minimum-Beyond :
    (bound i : ℕ) (zs xs right : Text) (row : List ℕ) {n : ℕ}
    → IsRow xs [] right (i ∷ row)
    → ltb bound (minimum i row) ≡ true
    → Edits (zs ++ xs) (reverse_aux right []) n
    → bound < n
minimum-Beyond bound i zs xs right row r over e =
    let above = minimum-AllAbove bound i row (ltb→lt _ _ over) in
    let (b, all) = IsRow-Beyond bound xs [] right (i ∷ row) r above tt in
    Edits-Beyond bound zs xs _ b all e refl
