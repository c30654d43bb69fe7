-- ===== src/DiffScan/Hunks/Printed.antt =====
-- What is read from a diff that is printed line by line.
use mathlib.Core.List.{append-nil}
use chaotic_next.Base.{
  ℕ, zero, suc, ◌+◌, ◌<◌, ◌≡◌, refl, ap, ◌∙◌, false, not, Option, none, some, List, [], ◌∷◌, ◌++◌,
  Text, text_eq, codes, ◌==◌, nat_eq, keep, map, flat_map, starts_with, split, join, All,
  All-append, get_elem?, eq_self, arith,
}
use chaotic_next.Base.Map.{get, put, get-put}
use chaotic_next.Base.Splits.{Without, split-join_lines}
use chaotic_next.Base.Search.{or_try}
use chaotic_next.DiffScan.Hunks.{
  hunk_start, Kind, added, context, removed, WalkedLine, line_at, walk_from, walk_hunks, is_removal,
  map_lines, visible_file_lines, Position,
}

-- A hunk: its header, the number in it, and its lines.
pub record Hunk : Type 0 where
  pub header : Text
  pub start : ℕ
  pub lines : List (Kind × Text)

abbrev print_line : Kind × Text → Text
print_line (added, text) = b'+' ∷ text
print_line (context, text) = b' ' ∷ text
print_line (removed, text) = b'-' ∷ text

abbrev print_hunk : Hunk → List Text
print_hunk h = h.header ∷ map print_line h.lines

abbrev pub print_diff : List Hunk → Text
print_diff hunks = join (codes "\n") (flat_map print_hunk hunks)

-- The header is one, and nothing in the hunk holds a line feed.
pub record IsHunk (h : Hunk) : Type 0 where
  pub numbered : hunk_start h.header ≡ some h.start
  pub header_whole : Without b'\n' h.header
  pub lines_whole : All (λ (l : Kind × Text). Without b'\n' l.1) h.lines

-- The lines of a hunk with their numbers in the new file.
pub number_lines : ℕ → List (Kind × Text) → List WalkedLine
number_lines n [] = []
number_lines n ((added, text) ∷ lines) = line_at added text n ∷ number_lines (suc n) lines
number_lines n ((context, text) ∷ lines) = line_at context text n ∷ number_lines (suc n) lines
number_lines n ((removed, text) ∷ lines) = line_at removed text n ∷ number_lines n lines

-- A printed line is no header, and is read back.
walk_from-print_line :
    (n : ℕ) (lines : List (Kind × Text)) (rest : List Text)
    → (m : ℕ) × (walk_from (some n) (map print_line lines ++ rest)
        ≡ number_lines n lines ++ walk_from (some m) rest)
unfolding walk_from number_lines starts_with
walk_from-print_line n [] rest = (n, refl)
walk_from-print_line n ((added, text) ∷ lines) rest =
    let (m, e) = walk_from-print_line (suc n) lines rest in
    (m, ap (λ r. line_at added text n ∷ r) e)
walk_from-print_line n ((context, text) ∷ lines) rest =
    let (m, e) = walk_from-print_line (suc n) lines rest in
    (m, ap (λ r. line_at context text n ∷ r) e)
walk_from-print_line n ((removed, text) ∷ lines) rest =
    let (m, e) = walk_from-print_line n lines rest in (m, ap (λ r. line_at removed text n ∷ r) e)

walk_from-header :
    (header : Text) (rest : List Text) (position : Position) {start : ℕ}
    → hunk_start header ≡ some start
    → walk_from position (header ∷ rest) ≡ walk_from (some start) rest
unfolding walk_from
walk_from-header header rest position h = rw h refl

walk_from-print_hunk :
    (hunks : List Hunk) (position : Position)
    → All IsHunk hunks
    → walk_from position (flat_map print_hunk hunks)
      ≡ flat_map (λ (h : Hunk). number_lines h.start h.lines) hunks
walk_from-print_hunk [] position v = unfold walk_from in refl
walk_from-print_hunk (h ∷ hunks) position v =
    let rest = flat_map print_hunk hunks in
    let (m, e) = walk_from-print_line h.start h.lines rest in
    walk_from-header h.header (map print_line h.lines ++ rest) position v.0.numbered
    ∙ e
    ∙ ap (λ r. number_lines h.start h.lines ++ r) (walk_from-print_hunk hunks (some m) v.1)

print_line-Without :
    (lines : List (Kind × Text))
    → All (λ (l : Kind × Text). Without b'\n' l.1) lines
    → All (Without b'\n') (map print_line lines)
print_line-Without [] h = tt
print_line-Without ((added, text) ∷ lines) h = ((refl, h.0), print_line-Without lines h.1)
print_line-Without ((context, text) ∷ lines) h = ((refl, h.0), print_line-Without lines h.1)
print_line-Without ((removed, text) ∷ lines) h = ((refl, h.0), print_line-Without lines h.1)

print_hunk-Without :
    (hunks : List Hunk) → All IsHunk hunks → All (Without b'\n') (flat_map print_hunk hunks)
print_hunk-Without [] v = tt
print_hunk-Without (h ∷ hunks) v = (
  v.0.header_whole,
  All-append (Without b'\n') (map print_line h.lines) (flat_map print_hunk hunks)
      (print_line-Without h.lines v.0.lines_whole) (print_hunk-Without hunks v.1),
)

-- The walk over a diff that is printed from hunks, of which none holds a line feed in a line, gives
-- back the lines of the hunks, each with its kind, its text and its number in the new file, which
-- starts at the number of the header and does not advance at removed lines.
pub walk_hunks-print_diff :
    (hunks : List Hunk)
    → All IsHunk hunks
    → walk_hunks (print_diff hunks) ≡ flat_map (λ (h : Hunk). number_lines h.start h.lines) hunks
unfolding walk_hunks
walk_hunks-print_diff [] v = unfold walk_from split join hunk_start starts_with in refl
walk_hunks-print_diff (h ∷ hunks) v =
    rw
      (split-join_lines b'\n' (flat_map print_hunk (h ∷ hunks)) (λ e. cc e)
        (print_hunk-Without (h ∷ hunks) v))
      (walk_from-print_hunk (h ∷ hunks) none v)

-- The texts that the new file has where the hunk stands.
pub new_side : List (Kind × Text) → List Text
new_side [] = []
new_side ((added, text) ∷ lines) = text ∷ new_side lines
new_side ((context, text) ∷ lines) = text ∷ new_side lines
new_side ((removed, text) ∷ lines) = new_side lines

abbrev visible : List WalkedLine → List WalkedLine
visible = keep (λ (l : WalkedLine). not (is_removal l.kind))

or_try-none_right {ℓ} : {A : Type ℓ} (o : Option A) → or_try o none ≡ o
or_try-none_right none = refl
or_try-none_right (some x) = refl

ne-below : (k n : ℕ) → k < n → (n == k) ≡ false
ne-below k n h = ground arith

ne-above : (k n : ℕ) → n < k → (n == k) ≡ false
ne-above k n h = ground arith

map_lines-below :
    (lines : List (Kind × Text)) (k n : ℕ) (m : List (ℕ × Text))
    → k < n
    → get k (map_lines (visible (number_lines n lines)) m) ≡ get k m
unfolding map_lines number_lines
map_lines-below [] k n m h = refl
map_lines-below ((added, text) ∷ lines) k n m h =
    map_lines-below lines k (suc n) (put n text m) (omega arith)
    ∙ get-put n k text m
    ∙ rw (ne-below k n h) refl
map_lines-below ((context, text) ∷ lines) k n m h =
    map_lines-below lines k (suc n) (put n text m) (omega arith)
    ∙ get-put n k text m
    ∙ rw (ne-below k n h) refl
map_lines-below ((removed, text) ∷ lines) k n m h = map_lines-below lines k n m h

-- The first line that is visible, and those after it.
map_lines-put :
    (text : Text) (texts : List Text) (lines : List (Kind × Text)) (n i : ℕ) (m : List (ℕ × Text))
    → ((j : ℕ)
        → get (suc n + j) (map_lines (visible (number_lines (suc n) lines)) (put n text m))
          ≡ or_try (get_elem? texts j) (get (suc n + j) (put n text m)))
    → get (n + i) (map_lines (visible (number_lines (suc n) lines)) (put n text m))
      ≡ or_try (get_elem? (text ∷ texts) i) (get (n + i) m)
map_lines-put text texts lines n zero m ih =
    let same : n + 0 ≡ n = omega arith in
    rw same (
      map_lines-below lines n (suc n) (put n text m) (omega arith)
      ∙ get-put n n text m
      ∙ rw (eq_self n) refl)
map_lines-put text texts lines n (suc i) m ih =
    let same : n + suc i ≡ suc n + i = omega arith in
    rw same (
      ih i
      ∙ ap (or_try (get_elem? texts i))
          (get-put n (suc n + i) text m ∙ rw (ne-above (suc n + i) n (omega arith)) refl))

get-map_lines :
    (lines : List (Kind × Text)) (n i : ℕ) (m : List (ℕ × Text))
    → get (n + i) (map_lines (visible (number_lines n lines)) m)
      ≡ or_try (get_elem? (new_side lines) i) (get (n + i) m)
unfolding map_lines number_lines new_side
get-map_lines [] n i m = refl
get-map_lines ((added, text) ∷ lines) n i m =
    map_lines-put text (new_side lines) lines n i m
      (λ j. get-map_lines lines (suc n) j (put n text m))
get-map_lines ((context, text) ∷ lines) n i m =
    map_lines-put text (new_side lines) lines n i m
      (λ j. get-map_lines lines (suc n) j (put n text m))
get-map_lines ((removed, text) ∷ lines) n i m = get-map_lines lines n i m

-- Of a diff of one hunk, the visible line under the number of the header plus i is line i of the new
-- side of the hunk, and there is none where the new side is shorter.
pub visible_file_lines-new_side :
    (h : Hunk) (i : ℕ)
    → IsHunk h
    → get (h.start + i) (visible_file_lines (print_diff (h ∷ []))) ≡ get_elem? (new_side h.lines) i
unfolding visible_file_lines
visible_file_lines-new_side h i v =
    rw (walk_hunks-print_diff (h ∷ []) (v, tt), append-nil)
      (get-map_lines h.lines h.start i [] ∙ or_try-none_right (get_elem? (new_side h.lines) i))
