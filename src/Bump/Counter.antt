-- ===== src/Bump/Counter.antt =====
-- The counter that a bump raises, as the lines of the text record it, and the thrown error.
use mathlib.Core.List.{append_assoc}
use chaotic_next.Base.{
  ℕ, suc, ◌-◌, ◌≡◌, refl, sym, ap, ◌∙◌, Option, some, none, List, [], ◌∷◌, ◌++◌, Text, text_eq,
  nat_eq, length, All, all, take, drop, split, arith, true, false, Bool-cases, Option-cases, inl,
  inr, codes, if◌then◌else◌, ◌==◌, ◌&&◌, find, is_digit, decimal, read_decimal, last_index_of,
  starts_with, ends_with, text_beq_iff, eq_self, take-append-drop, is_empty, All-append,
}
use chaotic_next.Base.Decimal.{read_decimal-decimal, all-decimal, decimal-ne-nil}
use chaotic_next.Bump.{
  bump_key, has_key, bump_value, bump_line_of, is_number, next_bump_count, base_of, append_line,
}
use chaotic_next.Base.Splits.{Without-check, Without, split-Without, split-append}
use chaotic_next.Bump.Lines.{find-append}

-- The counter that a line records for a base, or 0.
abbrev counter_at : Text → Text → Option ℕ → ℕ
counter_at base value none = 0
counter_at base value (some slash) =
    if take slash value == base && is_number (drop (suc slash) value)
    then read_decimal (drop (suc slash) value)
    else 0

pub recorded : Text → Text → ℕ
recorded base line = counter_at base (bump_value line) (last_index_of b'/' (bump_value line))

-- The counter that the first bump line of a text records for a base.
abbrev pub recorded_in : Text → Option Text → ℕ
recorded_in base none = 0
recorded_in base (some line) = recorded base line

abbrev pub counter_in : Text → Text → ℕ
counter_in config_text base = recorded_in base (find (has_key bump_key) (split b'\n' config_text))

pub next_bump_count-recorded :
    (line base : Text) → next_bump_count line base ≡ suc (recorded base line)
unfolding next_bump_count recorded
next_bump_count-recorded line base = elim (Option-cases (last_index_of b'/' (bump_value line))) [
  | inl e ↦ rw e refl
  | inr (slash, e) ↦
      elim (Bool-cases
        (take slash (bump_value line) == base && is_number (drop (suc slash) (bump_value line)))) [
          | inl counted ↦ rw (e, counted) (omega arith)
          | inr other ↦ rw (e, other) refl
        ]
]

-- Digits hold no slash and no line feed.
digits-Without : (c : ℕ) (s : Text) → is_digit c ≡ false → all is_digit s ≡ true → Without c s
digits-Without c [] other h = tt
digits-Without c (d ∷ s) other h = (ground arith, digits-Without c s other (ground arith))

last_index_of-Without : (c : ℕ) (s : Text) → Without c s → last_index_of c s ≡ none
unfolding last_index_of
last_index_of-Without c [] h = refl
last_index_of-Without c (d ∷ s) h = rw (last_index_of-Without c s h.1, h.0) refl

last_index_of-append :
    (c : ℕ) (s t : Text) → Without c t → last_index_of c (s ++ (c ∷ t)) ≡ some (length s)
unfolding last_index_of
last_index_of-append c [] t h = rw (last_index_of-Without c t h, eq_self c) refl
last_index_of-append c (d ∷ s) t h = rw (last_index_of-append c s t h) refl

take-length : (s t : Text) → take (length s) (s ++ t) ≡ s
take-length [] t = refl
take-length (c ∷ s) t = ap (λ r. c ∷ r) (take-length s t)

drop-length : (s t : Text) (c : ℕ) → drop (suc (length s)) (s ++ (c ∷ t)) ≡ t
drop-length [] t c = refl
drop-length (d ∷ s) t c = drop-length s t c

is_empty-nil : (s : Text) → is_empty s ≡ true → s ≡ []
is_empty-nil [] h = refl
is_empty-nil (c ∷ s) h = cc

is_number-decimal : (n : ℕ) → is_number (decimal n) ≡ true
is_number-decimal n = elim (Bool-cases (is_empty (decimal n))) [
  | inl empty ↦ absurd (decimal-ne-nil n (is_empty-nil (decimal n) empty))
  | inr full ↦ rw (full, all-decimal n) refl
]

-- A bump line records its counter for its base.
pub recorded-bump_line_of : (base : Text) (n : ℕ) → recorded base (bump_line_of base n) ≡ n
unfolding recorded
recorded-bump_line_of base n =
    let no_slash = digits-Without b'/' (decimal n) refl (all-decimal n) in
    rw
      (
        last_index_of-append b'/' base (decimal n) no_slash,
        take-length base (b'/' ∷ decimal n),
        drop-length base (decimal n) b'/',
        eq_self base,
        is_number-decimal n,
      )
      (read_decimal-decimal n)

pub has_key-bump_line_of : (base : Text) (n : ℕ) → has_key bump_key (bump_line_of base n) ≡ true
unfolding starts_with
has_key-bump_line_of base n = refl

-- No line feed in what is written.
Without-append : (c : ℕ) (s t : Text) → Without c s → Without c t → Without c (s ++ t)
Without-append c s t h k = All-append (λ d. (d == c) ≡ false) s t h k

pub All-left {ℓ κ} : {A : Type ℓ} (P : A → Type κ) (xs ys : List A) → All P (xs ++ ys) → All P xs
All-left P [] ys h = tt
All-left P (x ∷ xs) ys h = (h.0, All-left P xs ys h.1)

pub base_of-Without :
    (version : Text) (pkgrel : ℕ) → Without b'\n' version → Without b'\n' (base_of version pkgrel)
base_of-Without version pkgrel h =
    Without-append b'\n' version (b'-' ∷ decimal pkgrel) h
      (refl, digits-Without b'\n' (decimal pkgrel) refl (all-decimal pkgrel))

pub bump_line_of-Without :
    (base : Text) (n : ℕ) → Without b'\n' base → Without b'\n' (bump_line_of base n)
bump_line_of-Without base n h =
    Without-append b'\n' (bump_key ++ codes "=") (base ++ (b'/' ∷ decimal n))
      (Without-check b'\n' (bump_key ++ codes "=") refl)
      (Without-append b'\n' base (b'/' ∷ decimal n) h
        (refl, digits-Without b'\n' (decimal n) refl (all-decimal n)))

ends_with-cut : (s : Text) → ends_with (codes "\n") s ≡ true → (r : Text) × (s ≡ r ++ codes "\n")
unfolding ends_with
ends_with-cut s h =
    let k = length s - 1 in
    let same : drop k s ≡ codes "\n" = (text_beq_iff (drop k s) (codes "\n")).0 (ground arith) in
    (take k s, sym (take-append-drop k s) ∙ ap (λ t. take k s ++ t) same)

-- No line is a bump line.
abbrev pub NoKey : Text → Type 0
NoKey config_text = All (λ line. has_key bump_key line ≡ false) (split b'\n' config_text)

-- The bump line of a text to which it was appended.
module _ (line : Text) (key : has_key bump_key line ≡ true) (whole : Without b'\n' line) where
  split-line : split b'\n' (line ++ codes "\n") ≡ line ∷ [] ∷ []
  unfolding split
  split-line = split-append b'\n' line [] ∙ rw (split-Without b'\n' line whole) refl

  line-found :
      (r : Text)
      → NoKey r
      → find (has_key bump_key) (split b'\n' (r ++ (b'\n' ∷ (line ++ codes "\n")))) ≡ some line
  line-found r h =
      rw (split-append b'\n' r (line ++ codes "\n"), split-line)
        (find-append (has_key bump_key) (split b'\n' r) line ([] ∷ []) h key)

  pub append_line-found :
      (config_text : Text)
      → NoKey config_text
      → find (has_key bump_key) (split b'\n' (append_line config_text line)) ≡ some line
  append_line-found config_text h = elim (Bool-cases (is_empty config_text)) [
    | inl empty ↦ rw (empty, is_empty-nil config_text empty, split-line, key) refl
    | inr full ↦ elim (Bool-cases (ends_with (codes "\n") config_text)) [
      | inr open_end ↦
          rw (full, open_end, append_assoc config_text (codes "\n") (line ++ codes "\n"))
            (line-found config_text h)
      | inl ended ↦
          let (r, e) = ends_with-cut config_text ended in
          let parts : split b'\n' config_text ≡ split b'\n' r ++ split b'\n' [] =
            rw e (split-append b'\n' r []) in
          rw (full, ended, e, append_assoc r (codes "\n") (line ++ codes "\n"))
            (line-found r (All-left _ (split b'\n' r) (split b'\n' []) (rw parts at h)))
    ]
  ]
