-- ===== src/Base/Regex.antt =====
-- Regular expressions with the backtracking order of the source's language: alternatives from left
-- to right, greedy and lazy repetition, numbered groups, assertions. `exec` tries each start in
-- turn. A character class is a test on code units.
mod Tests
use chaotic_next.Base.{
  ℕ, zero, suc, ◌-◌, Bool, true, false, not, ◌&&◌, ◌||◌, Option, none, some, List, [], ◌∷◌, ◌++◌,
  Text, length, take, leb, ltb, nat_beq, nat_eq, any, is_digit, is_space, is_some, if◌then◌else◌,
}
use chaotic_next.Base.Map.{get, put}

pub data Re : Type 0 where
  -- one code unit that passes the test
  one : (ℕ → Bool) → Re
  both : Re → Re → Re
  either : Re → Re → Re
  empty : Re
  -- as many rounds as possible first, or as few
  star lazy : Re → Re
  group : ℕ → Re → Re
  -- `^` and `$` without the flag m, `\b`, `(?!…)`
  start end edge : Re
  unless : Re → Re

infixr 60 ◌⋅◌
abbrev pub ◌⋅◌ : Re → Re → Re
r ⋅ s = both r s

abbrev pub lit : Text → Re
lit [] = empty
lit (c ∷ s) = one (λ d. nat_beq c d) ⋅ lit s

abbrev pub plus : Re → Re
plus r = r ⋅ star r

abbrev pub opt : Re → Re
opt r = either r empty

-- `r{n}`, and up to n times `r`, so that `r{m,n}` is `times m r ⋅ up_to (n - m) r`.
abbrev pub times : ℕ → Re → Re
times zero r = empty
times (suc n) r = r ⋅ times n r

abbrev pub up_to : ℕ → Re → Re
up_to zero r = empty
up_to (suc n) r = opt (r ⋅ up_to n r)

abbrev pub digits : Re
digits = plus (one is_digit)

abbrev pub spaces : Re
spaces = plus (one is_space)

abbrev pub optional_spaces : Re
optional_spaces = star (one is_space)

-- `.` and `\S`
abbrev pub dot : Re
dot = one (λ c. not (nat_beq c 10 || nat_beq c 13 || nat_beq c 0x2028 || nat_beq c 0x2029))

abbrev pub non_space : Re
non_space = one (λ c. not (is_space c))

abbrev pub is_lower : ℕ → Bool
is_lower c = leb b'a' c && leb c b'z'

abbrev pub is_upper : ℕ → Bool
is_upper c = leb b'A' c && leb c b'Z'

-- `\w`
abbrev pub is_word : ℕ → Bool
is_word c = is_lower c || is_upper c || is_digit c || nat_beq c b'_'

pub record At : Type 0 where
  pub before : Option ℕ
  pub rest : Text
  pub groups : List (ℕ × Text)

abbrev is_word_before : Option ℕ → Bool
is_word_before none = false
is_word_before (some c) = is_word c

abbrev is_word_next : Text → Bool
is_word_next [] = false
is_word_next (c ∷ s) = is_word c

abbrev at_edge : At → Bool
at_edge s = elim (is_word_before s.before) [
  | true ↦ not (is_word_next s.rest)
  | false ↦ is_word_next s.rest
]

abbrev Matcher : Type 0
Matcher = At → (At → Option At) → Option At

-- The first of two results, the second computed only where the first fails.
abbrev first : Option At → (Unit {0} → Option At) → Option At
first none next = next tt
first (some s) next = some s

step_one : (ℕ → Bool) → Text → At → (At → Option At) → Option At
step_one p [] s k = none
step_one p (c ∷ t) s k = elim (p c) [
  | true ↦ k (record s { before = some c; rest = t })
  | false ↦ none
]

-- A round that consumes nothing ends the repetition, so the length of the text bounds the rounds.
rounds : ℕ → Bool → Matcher → Matcher
rounds zero greedy m s k = k s
rounds (suc f) true m s k =
    first
      (m s (λ s'. elim (ltb (length s'.rest) (length s.rest)) [
        | true ↦ rounds f true m s' k
        | false ↦ none
      ]))
      (λ _. k s)
rounds (suc f) false m s k = first (k s) (λ _. m s (λ s'.
    elim (ltb (length s'.rest) (length s.rest)) [ true ↦ rounds f false m s' k | false ↦ none ]))

pub run : Re → Matcher
unfolding step_one rounds
run (one p) s k = step_one p s.rest s k
run (both r t) s k = run r s (λ s'. run t s' k)
run (either r t) s k = first (run r s k) (λ _. run t s k)
run empty s k = k s
run (star r) s k = rounds (length s.rest) true (run r) s k
run (lazy r) s k = rounds (length s.rest) false (run r) s k
run (group i r) s k = run r s (λ s'.
    k (record s' { groups = put i (take (length s.rest - length s'.rest) s.rest) s'.groups }))
run start s k = elim (s.before) [ none ↦ k s | some c ↦ none ]
run end s k = elim (s.rest) [ [] ↦ k s | c ∷ t ↦ none ]
run edge s k = elim (at_edge s) [ true ↦ k s | false ↦ none ]
run (unless r) s k = elim (run r s (λ s'. some s')) [ none ↦ k s | some s' ↦ none ]

exec_from : Option ℕ → Text → Re → Option At
unfolding run
exec_from before [] r = run r (record { before = before; rest = []; groups = [] }) (λ s. some s)
exec_from before (c ∷ t) r =
    first (run r (record { before = before; rest = c ∷ t; groups = [] }) (λ s. some s))
      (λ _. exec_from (some c) t r)

-- `re.exec(text)`: the groups of the first match.
unfoldable pub exec : Re → Text → Option (List (ℕ × Text))
unfolding exec_from
exec r text = elim (exec_from none text r) [ none ↦ none | some s ↦ some s.groups ]

-- `re.test(text)`, and `re.exec(text)?.[i]`.
unfoldable pub test : Re → Text → Bool
unfolding exec
test r text = is_some (exec r text)

abbrev group_of : ℕ → Option (List (ℕ × Text)) → Option Text
group_of i none = none
group_of i (some groups) = get i groups

unfoldable pub exec_group : ℕ → Re → Text → Option Text
unfolding exec
exec_group i r text = group_of i (exec r text)
