-- ===== src/PipelineTrigger/Fields.antt =====
-- What the check of one field lets through, and the inputs that are put together from the fields.
use chaotic_next.Base.{
  ◌≡◌, refl, sym, Bool-cases, inl, inr, true, false, Option, none, some, List, [], ◌∷◌, ◌++◌, Text,
  text_eq, codes, ◌==◌, has, is_empty, trim, if◌then◌else◌, All, All-append, arith,
}
use mathlib.Core.Path.{subst}
use chaotic_next.Base.Regex.{Re}
use chaotic_next.PipelineTrigger.{
  pipeline_request_reasons, Value, text, null, other, PipelineOperation, requires_packages,
  no_operation, bump_packages, schedule_packages, run_schedule, drop_packages, add_packages,
  pipeline_packages_regex, pipeline_add_packages_regex, Result, ok, thrown, ◌>>=◌, fits,
  assert_valid_string, optional_string, input_of, packages_inputs, known_reason, operation_inputs,
}

module _ {ℓ κ} {A : Type ℓ} {B : Type κ} where
  -- A step that returned, and what the rest made of its value.
  pub bind-ok :
      (first : Result A) (next : A → Result B) {end : B}
      → (first >>= next) ≡ ok end
      → (value : A) × (first ≡ ok value) × (next value ≡ ok end)
  bind-ok (thrown code) next e = cc
  bind-ok (ok value) next e = (value, refl, e)

pub ok-injective {ℓ} : {A : Type ℓ} {a b : A} → ok a ≡ ok b → a ≡ b
ok-injective e = cc

-- A text that is not empty and fits a pattern.
abbrev pub IsValid : Option Re → Text → Type 0
IsValid regex s = (is_empty s ≡ false) × (fits regex s ≡ true)

pub assert_valid_string-IsValid :
    (value : Option Value) (regex : Option Re) {s : Text}
    → assert_valid_string value regex ≡ ok s
    → IsValid regex s
unfolding assert_valid_string
assert_valid_string-IsValid none regex e = cc
assert_valid_string-IsValid (some null) regex e = cc
assert_valid_string-IsValid (some other) regex e = cc
assert_valid_string-IsValid (some (text value)) regex {s} e =
    elim (Bool-cases (is_empty (trim value))) [
      | inl empty ↦ ground arith
      | inr full ↦ elim (Bool-cases (fits regex (trim value))) [
        | inl good ↦
            let same : trim value ≡ s = ok-injective (rw (full, good) at e) in
            rw (← same) (full, good)
        | inr bad ↦ ground arith
      ]
    ]

abbrev IsValidOption : Option Re → Option Text → Type 0
IsValidOption regex none = Unit {0}
IsValidOption regex (some s) = IsValid regex s

given-IsValid :
    (value : Option Value) (regex : Option Re) {o : Option Text}
    → (assert_valid_string value regex >>= λ found. ok (some found)) ≡ ok o
    → IsValidOption regex o
given-IsValid value regex e =
    let (s, found, same) = bind-ok (assert_valid_string value regex) (λ found. ok (some found)) e in
    subst (IsValidOption regex) (ok-injective same) (assert_valid_string-IsValid value regex found)

optional_string-IsValid :
    (value : Option Value) (regex : Option Re) {o : Option Text}
    → optional_string value regex ≡ ok o
    → IsValidOption regex o
unfolding optional_string
optional_string-IsValid none regex e = subst (IsValidOption regex) (ok-injective e) tt
optional_string-IsValid (some null) regex e = subst (IsValidOption regex) (ok-injective e) tt
optional_string-IsValid (some other) regex e = given-IsValid (some other) regex e
optional_string-IsValid (some (text value)) regex e = elim (Bool-cases (is_empty value)) [
  | inl empty ↦ subst (IsValidOption regex) (ok-injective (rw empty at e)) tt
  | inr full ↦ given-IsValid (some (text value)) regex (rw full at e)
]

-- The pattern of an input, where the pipeline has one.
abbrev pub pattern_of : Text → Option Re
pattern_of field =
    if field == codes "packages"
    then some pipeline_packages_regex
    else (if field == codes "add_packages" then some pipeline_add_packages_regex else none)

abbrev pub IsSafe : Text × Text → Type 0
IsSafe input = IsValid (pattern_of input.0) input.1

input_of-IsSafe :
    (field : Text) (o : Option Text)
    → IsValidOption (pattern_of field) o
    → All IsSafe (input_of field o)
input_of-IsSafe field none h = tt
input_of-IsSafe field (some s) h = (h, tt)

-- The packages are there where the operation needs them.
abbrev pub HasPackages : PipelineOperation → List (Text × Text) → Type 0
HasPackages operation inputs =
    requires_packages operation ≡ true → (p : Text) × (inputs ≡ (codes "packages", p) ∷ [])

pub packages_inputs-IsSafe :
    (operation : PipelineOperation) (value : Option Value) {inputs : List (Text × Text)}
    → packages_inputs operation value ≡ ok inputs
    → All IsSafe inputs × HasPackages operation inputs
unfolding packages_inputs
packages_inputs-IsSafe operation value {inputs} e =
    elim (Bool-cases (requires_packages operation)) [
      | inl needed ↦
          let (p, found, same) =
            bind-ok (assert_valid_string value (some pipeline_packages_regex))
              (λ p. ok (input_of (codes "packages") (some p))) (rw needed at e) in
          let equal = ok-injective same in
          (
            subst (All IsSafe) equal (
                input_of-IsSafe (codes "packages") (some p)
                  (assert_valid_string-IsValid value _ found)),
            λ _. (p, sym equal),
          )
      | inr free ↦
          let (o, found, same) =
            bind-ok (optional_string value (some pipeline_packages_regex))
              (λ o. ok (input_of (codes "packages") o)) (rw free at e) in
          (
            subst (All IsSafe) (ok-injective same)
                (input_of-IsSafe (codes "packages") o (optional_string-IsValid value _ found)),
            λ needed. cc (needed, free),
          )
    ]

-- A reason of the list, or none.
known_reason-ok : (o : Option Text) {r : Option Text} → known_reason o ≡ ok r → o ≡ r
known_reason-ok none e = ok-injective e
known_reason-ok (some s) e = elim (Bool-cases (has s pipeline_request_reasons)) [
  | inl known ↦ ok-injective (rw known at e)
  | inr unknown ↦ ground arith
]

-- The inputs of new packages, and the steps that are left after each field.
abbrev added_inputs : Text → Text → Option Text → Option Text → List (Text × Text)
added_inputs added origin reason custom =
    input_of (codes "add_packages") (some added)
    ++ (input_of (codes "request_origin") (some origin)
        ++ (input_of (codes "request_reason") reason
            ++ input_of (codes "custom_request_reason") custom))

abbrev pub Field : Type 0
Field = Text → Option Value

abbrev after_reason : Field → Text → Text → Option Text → Result (List (Text × Text))
after_reason field added origin reason =
    optional_string (field (codes "custom_request_reason")) none >>= λ custom.
    ok (added_inputs added origin reason custom)

abbrev after_given : Field → Text → Text → Option Text → Result (List (Text × Text))
after_given field added origin given = known_reason given >>= after_reason field added origin

abbrev after_origin : Field → Text → Text → Result (List (Text × Text))
after_origin field added origin =
    optional_string (field (codes "request_reason")) none >>= after_given field added origin

abbrev after_added : Field → Text → Result (List (Text × Text))
after_added field added =
    assert_valid_string (field (codes "request_origin")) none >>= after_origin field added

added_inputs-IsSafe :
    (added origin : Text) (reason custom : Option Text)
    → IsValid (some pipeline_add_packages_regex) added
    → IsValid none origin
    → IsValidOption none reason
    → IsValidOption none custom
    → All IsSafe (added_inputs added origin reason custom)
added_inputs-IsSafe added origin reason custom a b c d = (
  a,
  (
    b,
    All-append IsSafe (input_of (codes "request_reason") reason)
        (input_of (codes "custom_request_reason") custom)
        (input_of-IsSafe (codes "request_reason") reason c)
        (input_of-IsSafe (codes "custom_request_reason") custom d),
  ),
)

pub operation_inputs-IsSafe :
    (operation : PipelineOperation) (field : Text → Option Value) {inputs : List (Text × Text)}
    → operation_inputs operation field ≡ ok inputs
    → All IsSafe inputs
unfolding operation_inputs
operation_inputs-IsSafe no_operation field e = subst (All IsSafe) (ok-injective e) tt
operation_inputs-IsSafe bump_packages field e = subst (All IsSafe) (ok-injective e) tt
operation_inputs-IsSafe schedule_packages field e = subst (All IsSafe) (ok-injective e) tt
operation_inputs-IsSafe drop_packages field e = subst (All IsSafe) (ok-injective e) tt
operation_inputs-IsSafe run_schedule field e =
    let value = field (codes "trigger") in
    let (t, found, same) =
      bind-ok (assert_valid_string value none) (λ t. ok (input_of (codes "trigger") (some t))) e in
    subst (All IsSafe) (ok-injective same)
      (input_of-IsSafe (codes "trigger") (some t) (assert_valid_string-IsValid value none found))
operation_inputs-IsSafe add_packages field e =
    let (added, a, e1) =
      bind-ok
        (assert_valid_string (field (codes "add_packages")) (some pipeline_add_packages_regex))
        (after_added field) e in
    let (origin, b, e2) =
      bind-ok (assert_valid_string (field (codes "request_origin")) none) (after_origin field added)
        e1 in
    let (given, c, e3) =
      bind-ok (optional_string (field (codes "request_reason")) none)
        (after_given field added origin) e2 in
    let (reason, d, e4) = bind-ok (known_reason given) (after_reason field added origin) e3 in
    let (custom, f, same) =
      bind-ok (optional_string (field (codes "custom_request_reason")) none)
        (λ custom. ok (added_inputs added origin reason custom)) e4 in
    subst (All IsSafe) (ok-injective same) (
      added_inputs-IsSafe added origin reason custom (assert_valid_string-IsValid _ _ a)
        (assert_valid_string-IsValid _ _ b)
        (subst (IsValidOption none) (known_reason-ok given d) (optional_string-IsValid _ none c))
        (optional_string-IsValid _ none f))
