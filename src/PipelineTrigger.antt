-- ===== src/PipelineTrigger.antt =====
-- The check of a request that triggers a pipeline: `validatePipelineTriggerInputs` of
-- backend/src/gitlab/pipeline-trigger-inputs.ts, with the operations and patterns of
-- shared-lib/src/lib/types/gitlab.ts. A body is a JSON value, read as far as the check reads it; a
-- thrown exception is a result with its error code.
pub mod Fields
pub mod Accepted
mod Tests
use chaotic_next.Base.{
  ℕ, zero, suc, Bool, true, false, not, ◌&&◌, ◌||◌, Option, none, some, List, [], ◌∷◌, ◌++◌, Text,
  text_eq, codes, ◌==◌, nat_eq, has, map, is_empty, is_space, trim, if◌then◌else◌,
}
use chaotic_next.Base.Map.{get}
use chaotic_next.Base.Regex.{
  Re, either, empty, star, one, plus, opt, lit, start, end, is_word, non_space, ◌⋅◌, test,
}

-- A value of a field: a text, `null`, or anything else.
pub data Value : Type 0 where
  text : Text → Value
  null other : Value

-- A body that is an object, with its own fields; a missing field is undefined.
pub data Body : Type 0 where
  object : List (Text × Value) → Body
  no_object : Body

pub data PipelineOperation : Type 0 where
  no_operation bump_packages schedule_packages run_schedule drop_packages add_packages :
      PipelineOperation

abbrev pub operation_name : PipelineOperation → Text
operation_name no_operation = codes "none"
operation_name bump_packages = codes "bump-packages"
operation_name schedule_packages = codes "schedule-packages"
operation_name run_schedule = codes "run-schedule"
operation_name drop_packages = codes "drop-packages"
operation_name add_packages = codes "add-packages"

abbrev pub pipeline_operations : List PipelineOperation
pipeline_operations =
    no_operation ∷ bump_packages ∷ schedule_packages ∷ run_schedule ∷ drop_packages ∷ add_packages
    ∷ []

abbrev pub gitlab_label : PipelineOperation → Text
gitlab_label no_operation = codes "None"
gitlab_label bump_packages = codes "Bump Packages"
gitlab_label schedule_packages = codes "Schedule Packages"
gitlab_label run_schedule = codes "Run Schedule"
gitlab_label drop_packages = codes "Drop Packages"
gitlab_label add_packages = codes "Add Packages"

abbrev pub pipeline_request_reasons : List Text
pipeline_request_reasons =
    map codes
      ("unset" ∷ "request" ∷ "depends" ∷ "depends:optional" ∷ "depends:make" ∷ "depends:check" ∷ [])

-- `[\w@.+/-]`.
abbrev name_unit : Re
name_unit = one (λ c. is_word c || has c (codes "@.+/-"))

abbrev pub pipeline_packages_regex : Re
pipeline_packages_regex =
    start ⋅ opt (plus name_unit ⋅ star (lit (codes ":") ⋅ plus name_unit)) ⋅ end

-- One package and its source: `[\w@.+/-]+\/(aur|(https?|git):\/\/\S+)`.
abbrev added_package : Re
added_package =
    plus name_unit
    ⋅ lit (codes "/")
    ⋅ either (lit (codes "aur")) (
        either (lit (codes "http") ⋅ opt (lit (codes "s"))) (lit (codes "git"))
        ⋅ lit (codes "://")
        ⋅ plus non_space)

abbrev pub pipeline_add_packages_regex : Re
pipeline_add_packages_regex =
    start ⋅ opt (added_package ⋅ star (one is_space ⋅ added_package)) ⋅ end

-- `{1,255}`: one unit, and up to 254 more.
abbrev at_most_more : ℕ → Re → Re
at_most_more zero r = empty
at_most_more (suc n) r = opt (r ⋅ at_most_more n r)

abbrev pub pipeline_ref_regex : Re
pipeline_ref_regex = start ⋅ name_unit ⋅ at_most_more 254 name_unit ⋅ end

abbrev pub default_pipeline_ref : Text
default_pipeline_ref = codes "main"

abbrev pub requires_packages : PipelineOperation → Bool
requires_packages bump_packages = true
requires_packages schedule_packages = true
requires_packages drop_packages = true
requires_packages no_operation = false
requires_packages run_schedule = false
requires_packages add_packages = false

-- The error codes of the exceptions.
pub data ErrorCode : Type 0 where
  invalid_body invalid_operation invalid_input invalid_request_reason : ErrorCode

-- What a call ends with: a thrown exception, or the value that it returns.
pub data Result {ℓ} (A : Type ℓ) : Type ℓ where
  thrown : ErrorCode → Result A
  ok : A → Result A

module _ {ℓ κ} {A : Type ℓ} {B : Type κ} where
  infixl 5 ◌>>=◌
  abbrev pub ◌>>=◌ : Result A → (A → Result B) → Result B
  thrown code >>= next = thrown code
  ok value >>= next = next value

pub record ValidatedPipelineTrigger : Type 0 where
  pub ref : Text
  pub inputs : List (Text × Text)

-- No pattern accepts every text.
abbrev pub fits : Option Re → Text → Bool
fits none s = true
fits (some regex) s = test regex s

unfoldable pub assert_valid_string : Option Value → Option Re → Result Text
assert_valid_string (some (text value)) regex =
    if is_empty (trim value)
    then thrown invalid_input
    else (if fits regex (trim value) then ok (trim value) else thrown invalid_input)
assert_valid_string (some null) regex = thrown invalid_input
assert_valid_string (some other) regex = thrown invalid_input
assert_valid_string none regex = thrown invalid_input

unfoldable pub optional_string : Option Value → Option Re → Result (Option Text)
unfolding assert_valid_string
optional_string none regex = ok none
optional_string (some null) regex = ok none
optional_string (some other) regex = do
  found ← assert_valid_string (some other) regex
  ok (some found)
optional_string (some (text value)) regex =
    if is_empty value
    then ok none
    else (do found ← assert_valid_string (some (text value)) regex; ok (some found))

-- One field of the inputs, where there is a value for it.
abbrev pub input_of : Text → Option Text → List (Text × Text)
input_of field none = []
input_of field (some value) = (field, value) ∷ []

-- The operation that a text names.
unfoldable pub operation_of : Text → List PipelineOperation → Option PipelineOperation
operation_of name [] = none
operation_of name (operation ∷ operations) =
    if operation_name operation == name then some operation else operation_of name operations

unfoldable pub operation_in : Option Value → Result PipelineOperation
unfolding operation_of
operation_in (some (text name)) = elim (operation_of name pipeline_operations) [
  | none ↦ thrown invalid_operation
  | some operation ↦ ok operation
]
operation_in (some null) = thrown invalid_operation
operation_in (some other) = thrown invalid_operation
operation_in none = thrown invalid_operation

unfoldable pub ref_of : Option Value → Result Text
unfolding assert_valid_string
ref_of none = ok default_pipeline_ref
ref_of (some value) = assert_valid_string (some value) (some pipeline_ref_regex)

unfoldable pub packages_inputs : PipelineOperation → Option Value → Result (List (Text × Text))
unfolding assert_valid_string optional_string
packages_inputs operation value =
    if requires_packages operation
    then (do
      packages ← assert_valid_string value (some pipeline_packages_regex)
      ok (input_of (codes "packages") (some packages)))
    else (do
      packages ← optional_string value (some pipeline_packages_regex)
      ok (input_of (codes "packages") packages))

abbrev pub known_reason : Option Text → Result (Option Text)
known_reason none = ok none
known_reason (some reason) =
    if has reason pipeline_request_reasons then ok (some reason) else thrown invalid_request_reason

-- The inputs of one operation alone.
unfoldable pub operation_inputs :
    PipelineOperation → (Text → Option Value) → Result (List (Text × Text))
unfolding assert_valid_string optional_string
operation_inputs run_schedule field = do
  trigger ← assert_valid_string (field (codes "trigger")) none
  ok (input_of (codes "trigger") (some trigger))
operation_inputs add_packages field = do
  added ← assert_valid_string (field (codes "add_packages")) (some pipeline_add_packages_regex)
  origin ← assert_valid_string (field (codes "request_origin")) none
  given ← optional_string (field (codes "request_reason")) none
  reason ← known_reason given
  custom ← optional_string (field (codes "custom_request_reason")) none
  ok (
      input_of (codes "add_packages") (some added)
      ++ (input_of (codes "request_origin") (some origin)
          ++ (input_of (codes "request_reason") reason
              ++ input_of (codes "custom_request_reason") custom)))
operation_inputs no_operation field = ok []
operation_inputs bump_packages field = ok []
operation_inputs schedule_packages field = ok []
operation_inputs drop_packages field = ok []

unfoldable pub validate_pipeline_trigger_inputs : Body → Result ValidatedPipelineTrigger
unfolding operation_in ref_of packages_inputs operation_inputs
validate_pipeline_trigger_inputs no_object = thrown invalid_body
validate_pipeline_trigger_inputs (object fields) = do
  operation ← operation_in (get (codes "operation") fields)
  ref ← ref_of (get (codes "ref") fields)
  packages ← packages_inputs operation (get (codes "packages") fields)
  others ← operation_inputs operation (λ field. get field fields)
  ok (record {
    ref = ref;
    inputs = (codes "operation", gitlab_label operation) ∷ (packages ++ others);
  })
