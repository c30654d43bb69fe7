-- ===== src/PipelineTrigger/Tests.antt =====
-- Runs of the check at concrete inputs.
use chaotic_next.Base.{◌≡◌, refl, codes, [], ◌∷◌, List, Text, trim, is_space}
use chaotic_next.Base.Regex.{test}
use chaotic_next.PipelineTrigger.{
  Value, text, null, object, validate_pipeline_trigger_inputs, ok, thrown, invalid_operation,
  invalid_input, ValidatedPipelineTrigger,
}
use chaotic_next.PipelineTrigger.Accepted.{
  IsForwarded, validate_pipeline_trigger_inputs-IsForwarded,
}

abbrev bump_fields : List (Text × Value)
bump_fields =
    (codes "operation", text (codes "bump-packages"))
    ∷ (codes "packages", text (codes " a:b/c "))
    ∷ []

abbrev bump_trigger : ValidatedPipelineTrigger
bump_trigger = record {
  ref = codes "main";
  inputs = (codes "operation", codes "Bump Packages") ∷ (codes "packages", codes "a:b/c") ∷ [];
}

validate_pipeline_trigger_inputs-bump :
    validate_pipeline_trigger_inputs (object bump_fields) ≡ ok bump_trigger
unfolding validate_pipeline_trigger_inputs trim test is_space
validate_pipeline_trigger_inputs-bump = refl

validate_pipeline_trigger_inputs-added :
    validate_pipeline_trigger_inputs (
      object (
        (codes "operation", text (codes "add-packages"))
        ∷ (codes "ref", text (codes "dev"))
        ∷ (codes "packages", null)
        ∷ (codes "add_packages", text (codes "x/aur y/https://z"))
        ∷ (codes "request_origin", text (codes "o"))
        ∷ (codes "request_reason", text (codes "depends"))
        ∷ []))
    ≡ ok (record {
      ref = codes "dev";
      inputs =
          (codes "operation", codes "Add Packages")
          ∷ (codes "add_packages", codes "x/aur y/https://z")
          ∷ (codes "request_origin", codes "o")
          ∷ (codes "request_reason", codes "depends")
          ∷ [];
    })
unfolding validate_pipeline_trigger_inputs trim test is_space
validate_pipeline_trigger_inputs-added = refl

validate_pipeline_trigger_inputs_injected :
    validate_pipeline_trigger_inputs (
      object (
        (codes "operation", text (codes "drop-packages"))
        ∷ (codes "packages", text (codes "a;b"))
        ∷ []))
    ≡ thrown invalid_input
unfolding validate_pipeline_trigger_inputs trim test is_space
validate_pipeline_trigger_inputs_injected = refl

validate_pipeline_trigger_inputs_unknown :
    validate_pipeline_trigger_inputs (object ((codes "operation", null) ∷ []))
    ≡ thrown invalid_operation
unfolding validate_pipeline_trigger_inputs
validate_pipeline_trigger_inputs_unknown = refl

validate_pipeline_trigger_inputs-IsForwarded_example :
    (fields : List (Text × Value)) × (object bump_fields ≡ object fields)
    × IsForwarded fields bump_trigger
validate_pipeline_trigger_inputs-IsForwarded_example =
    validate_pipeline_trigger_inputs-IsForwarded (object bump_fields) bump_trigger
      validate_pipeline_trigger_inputs-bump
