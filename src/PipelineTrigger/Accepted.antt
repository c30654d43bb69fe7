-- ===== src/PipelineTrigger/Accepted.antt =====
-- What the check lets through.
use chaotic_next.Base.{
  ◌≡◌, ◌⊎◌, refl, ap, sym, Bool-cases, Option-cases, inl, inr, true, Option, none, some, List, [],
  ◌∷◌, ◌++◌, Text, text_eq, text_beq_iff, codes, ◌==◌, is_some, All, All-append,
}
use mathlib.Core.Path.{subst}
use mathlib.Core.Option.{some-injective, none-ne-some}
use chaotic_next.Base.Map.{get}
use chaotic_next.PipelineTrigger.{
  Value, text, null, other, Body, object, no_object, PipelineOperation, operation_name,
  gitlab_label, pipeline_operations, requires_packages, pipeline_ref_regex, default_pipeline_ref,
  Result, ok, ◌>>=◌, ValidatedPipelineTrigger, operation_of, operation_in, ref_of, packages_inputs,
  operation_inputs, validate_pipeline_trigger_inputs,
}
use chaotic_next.PipelineTrigger.Fields.{
  bind-ok, ok-injective, assert_valid_string-IsValid, packages_inputs-IsSafe,
  operation_inputs-IsSafe, IsValid, HasPackages, Field, IsSafe,
}

operation_of-name :
    (name : Text) (operations : List PipelineOperation) {operation : PipelineOperation}
    → operation_of name operations ≡ some operation
    → operation_name operation ≡ name
unfolding operation_of
operation_of-name name [] e = absurd (none-ne-some _ e)
operation_of-name name (first ∷ operations) e = elim (Bool-cases (operation_name first == name)) [
  | inl here ↦
      let same = some-injective _ _ (rw here at e) in
      rw (← same) ((text_beq_iff (operation_name first) name).0 here)
  | inr miss ↦ operation_of-name name operations (rw miss at e)
]

operation_in-named :
    (value : Option Value) {operation : PipelineOperation}
    → operation_in value ≡ ok operation
    → value ≡ some (text (operation_name operation))
unfolding operation_in
operation_in-named none e = cc
operation_in-named (some null) e = cc
operation_in-named (some other) e = cc
operation_in-named (some (text name)) e =
    elim (Option-cases (operation_of name pipeline_operations)) [
      | inl gone ↦ cc (rw gone at e)
      | inr (found, f) ↦
          let same = ok-injective (rw f at e) in
          ap (λ n. some (text n)) (sym (rw (← same) (operation_of-name name pipeline_operations f)))
    ]

ref_of-IsValid :
    (value : Option Value) {ref : Text}
    → ref_of value ≡ ok ref
    → (ref ≡ default_pipeline_ref) ⊎ IsValid (some pipeline_ref_regex) ref
unfolding ref_of
ref_of-IsValid none e = inl (sym (ok-injective e))
ref_of-IsValid (some value) e =
    inr (assert_valid_string-IsValid (some value) (some pipeline_ref_regex) e)

-- What is forwarded: the label of the operation that the body names, a ref that is the default one or
-- fits its pattern, inputs that are not empty and fit the patterns of their fields, and packages
-- where the operation needs them.
pub record IsForwarded (fields : List (Text × Value)) (r : ValidatedPipelineTrigger) : Type 0 where
  pub operation : PipelineOperation
  pub named : get (codes "operation") fields ≡ some (text (operation_name operation))
  pub ref_valid : (r.ref ≡ default_pipeline_ref) ⊎ IsValid (some pipeline_ref_regex) r.ref
  pub others : List (Text × Text)
  pub labelled : r.inputs ≡ (codes "operation", gitlab_label operation) ∷ others
  pub safe : All IsSafe others
  pub packages : requires_packages operation ≡ true → is_some (get (codes "packages") others) ≡ true

-- The result, and the steps that are left after each part of it.
abbrev trigger_of :
    PipelineOperation → Text → List (Text × Text) → List (Text × Text) → ValidatedPipelineTrigger
trigger_of operation ref packages others = record {
  ref = ref;
  inputs = (codes "operation", gitlab_label operation) ∷ (packages ++ others);
}

abbrev after_packages :
    Field → PipelineOperation → Text → List (Text × Text) → Result ValidatedPipelineTrigger
after_packages field operation ref packages =
    operation_inputs operation field >>= λ others. ok (trigger_of operation ref packages others)

abbrev after_ref : Field → PipelineOperation → Text → Result ValidatedPipelineTrigger
after_ref field operation ref =
    packages_inputs operation (field (codes "packages")) >>= after_packages field operation ref

abbrev after_operation : Field → PipelineOperation → Result ValidatedPipelineTrigger
after_operation field operation = ref_of (field (codes "ref")) >>= after_ref field operation

get-packages :
    (op : PipelineOperation) (inputs others : List (Text × Text))
    → HasPackages op inputs
    → requires_packages op ≡ true
    → is_some (get (codes "packages") (inputs ++ others)) ≡ true
get-packages op inputs others given needed = let (p, e) = given needed in rw e refl

-- A body is let through only as an object, and what is forwarded to the pipeline then is the label of
-- the operation that it names, a ref that is the default one or fits its pattern, and inputs that
-- are not empty and fit the patterns of their fields, the packages among them where the operation
-- needs packages; every other body ends in a thrown error.
pub validate_pipeline_trigger_inputs-IsForwarded :
    (body : Body) (r : ValidatedPipelineTrigger)
    → validate_pipeline_trigger_inputs body ≡ ok r
    → (fields : List (Text × Value)) × (body ≡ object fields) × IsForwarded fields r
unfolding validate_pipeline_trigger_inputs
validate_pipeline_trigger_inputs-IsForwarded no_object r e = cc
validate_pipeline_trigger_inputs-IsForwarded (object fields) r e =
    let field = λ (name : Text). get name fields in
    let (operation, a, e1) =
      bind-ok (operation_in (field (codes "operation"))) (after_operation field) e in
    let (ref, b, e2) = bind-ok (ref_of (field (codes "ref"))) (after_ref field operation) e1 in
    let (packages, c, e3) =
      bind-ok (packages_inputs operation (field (codes "packages")))
        (after_packages field operation ref) e2 in
    let (others, d, same) =
      bind-ok (operation_inputs operation field)
        (λ others. ok (trigger_of operation ref packages others)) e3 in
    let (safe, given) = packages_inputs-IsSafe operation _ c in
    let forwarded : IsForwarded fields (trigger_of operation ref packages others) = record {
      operation = operation;
      named = operation_in-named _ a;
      ref_valid = ref_of-IsValid _ b;
      others = packages ++ others;
      labelled = refl;
      safe = All-append IsSafe packages others safe (operation_inputs-IsSafe operation field d);
      packages = get-packages operation packages others given;
    } in
    (fields, refl, subst (IsForwarded fields) (ok-injective same) forwarded)
