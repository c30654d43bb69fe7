-- ===== src/Scan/Triggers/Causes.antt =====
-- What a trigger of an Arch update rests on.
use mathlib.Core.List.{Memᴰ}
use mathlib.Core.List.Memᴰ
use mathlib.Core.Path.{subst}
use mathlib.Core.Option.{none-ne-some}
use chaotic_next.Base.{
  ◌≡◌, refl, sym, ap, inl, inr, Option, none, some, List, [], ◌∷◌, nat_eq, ◌==◌, find, find-mem,
}
use chaotic_next.Base.Map.{get}
use chaotic_next.Base.Search.{first_some-mem, option_map-some, or_try-cases}
use chaotic_next.Base.Members.{flat_map-mem}
use chaotic_next.Signal.Owners.{arch}
use chaotic_next.Signal.Broken.{BrokenDependency}
use chaotic_next.Signal.Abi.{ConsumerAbiBreak}
use chaotic_next.Scan.Records.{
  ArchlinuxPackage, Package, PackageElfAnalysis, ChangedOwner, arch_owner,
}
use chaotic_next.Scan.Outputs.{recorded_deps}
use chaotic_next.Scan.Context.{BrokenDepsContext}
use chaotic_next.Scan.Attribution.{broken_deps_for_consumer}
use chaotic_next.Scan.Attribution.Blame.{IsJustified, broken_deps_for_consumer-IsJustified}
use chaotic_next.Scan.PluginBreaks.{PluginBreakIndex, consumer_symbol_breaks_for}
use chaotic_next.Scan.PluginBreaks.Hits.{IsHit, consumer_symbol_breaks_for-IsHit}
use chaotic_next.Scan.Triggers.{
  DetectedTrigger, Analyses, broken_deps_trigger, plugin_break_trigger, analyzed_outputs,
  break_pkg_id, broken_trigger_of, broken_trigger_in, with_analysis, owned_breaks, arch_trigger_for,
}

-- Why an update triggers a rebuild: broken dependencies with their culprits, for an output with an
-- analysis; or breaks that hit such an output, the first of them by the owner.
pub data ArchCause (outputs : List Package) (analyses : Analyses) (ctx : Option BrokenDepsContext)
    (index : PluginBreakIndex) (changed : List ArchlinuxPackage) : DetectedTrigger → Type 0 where
  by_broken_deps :
      (context : BrokenDepsContext) (output : Package) (analysis : PackageElfAnalysis)
      (relevant : List BrokenDependency) (cause : ChangedOwner)
      → ctx ≡ some context
      → Memᴰ output outputs
      → get output.id analyses ≡ some analysis
      → IsJustified analysis context (recorded_deps output) relevant cause
      → ArchCause outputs analyses ctx index changed (broken_deps_trigger (relevant, cause) arch)
  by_plugin_break :
      (output : Package) (analysis : PackageElfAnalysis) (pkg : ArchlinuxPackage)
      (first : ConsumerAbiBreak) (others : List ConsumerAbiBreak)
      → Memᴰ output outputs
      → get output.id analyses ≡ some analysis
      → Memᴰ pkg changed
      → pkg.id ≡ break_pkg_id first
      → ((b : ConsumerAbiBreak) → Memᴰ b (first ∷ others) → IsHit analysis index b)
      → ArchCause outputs analyses ctx index changed
          (plugin_break_trigger (first ∷ others) (arch_owner pkg) arch)

with_analysis-mem :
    (output : Package) (analysis : Option PackageElfAnalysis) (row : Package × PackageElfAnalysis)
    → Memᴰ row (with_analysis output analysis)
    → (row.0 ≡ output) × (analysis ≡ some row.1)
with_analysis-mem output none row m = absurd (Memᴰ.not-nil m)
with_analysis-mem output (some analysis) row (Memᴰ.head p) =
    (ap (λ r. r.0) p, ap (λ r. some r.1) (sym p))
with_analysis-mem output (some analysis) row (Memᴰ.tail m) = absurd (Memᴰ.not-nil m)

analyzed_outputs-mem :
    (outputs : List Package) (analyses : Analyses) (row : Package × PackageElfAnalysis)
    → Memᴰ row (analyzed_outputs outputs analyses)
    → Memᴰ row.0 outputs × (get (row.0).id analyses ≡ some row.1)
analyzed_outputs-mem outputs analyses row m =
    let (output, (listed, h)) = flat_map-mem _ outputs m in
    let (same, found) = with_analysis-mem output (get output.id analyses) row h in
    (
      Memᴰ.cast same listed,
      subst (λ (o : Package). get o.id analyses ≡ some row.1) (sym same) found,
    )

module _ (outputs : List Package) (analyses : Analyses) (ctx : Option BrokenDepsContext)
    (index : PluginBreakIndex) (changed : List ArchlinuxPackage) where
  broken_trigger_of-cause :
      (context : BrokenDepsContext) (row : Package × PackageElfAnalysis) {t : DetectedTrigger}
      → ctx ≡ some context
      → Memᴰ row (analyzed_outputs outputs analyses)
      → broken_trigger_of context row ≡ some t
      → ArchCause outputs analyses ctx index changed t
  unfolding broken_trigger_of
  broken_trigger_of-cause context (output, analysis) here m e =
      let ((relevant, cause), (found, same)) =
        option_map-some _ (broken_deps_for_consumer analysis context (recorded_deps output)) e in
      let (listed, analyzed) = analyzed_outputs-mem outputs analyses (output, analysis) m in
      subst (ArchCause outputs analyses ctx index changed) same (
        by_broken_deps context output analysis relevant cause here listed analyzed (
          broken_deps_for_consumer-IsJustified analysis context (recorded_deps output) relevant
            cause found))

  owned_breaks-cause :
      (row : Package × PackageElfAnalysis) (breaks : List ConsumerAbiBreak) {t : DetectedTrigger}
      → Memᴰ row (analyzed_outputs outputs analyses)
      → ((b : ConsumerAbiBreak) → Memᴰ b breaks → IsHit row.1 index b)
      → owned_breaks changed breaks ≡ some t
      → ArchCause outputs analyses ctx index changed t
  unfolding owned_breaks
  owned_breaks-cause row [] m hits e = absurd (none-ne-some _ e)
  owned_breaks-cause row (first ∷ others) m hits e =
      let (pkg, (found, same)) =
        option_map-some _ (find (λ (p : ArchlinuxPackage). p.id == break_pkg_id first) changed) e in
      let (in_changed, owns) = find-mem _ changed found in
      let (listed, analyzed) = analyzed_outputs-mem outputs analyses row m in
      subst (ArchCause outputs analyses ctx index changed) same (
        by_plugin_break row.0 row.1 pkg first others listed analyzed in_changed
          ((nat_eq.beq_iff _ _).0 owns) hits)

  from_context :
      (context : Option BrokenDepsContext) {t : DetectedTrigger}
      → ctx ≡ context
      → broken_trigger_in context (analyzed_outputs outputs analyses) ≡ some t
      → ArchCause outputs analyses ctx index changed t
  from_context none here e = absurd (none-ne-some _ e)
  from_context (some context) here e =
      let (row, (m, h)) =
        first_some-mem (broken_trigger_of context) (analyzed_outputs outputs analyses) e in
      broken_trigger_of-cause context row here m h

  -- Every trigger of an update is for an output with an analysis, and it has its cause: dependencies
  -- that are broken for that output by changed packages, one of which is the owner, with a successor
  -- for one of them; or ABI breaks that hit the output, the first of them by the changed package that
  -- is the owner.
  pub arch_trigger_for-ArchCause :
      {t : DetectedTrigger}
      → arch_trigger_for outputs analyses ctx index changed ≡ some t
      → ArchCause outputs analyses ctx index changed t
  unfolding arch_trigger_for
  arch_trigger_for-ArchCause e =
      elim (or_try-cases (broken_trigger_in ctx (analyzed_outputs outputs analyses)) _ e) [
        | inl h ↦ from_context ctx refl h
        | inr (nothing, h) ↦
            let (row, (m, owned)) = first_some-mem _ (analyzed_outputs outputs analyses) h in
            owned_breaks-cause row (consumer_symbol_breaks_for row.1 index) m
              (λ b n. consumer_symbol_breaks_for-IsHit row.1 index n) owned
      ]
