-- ===== src/Scan/Detection/Found.antt =====
-- The result of `detectArchTriggers` against an account of why a directory has a trigger.
use mathlib.Core.List.{Memᴰ}
use mathlib.Core.List.Memᴰ
use mathlib.Core.Path.{subst}
use mathlib.Core.Option.{some-injective, none-ne-some}
use chaotic_next.Base.{
  ◌≡◌, refl, sym, inl, inr, ◌⊎◌, true, Option, none, some, List, [], ◌∷◌, Text, text_eq, ◌==◌,
  is_some, eq_self, arith, Bool-cases,
}
use chaotic_next.Base.Map.{get, get-put}
use chaotic_next.Base.Search.{or_try-cases}
use chaotic_next.Scan.Records.{Package}
use chaotic_next.Scan.Outputs.{group_by_pkgbase}
use chaotic_next.Scan.Triggers.{DetectedTrigger, DetectedTriggerDto, to_dto, arch_trigger_for}
use chaotic_next.Scan.Triggers.Causes.{ArchCause, arch_trigger_for-ArchCause}
use chaotic_next.Scan.Releases.Causes.{
  StrictCause, strict_owner_trigger_for-StrictCause, PrivateCause,
  private_api_trigger_for-PrivateCause,
}
use chaotic_next.Scan.Missed.Rebuilds.{MissedCause, missed_break_trigger_for-MissedCause}
use chaotic_next.Scan.Detection.{
  Change, plugin_index, private_providers, trigger_for, Detected, set_detected, detect_groups,
  detect_arch_triggers,
}

-- Why a directory has a trigger. The last three kinds count only where no update triggers.
pub data Cause (change : Change) (pkgbase_dir : Text) (outputs : List Package) (t : DetectedTrigger)
    : Type 0 where
  by_update :
      ArchCause outputs change.consumer_analyses change.context
        (plugin_index change)
        change.changed
        t
      → Cause change pkgbase_dir outputs t
  by_strict_owner :
      arch_trigger_for outputs change.consumer_analyses change.context
          (plugin_index change)
          change.changed
        ≡ none
      → StrictCause outputs change.consumer_analyses change.changed change.strict_plugin_owners t
      → Cause change pkgbase_dir outputs t
  by_private_api :
      arch_trigger_for outputs change.consumer_analyses change.context
          (plugin_index change)
          change.changed
        ≡ none
      → PrivateCause outputs change.consumer_analyses (private_providers change) t
      → Cause change pkgbase_dir outputs t
  by_missed_break :
      arch_trigger_for outputs change.consumer_analyses change.context
          (plugin_index change)
          change.changed
        ≡ none
      → MissedCause change.database pkgbase_dir outputs change.consumer_analyses t
      → Cause change pkgbase_dir outputs t

trigger_for-Cause :
    (change : Change) (pkgbase_dir : Text) (outputs : List Package) {t : DetectedTrigger}
    → trigger_for change pkgbase_dir outputs ≡ some t
    → Cause change pkgbase_dir outputs t
unfolding trigger_for
trigger_for-Cause change pkgbase_dir outputs e = elim (or_try-cases _ _ e) [
  | inl h ↦ by_update (
      arch_trigger_for-ArchCause outputs change.consumer_analyses change.context
        (plugin_index change) change.changed h)
  | inr (no_update, e') ↦ elim (or_try-cases _ _ e') [
    | inl h ↦ by_strict_owner no_update (
        strict_owner_trigger_for-StrictCause outputs change.consumer_analyses change.changed
          change.strict_plugin_owners h)
    | inr (no_strict, e'') ↦ elim (or_try-cases _ _ e'') [
      | inl h ↦ by_private_api no_update (
          private_api_trigger_for-PrivateCause outputs change.consumer_analyses
            (private_providers change) h)
      | inr (no_private, h) ↦ by_missed_break no_update (
          missed_break_trigger_for-MissedCause change.database pkgbase_dir outputs
            change.consumer_analyses h)
    ]
  ]
]

-- A directory of the result with its outputs, its trigger and the cause of that.
pub record IsDetected (change : Change) (groups : List (Text × List Package)) (pkgbase_dir : Text)
    (dto : DetectedTriggerDto) : Type 0 where
  pub outputs : List Package
  pub trigger : DetectedTrigger
  pub listed : Memᴰ (pkgbase_dir, outputs) groups
  pub cause : Cause change pkgbase_dir outputs trigger
  pub sent : dto ≡ to_dto trigger

IsDetected-later :
    (change : Change) (row : Text × List Package) {groups : List (Text × List Package)} {key : Text}
    {dto : DetectedTriggerDto}
    → IsDetected change groups key dto
    → IsDetected change (row ∷ groups) key dto
IsDetected-later change row d = record {
  outputs = d.outputs;
  trigger = d.trigger;
  listed = Memᴰ.tail d.listed;
  cause = d.cause;
  sent = d.sent;
}

set_detected-get :
    (dir key : Text) (found : Option DetectedTrigger) (detected : Detected)
    {dto : DetectedTriggerDto}
    → get key (set_detected dir found detected) ≡ some dto
    → ((dir ≡ key) × ((t : DetectedTrigger) × ((found ≡ some t) × (to_dto t ≡ dto))))
      ⊎ (get key detected ≡ some dto)
set_detected-get dir key none detected e = inr e
set_detected-get dir key (some t) detected {dto} e = elim (Bool-cases (dir == key)) [
  | inl same ↦ inl (
    (text_eq.beq_iff dir key).0 same,
    (t, (refl, some-injective _ _ (ground (arith, get-put dir key (to_dto t) detected)))),
  )
  | inr other ↦ inr (ground (arith, get-put dir key (to_dto t) detected))
]

detect_groups-IsDetected :
    (change : Change) (detected : Detected) (groups : List (Text × List Package)) (key : Text)
    {dto : DetectedTriggerDto}
    → get key (detect_groups change detected groups) ≡ some dto
    → (get key detected ≡ some dto) ⊎ IsDetected change groups key dto
unfolding detect_groups
detect_groups-IsDetected change detected [] key e = inl e
detect_groups-IsDetected change detected ((dir, outputs) ∷ groups) key {dto} e =
    elim (detect_groups-IsDetected change
      (set_detected dir (trigger_for change dir outputs) detected) groups key e) [
        | inl now ↦ elim (set_detected-get dir key (trigger_for change dir outputs) detected now) [
          | inl (same, (t, (found, sent))) ↦ inr (
              subst (λ k. IsDetected change ((dir, outputs) ∷ groups) k dto) same
                (record {
                  outputs = outputs;
                  trigger = t;
                  listed = Memᴰ.head refl;
                  cause = trigger_for-Cause change dir outputs found;
                  sent = sym sent;
                }))
          | inr before ↦ inl before
        ]
        | inr later ↦ inr (IsDetected-later change (dir, outputs) later)
      ]

-- Each trigger of the result belongs to a directory of the repository and has a cause in the outputs
-- of that directory: broken dependencies or ABI breaks of an output by a changed package; or, only
-- where these trigger nothing, a new release of a strict owner whose plugin an output is, a private
-- interface that an output needs, or a break of an output that came after its scan, which nothing was
-- bumped for since, with its broken dependencies, a successor for one and somebody to blame.
pub detect_arch_triggers-IsDetected :
    (change : Change) (repo_outputs : List Package) (key : Text) {dto : DetectedTriggerDto}
    → get key (detect_arch_triggers change repo_outputs) ≡ some dto
    → IsDetected change (group_by_pkgbase repo_outputs) key dto
unfolding detect_arch_triggers
detect_arch_triggers-IsDetected change repo_outputs key e =
    elim (detect_groups-IsDetected change [] (group_by_pkgbase repo_outputs) key e) [
      | inl nothing ↦ absurd (none-ne-some _ nothing)
      | inr found ↦ found
    ]

set_detected-keeps :
    (dir key : Text) (found : Option DetectedTrigger) (detected : Detected)
    → is_some (get key detected) ≡ true
    → is_some (get key (set_detected dir found detected)) ≡ true
set_detected-keeps dir key none detected h = h
set_detected-keeps dir key (some t) detected h =
    ground (arith, get-put dir key (to_dto t) detected, h)

detect_groups-keeps :
    (change : Change) (detected : Detected) (groups : List (Text × List Package)) (key : Text)
    → is_some (get key detected) ≡ true
    → is_some (get key (detect_groups change detected groups)) ≡ true
unfolding detect_groups
detect_groups-keeps change detected [] key h = h
detect_groups-keeps change detected ((dir, outputs) ∷ groups) key h =
    detect_groups-keeps change (set_detected dir (trigger_for change dir outputs) detected) groups
      key (set_detected-keeps dir key (trigger_for change dir outputs) detected h)

set_detected-here :
    (dir : Text) (t : DetectedTrigger) (found : Option DetectedTrigger) (detected : Detected)
    → found ≡ some t
    → is_some (get dir (set_detected dir found detected)) ≡ true
set_detected-here dir t none detected e = absurd (none-ne-some _ e)
set_detected-here dir t (some u) detected e =
    rw (get-put dir dir (to_dto u) detected, eq_self dir) refl

-- A directory of the loop that has a trigger is in the result.
pub detect_groups_complete :
    (change : Change) (detected : Detected) (groups : List (Text × List Package)) (dir : Text)
    (outputs : List Package) (t : DetectedTrigger)
    → Memᴰ (dir, outputs) groups
    → trigger_for change dir outputs ≡ some t
    → is_some (get dir (detect_groups change detected groups)) ≡ true
unfolding detect_groups
detect_groups_complete change detected [] dir outputs t m e = absurd (Memᴰ.not-nil m)
detect_groups_complete change detected ((d, os) ∷ groups) dir outputs t (Memᴰ.head p) e =
    detect_groups-keeps change (set_detected d (trigger_for change d os) detected) groups dir (
      subst
        (λ row.
          is_some (get dir (set_detected row.0 (trigger_for change row.0 row.1) detected)) ≡ true)
        p (set_detected-here dir t (trigger_for change dir outputs) detected e))
detect_groups_complete change detected ((d, os) ∷ groups) dir outputs t (Memᴰ.tail m) e =
    detect_groups_complete change (set_detected d (trigger_for change d os) detected) groups dir
      outputs t m e
