-- ===== src/Scan/PluginBreaks.antt =====
-- ABI breaks of updated owners and the consumers that they hit: `ownerBreakEntry`,
-- `buildPluginBreakIndex`, `consumerSymbolBreaksFor` and `loadOwnerAnalysisPairs` of
-- backend/src/repo-manager/scan/trigger-detector.ts. The analyses that the database returns are
-- arguments.
pub mod Hits
pub mod Losses
use chaotic_next.Base.{
  ℕ, Bool, true, false, not, ◌&&◌, ◌||◌, Option, none, some, List, [], ◌∷◌, ◌++◌, map, Text, codes,
  text_eq, ◌==◌, has, is_empty, is_some, keep, find, or_else, flat_map, if◌then◌else◌,
}
use chaotic_next.Base.Map.{get, put}
use chaotic_next.Signal.Abi.{
  DriftedVtable, find_vtable_drifts, ConsumerAbiBreak, symbol_break, vtable_break,
}
use chaotic_next.Signal.Broken.{Nodes}
use chaotic_next.Signal.Owners.{encode_owner_key}
use chaotic_next.Scan.Baseline.{pick_baseline_version}
use chaotic_next.Scan.Records.{OwnerDescriptor, PackageElfAnalysis, truthy}
use chaotic_next.Scan.Attribution.{provides_library_family}

unfoldable pub universal_vtable_slots : List Text
universal_vtable_slots =
    codes "__cxa_pure_virtual"
    ∷ codes "__cxa_deleted_virtual"
    ∷ codes "__cxa_throw"
    ∷ codes "__cxa_rethrow"
    ∷ codes "__cxa_begin_catch"
    ∷ codes "__cxa_end_catch"
    ∷ codes "__gxx_personality_v0"
    ∷ codes "__cxa_guard_acquire"
    ∷ codes "__cxa_guard_release"
    ∷ codes "__cxa_guard_abort"
    ∷ codes "__cxa_allocate_exception"
    ∷ codes "__cxa_free_exception"
    ∷ codes "__cxa_get_exception_ptr"
    ∷ codes "_Unwind_Resume"
    ∷ codes "_Unwind_RaiseException"
    ∷ codes "_Unwind_DeleteException"
    ∷ codes "_Unwind_GetLanguageSpecificData"
    ∷ codes "_Unwind_ForcedUnwind"
    ∷ codes "_Unwind_Resume_or_Rethrow"
    ∷ []

pub record PluginBreakEntry : Type 0 where
  pub pkgname : Text
  pub pkg_id : ℕ
  pub soname : Text
  pub lost_symbols : List Text

pub record PluginBreakIndexEntry : Type 0 where
  pub pkgname : Text
  pub pkg_id : ℕ
  pub symbol_breaks : List PluginBreakEntry
  pub vtable_drifts : List DriftedVtable

abbrev pub lost_from : List Text → List Text → List Text
lost_from previous current = keep (λ symbol. not (has symbol current)) previous

abbrev push_loss :
    OwnerDescriptor → Text → List Text → List PluginBreakEntry → List PluginBreakEntry
push_loss owner soname lost rest =
    if is_empty lost
    then rest
    else record {
      pkgname = owner.pkgname;
      pkg_id = owner.pkg_id;
      soname = soname;
      lost_symbols = lost;
    }
      ∷ rest

-- One soname of the loop: one that the current version does not export any more is passed over.
abbrev pub loss_of :
    OwnerDescriptor
    → Text
    → List Text
    → Option (List Text)
    → List PluginBreakEntry
    → List PluginBreakEntry
loss_of owner soname previous none rest = rest
loss_of owner soname previous (some current) rest =
    push_loss owner soname (lost_from previous current) rest

unfoldable pub symbol_losses : OwnerDescriptor → Nodes → Nodes → List PluginBreakEntry
symbol_losses owner [] current = []
symbol_losses owner ((soname, symbols) ∷ previous) current =
    loss_of owner soname symbols (get soname current) (symbol_losses owner previous current)

unfoldable pub owner_break_entry :
    OwnerDescriptor → PackageElfAnalysis → PackageElfAnalysis → Option PluginBreakIndexEntry
unfolding symbol_losses find_vtable_drifts
owner_break_entry owner previous current =
    let breaks = symbol_losses owner previous.exported_symbols current.exported_symbols in
    let drifts = find_vtable_drifts previous.vtables current.vtables in
    if is_empty breaks && is_empty drifts
    then none
    else some (record {
      pkgname = owner.pkgname;
      pkg_id = owner.pkg_id;
      symbol_breaks = breaks;
      vtable_drifts = drifts;
    })

-- The previous and the current analysis of an owner.
pub record AnalysisPair : Type 0 where
  pub previous : Option PackageElfAnalysis
  pub current : Option PackageElfAnalysis

-- The analyses of one owner, by version, and the pair that is loaded for it.
unfoldable pub owner_analysis_pair : List PackageElfAnalysis → OwnerDescriptor → AnalysisPair
unfolding pick_baseline_version
owner_analysis_pair rows owner =
    let baseline =
      pick_baseline_version (map (λ row. row.version) rows) (or_else owner.previous_version [])
        (some owner.current_version) in
    record {
      previous = elim baseline [
        | none ↦ none
        | some version ↦
            if is_empty version then none else find (λ row. row.version == version) rows
      ];
      current = find (λ row. row.version == owner.current_version) rows;
    }

abbrev pub PluginBreakIndex : Type 0
PluginBreakIndex = List (Text × PluginBreakIndexEntry)

abbrev set_entry :
    OwnerDescriptor → Option PluginBreakIndexEntry → PluginBreakIndex → PluginBreakIndex
set_entry owner none index = index
set_entry owner (some entry) index = put (encode_owner_key owner.pkg_type owner.pkg_id) entry index

abbrev entry_of_pair :
    OwnerDescriptor
    → Option PackageElfAnalysis
    → Option PackageElfAnalysis
    → Option PluginBreakIndexEntry
entry_of_pair owner (some previous) (some current) = owner_break_entry owner previous current
entry_of_pair owner _ _ = none

-- The loop of `buildPluginBreakIndex` over the owners that have a previous version.
unfoldable pub index_owners :
    (OwnerDescriptor → List PackageElfAnalysis)
    → PluginBreakIndex
    → List OwnerDescriptor
    → PluginBreakIndex
unfolding owner_analysis_pair
index_owners rows_of index [] = index
index_owners rows_of index (owner ∷ owners) =
    let pair = owner_analysis_pair (rows_of owner) owner in
    index_owners rows_of (set_entry owner (entry_of_pair owner pair.previous pair.current) index)
      owners

unfoldable pub build_plugin_break_index :
    (OwnerDescriptor → List PackageElfAnalysis) → List OwnerDescriptor → PluginBreakIndex
unfolding index_owners
build_plugin_break_index rows_of changed =
    index_owners rows_of [] (keep (λ owner. truthy owner.previous_version) changed)

-- The lost symbols of an owner that the consumer imports.
unfoldable pub symbol_hits : PackageElfAnalysis → Bool → PluginBreakEntry → List ConsumerAbiBreak
unfolding provides_library_family
symbol_hits consumer is_plugin entry =
    if not is_plugin && not (has entry.soname consumer.needed_sonames)
    then []
    else if provides_library_family consumer entry.soname
    then []
    else map (λ symbol. symbol_break symbol entry.soname entry.pkgname entry.pkg_id)
        (keep (λ symbol. has symbol consumer.imported_symbols) entry.lost_symbols)

-- The shifted slots of a vtable that the consumer imports.
unfoldable pub slot_hits :
    PackageElfAnalysis → PluginBreakIndexEntry → DriftedVtable → List ConsumerAbiBreak
unfolding universal_vtable_slots
slot_hits consumer entry drift =
    map (λ slot. vtable_break slot drift.vtable entry.pkgname entry.pkg_id)
      (keep (λ slot. not (has slot universal_vtable_slots) && has slot consumer.imported_symbols)
        drift.shifted_slots)

unfoldable pub owner_hits :
    PackageElfAnalysis → Text × PluginBreakIndexEntry → List ConsumerAbiBreak
unfolding symbol_hits slot_hits
owner_hits consumer (owner_key, entry) =
    let is_plugin = has owner_key consumer.plugin_of in
    flat_map (symbol_hits consumer is_plugin) entry.symbol_breaks
    ++ (if is_plugin then flat_map (slot_hits consumer entry) entry.vtable_drifts else [])

unfoldable pub consumer_symbol_breaks_for :
    PackageElfAnalysis → PluginBreakIndex → List ConsumerAbiBreak
unfolding owner_hits
consumer_symbol_breaks_for consumer index = flat_map (owner_hits consumer) index
