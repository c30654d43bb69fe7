-- ===== src/Scan/PluginBreaks/Hits.antt =====
-- Which breaks of the updated owners hit a consumer.
use mathlib.Core.List.{Memᴰ}
use mathlib.Core.List.Memᴰ
use mathlib.Core.Path.{subst}
use chaotic_next.Base.{
  ◌≡◌, refl, sym, inl, inr, Bool, true, false, not, ◌&&◌, ◌||◌, Text, text_eq, has, flat_map, arith,
  has-mem, mem-has,
}
use chaotic_next.Base.Members.{
  unless-mem, when-mem, keep-mem, mem-keep, map-mem, mem-map, flat_map-mem, mem-flat_map,
}
use chaotic_next.Signal.Abi.{DriftedVtable, ConsumerAbiBreak, symbol_break, vtable_break}
use chaotic_next.Scan.Records.{PackageElfAnalysis}
use chaotic_next.Scan.Attribution.{provides_library_family}
use chaotic_next.Scan.PluginBreaks.{
  universal_vtable_slots, PluginBreakEntry, PluginBreakIndexEntry, PluginBreakIndex, symbol_hits,
  slot_hits, owner_hits, consumer_symbol_breaks_for,
}

-- Why an ABI break hits a consumer: it imports a lost symbol of a soname that it links or whose
-- owner it is a plugin of, and does not ship the library itself; or it is a plugin of the owner and
-- imports a shifted slot that is no slot of every C++ binary.
pub data IsHit (consumer : PackageElfAnalysis) (index : PluginBreakIndex)
    : ConsumerAbiBreak → Type 0 where
  symbol_hit :
      (owner_key symbol : Text) (owner : PluginBreakIndexEntry) (entry : PluginBreakEntry)
      → Memᴰ (owner_key, owner) index
      → Memᴰ entry owner.symbol_breaks
      → (has owner_key consumer.plugin_of || has entry.soname consumer.needed_sonames) ≡ true
      → provides_library_family consumer entry.soname ≡ false
      → has symbol entry.lost_symbols ≡ true
      → has symbol consumer.imported_symbols ≡ true
      → IsHit consumer index (symbol_break symbol entry.soname entry.pkgname entry.pkg_id)
  slot_hit :
      (owner_key slot : Text) (owner : PluginBreakIndexEntry) (drift : DriftedVtable)
      → Memᴰ (owner_key, owner) index
      → Memᴰ drift owner.vtable_drifts
      → has owner_key consumer.plugin_of ≡ true
      → has slot drift.shifted_slots ≡ true
      → has slot universal_vtable_slots ≡ false
      → has slot consumer.imported_symbols ≡ true
      → IsHit consumer index (vtable_break slot drift.vtable owner.pkgname owner.pkg_id)

special_and : (a b : Bool) → (not a && b) ≡ true → (a ≡ false) × (b ≡ true)
special_and true b h = cc
special_and false b h = (refl, h)

module _ (consumer : PackageElfAnalysis) (index : PluginBreakIndex) where
  symbol_hits-IsHit :
      (owner_key : Text) (owner : PluginBreakIndexEntry) (entry : PluginBreakEntry)
      {hit : ConsumerAbiBreak}
      → Memᴰ (owner_key, owner) index
      → Memᴰ entry owner.symbol_breaks
      → Memᴰ hit (symbol_hits consumer (has owner_key consumer.plugin_of) entry)
      → IsHit consumer index hit
  unfolding symbol_hits
  symbol_hits-IsHit owner_key owner entry {hit} in_index in_breaks m =
      let is_plugin = has owner_key consumer.plugin_of in
      let (linked, m') =
        unless-mem (not is_plugin && not (has entry.soname consumer.needed_sonames)) m in
      let (foreign, m'') = unless-mem (provides_library_family consumer entry.soname) m' in
      let (symbol, (kept, same)) = map-mem _ _ m'' in
      let (listed, ok) = keep-mem _ entry.lost_symbols kept in
      subst (IsHit consumer index) (sym same) (
        symbol_hit owner_key symbol owner entry in_index in_breaks (ground (arith, linked)) foreign
          (mem-has symbol entry.lost_symbols listed) ok)

  slot_hits-IsHit :
      (owner_key : Text) (owner : PluginBreakIndexEntry) (drift : DriftedVtable)
      {hit : ConsumerAbiBreak}
      → Memᴰ (owner_key, owner) index
      → Memᴰ drift owner.vtable_drifts
      → has owner_key consumer.plugin_of ≡ true
      → Memᴰ hit (slot_hits consumer owner drift)
      → IsHit consumer index hit
  unfolding slot_hits
  slot_hits-IsHit owner_key owner drift in_index in_drifts is_plugin m =
      let (slot, (kept, same)) = map-mem _ _ m in
      let (listed, ok) = keep-mem _ drift.shifted_slots kept in
      subst (IsHit consumer index) (sym same) (
        slot_hit owner_key slot owner drift in_index in_drifts is_plugin
          (mem-has slot drift.shifted_slots listed) (special_and _ _ ok).0 (special_and _ _ ok).1)

  owner_hits-IsHit :
      (owner_key : Text) (owner : PluginBreakIndexEntry) {hit : ConsumerAbiBreak}
      → Memᴰ (owner_key, owner) index
      → Memᴰ hit (owner_hits consumer (owner_key, owner))
      → IsHit consumer index hit
  unfolding owner_hits
  owner_hits-IsHit owner_key owner in_index m =
      let is_plugin = has owner_key consumer.plugin_of in
      elim (Memᴰ.append_cases (flat_map (symbol_hits consumer is_plugin) owner.symbol_breaks) m) [
        | inl n ↦
            let (entry, (in_breaks, h)) =
              flat_map-mem (symbol_hits consumer is_plugin) owner.symbol_breaks n in
            symbol_hits-IsHit owner_key owner entry in_index in_breaks h
        | inr n ↦
            let (plugin, n') = when-mem is_plugin n in
            let (drift, (in_drifts, h)) =
              flat_map-mem (slot_hits consumer owner) owner.vtable_drifts n' in
            slot_hits-IsHit owner_key owner drift in_index in_drifts plugin h
      ]

  -- Every break found for a consumer hits it: a lost symbol that it imports of a library that it
  -- links, or is a plugin of, and does not ship; or a shifted slot that it imports of an owner that it
  -- is a plugin of.
  pub consumer_symbol_breaks_for-IsHit :
      {hit : ConsumerAbiBreak}
      → Memᴰ hit (consumer_symbol_breaks_for consumer index)
      → IsHit consumer index hit
  unfolding consumer_symbol_breaks_for
  consumer_symbol_breaks_for-IsHit m =
      let ((owner_key, owner), (in_index, h)) = flat_map-mem (owner_hits consumer) index m in
      owner_hits-IsHit owner_key owner in_index h

  mem-symbol_hits :
      (is_plugin : Bool) (symbol : Text) (entry : PluginBreakEntry)
      → (is_plugin || has entry.soname consumer.needed_sonames) ≡ true
      → provides_library_family consumer entry.soname ≡ false
      → has symbol entry.lost_symbols ≡ true
      → has symbol consumer.imported_symbols ≡ true
      → Memᴰ
          (symbol_break symbol entry.soname entry.pkgname entry.pkg_id)
          (symbol_hits consumer is_plugin entry)
  unfolding symbol_hits
  mem-symbol_hits is_plugin symbol entry linked foreign lost imported =
      let reached : (not is_plugin && not (has entry.soname consumer.needed_sonames)) ≡ false =
        ground arith in
      rw (reached, foreign)
        (mem-map _ _ (
          mem-keep (λ s. has s consumer.imported_symbols) entry.lost_symbols
            (has-mem symbol entry.lost_symbols lost) imported))

  mem-slot_hits :
      (slot : Text) (owner : PluginBreakIndexEntry) (drift : DriftedVtable)
      → has slot drift.shifted_slots ≡ true
      → has slot universal_vtable_slots ≡ false
      → has slot consumer.imported_symbols ≡ true
      → Memᴰ
          (vtable_break slot drift.vtable owner.pkgname owner.pkg_id)
          (slot_hits consumer owner drift)
  unfolding slot_hits
  mem-slot_hits slot owner drift shifted special imported = mem-map _ _ (
      mem-keep (λ s. not (has s universal_vtable_slots) && has s consumer.imported_symbols)
        drift.shifted_slots (has-mem slot drift.shifted_slots shifted) (ground arith))

  -- Every break that hits a consumer is found.
  pub consumer_symbol_breaks_for_complete :
      {hit : ConsumerAbiBreak}
      → IsHit consumer index hit
      → Memᴰ hit (consumer_symbol_breaks_for consumer index)
  unfolding consumer_symbol_breaks_for owner_hits
  consumer_symbol_breaks_for_complete
        (symbol_hit owner_key symbol owner entry in_index in_breaks linked foreign lost imported) =
      let is_plugin = has owner_key consumer.plugin_of in
      mem-flat_map (owner_hits consumer) index in_index (
        Memᴰ.append_left _ (
          mem-flat_map (symbol_hits consumer is_plugin) owner.symbol_breaks in_breaks
            (mem-symbol_hits is_plugin symbol entry linked foreign lost imported)))
  consumer_symbol_breaks_for_complete
        (slot_hit owner_key slot owner drift in_index in_drifts plugin shifted special imported) =
      let is_plugin = has owner_key consumer.plugin_of in
      mem-flat_map (owner_hits consumer) index in_index (
        Memᴰ.append_right (flat_map (symbol_hits consumer is_plugin) owner.symbol_breaks) (
          rw plugin (
            mem-flat_map (slot_hits consumer owner) owner.vtable_drifts in_drifts
              (mem-slot_hits slot owner drift shifted special imported))))
