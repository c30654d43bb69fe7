-- ===== src/Usage/Totals.antt =====
-- What the collected statistics say of the samples.
use mathlib.Core.Option.{some-injective, none-ne-some}
use chaotic_next.Base.{
  ℕ, ◌+◌, ◌*◌, ◌≤◌, ◌<◌, ◌≡◌, refl, ap, sym, Option, none, some, List, [], ◌∷◌, length, All, arith,
  Bool-cases, inl, inr, nat_eq, ◌==◌,
}
use chaotic_next.Watchdog.{ContainerUsage}
use chaotic_next.Usage.{
  ContainerStatsCollector, new_collector, add_sample, add_samples, BuildResourceStats, round_div,
  stats_after, get_stats,
}

-- A rounded mean of numbers that add up to at most `n` times a bound is at most the bound.
round_div-le : (a n bound : ℕ) → 0 < n → a ≤ n * bound → round_div a n ≤ bound
round_div-le a n bound h le = grind arith

-- What the collector holds after some samples.
record IsCollected (samples : ℕ) (c : ContainerStatsCollector) : Type 0 where
  counted : c.sample_count ≡ samples
  limited : c.memory_sum_bytes ≤ c.sample_count * c.peak_memory_bytes

abbrev pub IsCovered : ℕ → ℕ → ContainerUsage → Type 0
IsCovered memory pids usage = (usage.memory_bytes ≤ memory) × (usage.pids_current ≤ pids)

abbrev IsAtLeast : ContainerStatsCollector → ContainerStatsCollector → Type 0
IsAtLeast c d = (c.peak_memory_bytes ≤ d.peak_memory_bytes) × (c.peak_pids ≤ d.peak_pids)

add_sample-IsCollected :
    (n : ℕ) (usage : ContainerUsage) (c : ContainerStatsCollector)
    → IsCollected n c
    → IsCollected (n + 1) (add_sample usage c)
unfolding add_sample
add_sample-IsCollected n usage c v = record { counted = omega arith; limited = grind arith }

add_samples-IsCollected :
    (samples : List ContainerUsage) (n : ℕ) (c : ContainerStatsCollector)
    → IsCollected n c
    → IsCollected (n + length samples) (add_samples c samples)
unfolding add_samples
add_samples-IsCollected [] n c v = record {
  counted = omega (arith, v.counted);
  limited = v.limited;
}
add_samples-IsCollected (usage ∷ samples) n c v =
    let later =
      add_samples-IsCollected samples (n + 1) (add_sample usage c)
        (add_sample-IsCollected n usage c v) in
    record { counted = omega (arith, later.counted); limited = later.limited }

-- The peaks never fall.
add_samples-peaks :
    (samples : List ContainerUsage) (c : ContainerStatsCollector)
    → IsAtLeast c (add_samples c samples)
unfolding add_samples add_sample
add_samples-peaks [] c = (omega arith, omega arith)
add_samples-peaks (usage ∷ samples) c =
    let later = add_samples-peaks samples (add_sample usage c) in (ground arith, ground arith)

add_samples-IsCovered :
    (samples : List ContainerUsage) (c : ContainerStatsCollector)
    → All
        (IsCovered (add_samples c samples).peak_memory_bytes (add_samples c samples).peak_pids)
        samples
unfolding add_samples add_sample
add_samples-IsCovered [] c = tt
add_samples-IsCovered (usage ∷ samples) c =
    let later = add_samples-peaks samples (add_sample usage c) in
    ((ground arith, ground arith), add_samples-IsCovered samples (add_sample usage c))

stats_after-some :
    (duration_ms : ℕ) (c : ContainerStatsCollector) (last : Option ContainerUsage)
    {stats : BuildResourceStats}
    → stats_after duration_ms c last ≡ some stats
    → (0 < c.sample_count)
      × (stats.sample_count ≡ c.sample_count)
      × (stats.peak_memory_bytes ≡ c.peak_memory_bytes)
      × (stats.peak_pids ≡ c.peak_pids)
      × (stats.avg_memory_bytes ≡ round_div c.memory_sum_bytes c.sample_count)
stats_after-some duration_ms c none e = absurd (none-ne-some _ e)
stats_after-some duration_ms c (some last) {stats} e = elim (Bool-cases (c.sample_count == 0)) [
  | inl empty ↦ absurd (none-ne-some _ (rw empty at e))
  | inr full ↦
      let same = some-injective _ _ (rw full at e) in
      (
        ground arith,
        ap (λ (s : BuildResourceStats). s.sample_count) (sym same),
        ap (λ (s : BuildResourceStats). s.peak_memory_bytes) (sym same),
        ap (λ (s : BuildResourceStats). s.peak_pids) (sym same),
        ap (λ (s : BuildResourceStats). s.avg_memory_bytes) (sym same),
      )
]

-- The statistics of some samples count all of them, no sample has more memory or processes than the
-- peaks, and the mean of the memory is at most its peak.
pub get_stats-IsCovered :
    (duration_ms : ℕ) (samples : List ContainerUsage) (stats : BuildResourceStats)
    → get_stats duration_ms (add_samples new_collector samples) ≡ some stats
    → (stats.sample_count ≡ length samples)
      × All (IsCovered stats.peak_memory_bytes stats.peak_pids) samples
      × (stats.avg_memory_bytes ≤ stats.peak_memory_bytes)
unfolding get_stats
get_stats-IsCovered duration_ms samples stats e =
    let c = add_samples new_collector samples in
    let (pos, count, peak, pids, avg) = stats_after-some duration_ms c c.last_sample e in
    let v =
      add_samples-IsCollected samples 0 new_collector
        (record { counted = refl; limited = omega arith }) in
    (
      omega (arith, count, v.counted),
      rw (peak, pids) (add_samples-IsCovered samples new_collector),
      rw (peak, avg)
          (round_div-le c.memory_sum_bytes c.sample_count c.peak_memory_bytes pos v.limited),
    )
