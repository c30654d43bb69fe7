-- ===== src/Usage/Tests.antt =====
-- Runs of the collector at concrete inputs.
use chaotic_next.Base.{ℕ, ◌≡◌, ◌≤◌, refl, some, none, codes, [], ◌∷◌, List, length, All}
use chaotic_next.Watchdog.{ContainerUsage}
use chaotic_next.Usage.{
  add_samples, new_collector, get_stats, BuildResourceStats, usage_from_stats,
  resource_stats_to_usage,
}
use chaotic_next.Usage.Totals.{get_stats-IsCovered, IsCovered}

abbrev sample : ℕ → ℕ → ContainerUsage
sample memory pids = record {
  cpu_accumulated_ns = 5;
  memory_bytes = memory;
  network_rx_bytes = 1;
  network_tx_bytes = 2;
  disk_read_bytes = 3;
  disk_write_bytes = 4;
  pids_current = pids;
}

abbrev samples : List ContainerUsage
samples = sample 10 2 ∷ sample 15 1 ∷ []

abbrev totals : BuildResourceStats
totals = record {
  avg_memory_bytes = 13;
  cpu_time_ns = 5;
  disk_read_bytes = 3;
  disk_write_bytes = 4;
  duration_ms = 100;
  network_rx_bytes = 1;
  network_tx_bytes = 2;
  peak_memory_bytes = 15;
  peak_pids = 2;
  sample_count = 2;
}

get_stats-samples : get_stats 100 (add_samples new_collector samples) ≡ some totals
unfolding get_stats add_samples
get_stats-samples = refl

resource_stats_to_usage-totals : resource_stats_to_usage totals ≡ sample 15 2
unfolding resource_stats_to_usage
resource_stats_to_usage-totals = refl

usage_from_stats-memory :
    usage_from_stats (record {
      total_usage = some 5;
      memory_stats =
          some (record { usage = some 20; inactive_file = none; total_inactive_file = some 5 });
      networks = some (
          record { rx_bytes = some 1; tx_bytes = none }
          ∷ record { rx_bytes = none; tx_bytes = some 2 }
          ∷ []);
      io_service_bytes_recursive = some (
          record { op = some (codes "Read"); value = some 3 }
          ∷ record { op = some (codes "write"); value = some 4 }
          ∷ record { op = none; value = some 9 }
          ∷ []);
      pids_current = some 2;
    })
    ≡ sample 15 2
unfolding usage_from_stats
usage_from_stats-memory = refl

get_stats-IsCovered_example :
    (totals.sample_count ≡ length samples)
    × All (IsCovered totals.peak_memory_bytes totals.peak_pids) samples
    × (totals.avg_memory_bytes ≤ totals.peak_memory_bytes)
get_stats-IsCovered_example = get_stats-IsCovered 100 samples totals get_stats-samples
