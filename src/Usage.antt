-- ===== src/Usage.antt =====
-- The resource usage of a build container: `usageFromStats`, `ContainerStatsCollector` and
-- `resourceStatsToUsage` of backend/src/portable-builder/container-usage.ts. What Docker leaves out is
-- `none`. The duration is a whole number of milliseconds.
pub mod Totals
mod Tests
use chaotic_next.Base.{
  ℕ, ◌+◌, ◌-◌, ◌*◌, ◌/◌, suc, max, Bool, true, false, Option, none, some, List, [], ◌∷◌, Text,
  text_eq, codes, ◌==◌, nat_eq, map, or_else, if◌then◌else◌,
}
use chaotic_next.Base.Search.{or_try}
use chaotic_next.DiffScan.Scopes.{lower_case}
use chaotic_next.Watchdog.{ContainerUsage}

-- The parts of Docker's statistics that are read.
pub record NetworkStats : Type 0 where
  pub rx_bytes : Option ℕ
  pub tx_bytes : Option ℕ

pub record BlkioEntry : Type 0 where
  pub op : Option Text
  pub value : Option ℕ

pub record MemoryStats : Type 0 where
  pub usage : Option ℕ
  pub inactive_file : Option ℕ
  pub total_inactive_file : Option ℕ

pub record ContainerStats : Type 0 where
  pub total_usage : Option ℕ
  pub memory_stats : Option MemoryStats
  pub networks : Option (List NetworkStats)
  pub io_service_bytes_recursive : Option (List BlkioEntry)
  pub pids_current : Option ℕ

-- `Math.max(0, usage - inactiveFile)`: the subtraction stops at 0.
abbrev pub memory_of : MemoryStats → ℕ
memory_of stats =
    or_else stats.usage 0 - or_else (or_try stats.inactive_file stats.total_inactive_file) 0

unfoldable pub calculate_memory_usage : Option MemoryStats → ℕ
calculate_memory_usage none = 0
calculate_memory_usage (some stats) = memory_of stats

unfoldable pub sum_network_bytes : (NetworkStats → Option ℕ) → ℕ → List NetworkStats → ℕ
sum_network_bytes field total [] = total
sum_network_bytes field total (stats ∷ rest) =
    sum_network_bytes field (total + or_else (field stats) 0) rest

abbrev is_op : Text → Option Text → Bool
is_op op none = false
is_op op (some found) = lower_case found == op

unfoldable pub sum_blkio_bytes : Text → ℕ → List BlkioEntry → ℕ
sum_blkio_bytes op total [] = total
sum_blkio_bytes op total (entry ∷ rest) =
    sum_blkio_bytes op (if is_op op entry.op then total + or_else entry.value 0 else total) rest

unfoldable pub usage_from_stats : ContainerStats → ContainerUsage
unfolding calculate_memory_usage sum_network_bytes sum_blkio_bytes
usage_from_stats stats = record {
  cpu_accumulated_ns = or_else stats.total_usage 0;
  memory_bytes = calculate_memory_usage stats.memory_stats;
  network_rx_bytes =
      sum_network_bytes (λ (n : NetworkStats). n.rx_bytes) 0 (or_else stats.networks []);
  network_tx_bytes =
      sum_network_bytes (λ (n : NetworkStats). n.tx_bytes) 0 (or_else stats.networks []);
  disk_read_bytes = sum_blkio_bytes (codes "read") 0 (or_else stats.io_service_bytes_recursive []);
  disk_write_bytes =
      sum_blkio_bytes (codes "write") 0 (or_else stats.io_service_bytes_recursive []);
  pids_current = or_else stats.pids_current 0;
}

pub record ContainerStatsCollector : Type 0 where
  pub memory_sum_bytes : ℕ
  pub sample_count : ℕ
  pub peak_memory_bytes : ℕ
  pub peak_pids : ℕ
  pub last_sample : Option ContainerUsage

abbrev pub new_collector : ContainerStatsCollector
new_collector = record {
  memory_sum_bytes = 0;
  sample_count = 0;
  peak_memory_bytes = 0;
  peak_pids = 0;
  last_sample = none;
}

unfoldable pub add_sample : ContainerUsage → ContainerStatsCollector → ContainerStatsCollector
add_sample usage collector = record {
  memory_sum_bytes = collector.memory_sum_bytes + usage.memory_bytes;
  sample_count = collector.sample_count + 1;
  peak_memory_bytes = max collector.peak_memory_bytes usage.memory_bytes;
  peak_pids = max collector.peak_pids usage.pids_current;
  last_sample = some usage;
}

unfoldable pub add_samples : ContainerStatsCollector → List ContainerUsage → ContainerStatsCollector
unfolding add_sample
add_samples collector [] = collector
add_samples collector (usage ∷ usages) = add_samples (add_sample usage collector) usages

pub record BuildResourceStats : Type 0 where
  pub avg_memory_bytes : ℕ
  pub cpu_time_ns : ℕ
  pub disk_read_bytes : ℕ
  pub disk_write_bytes : ℕ
  pub duration_ms : ℕ
  pub network_rx_bytes : ℕ
  pub network_tx_bytes : ℕ
  pub peak_memory_bytes : ℕ
  pub peak_pids : ℕ
  pub sample_count : ℕ

-- `Math.round(a / b)` of whole numbers: half is rounded up.
abbrev pub round_div : ℕ → ℕ → ℕ
round_div a b = (2 * a + b) / (2 * b)

abbrev pub stats_after :
    ℕ → ContainerStatsCollector → Option ContainerUsage → Option BuildResourceStats
stats_after duration_ms collector none = none
stats_after duration_ms collector (some last) =
    if collector.sample_count == 0
    then none
    else some (record {
      avg_memory_bytes = round_div collector.memory_sum_bytes collector.sample_count;
      cpu_time_ns = last.cpu_accumulated_ns;
      disk_read_bytes = last.disk_read_bytes;
      disk_write_bytes = last.disk_write_bytes;
      duration_ms = duration_ms;
      network_rx_bytes = last.network_rx_bytes;
      network_tx_bytes = last.network_tx_bytes;
      peak_memory_bytes = collector.peak_memory_bytes;
      peak_pids = collector.peak_pids;
      sample_count = collector.sample_count;
    })

unfoldable pub get_stats : ℕ → ContainerStatsCollector → Option BuildResourceStats
get_stats duration_ms collector = stats_after duration_ms collector collector.last_sample

unfoldable pub resource_stats_to_usage : BuildResourceStats → ContainerUsage
resource_stats_to_usage stats = record {
  cpu_accumulated_ns = stats.cpu_time_ns;
  memory_bytes = stats.peak_memory_bytes;
  network_rx_bytes = stats.network_rx_bytes;
  network_tx_bytes = stats.network_tx_bytes;
  disk_read_bytes = stats.disk_read_bytes;
  disk_write_bytes = stats.disk_write_bytes;
  pids_current = stats.peak_pids;
}
