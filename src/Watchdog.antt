-- ===== src/Watchdog.antt =====
-- The activity watchdog of a build container: `ContainerActivityWatchdog` of
-- backend/src/portable-builder/container-activity-watchdog.ts, with `hasUsageChanged` of
-- backend/src/portable-builder/container-usage.ts. A probe awaits a sample, so what happens in between
-- is an event of its own: the sample, or its failure, arrives at a time.
pub mod Timeouts
pub mod Idle
mod Tests
use chaotic_next.Base.{
  ℕ, ◌+◌, ◌*◌, ltb, leb, Bool, true, false, not, ◌&&◌, ◌||◌, Option, none, some, List, [], ◌∷◌,
  ◌++◌, if◌then◌else◌,
}

pub record ContainerUsage : Type 0 where
  pub cpu_accumulated_ns : ℕ
  pub memory_bytes : ℕ
  pub network_rx_bytes : ℕ
  pub network_tx_bytes : ℕ
  pub disk_read_bytes : ℕ
  pub disk_write_bytes : ℕ
  pub pids_current : ℕ

pub record ContainerActivityThresholds : Type 0 where
  pub network_bytes : ℕ
  pub memory_bytes : ℕ

abbrev pub default_activity_thresholds : ContainerActivityThresholds
default_activity_thresholds = record { network_bytes = 64 * 1024; memory_bytes = 1024 * 1024 }

-- `current - previous >= threshold`, which is false where the counter went down.
abbrev grew_by : ℕ → ℕ → ℕ → Bool
grew_by threshold previous current = leb (previous + threshold) current

unfoldable pub has_usage_changed :
    ContainerUsage → ContainerUsage → ContainerActivityThresholds → Bool
has_usage_changed previous current thresholds =
    ltb previous.cpu_accumulated_ns current.cpu_accumulated_ns
    || (grew_by thresholds.memory_bytes previous.memory_bytes current.memory_bytes
        || (grew_by thresholds.network_bytes previous.network_rx_bytes current.network_rx_bytes
            || grew_by thresholds.network_bytes previous.network_tx_bytes current.network_tx_bytes))

pub record Watchdog : Type 0 where
  pub idle_timeout_ms : ℕ
  pub timer : Bool
  pub last_active_usage : Option ContainerUsage
  pub last_activity_at : ℕ
  pub probe_in_flight : Bool
  pub stopped : Bool

unfoldable pub new_watchdog : ℕ → ℕ → Watchdog
new_watchdog idle_timeout_ms now = record {
  idle_timeout_ms = idle_timeout_ms;
  timer = false;
  last_active_usage = none;
  last_activity_at = now;
  probe_in_flight = false;
  stopped = false;
}

-- What happens to a watchdog. `sample` is the end of `getUsage`, with the time and the usage, or
-- nothing where sampling failed.
pub data Event : Type 0 where
  start tick stop : Event
  sample : ℕ → Option ContainerUsage → Event

-- The callbacks that are called.
pub data Call : Type 0 where
  on_sample on_timeout : ContainerUsage → Call

-- `probe` up to its `await`.
unfoldable pub probe : Watchdog → Watchdog
probe w = if w.stopped || w.probe_in_flight then w else record w { probe_in_flight = true }

unfoldable pub stop_watchdog : Watchdog → Watchdog
stop_watchdog w = record w { stopped = true; timer = false }

-- The idle evaluation of a sample.
abbrev active : Watchdog → ℕ → ContainerUsage → Watchdog
active w now usage = record w { last_active_usage = some usage; last_activity_at = now }

abbrev pub is_active : Option ContainerUsage → ContainerUsage → Bool
is_active none usage = true
is_active (some last) usage = has_usage_changed last usage default_activity_thresholds

unfoldable pub evaluate : Watchdog → ℕ → ContainerUsage → Watchdog × List Call
unfolding has_usage_changed
evaluate w now usage =
    if is_active w.last_active_usage usage
    then (active w now usage, [])
    else if leb (w.last_activity_at + w.idle_timeout_ms) now
    then (stop_watchdog w, on_timeout usage ∷ [])
    else (w, [])

-- `probe` from its `await` on; `finally` takes the flag back.
unfoldable pub finish_probe : Watchdog → ℕ → Option ContainerUsage → Watchdog × List Call
unfolding evaluate
finish_probe w now none = (record w { probe_in_flight = false }, [])
finish_probe w now (some usage) =
    let (after, calls) = evaluate w now usage in
    if w.stopped
    then (record w { probe_in_flight = false }, [])
    else (record after { probe_in_flight = false }, on_sample usage ∷ calls)

-- A tick comes only while the timer is set, and a sample only for a probe in flight.
unfoldable pub step : Watchdog → Event → Watchdog × List Call
unfolding probe finish_probe stop_watchdog
step w start = (record (probe w) { timer = true }, [])
step w tick = if w.timer then (probe w, []) else (w, [])
step w stop = (stop_watchdog w, [])
step w (sample now usage) = if w.probe_in_flight then finish_probe w now usage else (w, [])

unfoldable pub run : Watchdog → List Event → Watchdog × List Call
unfolding step
run w [] = (w, [])
run w (event ∷ events) =
    let next = step w event in let rest = run next.0 events in (rest.0, next.1 ++ rest.1)
