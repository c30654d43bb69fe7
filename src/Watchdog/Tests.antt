-- ===== src/Watchdog/Tests.antt =====
-- A container that does nothing for the idle time.
use chaotic_next.Base.{◌≡◌, ◌≤◌, refl, some, List, [], ◌∷◌}
use chaotic_next.Watchdog.{
  ContainerUsage, Event, start, tick, sample, on_sample, on_timeout, new_watchdog, probe,
  stop_watchdog, evaluate, finish_probe, has_usage_changed, step, run,
}
use chaotic_next.Watchdog.Timeouts.{timeouts, run-timeouts}
use chaotic_next.Watchdog.Idle.{received, WasIdle, run-WasIdle}

abbrev quiet : ContainerUsage
quiet = record {
  cpu_accumulated_ns = 7;
  memory_bytes = 100;
  network_rx_bytes = 0;
  network_tx_bytes = 0;
  disk_read_bytes = 0;
  disk_write_bytes = 0;
  pids_current = 1;
}

abbrev idle_run : List Event
idle_run =
    start
    ∷ sample 10 (some quiet)
    ∷ tick
    ∷ sample 60 (some quiet)
    ∷ tick
    ∷ sample 99 (some quiet)
    ∷ []

idle_run-calls :
    (run (new_watchdog 50 0) idle_run).1 ≡ on_sample quiet ∷ on_sample quiet ∷ on_timeout quiet ∷ []
unfolding run step probe finish_probe evaluate has_usage_changed stop_watchdog new_watchdog
idle_run-calls = refl

run-timeouts_example : timeouts (run (new_watchdog 50 0) idle_run).1 ≤ 1
run-timeouts_example = run-timeouts (new_watchdog 50 0) idle_run

-- The container works for a while before it goes quiet.
abbrev busy_run : List Event
busy_run =
    start
    ∷ sample 10 (some (record quiet { cpu_accumulated_ns = 3 }))
    ∷ tick
    ∷ sample 40 (some quiet)
    ∷ tick
    ∷ sample 80 (some quiet)
    ∷ tick
    ∷ []

busy_run-times_out :
    timeouts (step (run (new_watchdog 50 0) busy_run).0 (sample 90 (some quiet))).1 ≡ 1
unfolding run step probe finish_probe evaluate has_usage_changed stop_watchdog new_watchdog
busy_run-times_out = refl

run-WasIdle_example : WasIdle 50 (received (new_watchdog 50 0) busy_run) 90 quiet
run-WasIdle_example = run-WasIdle 50 0 busy_run 90 quiet busy_run-times_out
