-- ===== src/Watchdog/Timeouts.antt =====
-- When and how often a watchdog times out.
use chaotic_next.Base.{
  ℕ, ◌+◌, ◌≤◌, ◌≡◌, refl, inl, inr, ◌⊎◌, true, false, none, some, List, [], ◌∷◌, ◌++◌, arith,
}
use chaotic_next.Watchdog.{
  ContainerUsage, Watchdog, Event, start, tick, stop, sample, Call, on_sample, on_timeout, probe,
  stop_watchdog, is_active, evaluate, finish_probe, step, run,
}

abbrev pub timeouts : List Call → ℕ
timeouts [] = 0
timeouts (on_sample usage ∷ calls) = timeouts calls
timeouts (on_timeout usage ∷ calls) = 1 + timeouts calls

timeouts-append : (a b : List Call) → timeouts (a ++ b) ≡ timeouts a + timeouts b
timeouts-append [] b = ground arith
timeouts-append (on_sample u ∷ a) b = timeouts-append a b
timeouts-append (on_timeout u ∷ a) b = ground (arith, timeouts-append a b)

-- A stopped watchdog stays so and calls nothing.
step-stopped :
    (w : Watchdog) (event : Event)
    → w.stopped ≡ true
    → ((step w event).0.stopped ≡ true) × (timeouts (step w event).1 ≡ 0)
unfolding step probe finish_probe stop_watchdog
step-stopped w start h = (ground arith, ground arith)
step-stopped w tick h = (ground arith, ground arith)
step-stopped w stop h = (refl, refl)
step-stopped w (sample now none) h = (ground arith, ground arith)
step-stopped w (sample now (some usage)) h = (ground arith, ground arith)

-- A step calls the timeout once at most, and stops the watchdog with it.
step-timeouts :
    (w : Watchdog) (event : Event)
    → (timeouts (step w event).1 ≡ 0)
      ⊎ ((timeouts (step w event).1 ≡ 1) × ((step w event).0.stopped ≡ true))
unfolding step probe finish_probe evaluate stop_watchdog
step-timeouts w start = inl refl
step-timeouts w tick = ground arith
step-timeouts w stop = inl refl
step-timeouts w (sample now none) = ground arith
step-timeouts w (sample now (some usage)) = ground arith

run-stopped :
    (w : Watchdog) (events : List Event) → w.stopped ≡ true → timeouts (run w events).1 ≡ 0
unfolding run
run-stopped w [] h = refl
run-stopped w (event ∷ events) h =
    let (still, quiet) = step-stopped w event h in
    ground (
      arith,
      timeouts-append (step w event).1 (run (step w event).0 events).1,
      run-stopped (step w event).0 events still,
      quiet,
    )

-- Whatever happens to a watchdog, in whatever order, it calls the timeout once at most.
pub run-timeouts : (w : Watchdog) (events : List Event) → timeouts (run w events).1 ≤ 1
unfolding run
run-timeouts w [] = omega arith
run-timeouts w (event ∷ events) = elim (step-timeouts w event) [
  | inl none_yet ↦ ground (
    arith,
    timeouts-append (step w event).1 (run (step w event).0 events).1,
    run-timeouts (step w event).0 events,
    none_yet,
  )
  | inr (one, stops) ↦ ground (
    arith,
    timeouts-append (step w event).1 (run (step w event).0 events).1,
    run-stopped (step w event).0 events stops,
    one,
  )
]

-- What a watchdog that times out at a sample has recorded: it runs and waits for the sample, the sample
-- shows no activity since the recorded usage, and the idle time has passed since the recorded time.
pub record IsIdle (w : Watchdog) (now : ℕ) (usage : ContainerUsage) : Type 0 where
  pub in_flight : w.probe_in_flight ≡ true
  pub running : w.stopped ≡ false
  pub inactive : is_active w.last_active_usage usage ≡ false
  pub waited : w.last_activity_at + w.idle_timeout_ms ≤ now

-- A step calls the timeout only in such a state.
pub step-IsIdle :
    (w : Watchdog) (now : ℕ) (usage : ContainerUsage)
    → timeouts (step w (sample now (some usage))).1 ≡ 1
    → IsIdle w now usage
unfolding step finish_probe evaluate
step-IsIdle w now usage h = record {
  in_flight = ground arith;
  running = ground arith;
  inactive = ground arith;
  waited = ground arith;
}
