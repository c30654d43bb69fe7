-- ===== src/Watchdog/Idle.antt =====
-- What a container did before its watchdog timed out.
use chaotic_next.Base.{
  ℕ, ◌+◌, ◌≤◌, ◌≡◌, refl, sym, ap, ◌∙◌, inl, inr, false, not, ◌&&◌, Option, none, some, List, [],
  ◌∷◌, ◌++◌, All, All-append, if◌then◌else◌, arith, Bool-cases,
}
use mathlib.Core.List.{append_assoc, append-nil}
use mathlib.Core.Path.{subst}
use mathlib.Core.Bool.{true≢false}
use mathlib.Core.Option.{some-injective, none-ne-some}
use chaotic_next.Watchdog.{
  ContainerUsage, Watchdog, Event, start, tick, stop, sample, has_usage_changed,
  default_activity_thresholds, new_watchdog, probe, stop_watchdog, is_active, evaluate,
  finish_probe, step, run,
}
use chaotic_next.Watchdog.Timeouts.{timeouts, IsIdle, step-IsIdle}

abbrev pub Sample : Type 0
Sample = ℕ × ContainerUsage

-- The usage does not show activity since the earlier one.
abbrev pub IsQuietSince : ContainerUsage → Sample → Type 0
IsQuietSince base s = has_usage_changed base s.1 default_activity_thresholds ≡ false

-- The samples that a running watchdog waited for, in their order.
abbrev pub received_at : Watchdog → Event → List Sample
received_at w (sample now (some usage)) =
    if w.probe_in_flight && not w.stopped then (now, usage) ∷ [] else []
received_at w _ = []

unfoldable pub received : Watchdog → List Event → List Sample
unfolding step
received w [] = []
received w (event ∷ events) = received_at w event ++ received (step w event).0 events

-- One of the samples, with its time and its usage, and only quiet samples after it.
pub record IsBaseline (samples : List Sample) (at : ℕ) (base : ContainerUsage) : Type 0 where
  pub earlier : List Sample
  pub later : List Sample
  pub split : samples ≡ earlier ++ (at, base) ∷ later
  pub quiet : All (IsQuietSince base) later

-- The last active usage of a watchdog is that of a sample, and the later ones were quiet.
abbrev KeepsBaseline : Watchdog → List Sample → Type 0
KeepsBaseline w samples =
    (base : ContainerUsage)
    → w.last_active_usage ≡ some base
    → IsBaseline samples w.last_activity_at base

newest-IsBaseline :
    (samples : List Sample) (at : ℕ) (base : ContainerUsage)
    → IsBaseline (samples ++ (at, base) ∷ []) at base
newest-IsBaseline samples at base = record {
  earlier = samples;
  later = [];
  split = refl;
  quiet = tt;
}

quiet-IsBaseline :
    (samples : List Sample) (at : ℕ) (base : ContainerUsage) (s : Sample)
    → IsQuietSince base s
    → IsBaseline samples at base
    → IsBaseline (samples ++ s ∷ []) at base
quiet-IsBaseline samples at base s q b = record {
  earlier = b.earlier;
  later = b.later ++ s ∷ [];
  split = ap (λ l. l ++ s ∷ []) b.split ∙ append_assoc b.earlier ((at, base) ∷ b.later) (s ∷ []);
  quiet = All-append (IsQuietSince base) b.later (s ∷ []) b.quiet (q, tt);
}

unchanged-KeepsBaseline :
    (w after : Watchdog) (samples added : List Sample)
    → after.last_active_usage ≡ w.last_active_usage
    → after.last_activity_at ≡ w.last_activity_at
    → added ≡ []
    → KeepsBaseline w samples
    → KeepsBaseline after (samples ++ added)
unchanged-KeepsBaseline w after samples added usage time nothing h base e =
    rw (nothing, append-nil samples, time) (h base (sym usage ∙ e))

active-KeepsBaseline :
    (w after : Watchdog) (samples : List Sample) (now : ℕ) (usage : ContainerUsage)
    → after.last_active_usage ≡ some usage
    → after.last_activity_at ≡ now
    → KeepsBaseline after (samples ++ (now, usage) ∷ [])
active-KeepsBaseline w after samples now usage u t base e =
    let same : usage ≡ base = some-injective _ _ (sym u ∙ e) in
    subst (λ b. IsBaseline (samples ++ (now, usage) ∷ []) after.last_activity_at b) same
      (subst (λ at. IsBaseline (samples ++ (now, usage) ∷ []) at usage) (sym t)
        (newest-IsBaseline samples now usage))

quiet-KeepsBaseline :
    (w after : Watchdog) (samples : List Sample) (now : ℕ) (usage : ContainerUsage)
    → is_active w.last_active_usage usage ≡ false
    → after.last_active_usage ≡ w.last_active_usage
    → after.last_activity_at ≡ w.last_activity_at
    → KeepsBaseline w samples
    → KeepsBaseline after (samples ++ (now, usage) ∷ [])
quiet-KeepsBaseline w after samples now usage calm u t h base e =
    let known : w.last_active_usage ≡ some base = sym u ∙ e in
    rw t (
      quiet-IsBaseline samples w.last_activity_at base (now, usage) (rw known at calm)
        (h base known))

-- What a step leaves of the last activity: all of it, the sample if that was active, and all of it
-- if the sample was quiet.
step-KeepsBaseline :
    (w : Watchdog) (event : Event) (samples : List Sample)
    → KeepsBaseline w samples
    → KeepsBaseline (step w event).0 (samples ++ received_at w event)
unfolding step probe finish_probe evaluate stop_watchdog
step-KeepsBaseline w start samples h =
    unchanged-KeepsBaseline w (step w start).0 samples [] (ground arith) (ground arith) refl h
step-KeepsBaseline w tick samples h =
    unchanged-KeepsBaseline w (step w tick).0 samples [] (ground arith) (ground arith) refl h
step-KeepsBaseline w stop samples h =
    unchanged-KeepsBaseline w (step w stop).0 samples [] refl refl refl h
step-KeepsBaseline w (sample now none) samples h =
    unchanged-KeepsBaseline w (step w (sample now none)).0 samples [] (ground arith) (ground arith)
      refl h
step-KeepsBaseline w (sample now (some usage)) samples h =
    elim (Bool-cases (w.probe_in_flight && not w.stopped)) [
      | inr lost ↦
          unchanged-KeepsBaseline w (step w (sample now (some usage))).0 samples _ (ground arith)
            (ground arith) (rw lost refl) h
      | inl got ↦ rw got (elim (Bool-cases (is_active w.last_active_usage usage)) [
        | inl busy ↦
            active-KeepsBaseline w (step w (sample now (some usage))).0 samples now usage
              (ground arith) (ground arith)
        | inr calm ↦
            quiet-KeepsBaseline w (step w (sample now (some usage))).0 samples now usage calm
              (ground arith) (ground arith) h
      ])
    ]

run-KeepsBaseline :
    (w : Watchdog) (events : List Event) (samples : List Sample)
    → KeepsBaseline w samples
    → KeepsBaseline (run w events).0 (samples ++ received w events)
unfolding run received
run-KeepsBaseline w [] samples h = rw (append-nil samples) h
run-KeepsBaseline w (event ∷ events) samples h =
    subst (KeepsBaseline (run (step w event).0 events).0)
      (append_assoc samples (received_at w event) (received (step w event).0 events))
      (run-KeepsBaseline (step w event).0 events (samples ++ received_at w event)
        (step-KeepsBaseline w event samples h))

step-idle_timeout_ms :
    (w : Watchdog) (event : Event) → (step w event).0.idle_timeout_ms ≡ w.idle_timeout_ms
unfolding step probe finish_probe evaluate stop_watchdog
step-idle_timeout_ms w start = ground arith
step-idle_timeout_ms w tick = ground arith
step-idle_timeout_ms w stop = refl
step-idle_timeout_ms w (sample now none) = ground arith
step-idle_timeout_ms w (sample now (some usage)) = ground arith

run-idle_timeout_ms :
    (w : Watchdog) (events : List Event) → (run w events).0.idle_timeout_ms ≡ w.idle_timeout_ms
unfolding run
run-idle_timeout_ms w [] = refl
run-idle_timeout_ms w (event ∷ events) =
    run-idle_timeout_ms (step w event).0 events ∙ step-idle_timeout_ms w event

-- How long a container was idle: from a sample on that came the idle time ago or earlier, neither a
-- later sample nor the present one shows activity.
pub record WasIdle (idle_timeout_ms : ℕ) (samples : List Sample) (now : ℕ) (usage : ContainerUsage)
    : Type 0 where
  pub at : ℕ
  pub base : ContainerUsage
  pub baseline : IsBaseline samples at base
  pub still_quiet : IsQuietSince base (now, usage)
  pub waited : at + idle_timeout_ms ≤ now

idle-WasIdle :
    (w : Watchdog) (samples : List Sample) (now : ℕ) (usage : ContainerUsage)
    (last : Option ContainerUsage)
    → w.last_active_usage ≡ last
    → KeepsBaseline w samples
    → IsIdle w now usage
    → WasIdle w.idle_timeout_ms samples now usage
idle-WasIdle w samples now usage none u h i = absurd (true≢false (rw u at i.inactive))
idle-WasIdle w samples now usage (some base) u h i = record {
  at = w.last_activity_at;
  base = base;
  baseline = h base u;
  still_quiet = rw u at i.inactive;
  waited = i.waited;
}

-- A new watchdog that times out at a sample, after any events, received an earlier sample at least
-- the idle time before it. Neither the samples that it received since nor the one of the timeout
-- show activity compared with that earlier sample.
pub run-WasIdle :
    (idle_timeout_ms created : ℕ) (events : List Event) (now : ℕ) (usage : ContainerUsage)
    → timeouts
        (step (run (new_watchdog idle_timeout_ms created) events).0 (sample now (some usage))).1
      ≡ 1
    → WasIdle idle_timeout_ms (received (new_watchdog idle_timeout_ms created) events) now usage
unfolding new_watchdog
run-WasIdle idle_timeout_ms created events now usage h =
    let w = new_watchdog idle_timeout_ms created in
    let after = (run w events).0 in
    subst (λ ms. WasIdle ms (received w events) now usage) (run-idle_timeout_ms w events)
      (idle-WasIdle after (received w events) now usage _ refl
        (run-KeepsBaseline w events [] (λ base e. absurd (none-ne-some _ e)))
        (step-IsIdle after now usage h))
