-- ===== src/DiffScan/Tests.antt =====
-- Runs of the diff scan at concrete inputs.
use chaotic_next.Base.{
  ◌≡◌, refl, some, none, codes, [], ◌∷◌, map, List, true, ◌+◌, ◌<◌, ◌≢◌, ◌≤◌, ◌↔◌, ℕ,
}
use mathlib.Core.List.{Memᴰ}
use chaotic_next.Base.{if◌then◌else◌}
use chaotic_next.DiffScan.ResponseCache.{
  replay, new_cache, run, Response, Event, call, answer, finish, entry_of, reused, requested,
}
use chaotic_next.DiffScan.ResponseCache.Bounds.{replay-AreBounded, AreBounded}
use chaotic_next.DiffScan.ResponseCache.Origins.{run-IsRecent}
use chaotic_next.DiffScan.ResponseCache.Requests.{sent-ended, sent, ended, pending}
use chaotic_next.DiffScan.Typosquat.Bounded.{bounded_edit_distance-IsDistance_iff}
use chaotic_next.DiffScan.Typosquat.Edits.{IsDistance}
use chaotic_next.DiffScan.Typosquat.Names.{
  closest_known_name-IsClosest, normalize_package_name-ends, IsClosest,
}
use chaotic_next.DiffScan.Typosquat.{
  strip_suffix, name_suffixes, normalize_package_name, closest_known_name, bounded_edit_distance,
}

normalize_package_name-suffixed :
    normalize_package_name (codes "Lib32-Firefox-bin-git") ≡ codes "firefox"
unfolding normalize_package_name
normalize_package_name-suffixed = refl

bounded_edit_distance_swapped : bounded_edit_distance (codes "firefox") (codes "firefxo") 2 ≡ some 2
unfolding bounded_edit_distance
bounded_edit_distance_swapped = refl

bounded_edit_distance_far : bounded_edit_distance (codes "firefox") (codes "fxirefo") 1 ≡ none
unfolding bounded_edit_distance
bounded_edit_distance_far = refl

closest_known_name-firefox :
    closest_known_name (codes "firefax-bin") (map codes ("chromium" ∷ "firefox" ∷ []))
    ≡ some (record { known_name = codes "firefox"; distance = 1 })
unfolding closest_known_name
closest_known_name-firefox = refl

bounded_edit_distance-IsDistance_iff_example :
    (bounded_edit_distance (codes "firefox") (codes "firefax") 2 ≡ some 1) ↔ (
      (codes "firefox" ≢ codes "firefax")
      × IsDistance (codes "firefox") (codes "firefax") 1
      × (1 ≤ 2))
bounded_edit_distance-IsDistance_iff_example =
    bounded_edit_distance-IsDistance_iff (codes "firefox") (codes "firefax") 2 1

closest_known_name-IsClosest_example :
    IsClosest
      (normalize_package_name (codes "firefax"))
      (codes "chromium" ∷ codes "firefox" ∷ [])
      (closest_known_name (codes "firefax") (codes "chromium" ∷ codes "firefox" ∷ []))
closest_known_name-IsClosest_example =
    closest_known_name-IsClosest (codes "firefax") (codes "chromium" ∷ codes "firefox" ∷ [])

normalize_package_name-ends_example :
    strip_suffix name_suffixes (normalize_package_name (codes "firefox-bin-git")) ≡ none
normalize_package_name-ends_example = normalize_package_name-ends (codes "firefox-bin-git")

-- An answer that is asked for, brought and asked for again.
abbrev good_answer : Response
good_answer = record { ok = true; status = 200; content_type = none; text = codes "found" }

abbrev visits : List Event
visits =
    call (codes "u") 10
    ∷ call (codes "u") 15
    ∷ answer (codes "u") good_answer 20
    ∷ finish (codes "u")
    ∷ []

replay-visits :
    replay new_cache visits
    ≡ record { entries = (codes "u", entry_of good_answer 20) ∷ []; in_flight = [] }
unfolding replay
replay-visits = refl

run-visits : (run (codes "u") 300019 (replay new_cache visits)).1 ≡ reused (entry_of good_answer 20)
unfolding run replay
run-visits = refl

run-visits_late : (run (codes "u") 300020 (replay new_cache visits)).1 ≡ requested
unfolding run replay
run-visits_late = refl

replay-AreBounded_example : AreBounded (replay new_cache visits).entries
replay-AreBounded_example = replay-AreBounded visits

run-IsRecent_example :
    (response : Response) × (answered : ℕ) × Memᴰ (answer (codes "u") response answered) visits
    × (entry_of good_answer 20 ≡ entry_of response answered)
    × (300019 < answered + (if response.ok then 300000 else 60000))
run-IsRecent_example = run-IsRecent visits (codes "u") 300019 (entry_of good_answer 20) run-visits

sent-ended_example :
    sent (codes "u") new_cache visits
    ≡ ended (codes "u") new_cache visits + pending (codes "u") (replay new_cache visits)
sent-ended_example = sent-ended (codes "u") visits
