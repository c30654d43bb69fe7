-- ===== src/DiffScan/ResponseCache/Requests.antt =====
-- The requests that the cache sends.
use chaotic_next.Base.{
  ℕ, ◌+◌, ◌≡◌, refl, List, [], ◌∷◌, Text, text_eq, text_beq_iff, arith, Option, some, none, is_some,
  Bool, ◌⊎◌, Option-cases, inl, inr, true, false, if◌then◌else◌, ◌==◌, ◌&&◌,
}
use chaotic_next.Base.Map.{get, put, get-put, get-remove}
use chaotic_next.DiffScan.ResponseCache.{
  AurResponseCache, Request, Outcome, awaited, settled, Event, call, answer, failure, finish,
  cleared, new_cache, reuse_if_fresh, run, clear, step, replay, requested,
}

abbrev is_requested : Outcome → Bool
is_requested requested = true
is_requested _ = false

abbrev is_settled : Option Request → Bool
is_settled (some settled) = true
is_settled _ = false

abbrev count_if : Bool → ℕ
count_if b = if b then 1 else 0

-- The requests for a URL that one event sends, and those that it ends.
sent_by : Text → AurResponseCache → Event → ℕ
sent_by url cache (call other now) = count_if (other == url && is_requested (run other now cache).1)
sent_by url cache (answer other response now) = 0
sent_by url cache (failure other) = 0
sent_by url cache (finish other) = 0
sent_by url cache cleared = 0

ended_by : Text → AurResponseCache → Event → ℕ
ended_by url cache (finish other) =
    count_if (other == url && is_settled (get other cache.in_flight))
ended_by url cache (call other now) = 0
ended_by url cache (answer other response now) = 0
ended_by url cache (failure other) = 0
ended_by url cache cleared = 0

-- Counted over a run.
pub sent : Text → AurResponseCache → List Event → ℕ
unfolding sent_by
sent url cache [] = 0
sent url cache (event ∷ events) = sent_by url cache event + sent url (step cache event) events

pub ended : Text → AurResponseCache → List Event → ℕ
unfolding ended_by
ended url cache [] = 0
ended url cache (event ∷ events) = ended_by url cache event + ended url (step cache event) events

abbrev pub pending : Text → AurResponseCache → ℕ
pending url cache = count_if (is_some (get url cache.in_flight))

-- A call sends a request only where none is in flight for its URL.
run-cases :
    (url : Text) (now : ℕ) (cache : AurResponseCache)
    → ((is_requested (run url now cache).1 ≡ true)
        × (get url cache.in_flight ≡ none)
        × ((run url now cache).0.in_flight ≡ put url awaited cache.in_flight))
      ⊎ ((is_requested (run url now cache).1 ≡ false)
          × ((run url now cache).0.in_flight ≡ cache.in_flight))
unfolding run
run-cases url now cache = elim (Option-cases (reuse_if_fresh url now cache.entries).1) [
  | inr (entry, e) ↦ rw e (inr (refl, refl))
  | inl e ↦ elim (Option-cases (get url cache.in_flight)) [
    | inl p ↦ rw (e, p) (inl (refl, refl, refl))
    | inr (request, p) ↦ rw (e, p) (inr (refl, refl))
  ]
]

step-pending :
    (url : Text) (cache : AurResponseCache) (event : Event)
    → sent_by url cache event + pending url cache
      ≡ ended_by url cache event + pending url (step cache event)
unfolding step clear sent_by ended_by
step-pending url cache (call other now) = elim (run-cases other now cache) [
  | inl (asked, free, grown) ↦
      rw (asked, grown)
        (ground (arith, free, get-put other url awaited cache.in_flight, text_beq_iff other url))
  | inr (kept, same) ↦ rw (kept, same) (ground arith)
]
step-pending url cache (answer other response now) =
    elim (Option-cases (get other cache.in_flight)) [
      | inl p ↦ rw p refl
      | inr (settled, p) ↦ rw p refl
      | inr (awaited, p) ↦
          rw p (ground (arith, get-put other url settled cache.in_flight, text_beq_iff other url))
    ]
step-pending url cache (failure other) = elim (Option-cases (get other cache.in_flight)) [
  | inl p ↦ rw p refl
  | inr (settled, p) ↦ rw p refl
  | inr (awaited, p) ↦
      rw p (ground (arith, get-put other url settled cache.in_flight, text_beq_iff other url))
]
step-pending url cache (finish other) = elim (Option-cases (get other cache.in_flight)) [
  | inl p ↦ rw p (ground arith)
  | inr (awaited, p) ↦ rw p (ground arith)
  | inr (settled, p) ↦
      rw p (ground (arith, p, get-remove other url cache.in_flight, text_beq_iff other url))
]
step-pending url cache cleared = refl

replay_from-pending :
    (url : Text) (events : List Event) (cache : AurResponseCache)
    → sent url cache events + pending url cache
      ≡ ended url cache events + pending url (replay cache events)
unfolding replay sent ended
replay_from-pending url [] cache = refl
replay_from-pending url (event ∷ events) cache =
    omega (arith, step-pending url cache event, replay_from-pending url events (step cache event))

-- After any events, the requests sent for a URL are those that ended and the one in flight, if there
-- is one: at no time are two requests for one URL in flight.
pub sent-ended :
    (url : Text) (events : List Event)
    → sent url new_cache events ≡ ended url new_cache events + pending url (replay new_cache events)
sent-ended url events = omega (arith, replay_from-pending url events new_cache)
