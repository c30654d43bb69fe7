-- ===== src/DiffScan/ResponseCache/Origins.antt =====
-- Where the responses of the cache come from.
use mathlib.Core.List.{Memᴰ}
use chaotic_next.Base.{
  ℕ, suc, ◌+◌, ◌<◌, ◌≡◌, refl, List, [], ◌∷◌, Text, text_eq, length, All, arith, ltb, leb, some,
  Bool-cases, Option-cases, inl, inr, if◌then◌else◌,
}
use chaotic_next.Base.Map.{get, remove}
use chaotic_next.Base.Map.Entries.{All-put, All-remove, All-get}
use chaotic_next.DiffScan.ResponseCache.{
  AurResponseCache, CachedResponse, Response, awaited, settled, Event, call, answer, failure,
  finish, cleared, max_entries, max_cached_body_bytes, new_cache, reuse_if_fresh, run, evict,
  cache_response, clear, step, replay, entry_of, reused,
}
use chaotic_next.DiffScan.ResponseCache.Bounds.{run-entries}

module _ (history : List Event) where
  -- An answer of the history that the URL got.
  abbrev CameFrom : Text × CachedResponse → Type 0
  CameFrom entry =
      (response : Response) × (now : ℕ) × Memᴰ (answer entry.0 response now) history
      × (entry.1 ≡ entry_of response now)

  abbrev CameFromAll : List (Text × CachedResponse) → Type 0
  CameFromAll entries = All CameFrom entries

  evict-CameFrom :
      (entries : List (Text × CachedResponse)) → CameFromAll entries → CameFromAll (evict entries)
  unfolding evict
  evict-CameFrom [] h = h
  evict-CameFrom (entry ∷ entries) h = elim (Bool-cases (ltb max_entries (suc (length entries)))) [
    | inl over ↦ rw over (evict-CameFrom entries h.1)
    | inr within ↦ rw within h
  ]

  cache_response-CameFrom :
      (url : Text) (response : Response) (now : ℕ) (entries : List (Text × CachedResponse))
      → Memᴰ (answer url response now) history
      → CameFromAll entries
      → CameFromAll (cache_response url response now entries)
  unfolding cache_response
  cache_response-CameFrom url response now entries m h =
      elim (Bool-cases (leb (length response.text) max_cached_body_bytes)) [
        | inl fits ↦ rw fits (
            evict-CameFrom _
              (All-put CameFrom url _ entries (λ j p. (response, now, rw p m, refl)) h))
        | inr large ↦ rw large h
      ]

  reuse_if_fresh-CameFrom :
      (url : Text) (now : ℕ) (entries : List (Text × CachedResponse))
      → CameFromAll entries
      → CameFromAll (reuse_if_fresh url now entries).0
  unfolding reuse_if_fresh
  reuse_if_fresh-CameFrom url now entries h = elim (Option-cases (get url entries)) [
    | inl missing ↦ rw missing h
    | inr (entry, found) ↦ elim (Bool-cases (leb entry.expires_at now)) [
      | inl old ↦ rw (found, old) (All-remove CameFrom url entries h)
      | inr fresh ↦
          rw (found, fresh)
            (All-put CameFrom url entry (remove url entries)
              (λ j p. rw p (All-get CameFrom url entries h found))
              (All-remove CameFrom url entries h))
    ]
  ]

  step-CameFrom :
      (cache : AurResponseCache) (event : Event)
      → Memᴰ event history
      → CameFromAll cache.entries
      → CameFromAll (step cache event).entries
  unfolding step clear
  step-CameFrom cache (call url now) m h =
      rw (run-entries url now cache) (reuse_if_fresh-CameFrom url now cache.entries h)
  step-CameFrom cache (answer url response now) m h =
      elim (Option-cases (get url cache.in_flight)) [
        | inl p ↦ rw p h
        | inr (awaited, p) ↦ rw p (cache_response-CameFrom url response now cache.entries m h)
        | inr (settled, p) ↦ rw p h
      ]
  step-CameFrom cache (failure url) m h = elim (Option-cases (get url cache.in_flight)) [
    | inl p ↦ rw p h
    | inr (awaited, p) ↦ rw p h
    | inr (settled, p) ↦ rw p h
  ]
  step-CameFrom cache (finish url) m h = elim (Option-cases (get url cache.in_flight)) [
    | inl p ↦ rw p h
    | inr (awaited, p) ↦ rw p h
    | inr (settled, p) ↦ rw p h
  ]
  step-CameFrom cache cleared m h = tt

  replay-CameFrom :
      (events : List Event) (cache : AurResponseCache)
      → ((event : Event) → Memᴰ event events → Memᴰ event history)
      → CameFromAll cache.entries
      → CameFromAll (replay cache events).entries
  unfolding replay
  replay-CameFrom [] cache within h = h
  replay-CameFrom (event ∷ events) cache within h =
      replay-CameFrom events (step cache event) (λ later m. within later (Memᴰ.tail m))
        (step-CameFrom cache event (within event (Memᴰ.head refl)) h)

-- A reused response is an entry that is still fresh.
run-reused :
    (url : Text) (now : ℕ) (cache : AurResponseCache) {entry : CachedResponse}
    → (run url now cache).1 ≡ reused entry
    → (get url cache.entries ≡ some entry) × (now < entry.expires_at)
unfolding run reuse_if_fresh
run-reused url now cache {entry} e = elim (Option-cases (get url cache.entries)) [
  | inl missing ↦ elim (Option-cases (get url cache.in_flight)) [
    | inl p ↦ ground arith
    | inr (request, p) ↦ ground arith
  ]
  | inr (cached, found) ↦ elim (Bool-cases (leb cached.expires_at now)) [
    | inl old ↦ elim (Option-cases (get url cache.in_flight)) [
      | inl p ↦ ground arith
      | inr (request, p) ↦ ground arith
    ]
    | inr fresh ↦ ground arith
  ]
]

pub run-IsRecent :
    (events : List Event) (url : Text) (now : ℕ) (entry : CachedResponse)
    → (run url now (replay new_cache events)).1 ≡ reused entry
    → (response : Response) × (answered : ℕ) × Memᴰ (answer url response answered) events
      × (entry ≡ entry_of response answered)
      × (now < answered + (if response.ok then 300000 else 60000))
run-IsRecent events url now entry e =
    let (found, fresh) = run-reused url now (replay new_cache events) e in
    let all = replay-CameFrom events events new_cache (λ event m. m) tt in
    let (response, time, m, same) = All-get (CameFrom events) url _ all found in
    (response, time, m, same, rw same at fresh)
