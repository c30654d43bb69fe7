-- ===== src/DiffScan/ResponseCache/Bounds.antt =====
-- The cache stays within its bounds.
use chaotic_next.Base.{
  ℕ, suc, ◌≤◌, ◌≡◌, refl, List, [], ◌∷◌, Text, text_eq, length, All, arith, ltb, leb, leb→le,
  Bool-cases, Option-cases, inl, inr,
}
use chaotic_next.Base.Map.{get, remove}
use chaotic_next.Base.Map.Entries.{
  length-put, length-remove, length-remove_lt, All-put, All-remove, All-get,
}
use chaotic_next.DiffScan.ResponseCache.{
  AurResponseCache, CachedResponse, Response, awaited, settled, Event, call, answer, failure,
  finish, cleared, max_entries, max_cached_body_bytes, new_cache, reuse_if_fresh, run, evict,
  cache_response, clear, step, replay,
}

-- At most `MAX_ENTRIES` entries, and no body over the limit.
abbrev Entries : Type 0
Entries = List (Text × CachedResponse)

abbrev IsSmall : Text × CachedResponse → Type 0
IsSmall entry = length entry.1.body ≤ max_cached_body_bytes

abbrev pub AreBounded : Entries → Type 0
AreBounded entries = (length entries ≤ max_entries) × All IsSmall entries

evict-AreBounded : (entries : Entries) → All IsSmall entries → AreBounded (evict entries)
unfolding evict
evict-AreBounded [] h = (omega arith, tt)
evict-AreBounded (entry ∷ entries) h = elim (Bool-cases (ltb max_entries (suc (length entries)))) [
  | inl over ↦ rw over (evict-AreBounded entries h.1)
  | inr within ↦ rw within (ground arith, h)
]

cache_response-AreBounded :
    (url : Text) (response : Response) (now : ℕ) (entries : Entries)
    → AreBounded entries
    → AreBounded (cache_response url response now entries)
unfolding cache_response
cache_response-AreBounded url response now entries (size, small) =
    elim (Bool-cases (leb (length response.text) max_cached_body_bytes)) [
      | inl fits ↦
          rw fits
            (evict-AreBounded _ (All-put IsSmall url _ entries (λ j p. leb→le _ _ fits) small))
      | inr large ↦ rw large (size, small)
    ]

reuse_if_fresh-AreBounded :
    (url : Text) (now : ℕ) (entries : Entries)
    → AreBounded entries
    → AreBounded (reuse_if_fresh url now entries).0
unfolding reuse_if_fresh
reuse_if_fresh-AreBounded url now entries (size, small) = elim (Option-cases (get url entries)) [
  | inl missing ↦ rw missing (size, small)
  | inr (entry, found) ↦ elim (Bool-cases (leb entry.expires_at now)) [
    | inl old ↦
        rw (found, old)
          (omega (arith, length-remove url entries), All-remove IsSmall url entries small)
    | inr fresh ↦
        rw (found, fresh)
          (
            omega (
              arith,
              length-put url entry (remove url entries),
              length-remove_lt url entries found,
            ),
            All-put IsSmall url entry (remove url entries)
                (λ j p. All-get IsSmall url entries small found)
                (All-remove IsSmall url entries small),
          )
  ]
]

-- A call leaves the entries that looking for the URL leaves.
pub run-entries :
    (url : Text) (now : ℕ) (cache : AurResponseCache)
    → (run url now cache).0.entries ≡ (reuse_if_fresh url now cache.entries).0
unfolding run
run-entries url now cache = elim (Option-cases (reuse_if_fresh url now cache.entries).1) [
  | inr (entry, e) ↦ rw e refl
  | inl e ↦ elim (Option-cases (get url cache.in_flight)) [
    | inl p ↦ rw (e, p) refl
    | inr (request, p) ↦ rw (e, p) refl
  ]
]

step-AreBounded :
    (cache : AurResponseCache) (event : Event)
    → AreBounded cache.entries
    → AreBounded (step cache event).entries
unfolding step clear
step-AreBounded cache (call url now) h =
    rw (run-entries url now cache) (reuse_if_fresh-AreBounded url now cache.entries h)
step-AreBounded cache (answer url response now) h = elim (Option-cases (get url cache.in_flight)) [
  | inl p ↦ rw p h
  | inr (awaited, p) ↦ rw p (cache_response-AreBounded url response now cache.entries h)
  | inr (settled, p) ↦ rw p h
]
step-AreBounded cache (failure url) h = elim (Option-cases (get url cache.in_flight)) [
  | inl p ↦ rw p h
  | inr (awaited, p) ↦ rw p h
  | inr (settled, p) ↦ rw p h
]
step-AreBounded cache (finish url) h = elim (Option-cases (get url cache.in_flight)) [
  | inl p ↦ rw p h
  | inr (awaited, p) ↦ rw p h
  | inr (settled, p) ↦ rw p h
]
step-AreBounded cache cleared h = (omega arith, tt)

replay_from-AreBounded :
    (events : List Event) (cache : AurResponseCache)
    → AreBounded cache.entries
    → AreBounded (replay cache events).entries
unfolding replay
replay_from-AreBounded [] cache h = h
replay_from-AreBounded (event ∷ events) cache h =
    replay_from-AreBounded events (step cache event) (step-AreBounded cache event h)

-- After any events the cache holds at most 500 entries, and no body in it is longer than
-- 2 * 1024 * 1024 UTF-16 code units.
pub replay-AreBounded : (events : List Event) → AreBounded (replay new_cache events).entries
replay-AreBounded events = replay_from-AreBounded events new_cache (omega arith, tt)
