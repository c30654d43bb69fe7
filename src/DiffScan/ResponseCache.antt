-- ===== src/DiffScan/ResponseCache.antt =====
-- The cache of AUR responses: `AurResponseCache` of backend/src/diff-scan/aur-response-cache.ts.
-- A call of `run` awaits its request, so what happens in between is an event of its own: the answer
-- arrives with its body, or the request fails, and later the `finally` handler runs. A time is what
-- `Date.now()` gives, in milliseconds, and the events are in the order of their times.
pub mod Bounds
pub mod Origins
pub mod Requests
use chaotic_next.Base.{
  ℕ, suc, ◌+◌, ◌*◌, ltb, leb, Bool, true, false, Option, none, some, List, [], ◌∷◌, Text, text_eq,
  length, if◌then◌else◌,
}
use chaotic_next.Base.Map.{get, put, remove}

abbrev pub cache_ttl_ms : ℕ
cache_ttl_ms = 5 * 60 * 1000

abbrev pub failure_ttl_ms : ℕ
failure_ttl_ms = 60 * 1000

abbrev pub max_entries : ℕ
max_entries = 500

-- Compared with the length of the body, which counts UTF-16 code units, whatever the name says.
abbrev pub max_cached_body_bytes : ℕ
max_cached_body_bytes = 2 * 1024 * 1024

pub record CachedResponse : Type 0 where
  pub body : Text
  pub content_type : Option Text
  pub expires_at : ℕ
  pub status : ℕ

-- What `fetch` gives: its status, whether that is a success, the header and the text of the body.
pub record Response : Type 0 where
  pub ok : Bool
  pub status : ℕ
  pub content_type : Option Text
  pub text : Text

-- A request in flight, before and after it is settled.
pub data Request : Type 0 where
  awaited : Request
  settled : Request

pub record AurResponseCache : Type 0 where
  pub entries : List (Text × CachedResponse)
  pub in_flight : List (Text × Request)

abbrev pub new_cache : AurResponseCache
new_cache = record { entries = []; in_flight = [] }

-- What a call of `run` does at once: it returns an entry, waits for a request in flight, or sends one.
pub data Outcome : Type 0 where
  reused : CachedResponse → Outcome
  joined : Outcome
  requested : Outcome

abbrev pub fresh_or_drop :
    Text
    → ℕ
    → List (Text × CachedResponse)
    → Option CachedResponse
    → List (Text × CachedResponse) × Option CachedResponse
fresh_or_drop url now entries none = (entries, none)
fresh_or_drop url now entries (some entry) =
    if leb entry.expires_at now
    then (remove url entries, none)
    else (put url entry (remove url entries), some entry)

unfoldable pub reuse_if_fresh :
    Text → ℕ → List (Text × CachedResponse) → List (Text × CachedResponse) × Option CachedResponse
reuse_if_fresh url now entries = fresh_or_drop url now entries (get url entries)

-- The rest of `run`, once the entries are looked at.
abbrev pub join_or_request :
    Text
    → List (Text × CachedResponse)
    → List (Text × Request)
    → Option CachedResponse
    → Option Request
    → AurResponseCache × Outcome
join_or_request url entries in_flight (some cached) pending =
    (record { entries = entries; in_flight = in_flight }, reused cached)
join_or_request url entries in_flight none (some pending) =
    (record { entries = entries; in_flight = in_flight }, joined)
join_or_request url entries in_flight none none =
    (record { entries = entries; in_flight = put url awaited in_flight }, requested)

unfoldable pub run : Text → ℕ → AurResponseCache → AurResponseCache × Outcome
unfolding reuse_if_fresh
run url now cache =
    let looked = reuse_if_fresh url now cache.entries in
    join_or_request url looked.0 cache.in_flight looked.1 (get url cache.in_flight)

-- `while (this.entries.size > MAX_ENTRIES)`: the oldest key is the first one.
unfoldable pub evict : List (Text × CachedResponse) → List (Text × CachedResponse)
evict [] = []
evict (entry ∷ entries) =
    if ltb max_entries (suc (length entries)) then evict entries else entry ∷ entries

abbrev pub entry_of : Response → ℕ → CachedResponse
entry_of response now = record {
  body = response.text;
  content_type = response.content_type;
  expires_at = now + (if response.ok then cache_ttl_ms else failure_ttl_ms);
  status = response.status;
}

unfoldable pub cache_response :
    Text → Response → ℕ → List (Text × CachedResponse) → List (Text × CachedResponse)
unfolding evict
cache_response url response now entries =
    if leb (length response.text) max_cached_body_bytes
    then evict (put url (entry_of response now) entries)
    else entries

unfoldable pub clear : AurResponseCache → AurResponseCache
clear cache = record cache { entries = [] }

-- The text of an awaited request arrives at a time, or the request fails; then `finally` runs.
pub data Event : Type 0 where
  call : Text → ℕ → Event
  answer : Text → Response → ℕ → Event
  failure : Text → Event
  finish : Text → Event
  cleared : Event

abbrev pub answer_awaited :
    Text → Response → ℕ → AurResponseCache → Option Request → AurResponseCache
answer_awaited url response now cache (some awaited) = record {
  entries = cache_response url response now cache.entries;
  in_flight = put url settled cache.in_flight;
}
answer_awaited url response now cache (some settled) = cache
answer_awaited url response now cache none = cache

abbrev pub fail_awaited : Text → AurResponseCache → Option Request → AurResponseCache
fail_awaited url cache (some awaited) = record cache { in_flight = put url settled cache.in_flight }
fail_awaited url cache (some settled) = cache
fail_awaited url cache none = cache

abbrev pub finish_settled : Text → AurResponseCache → Option Request → AurResponseCache
finish_settled url cache (some settled) = record cache { in_flight = remove url cache.in_flight }
finish_settled url cache (some awaited) = cache
finish_settled url cache none = cache

-- One event; one that does not fit the state of the request cannot happen and changes nothing.
unfoldable pub step : AurResponseCache → Event → AurResponseCache
unfolding run cache_response clear
step cache (call url now) = (run url now cache).0
step cache (answer url response now) =
    answer_awaited url response now cache (get url cache.in_flight)
step cache (failure url) = fail_awaited url cache (get url cache.in_flight)
step cache (finish url) = finish_settled url cache (get url cache.in_flight)
step cache cleared = clear cache

unfoldable pub replay : AurResponseCache → List Event → AurResponseCache
unfolding step
replay cache [] = cache
replay cache (event ∷ events) = replay (step cache event) events
