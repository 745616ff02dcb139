-- ===== src/PredictTraffic.antt =====
-- services/predicttrafficsvc/predicttrafficsvc.go: the cache of traffic classifications that a cloud
-- service gives. The answer of the cloud service, and the text of an address, are inputs.
pub mod Specification
pub mod Refinement
pub mod Caching
pub mod MapKey
pub mod Examples
use packetd.Base.{
  ℕ, ◌+◌, ◌==◌, String, Bool, true, false, Option, none, some, List, [], ◌∷◌, ltb, if◌then◌else◌,
}
use packetd.Base.Text.{is_empty_text}
use packetd.Base.Keys.{string_key}
use packetd.Base.Table.{Table, get, put}
use packetd.Base.Sweep.{sweep}

-- `ClassifiedTraffic`; the confidence is the byte that the plugin rounds it to.
pub record ClassifiedTraffic : Type 0 where
  pub id : String
  pub name : String
  pub confidence : ℕ
  pub proto_chain : String
  pub productivity : ℕ
  pub risk : ℕ
  pub category : String

-- `CachedTrafficItem`: a pointer that may be nil, and the second of the last access.
pub record CachedTrafficItem : Type 0 where
  pub traffic_data : Option ClassifiedTraffic
  pub last_access : ℕ

abbrev pub TrafficCache : Type 0
TrafficCache = Table String CachedTrafficItem

abbrev pub unknown_traffic_item : ClassifiedTraffic
unknown_traffic_item = record {
  id = "Unknown";
  name = "Unknown";
  confidence = 0;
  proto_chain = "Unknown";
  productivity = 0;
  risk = 0;
  category = "Unknown";
}

abbrev pub auth_request_key : String
auth_request_key = "4E6FAB77-B2DF-4DEA-B6BD-2B434A3AE981"

abbrev pub cache_ttl : ℕ
cache_ttl = 86400

-- How a request ends: an error of the client, or a status with a body. A body that cannot be read
-- is `none`; one that was read holds what `json.Unmarshal` left in a nil pointer.
pub data CloudReply : Type 0 where
  failed : CloudReply
  replied : ℕ → Option (Option ClassifiedTraffic) → CloudReply

abbrev unmarshalled : Option (Option ClassifiedTraffic) → Option ClassifiedTraffic
unmarshalled none = none
unmarshalled (some traffic) = traffic

-- `sendClassifyRequest`
unfoldable pub send_classify_request : CloudReply → Option ClassifiedTraffic
send_classify_request failed = none
send_classify_request (replied status body) = if status == 200 then unmarshalled body else none

-- `findCachedTraffic`
unfoldable pub find_cached_traffic :
    ℕ → TrafficCache → String → TrafficCache × Option ClassifiedTraffic
find_cached_traffic now cache key = elim (get cache key) [
  | none ↦ (cache, none)
  | some item ↦ (
    put cache key (record { traffic_data = item.traffic_data; last_access = now }),
    item.traffic_data,
  )
]

-- `storeCachedTraffic`
unfoldable pub store_cached_traffic :
    ℕ → TrafficCache → String → Option ClassifiedTraffic → TrafficCache
store_cached_traffic now cache key traffic =
    put cache key (record { traffic_data = traffic; last_access = now })

-- The second half of `GetTrafficClassification`, for what the request gave.
unfoldable pub store_answer :
    ℕ → TrafficCache → String → Option ClassifiedTraffic → TrafficCache × Option ClassifiedTraffic
unfolding store_cached_traffic
store_answer now cache key none = (
  store_cached_traffic now (store_cached_traffic now cache key none) key
      (some unknown_traffic_item),
  none,
)
store_answer now cache key (some traffic) =
    (store_cached_traffic now cache key (some traffic), some traffic)

-- What follows the search, for what it found.
unfoldable pub use_found :
    ℕ
    → String
    → CloudReply
    → TrafficCache × Option ClassifiedTraffic
    → TrafficCache × Option ClassifiedTraffic
unfolding store_answer send_classify_request
use_found now key reply (cache, some traffic) = (cache, some traffic)
use_found now key reply (cache, none) = store_answer now cache key (send_classify_request reply)

-- `GetTrafficClassification`, by the key that `formMapKey` gives.
unfoldable pub get_traffic_classification :
    ℕ → TrafficCache → String → CloudReply → TrafficCache × Option ClassifiedTraffic
unfolding find_cached_traffic use_found
get_traffic_classification now cache key reply =
    if is_empty_text auth_request_key
    then (cache, none)
    else use_found now key reply (find_cached_traffic now cache key)

-- The item was not accessed for longer than the time to live.
unfoldable pub is_lapsed : ℕ → CachedTrafficItem → Bool
is_lapsed now item = ltb (item.last_access + cache_ttl) now

-- `cleanupTrafficCache`
unfoldable pub cleanup_traffic_cache : ℕ → TrafficCache → TrafficCache
unfolding is_lapsed
cleanup_traffic_cache now cache = sweep (is_lapsed now) cache

-- What happens to the cache, in the order in which its mutex is taken.
pub data CacheEvent : Type 0 where
  ask : ℕ → String → CloudReply → CacheEvent
  clean : ℕ → CacheEvent

unfoldable pub serve_event : CacheEvent → TrafficCache → TrafficCache × Option ClassifiedTraffic
unfolding get_traffic_classification cleanup_traffic_cache
serve_event (ask now key reply) cache = get_traffic_classification now cache key reply
serve_event (clean now) cache = (cleanup_traffic_cache now cache, none)

-- The cache after some events, and the answers.
unfoldable pub run_events :
    List CacheEvent → TrafficCache → TrafficCache × List (Option ClassifiedTraffic)
unfolding serve_event
run_events [] cache = (cache, [])
run_events (event ∷ events) cache =
    let (next, answer) = serve_event event cache in
    let (last, answers) = run_events events next in (last, answer ∷ answers)
