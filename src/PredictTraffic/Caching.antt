-- ===== src/PredictTraffic/Caching.antt =====
-- The cloud service is asked once for a key that stays in the cache.
use packetd.Base.{ℕ, ◌+◌, ◌≤◌, ◌≡◌, sym, ap, ◌∙◌, String, Option, none, some, arith}
use packetd.Base.Keys.{string_key}
use packetd.Base.Table.{get}
use packetd.Base.Sweep.{get-sweep}
use packetd.PredictTraffic.{
  ClassifiedTraffic, CachedTrafficItem, TrafficCache, unknown_traffic_item, CloudReply, cache_ttl,
  send_classify_request, get_traffic_classification, is_lapsed, cleanup_traffic_cache,
}
use packetd.PredictTraffic.Specification.{Known, data_of, answer_of}
use packetd.PredictTraffic.Refinement.{view, ask-refines}

-- What stands in the cache after an answer: the classification, or that of unknown traffic.
abbrev pub or_unknown : Option ClassifiedTraffic → ClassifiedTraffic
or_unknown none = unknown_traffic_item
or_unknown (some t) = t

abbrev item_of : ℕ → Option ClassifiedTraffic → CachedTrafficItem
item_of now answer = record { traffic_data = some (or_unknown answer); last_access = now }

learnt :
    (now : ℕ) (known : Known) (key : String) (before said : Option ClassifiedTraffic)
    → (answer_of now known key before said).0 key
      ≡ some (item_of now (answer_of now known key before said).1)
learnt now known key none none = ground (arith, string_key.same_iff key key)
learnt now known key none (some t) = ground (arith, string_key.same_iff key key)
learnt now known key (some t) said = ground (arith, string_key.same_iff key key)

get-asked :
    (now : ℕ) (cache : TrafficCache) (key : String) (reply : CloudReply)
    → get (get_traffic_classification now cache key reply).0 key
      ≡ some (item_of now (get_traffic_classification now cache key reply).1)
get-asked now cache key reply =
    let r = ask-refines now cache key reply in
    ap (λ (p : Known × Option ClassifiedTraffic). p.0 key) r
    ∙ learnt now (view cache) key (data_of (get cache key)) (send_classify_request reply)
    ∙ ap (λ (p : Known × Option ClassifiedTraffic). some (item_of now p.1)) (sym r)

-- Once a key was asked for, asking again after a cleaning that comes at most cache_ttl seconds
-- later gives the same classification, or that of unknown traffic when there was no answer,
-- whatever the cloud service would say now.
pub get_traffic_classification-again :
    (now at later : ℕ) (cache : TrafficCache) (key : String) (reply second : CloudReply)
    → at ≤ now + cache_ttl
    → (get_traffic_classification later
        (cleanup_traffic_cache at (get_traffic_classification now cache key reply).0)
        key
        second).1
      ≡ some (or_unknown (get_traffic_classification now cache key reply).1)
unfolding cleanup_traffic_cache is_lapsed
get_traffic_classification-again now at later cache key reply second h =
    let first = (get_traffic_classification now cache key reply).0 in
    let kept : get (cleanup_traffic_cache at first) key ≡ get first key =
      ground (arith, get-sweep (is_lapsed at) first key, get-asked now cache key reply, h) in
    ap (λ (p : Known × Option ClassifiedTraffic). p.1)
      (ask-refines later (cleanup_traffic_cache at first) key second)
    ∙ ap
        (λ (i : Option CachedTrafficItem).
          (answer_of later (view (cleanup_traffic_cache at first)) key (data_of i)
            (send_classify_request second)).1)
        (kept ∙ get-asked now cache key reply)
