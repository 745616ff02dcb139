-- ===== src/PredictTraffic/Specification.antt =====
-- What the cache of classifications promises, with no representation: each key has at most one
-- classification and the second of its last use.
use packetd.Base.{ltb, ◌+◌, ℕ, String, Option, none, some, List, [], ◌∷◌, if◌then◌else◌}
use packetd.Base.Keys.{string_key}
use packetd.Base.Sweep.{unless_stale}
use packetd.PredictTraffic.{
  ClassifiedTraffic, CachedTrafficItem, unknown_traffic_item, send_classify_request, cache_ttl,
  CacheEvent, ask, clean,
}

abbrev pub Known : Type 0
Known = String → Option CachedTrafficItem

abbrev pub learn : ℕ → Known → String → ClassifiedTraffic → Known
learn now known key traffic = λ other.
    if string_key.same key other
    then some (record { traffic_data = some traffic; last_access = now })
    else known other

abbrev pub data_of : Option CachedTrafficItem → Option ClassifiedTraffic
data_of none = none
data_of (some item) = item.traffic_data

-- The classification that the key has, or else what the cloud service says; a key that it does not
-- know is learnt as unknown, without an answer.
abbrev pub answer_of :
    ℕ
    → Known
    → String
    → Option ClassifiedTraffic
    → Option ClassifiedTraffic
    → Known × Option ClassifiedTraffic
answer_of now known key (some traffic) said = (learn now known key traffic, some traffic)
answer_of now known key none (some traffic) = (learn now known key traffic, some traffic)
answer_of now known key none none = (learn now known key unknown_traffic_item, none)

abbrev pub promised : CacheEvent → Known → Known × Option ClassifiedTraffic
promised (ask now key reply) known =
    answer_of now known key (data_of (known key)) (send_classify_request reply)
promised (clean now) known =
    (λ key. unless_stale (λ item. ltb (item.last_access + cache_ttl) now) (known key), none)

abbrev pub promised_run : List CacheEvent → Known → Known × List (Option ClassifiedTraffic)
promised_run [] known = (known, [])
promised_run (event ∷ events) known =
    let (next, answer) = promised event known in
    let (last, answers) = promised_run events next in (last, answer ∷ answers)
