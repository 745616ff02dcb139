-- ===== src/PredictTraffic/Refinement.antt =====
-- The cache of classifications implements its specification.
use packetd.Base.{
  ℕ, ◌≡◌, refl, sym, ap, ◌∙◌, String, Option, none, some, List, [], ◌∷◌, arith, Option-cases, inl,
  inr,
}
use mathlib.Core.Path.{fun_ext}
use packetd.Base.Keys.{string_key}
use packetd.Base.Table.{get, put, get-put}
use packetd.Base.Sweep.{get-sweep}
use packetd.PredictTraffic.{
  ClassifiedTraffic, CachedTrafficItem, TrafficCache, unknown_traffic_item, CloudReply,
  send_classify_request, find_cached_traffic, store_cached_traffic, store_answer, use_found,
  get_traffic_classification, is_lapsed, cleanup_traffic_cache, CacheEvent, ask, clean, serve_event,
  run_events,
}
use packetd.PredictTraffic.Specification.{Known, learn, data_of, answer_of, promised, promised_run}

-- What the cache knows, without the order of its entries.
abbrev pub view : TrafficCache → Known
view cache = get cache

view-put :
    (now : ℕ) (cache : TrafficCache) (key : String) (t : ClassifiedTraffic)
    → view (put cache key (record { traffic_data = some t; last_access = now }))
      ≡ learn now (view cache) key t
view-put now cache key t =
    fun_ext (λ other. get-put cache key other (record { traffic_data = some t; last_access = now }))

view-touch :
    (now : ℕ) (cache : TrafficCache) (key : String) (item : CachedTrafficItem)
    (t : ClassifiedTraffic)
    → item.traffic_data ≡ some t
    → view (put cache key (record { traffic_data = item.traffic_data; last_access = now }))
      ≡ learn now (view cache) key t
view-touch now cache key item t f =
    ap (λ d. view (put cache key (record { traffic_data = d; last_access = now }))) f
    ∙ view-put now cache key t

view-put-put :
    (now : ℕ) (cache : TrafficCache) (key : String) (i : CachedTrafficItem) (t : ClassifiedTraffic)
    → view (put (put cache key i) key (record { traffic_data = some t; last_access = now }))
      ≡ learn now (view cache) key t
view-put-put now cache key i t = fun_ext (λ other. ground (
  arith,
  get-put (put cache key i) key other (record { traffic_data = some t; last_access = now }),
  get-put cache key other i,
))

-- A cache and an answer, seen as what is known and the answer.
abbrev pub view_of {ℓ} : {A : Type ℓ} → TrafficCache × A → Known × A
view_of (cache, answer) = (view cache, answer)

store_answer-refines :
    (now : ℕ) (cache : TrafficCache) (key : String) (said : Option ClassifiedTraffic)
    → view_of (store_answer now cache key said) ≡ answer_of now (view cache) key none said
unfolding store_answer store_cached_traffic
store_answer-refines now cache key none =
    ap (λ (known : Known). (known, none)) (view-put-put now cache key _ unknown_traffic_item)
store_answer-refines now cache key (some t) =
    ap (λ (known : Known). (known, some t)) (view-put now cache key t)

learn-again :
    (now : ℕ) (cache : TrafficCache) (key : String) (i : CachedTrafficItem) (t : ClassifiedTraffic)
    → learn now (view (put cache key i)) key t ≡ learn now (view cache) key t
learn-again now cache key i t =
    sym (view-put now (put cache key i) key t) ∙ view-put-put now cache key i t

answer_of-again :
    (now : ℕ) (cache : TrafficCache) (key : String) (i : CachedTrafficItem)
    (said : Option ClassifiedTraffic)
    → answer_of now (view (put cache key i)) key none said
      ≡ answer_of now (view cache) key none said
answer_of-again now cache key i none =
    ap (λ (known : Known). (known, none)) (learn-again now cache key i unknown_traffic_item)
answer_of-again now cache key i (some t) =
    ap (λ (known : Known). (known, some t)) (learn-again now cache key i t)

find-missing :
    (now : ℕ) (cache : TrafficCache) (key : String)
    → get cache key ≡ none
    → find_cached_traffic now cache key ≡ (cache, none)
unfolding find_cached_traffic
find-missing now cache key e = rw (e, find_cached_traffic) refl

find-present :
    (now : ℕ) (cache : TrafficCache) (key : String) (item : CachedTrafficItem)
    → get cache key ≡ some item
    → find_cached_traffic now cache key ≡ (
      put cache key (record { traffic_data = item.traffic_data; last_access = now }),
      item.traffic_data,
    )
unfolding find_cached_traffic
find-present now cache key item e = rw (e, find_cached_traffic) refl

pub ask-refines :
    (now : ℕ) (cache : TrafficCache) (key : String) (reply : CloudReply)
    → view_of (get_traffic_classification now cache key reply)
      ≡ answer_of now (view cache) key (data_of (get cache key)) (send_classify_request reply)
unfolding get_traffic_classification
ask-refines now cache key reply = elim (Option-cases (get cache key)) [
  | inl e ↦ rw (e, find-missing now cache key e, use_found) (store_answer-refines now cache key _)
  | inr (item, e) ↦ elim (Option-cases item.traffic_data) [
    | inl f ↦
        rw (e, f, find-present now cache key item e, use_found)
          (store_answer-refines now _ key _ ∙ answer_of-again now cache key _ _)
    | inr (t, f) ↦
        rw (e, f, find-present now cache key item e, use_found)
          (ap (λ (known : Known). (known, some t)) (view-touch now cache key item t f))
  ]
]

serve_event-refines :
    (event : CacheEvent) (cache : TrafficCache)
    → view_of (serve_event event cache) ≡ promised event (view cache)
unfolding serve_event cleanup_traffic_cache is_lapsed
serve_event-refines (ask now key reply) cache = ask-refines now cache key reply
serve_event-refines (clean now) cache =
    ap (λ (known : Known). (known, none)) (fun_ext (λ key. get-sweep (is_lapsed now) cache key))

-- For every sequence of requests and cleanings, the cache gives the answers that the specification
-- promises, and ends up knowing what the specification says is known.
pub run_events-refines :
    (events : List CacheEvent) (cache : TrafficCache)
    → view_of (run_events events cache) ≡ promised_run events (view cache)
unfolding run_events
run_events-refines [] cache = refl
run_events-refines (event ∷ events) cache =
    ap (λ (r : Known × List (Option ClassifiedTraffic)). (r.0, (serve_event event cache).1 ∷ r.1))
      (run_events-refines events (serve_event event cache).0)
    ∙ ap
        (λ (p : Known × Option ClassifiedTraffic).
          ((promised_run events p.0).0, p.1 ∷ (promised_run events p.0).1))
        (serve_event-refines event cache)
