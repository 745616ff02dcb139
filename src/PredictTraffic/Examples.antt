-- ===== src/PredictTraffic/Examples.antt =====
-- A request for a web server, asked twice.
use packetd.Base.{ℕ, ◌≡◌, refl, String, none, some, List, [], ◌∷◌, arith, if◌then◌else◌}
use packetd.Base.{◌==◌}
use packetd.Base.Table.{get}
use packetd.Dispatch.Ip.{Ip}
use packetd.PredictTraffic.{
  ClassifiedTraffic, TrafficCache, failed, replied, unknown_traffic_item, send_classify_request,
  get_traffic_classification, cleanup_traffic_cache, CacheEvent, ask, clean, run_events,
}
use packetd.PredictTraffic.Specification.{promised_run}
use packetd.PredictTraffic.Refinement.{view, view_of, run_events-refines}
use packetd.PredictTraffic.Caching.{or_unknown, get_traffic_classification-again}

abbrev web : ClassifiedTraffic
web = record {
  id = "web";
  name = "Web";
  confidence = 90;
  proto_chain = "IP/TCP/HTTP";
  productivity = 3;
  risk = 1;
  category = "Web Services";
}

abbrev key : String
key = "10.0.0.1-443-6"

abbrev no_items : TrafficCache
no_items = []

abbrev events : List CacheEvent
events = ask 100 key failed ∷ ask 200 key (replied 200 (some (some web))) ∷ clean 90000 ∷ []

run_events-refines_example :
    view_of (run_events events no_items) ≡ promised_run events (view no_items)
run_events-refines_example = run_events-refines events no_items

-- Without an answer the key is learnt as unknown, and a later answer is not asked for.
answers : (promised_run events (view no_items)).1 ≡ none ∷ some unknown_traffic_item ∷ none ∷ []
unfolding get send_classify_request
answers = refl

get_traffic_classification-again_example :
    (get_traffic_classification 300
      (cleanup_traffic_cache 200
        (get_traffic_classification 100 no_items key (replied 200 (some (some web)))).0)
      key
      failed).1
    ≡ some
        (or_unknown (get_traffic_classification 100 no_items key (replied 200 (some (some web)))).1)
get_traffic_classification-again_example =
    get_traffic_classification-again 100 200 300 no_items key (replied 200 (some (some web))) failed
      (omega arith)

abbrev short_text : Ip → String
short_text [] = "none"
short_text (b ∷ rest) = if b == 192 then "10-0" else "server"

abbrev https : ℕ
https = 443

abbrev tcp : ℕ
tcp = 6
