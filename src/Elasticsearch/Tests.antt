-- ===== src/Elasticsearch/Tests.antt =====
-- packages/elasticsearch-api and the bulk buffer of the store on small requests.
use teraslice.Elasticsearch.Bulk.{Item, filter_response}
use teraslice.Elasticsearch.Pairs.{flatten, resent, first_fatal, expected, filter_response-expected}
use teraslice.Elasticsearch.Saving.{
  action, document, Saving, make_saving, Op, saves, flushes, settles, run, kept, saved, run-kept,
}
use teraslice.Base.{String, ◌≡◌, refl, none, some, List, [], ◌∷◌, ◌++◌, map}

abbrev stored : Item
stored = record { status = 201; error = none }

abbrev refused : Item
refused = record {
  status = 429;
  error = some (record { type_name = "es_rejected_execution_exception"; reason = "full" });
}

abbrev pairs : List (String × String)
pairs = ("a1", "d1") ∷ ("a2", "d2") ∷ []

filter_response-expected_example :
    filter_response (flatten pairs) (stored ∷ refused ∷ [])
    ≡ expected
        (first_fatal (stored ∷ refused ∷ []))
        (map some (flatten (resent pairs (stored ∷ refused ∷ []))))
filter_response-expected_example = filter_response-expected pairs (stored ∷ refused ∷ []) refl

abbrev ops : List Op
ops = saves "d1" none "" ∷ flushes ∷ saves "d2" (some "update") "other" ∷ settles ∷ flushes ∷ []

run-kept_example : kept (run "i" ops (make_saving none)) ≡ kept (make_saving none) ++ saved ops
run-kept_example = run-kept "i" ops (make_saving none)

-- A request is in flight while a document is queued.
abbrev busy : Saving
busy = record (make_saving none) {
  bulk_queue = action "index" "i" ∷ document "d2" ∷ [];
  in_flight = some (action "index" "i" ∷ document "d1" ∷ []);
  requests = (action "index" "i" ∷ document "d1" ∷ []) ∷ [];
}
