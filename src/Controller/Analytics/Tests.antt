-- ===== src/Controller/Analytics/Tests.antt =====
-- Analytics of packages/teraslice/lib/workers/execution-controller/execution-analytics.js with one push whose
-- answer is lost.
use teraslice.Controller.Analytics.{
  is_recorded, answer_lost, make_analytics, start, slice_succeeds, slicers_queued,
}
use teraslice.Controller.Analytics.Pushed.{
  Op, changes, ticks, answers, run, total, count_of, processed, run-added,
}
use teraslice.Base.{◌≡◌, List, [], ◌∷◌, pos, plus}

abbrev ops : List Op
ops =
    changes slice_succeeds
    ∷ ticks
    ∷ answers answer_lost
    ∷ changes (slicers_queued 4)
    ∷ ticks
    ∷ answers is_recorded
    ∷ []

run-added_example :
    let a = run ops (start "now" make_analytics) in
    total processed a.added ≡ plus (pos (count_of processed a.pushed)) (total processed a.lost)
run-added_example = run-added "now" ops processed
