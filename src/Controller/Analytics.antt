-- ===== src/Controller/Analytics.antt =====
-- The analytics of an execution: packages/teraslice/lib/workers/execution-controller/execution-analytics.js,
-- on the fields that are pushed to the cluster master. `in_transit` is a push whose answer is awaited,
-- `added` holds the pushes that the cluster master has added up, the last one first, and `lost` those of
-- them whose answer did not come in time.
pub mod Pushed
pub mod Tests
use teraslice.Base.{
  ℕ, zero, suc, ◌+◌, ◌-◌, ◌*◌, ◌≤◌, ◌<◌, String, ◌≡◌, refl, sym, ap, subst, ◌∙◌, ◌≢◌, ◌↔◌, ◌⊎◌, inl,
  inr, Bool, true, false, not, ◌&&◌, ◌||◌, Option, none, some, List, [], ◌∷◌, ◌++◌, map, arith, ltb,
  leb, ◌==◌, if◌then◌else◌, ltb→lt, lt→ltb, leb→le, ==_iff, Bool-cases, Option-cases, ◌===◌,
  ===_iff, length, keep_if, any_of, All, length-append, length-map, length-keep_if-le, All-append,
  Result, ok, err, ◌>>=◌, map_err, map_ok, is_ok, min, ℤ, minus,
}

pub record Counts : Type 0 where
  pub processed : ℕ
  pub failed : ℕ
  pub queued : ℕ
  pub job_duration : ℕ
  pub workers_joined : ℕ
  pub workers_disconnected : ℕ
  pub workers_reconnected : ℕ

abbrev pub no_counts : Counts
no_counts = record {
  processed = 0;
  failed = 0;
  queued = 0;
  job_duration = 0;
  workers_joined = 0;
  workers_disconnected = 0;
  workers_reconnected = 0;
}

pub record Diffs : Type 0 where
  pub processed : ℤ
  pub failed : ℤ
  pub queued : ℤ
  pub job_duration : ℤ
  pub workers_joined : ℤ
  pub workers_disconnected : ℤ
  pub workers_reconnected : ℤ

unfoldable pub diffs_of : Counts → Counts → Diffs
diffs_of a p = record {
  processed = minus a.processed p.processed;
  failed = minus a.failed p.failed;
  queued = minus a.queued p.queued;
  job_duration = minus a.job_duration p.job_duration;
  workers_joined = minus a.workers_joined p.workers_joined;
  workers_disconnected = minus a.workers_disconnected p.workers_disconnected;
  workers_reconnected = minus a.workers_reconnected p.workers_reconnected;
}

-- The other fields of the analytics.
pub record Others : Type 0 where
  pub workers_available : ℕ
  pub workers_active : ℕ
  pub subslices : ℕ
  pub slice_range_expansion : ℕ
  pub subslice_by_key : ℕ
  pub slicers : ℕ
  pub started : String
  pub queuing_complete : String

pub record Analytics : Type 0 where
  pub counts : Counts
  pub others : Others
  pub pushed : Counts
  pub in_transit : Option (Diffs × Counts)
  pub is_running : Bool
  pub is_shutdown : Bool
  pub added : List Diffs
  pub lost : List Diffs

unfoldable pub make_analytics : Analytics
make_analytics = record {
  counts = no_counts;
  others = record {
    workers_available = 0;
    workers_active = 0;
    subslices = 0;
    slice_range_expansion = 0;
    subslice_by_key = 0;
    slicers = 0;
    started = "";
    queuing_complete = "";
  };
  pushed = no_counts;
  in_transit = none;
  is_running = false;
  is_shutdown = false;
  added = [];
  lost = [];
}

unfoldable pub start : String → Analytics → Analytics
start now a = record a { others = record a.others { started = now }; is_running = true }

-- What the controller and the handlers do to the fields: the events of the system and the calls of `set` and
-- `increment`.
pub data Change : Type 0 where
  slice_recursion slice_range_expands subslice_by_keys : Change
  slicers_queued slicers_registered : ℕ → Change
  slice_succeeds slice_fails : Change
  slicers_finished : String → Change
  worker_joins worker_disconnects worker_reconnects : Change
  sets_active sets_available sets_duration : ℕ → Change

unfoldable pub change_counts : Change → Counts → Counts
change_counts (slicers_queued n) c = record c { queued = n }
change_counts slice_succeeds c = record c { processed = c.processed + 1 }
change_counts slice_fails c = record c { processed = c.processed + 1; failed = c.failed + 1 }
change_counts worker_joins c = record c { workers_joined = c.workers_joined + 1 }
change_counts worker_disconnects c = record c { workers_disconnected = c.workers_disconnected + 1 }
change_counts worker_reconnects c = record c { workers_reconnected = c.workers_reconnected + 1 }
change_counts (sets_duration n) c = record c { job_duration = n }
change_counts _ c = c

unfoldable pub change_others : Change → Others → Others
change_others slice_recursion o = record o { subslices = o.subslices + 1 }
change_others slice_range_expands o = record o {
  slice_range_expansion = o.slice_range_expansion + 1;
}
change_others subslice_by_keys o = record o { subslice_by_key = o.subslice_by_key + 1 }
change_others (slicers_registered n) o = record o { slicers = n }
change_others (slicers_finished now) o = record o { queuing_complete = now }
change_others (sets_active n) o = record o { workers_active = n }
change_others (sets_available n) o = record o { workers_available = n }
change_others _ o = o

unfoldable pub change : Change → Analytics → Analytics
unfolding change_counts change_others
change e a = record a { counts = change_counts e a.counts; others = change_others e a.others }

-- `_pushAnalytics` up to its await.
abbrev pub pushing : Option (Diffs × Counts) → Analytics → Analytics
unfolding diffs_of
pushing none a = record a { in_transit = some (diffs_of a.counts a.pushed, a.counts) }
pushing (some p) a = a

unfoldable pub push_analytics : Analytics → Analytics
unfolding pushing
push_analytics a = pushing a.in_transit a

-- What comes of a push: the cluster master adds it and its answer comes; it does not add it, where it is
-- not reached or answers without `recorded`; or it adds it, and its answer is lost or late.
pub data PushAnswer : Type 0 where
  is_recorded not_added answer_lost : PushAnswer

abbrev pub has_recorded : PushAnswer → Bool
has_recorded is_recorded = true
has_recorded not_added = false
has_recorded answer_lost = false

abbrev pub add_diffs : PushAnswer → Diffs → Analytics → Analytics
add_diffs is_recorded d a = record a { added = d ∷ a.added }
add_diffs not_added d a = a
add_diffs answer_lost d a = record a { added = d ∷ a.added; lost = d ∷ a.lost }

-- What `_pushAnalytics` does after its await.
abbrev pub answered : PushAnswer → Option (Diffs × Counts) → Analytics → Analytics
answered answer none a = a
answered answer (some (d, copy)) a = record (add_diffs answer d a) {
  in_transit = none;
  pushed = if not (has_recorded answer) && a.is_running then a.pushed else copy;
}

unfoldable pub push_answer : PushAnswer → Analytics → Analytics
push_answer answer a = answered answer a.in_transit a

-- The interval.
unfoldable pub analytics_tick : Analytics → Analytics
unfolding push_analytics
analytics_tick a = if a.is_running then push_analytics a else a

unfoldable pub shutdown : Analytics → Analytics
unfolding push_analytics
shutdown a = push_analytics (record a { is_running = false; is_shutdown = true })
