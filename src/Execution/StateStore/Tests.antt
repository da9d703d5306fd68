-- ===== src/Execution/StateStore/Tests.antt =====
-- Two slices of a slicer, the first one completed.
use teraslice.Controller.Slice.{Slice}
use teraslice.Execution.DateUtils.{timeseries_index}
use teraslice.Execution.StateStore.{
  Doc, Context, create_state, update_state, recover_slices, execution_starting_slice,
}
use teraslice.Execution.StateStore.Recovering.{recover_slices-update_state, is_slice}
use teraslice.Execution.StateStore.Latest.{execution_starting_slice-create_state}
use teraslice.Base.{
  ℕ, String, ◌≡◌, refl, true, none, some, List, [], ◌∷◌, arith, any_of, ok, ◌>>=◌, map_ok,
}

abbrev context : Context
context = record { iso = λ t. "2018-11-26T10:00:00.000Z"; format = "monthly"; index = "ts__state" }

abbrev slice_at : String → ℕ → Slice
slice_at id order = record {
  slice_id = id;
  slicer_id = 0;
  slicer_order = order;
  request = id;
  created = some 3;
}

abbrev stored : List Doc
stored =
    record {
      index = "ts__state-2018.11";
      slice_id = "s1";
      slicer_id = 0;
      slicer_order = 1;
      request = "s1";
      state = "completed";
      ex_id = "e1";
      created = some 2;
      updated = some 2;
      error = none;
    }
    ∷ []

recover_slices-update_state_example :
    (create_state context 3 "e1" (slice_at "s2" 2) "start" none none stored >>= λ l1.
    update_state context 4 (slice_at "s2" 2) "error" (some "failed") none l1 >>= λ l2.
    map_ok (any_of (is_slice "s2")) (recover_slices "e1" 0 (some "errors") none l2))
    ≡ ok true
recover_slices-update_state_example =
    recover_slices-update_state context 3 4 3 "e1" (slice_at "s2" 2) "error" (some "failed") stored
      refl refl (some "errors") (omega arith)

execution_starting_slice-create_state_example :
    (create_state context 3 "e1" (slice_at "s2" 2) "start" none none stored >>= λ l1.
    execution_starting_slice "e1" 0 none l1)
    ≡ ok (some "s2")
execution_starting_slice-create_state_example =
    execution_starting_slice-create_state context 3 "e1" (slice_at "s2" 2) "start" none stored refl
      ((λ h. omega arith), tt)

daily :
    timeseries_index (λ t. "2018-11-26T10:00:00.000Z") "daily" "ts__state" 3 none
    ≡ "ts__state-2018.11.26"
unfolding timeseries_index
daily = refl
