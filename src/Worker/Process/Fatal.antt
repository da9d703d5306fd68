-- ===== src/Worker/Process/Fatal.antt =====
-- How a round of packages/teraslice/lib/workers/worker/index.js ends.
use teraslice.Controller.Slice.{Slice}
use teraslice.Worker.Process.{
  Worker, Failure, Round, Sending, answered, dropped, unsent, unanswered, send_failure, message_of,
  first_failure, unless_failed, tried, failure_of, after_catch, caught, run_once,
  wait_for_slice_to_finish, Tick, ends, waits, runs, run_tick, Closed, closed, context_failed,
  after_wait, shutdown,
}
use teraslice.Base.{
  ℕ, ◌+◌, ◌-◌, ◌≤◌, String, ◌≡◌, refl, sym, subst, ◌∙◌, ◌⊎◌, inl, inr, Bool, true, false, not,
  Option, none, some, List, [], ◌∷◌, ◌++◌, arith, if◌then◌else◌, length, any_of, length-append,
  ◌||◌,
}

-- What the worker does at a run of its own interval, with the round that would come next.
abbrev pub ticked : Tick → Option Slice → Round → Worker → Worker
ticked ends slice r w = w
ticked waits slice r w = w
ticked runs slice r w = (run_once slice r w).0

-- What the interval of the wait sees of isProcessing, between runs of the worker's own interval.
abbrev pub watched : List (Option Slice × Round) → Worker → List Bool
watched [] w = []
watched ((slice, r) ∷ l) w =
    let w' = ticked (run_tick w) slice r w in w'.is_processing ∷ watched l w'

-- The messages that are new.
abbrev pub added : Worker → Worker → ℕ
added w w' = length w'.completions - length w.completions

abbrev pub is_dropped : Sending → Bool
is_dropped dropped = true
is_dropped answered = false
is_dropped (unsent e) = false
is_dropped (unanswered e) = false

-- One of the messages of a round was not sent, although its promise resolves.
abbrev pub drops : Round → Bool
drops r = is_dropped r.sent || is_dropped r.sent_error

-- A round resolves with the slice processed, or rejects while the flag is set.
abbrev pub Resolved : Round → Worker → Worker × Option Failure → Type 0
Resolved r w q =
    (q.1 ≡ none)
    × (q.0.is_processing ≡ false)
    × (q.0.slices_processed ≡ w.slices_processed + 1)
    × ((drops r ≡ true) ⊎ (1 ≤ added w q.0))
    × (added w q.0 ≤ 2)

abbrev pub Rejected : Worker → Worker × Option Failure → Type 0
Rejected w q =
    ((e : Failure) × (q.1 ≡ some e))
    × (q.0.is_processing ≡ true)
    × (q.0.slices_processed ≡ w.slices_processed)
    × (added w q.0 ≤ 2)

message_of-length :
    (s : Sending) (m : Slice × Option String)
    → (length (message_of s m) ≤ 1)
      × (send_failure s ≡ none → (is_dropped s ≡ true) ⊎ (length (message_of s m) ≡ 1))
message_of-length answered m = (omega arith, λ h. inr refl)
message_of-length dropped m = (omega arith, λ h. inl refl)
message_of-length (unsent e) m = (omega arith, λ h. cc)
message_of-length (unanswered e) m = (omega arith, λ h. cc)

unless_failed-length :
    (o : Option Failure) (l : List (Slice × Option String)) → length (unless_failed o l) ≤ length l
unless_failed-length none l = omega arith
unless_failed-length (some e) l = omega arith

tried-length : (slice : Slice) (r : Round) → length (tried slice r) ≤ 1
unfolding tried
tried-length slice r =
    let m = (message_of-length r.sent (slice, none)).0 in
    let o = first_failure (r.initialized ∷ r.ran ∷ []) in
    let u = unless_failed-length o (message_of r.sent (slice, none)) in omega arith

-- Without a failure the message was sent, or dropped.
first_parts :
    (a b c d : Option Failure)
    → first_failure (a ∷ b ∷ c ∷ d ∷ []) ≡ none
    → (first_failure (a ∷ b ∷ []) ≡ none) × (c ≡ none)
first_parts (some e) b c d h = cc
first_parts none (some e) c d h = cc
first_parts none none (some e) d h = cc
first_parts none none none d h = (refl, refl)

tried-sent :
    (slice : Slice) (r : Round)
    → failure_of r ≡ none
    → (is_dropped r.sent ≡ true) ⊎ (length (tried slice r) ≡ 1)
unfolding tried failure_of
tried-sent slice r h =
    let f = first_parts r.initialized r.ran (send_failure r.sent) r.finished h in
    subst
      (λ o.
        (is_dropped r.sent ≡ true)
        ⊎ (length (unless_failed o (message_of r.sent (slice, none))) ≡ 1))
      (sym f.0) ((message_of-length r.sent (slice, none)).1 f.1)

if-ends :
    (k : Round) (w : Worker) (x y : Worker × Option Failure) (b : Bool)
    → Resolved k w x ⊎ Rejected w x
    → Resolved k w y ⊎ Rejected w y
    → Resolved k w (if b then x else y) ⊎ Rejected w (if b then x else y)
if-ends k w x y true h g = h
if-ends k w x y false h g = g

-- The end of a catch that has sent its message.
after_catch-ends :
    (k : Round) (failure : Option Failure) (m sent : List (Slice × Option String)) (w : Worker)
    → length sent ≤ 1
    → length m ≤ 1
    → (failure ≡ none → (drops k ≡ true) ⊎ (length m ≡ 1))
    → let r =
        after_catch failure
          (record w { is_processing = true; completions = m ++ (sent ++ w.completions) }) in
      Resolved k w r ⊎ Rejected w r
after_catch-ends k none m sent w h g d =
    let n = length-append sent w.completions in
    let l = length-append m (sent ++ w.completions) in
    inl (refl, refl, refl, elim (d refl) [ inl x ↦ inl x | inr x ↦ inr (omega arith) ], omega arith)
after_catch-ends k (some e) m sent w h g d =
    let n = length-append sent w.completions in
    let l = length-append m (sent ++ w.completions) in inr ((e, refl), refl, refl, omega arith)

caught-ends :
    (k : Round) (slice : Slice) (failure : Option Failure) (sent : List (Slice × Option String))
    (w : Worker)
    → length sent ≤ 1
    → (failure ≡ none → (is_dropped k.sent ≡ true) ⊎ (length sent ≡ 1))
    → let r =
        caught slice k.sent_error failure
          (record w { is_processing = true; completions = sent ++ w.completions }) in
      Resolved k w r ⊎ Rejected w r
caught-ends k slice none sent w h d =
    let n = length-append sent w.completions in
    inl (
      refl,
      refl,
      refl,
      elim (d refl) [ inl x ↦ inl (rw x refl) | inr x ↦ inr (omega arith) ],
      omega arith,
    )
caught-ends k slice (some e) sent w h d =
    let n = length-append sent w.completions in
    let m = message_of-length k.sent_error (slice, some e.message) in
    if-ends k w _ _ e.is_fatal (inr ((e, refl), refl, refl, omega arith)) (
      after_catch-ends k (send_failure k.sent_error)
        (message_of k.sent_error (slice, some e.message)) sent w h m.0
        (λ z. elim (m.1 z) [ inl x ↦ inl (ground (arith, x)) | inr x ↦ inr x ]))

-- A round with a slice resolves or rejects. If it resolves, the worker is free again and has counted the
-- slice, and it has sent at least one slice:complete and at most two; or a message was dropped without
-- an error, since the client was closed or the server had shut down. If it rejects, the worker still
-- counts as processing.
pub run_once-ends :
    (slice : Slice) (r : Round) (w : Worker)
    → Resolved r w (run_once (some slice) r w) ⊎ Rejected w (run_once (some slice) r w)
unfolding run_once
run_once-ends slice r w =
    caught-ends r slice (failure_of r) (tried slice r) w (tried-length slice r) (tried-sent slice r)

-- The round in which only the listener of a finished slice fails.
abbrev pub listener_fails : Failure → Round
listener_fails e = record {
  initialized = none;
  ran = none;
  sent = answered;
  finished = some e;
  sent_error = answered;
}

-- A slice that was completed, and whose listener then fails without a fatal error, is reported twice, the
-- second time with an error.
pub run_once-twice :
    (slice : Slice) (e : Failure) (w : Worker)
    → e.is_fatal ≡ false
    → (run_once (some slice) (listener_fails e) w).0.completions
      ≡ (slice, some e.message) ∷ (slice, none) ∷ w.completions
unfolding run_once tried failure_of
run_once-twice slice e w h = ground arith

after_catch_flags :
    (failure : Option Failure) (w : Worker)
    → let w' = (after_catch failure w).0 in
      (w'.is_initialized ≡ w.is_initialized)
      × (w'.is_shutting_down ≡ w.is_shutting_down)
      × (w'.is_shutdown ≡ w.is_shutdown)
after_catch_flags none w = (refl, refl, refl)
after_catch_flags (some e) w = (refl, refl, refl)

caught_flags :
    (slice : Slice) (sent_error : Sending) (failure : Option Failure) (w : Worker)
    → let w' = (caught slice sent_error failure w).0 in
      (w'.is_initialized ≡ w.is_initialized)
      × (w'.is_shutting_down ≡ w.is_shutting_down)
      × (w'.is_shutdown ≡ w.is_shutdown)
caught_flags slice s none w = (refl, refl, refl)
caught_flags slice s (some e) w = ground (
  arith,
  after_catch_flags (send_failure s)
      (record w { completions = message_of s (slice, some e.message) ++ w.completions }),
)

run_once_flags :
    (slice : Slice) (r : Round) (w : Worker)
    → let w' = (run_once (some slice) r w).0 in
      (w'.is_initialized ≡ w.is_initialized)
      × (w'.is_shutting_down ≡ w.is_shutting_down)
      × (w'.is_shutdown ≡ w.is_shutdown)
unfolding run_once
run_once_flags slice r w = caught_flags slice r.sent_error (failure_of r) _

-- A worker that is shutting down starts no round.
ticked-idle :
    (slice : Option Slice) (r : Round) (w : Worker)
    → w.is_shutting_down ≡ true
    → ticked (run_tick w) slice r w ≡ w
unfolding run_tick
ticked-idle slice r w h = ground arith

watched-busy :
    (l : List (Option Slice × Round)) (w : Worker)
    → w.is_shutting_down ≡ true
    → w.is_processing ≡ true
    → any_of not (watched l w) ≡ false
watched-busy [] w h k = refl
watched-busy ((slice, r) ∷ l) w h k =
    subst (λ v. any_of not (v.is_processing ∷ watched l v) ≡ false) (sym (ticked-idle slice r w h))
      (ground (arith, watched-busy l w h k))

abbrev pub ends_with : Option String → ℕ → Closed
ends_with (some m) n = context_failed m
ends_with none n = closed n

after_wait-ends :
    (context : Option String) (n : ℕ) (w : Worker)
    → (after_wait context n w).1 ≡ ends_with context n
after_wait-ends none n w = refl
after_wait-ends (some m) n w = refl

shutdown-closed :
    (w : Worker) (seen : List Bool) (context : Option String) (failures : ℕ)
    → w.is_initialized ≡ true
    → w.is_shutting_down ≡ false
    → w.is_shutdown ≡ false
    → w.is_processing ≡ true
    → any_of not seen ≡ false
    → (shutdown false seen context failures w).1 ≡ ends_with context (1 + failures)
unfolding shutdown wait_for_slice_to_finish
shutdown-closed w seen context failures hi hs hd hp hw =
    rw (hd, hi, hs, hp, hw) (after_wait-ends context (1 + failures) _)

-- After a round that rejects, the shutdown that the worker starts fails, whatever rounds its own interval
-- could start meanwhile: none of them runs, so the flag stays set and the wait ends with its timeout.
-- Either that is one of the errors of the shutdown, or executionContext.shutdown rejects first. The
-- worker is initialized and has not been shut down before.
pub run_once-shutdown :
    (slice : Slice) (r : Round) (w : Worker) (e : Failure) (next : List (Option Slice × Round))
    (context : Option String) (failures : ℕ)
    → (run_once (some slice) r w).1 ≡ some e
    → w.is_initialized ≡ true
    → w.is_shutting_down ≡ false
    → w.is_shutdown ≡ false
    → let w' = (run_once (some slice) r w).0 in
      let seen = watched next (record w' { is_shutting_down = true }) in
      (shutdown false seen context failures w').1 ≡ ends_with context (1 + failures)
run_once-shutdown slice r w e next context failures h hi hs hd =
    let w' = (run_once (some slice) r w).0 in
    let k = run_once_flags slice r w in
    elim (run_once-ends slice r w) [
      | inl a ↦ cc
      | inr a ↦
          shutdown-closed w' _ context failures (k.0 ∙ hi) (k.1 ∙ hs) (k.2 ∙ hd) a.1
            (watched-busy next _ refl a.1)
    ]
