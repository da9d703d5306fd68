-- ===== src/Controller/Lifecycle/Stopping.antt =====
-- What a shutdown of packages/teraslice/lib/workers/execution-controller/index.js does, and what a second one.
use teraslice.Controller.Lifecycle.{
  Call, Controller, call, blocked, stopping, begin_shutdown, stopped, stopping_scheduler, Check,
  is_over, wait_for_execution_finished, Ends, closing, close_all, end_shutdown, is_named,
  is_answered, finish_shutdown,
}
use teraslice.Base.{
  ℕ, String, ◌≡◌, refl, ap, inl, inr, Bool, true, false, Option, some, List, [], ◌∷◌, arith, ltb,
  Bool-cases, any_of, none,
}

-- What a call that goes on has found.
begin_shutdown-stopping :
    (block : Bool) (c : Controller)
    → (begin_shutdown block c).0 ≡ stopping
    → (c.is_shutdown ≡ false) × (c.is_initialized ≡ true) × (c.is_shutting_down ≡ false)
unfolding begin_shutdown
begin_shutdown-stopping block c h = ground arith

close_all-is_answered :
    (l : List (Call × Option String)) (c : Controller) → (close_all l c).emitted ≡ c.emitted
close_all-is_answered [] c = refl
close_all-is_answered ((k, e) ∷ l) c = close_all-is_answered l (call k c)

begin_shutdown-goes :
    (block : Bool) (c : Controller)
    → c.is_shutdown ≡ false
    → c.is_initialized ≡ true
    → c.is_shutting_down ≡ false
    → begin_shutdown block c ≡ (stopping, stopping_scheduler c)
unfolding begin_shutdown
begin_shutdown-goes block c h k d = rw h (rw k (rw d refl))

finish_shutdown-is_answered :
    (stop : Option String) (e : Ends) (c : Controller)
    → is_answered (finish_shutdown stop e c).1 ≡ is_answered c
unfolding finish_shutdown stopped end_shutdown is_answered
finish_shutdown-is_answered none e c =
    ap (any_of (is_named "worker:shutdown:complete"))
      (close_all-is_answered (closing e (stopped c)) (stopped c))
finish_shutdown-is_answered (some m) e c = refl

-- Of an initialized controller that is shutting down and not yet shut down, a second, blocking call waits
-- for an event, and what the first call emits until its end is no event of that name, whatever the
-- scheduler and the parts answer.
pub end_shutdown-blocked :
    (stop : Option String) (e : Ends) (c : Controller)
    → c.is_shutdown ≡ false
    → c.is_initialized ≡ true
    → ((begin_shutdown true (stopped c)).0 ≡ blocked)
      × (is_answered (finish_shutdown stop e c).1 ≡ is_answered c)
unfolding begin_shutdown stopped
end_shutdown-blocked stop e c h k = (ground arith, finish_shutdown-is_answered stop e c)

-- Until the scheduler has stopped, a second call of a shutdown goes on like the first one.
pub begin_shutdown-twice :
    (block block' : Bool) (c : Controller)
    → (begin_shutdown block c).0 ≡ stopping
    → (begin_shutdown block' (begin_shutdown block c).1).0 ≡ stopping
unfolding begin_shutdown
begin_shutdown-twice block block' c h =
    let f = begin_shutdown-stopping block c h in
    rw (begin_shutdown-goes block c f.0 f.1 f.2)
      (ap (λ r. r.0) (begin_shutdown-goes block' (stopping_scheduler c) f.0 f.1 f.2))

-- A check after the time of the shutdown ends the wait, at the latest.
pub wait_for_execution_finished-ends :
    (shutdown_at : ℕ) (l : List Check)
    → any_of (λ k. ltb shutdown_at k.now) l ≡ true
    → ((t : ℕ) × (wait_for_execution_finished shutdown_at l ≡ some t))
unfolding wait_for_execution_finished
wait_for_execution_finished-ends shutdown_at [] h = absurd (ground arith)
wait_for_execution_finished-ends shutdown_at (k ∷ l) h = elim (Bool-cases (is_over shutdown_at k)) [
  | inl o ↦ rw o (k.now, refl)
  | inr o ↦ rw o (wait_for_execution_finished-ends shutdown_at l (ground arith))
]
