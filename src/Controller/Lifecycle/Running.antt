-- ===== src/Controller/Lifecycle/Running.antt =====
-- The order of `run` of packages/teraslice/lib/workers/execution-controller/index.js, and its wait for the
-- workers. What the parts settle with are arguments, `none` where they succeed; the steps stand in
-- their order.
use teraslice.Base.{
  ℕ, Bool, Option, List, ◌+◌, String, ◌≡◌, refl, inl, inr, true, not, ◌||◌, none, some, [], ◌∷◌,
  arith, ltb, ◌==◌, if◌then◌else◌, Bool-cases, any_of,
}

pub data RunStep : Type 0 where
  connect_watch_dog : RunStep
  analytics_start : RunStep
  run_execution : RunStep
  context_shutdown : RunStep
  server_shutting_down : RunStep
  finish_execution : RunStep
  send_execution_finished : RunStep

pub record Settled : Type 0 where
  pub run_execution : Option String
  pub context_shutdown : Option String
  pub finish_execution : Option String
  pub execution_finished : Option String

-- The errors of the execution and of the last message are logged; the other ones reject.
abbrev pub finished : Option String → Option String × List RunStep
finished (some m) = (some m, finish_execution ∷ [])
finished none = (none, finish_execution ∷ send_execution_finished ∷ [])

abbrev pub left : Settled → Option String → Option String × List RunStep
left a (some m) = (some m, context_shutdown ∷ [])
left a none =
    let r = finished a.finish_execution in (r.0, context_shutdown ∷ server_shutting_down ∷ r.1)

unfoldable pub run : Settled → Option String × List RunStep
run a =
    let r = left a a.context_shutdown in
    (r.0, connect_watch_dog ∷ analytics_start ∷ run_execution ∷ r.1)

-- A check of `_waitForWorkersToExit`, at a time.
pub record ExitCheck : Type 0 where
  pub is_execution_finished : Bool
  pub client_ready : Bool
  pub online_client_count : ℕ
  pub now : ℕ

abbrev pub has_left : ℕ → ExitCheck → Bool
has_left time_out_at k =
    k.is_execution_finished
    || not k.client_ready
    || k.online_client_count == 0
    || ltb time_out_at k.now

abbrev pub checked : ℕ → List ExitCheck → Option ℕ
checked time_out_at [] = none
checked time_out_at (k ∷ l) =
    let rest = checked time_out_at l in if has_left time_out_at k then some k.now else rest

-- With no worker online there is no wait. The result is the time at which it ends, `none` where the checks run out.
unfoldable pub wait_for_workers_to_exit : ℕ → ℕ → ℕ → List ExitCheck → Option ℕ
wait_for_workers_to_exit worker_disconnect_timeout online now l =
    if online == 0 then some now else checked (worker_disconnect_timeout + now) l

checked-ends :
    (time_out_at : ℕ) (l : List ExitCheck)
    → any_of (λ k. ltb time_out_at k.now) l ≡ true
    → (t : ℕ) × (checked time_out_at l ≡ some t)
checked-ends time_out_at [] h = absurd (ground arith)
checked-ends time_out_at (k ∷ l) h = elim (Bool-cases (has_left time_out_at k)) [
  | inl o ↦ rw o (k.now, refl)
  | inr o ↦ rw o (checked-ends time_out_at l (ground arith))
]

-- A check after the timeout ends the wait for the workers, at the latest.
wait_for_workers_to_exit-ends :
    (timeout online now : ℕ) (l : List ExitCheck)
    → any_of (λ k. ltb (timeout + now) k.now) l ≡ true
    → (t : ℕ) × (wait_for_workers_to_exit timeout online now l ≡ some t)
unfolding wait_for_workers_to_exit
wait_for_workers_to_exit-ends timeout online now l h = elim (Bool-cases (online == 0)) [
  | inl o ↦ rw o (now, refl)
  | inr o ↦ rw o (checked-ends (timeout + now) l h)
]
