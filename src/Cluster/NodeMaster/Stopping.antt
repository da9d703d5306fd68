-- ===== src/Cluster/NodeMaster/Stopping.antt =====
-- shutdownProcesses of packages/teraslice/lib/cluster/node_master.js, one run of its interval at a time.
use teraslice.Cluster.NodeMaster.{Child, shutdown_workers}
use teraslice.Base.{
  ℕ, ◌+◌, ◌-◌, String, Bool, true, false, List, [], ◌∷◌, ◌++◌, ◌==◌, if◌then◌else◌, zero, suc, ◌*◌,
  ◌≤◌, ◌<◌, ◌≡◌, refl, ap, ◌∙◌, ◌⊎◌, inl, inr, arith, length,
}

pub record Shutdown : Type 0 where
  pub is_set : Bool
  pub stop_time : ℕ
  pub signals : List (String × ℕ)
  pub responses : ℕ

-- What the filter gives is asked again whenever signals are sent.
unfoldable pub begin_shutdown : ℕ → Bool → List String → List Child → Shutdown
unfolding shutdown_workers
begin_shutdown timeout only_sig_kill ids children = record {
  is_set = true;
  stop_time = timeout + 3000;
  signals = if only_sig_kill then [] else shutdown_workers "SIGTERM" ids children;
  responses = 0;
}

abbrev pub complete_part : Bool → Bool → Shutdown → Shutdown
complete_part needs_response done s =
    if done
    then record s {
      is_set = false;
      responses = if needs_response then s.responses + 1 else s.responses;
    }
    else s

abbrev pub timeout_part : Bool → List String → List Child → Shutdown → Shutdown
unfolding shutdown_workers
timeout_part needs_response ids children s =
    if s.stop_time == 0
    then record s {
      is_set = false;
      signals = s.signals ++ shutdown_workers "SIGKILL" ids children;
      responses = if needs_response then s.responses + 1 else s.responses;
    }
    else s

-- `stopTime` is only compared with 0, so that it may stop there.
unfoldable pub shutdown_tick : Bool → Bool → List String → List Child → Shutdown → Shutdown
unfolding shutdown_workers
shutdown_tick needs_response done ids children s =
    if s.is_set
    then (let s' = timeout_part needs_response ids children (complete_part needs_response done s) in
        record s' { stop_time = s'.stop_time - 200 })
    else s

-- What the runs of the interval see: whether the action is complete, the filter, the children.
pub record Seen : Type 0 where
  pub done : Bool
  pub ids : List String
  pub children : List Child

unfoldable pub shutdown_ticks : Bool → List Seen → Shutdown → Shutdown
unfolding shutdown_tick
shutdown_ticks needs_response [] s = s
shutdown_ticks needs_response (v ∷ l) s =
    shutdown_ticks needs_response l (shutdown_tick needs_response v.done v.ids v.children s)

tick-cleared :
    (needs_response done : Bool) (ids : List String) (children : List Child) (s : Shutdown)
    → s.is_set ≡ false
    → shutdown_tick needs_response done ids children s ≡ s
unfolding shutdown_tick
tick-cleared needs_response done ids children s h = ground arith

cleared :
    (needs_response : Bool) (l : List Seen) (s : Shutdown)
    → s.is_set ≡ false
    → shutdown_ticks needs_response l s ≡ s
unfolding shutdown_ticks shutdown_tick
cleared needs_response [] s h = refl
cleared needs_response (v ∷ l) s h =
    ap (shutdown_ticks needs_response l) (tick-cleared needs_response v.done v.ids v.children s h)
    ∙ cleared needs_response l s h

-- How often the request may be answered so far.
abbrev Answered : Bool → Shutdown → Type 0
Answered needs_response s =
    (s.is_set ≡ false)
    × ((if needs_response then 1 else 0) ≤ s.responses)
    × (s.responses ≤ (if needs_response then 2 else 0))

tick-Answered :
    (needs_response done : Bool) (ids : List String) (children : List Child) (s : Shutdown)
    → s.is_set ≡ true
    → s.responses ≡ 0
    → let r = shutdown_tick needs_response done ids children s in
      Answered needs_response r
      ⊎ ((r.is_set ≡ true)
          × (r.responses ≡ 0)
          × (r.stop_time ≤ s.stop_time - 200)
          × (0 < s.stop_time))
unfolding shutdown_tick
tick-Answered true true ids children s h k = ground arith
tick-Answered true false ids children s h k = ground arith
tick-Answered false true ids children s h k = ground arith
tick-Answered false false ids children s h k = ground arith

ticks-Answered :
    (needs_response : Bool) (n : ℕ) (l : List Seen) (s : Shutdown)
    → s.is_set ≡ true
    → s.responses ≡ 0
    → length l ≡ suc n
    → s.stop_time ≤ 200 * n
    → Answered needs_response (shutdown_ticks needs_response l s)
unfolding shutdown_ticks
ticks-Answered needs_response n [] s h k hl hn = absurd (omega arith)
ticks-Answered needs_response zero (v ∷ l) s h k hl hn =
    elim (tick-Answered needs_response v.done v.ids v.children s h k) [
      | inl a ↦
          rw (cleared needs_response l (shutdown_tick needs_response v.done v.ids v.children s) a.0)
            a
      | inr a ↦ absurd (omega arith)
    ]
ticks-Answered needs_response (suc n) (v ∷ l) s h k hl hn =
    let s' = shutdown_tick needs_response v.done v.ids v.children s in
    elim (tick-Answered needs_response v.done v.ids v.children s h k) [
      | inl a ↦ rw (cleared needs_response l s' a.0) a
      | inr a ↦ ticks-Answered needs_response n l s' a.0 a.1 (omega arith) (omega arith)
    ]

-- Whatever its runs see, the interval of a shutdown ends: once the timeout and three more seconds are
-- over, after one run in every 200 milliseconds, it is cleared. If the message wants a response it has
-- been answered by then, once or twice; otherwise it never is.
pub begin_shutdown-ends :
    (needs_response only_sig_kill : Bool) (timeout n : ℕ) (ids : List String)
    (children : List Child) (l : List Seen)
    → timeout + 3000 ≤ 200 * n
    → length l ≡ suc n
    → let r = shutdown_ticks needs_response l (begin_shutdown timeout only_sig_kill ids children) in
      (r.is_set ≡ false)
      × ((if needs_response then 1 else 0) ≤ r.responses)
      × (r.responses ≤ (if needs_response then 2 else 0))
unfolding begin_shutdown
begin_shutdown-ends needs_response only_sig_kill timeout n ids children l h hl =
    ticks-Answered needs_response n l (begin_shutdown timeout only_sig_kill ids children) refl refl
      hl h
