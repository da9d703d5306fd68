-- ===== src/Execution/Phases.antt =====
-- The life of an execution as packages/teraslice/lib/cluster/storage/execution.js enforces it.
use teraslice.Base.{ℕ, ◌≤◌, ◌<◌, ◌≡◌, ◌↔◌, ◌⊎◌, true, some, arith, is_ok}
use teraslice.Execution.Status.{
  Status, is_valid_status, pending, scheduling, initializing, running, failing, paused, stopping,
  completed, stopped, rejected, failed, terminated, other,
}
use teraslice.Execution.Store.{check_update}

-- Starting, running, ended. A text that is no status has none of these.
abbrev pub phase : Status → ℕ
phase pending = 0
phase scheduling = 0
phase initializing = 0
phase running = 1
phase failing = 1
phase paused = 1
phase stopping = 1
phase completed = 2
phase stopped = 2
phase rejected = 2
phase failed = 2
phase terminated = 2
phase (other s) = 3

pub is_valid_iff : (s : Status) → (is_valid_status s ≡ true) ↔ (phase s ≤ 2)
unfolding is_valid_status
is_valid_iff pending = ground arith
is_valid_iff _ = ground arith

-- The callback lets a status through exactly when it is the stored one, or the stored one has not
-- ended and is in no later phase.
pub check_update_iff :
    (s t : Status)
    → phase s ≤ 2
    → phase t ≤ 2
    → (is_ok (check_update (some s) t) ≡ true) ↔ ((s ≡ t) ⊎ ((phase s < 2) × (phase s ≤ phase t)))
unfolding check_update
check_update_iff pending pending h k = ground arith
check_update_iff _ _ h k = ground arith
