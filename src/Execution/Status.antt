-- ===== src/Execution/Status.antt =====
-- The statuses of an execution and their three classes, as packages/teraslice/lib/cluster/storage/execution.js lists them.
use teraslice.Base.{ℕ, Bool, List, [], ◌∷◌, ◌++◌, String, ◌==◌, ◌===◌, any_of}

-- The texts that the code lists, and every other text.
pub data Status : Type 0 where
  pending scheduling initializing : Status
  running failing paused stopping : Status
  completed stopped rejected failed terminated : Status
  other : String → Status

abbrev pub code : Status → ℕ
code pending = 0
code scheduling = 1
code initializing = 2
code running = 3
code failing = 4
code paused = 5
code stopping = 6
code completed = 7
code stopped = 8
code rejected = 9
code failed = 10
code terminated = 11
code (other s) = 12

-- `===` on two statuses.
abbrev pub same : Status → Status → Bool
same (other s) (other t) = s === t
same a b = code a == code b

abbrev pub includes : List Status → Status → Bool
includes l s = any_of (same s) l

abbrev pub init_status : List Status
init_status = pending ∷ scheduling ∷ initializing ∷ []

abbrev pub running_status : List Status
running_status = running ∷ failing ∷ paused ∷ stopping ∷ []

abbrev pub terminal_status : List Status
terminal_status = completed ∷ stopped ∷ rejected ∷ failed ∷ terminated ∷ []

abbrev pub valid_status : List Status
valid_status = (init_status ++ running_status) ++ terminal_status

-- `getLivingStatuses`
unfoldable pub living_statuses : List Status
living_statuses = init_status ++ running_status

unfoldable pub is_valid_status : Status → Bool
is_valid_status = includes valid_status

unfoldable pub is_running_status : Status → Bool
is_running_status = includes running_status

unfoldable pub is_terminal_status : Status → Bool
is_terminal_status = includes terminal_status

unfoldable pub is_init_status : Status → Bool
is_init_status = includes init_status
