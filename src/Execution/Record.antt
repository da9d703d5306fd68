-- ===== src/Execution/Record.antt =====
-- The document of an execution, with the fields that the storage and the services read and write.
use teraslice.Base.{ℕ, Bool, Option, none, List, String}
use teraslice.Execution.Status.{Status}

-- `interval` of an operation's configuration: a text, or the parts of one.
pub data Interval : Type 0 where
  text : String → Interval
  parts : List String → Interval

pub record OpConfig : Type 0 where
  pub op : String
  pub interval : Option Interval

pub record Execution : Type 0 where
  pub ex_id : Option String
  pub job_id : String
  pub status : Option Status
  pub lifecycle : String
  pub slicers : ℕ
  pub workers : ℕ
  pub operations : List OpConfig
  pub slicer_hostname : Option String
  pub slicer_port : Option ℕ
  pub has_errors : Option Bool
  pub slicer_stats : Option String
  pub failure_reason : Option String
  pub recovered_slice_state : Option String
  pub recovered_execution : Option String
  pub recovered_slice_type : Option String
  pub created : Option ℕ
  pub updated : Option ℕ

-- The metadata that `setStatus` assigns beside the status.
pub record MetaData : Type 0 where
  pub errors : Option Bool
  pub stats : Option String
  pub reason : Option String
  pub port : Option ℕ
  pub hostname : Option String

abbrev pub no_metadata : MetaData
no_metadata = record { errors = none; stats = none; reason = none; port = none; hostname = none }
