-- ===== src/Task.antt =====
-- The task store (frontend/src/stores/taskStore.ts): its data. The operations are in the modules
-- below: Records (the pool and `trim`), Live (what the backend's events do), View (what the drawer
-- shows), Busy (the buttons' in-flight counters), History (the ledger and `clearAll`), Demo (the
-- replay without a backend).
pub mod Records
pub mod Live
pub mod Pool
pub mod Ensure
pub mod Status
pub mod Logs
pub mod View
pub mod Busy
pub mod Counting
pub mod History
pub mod Demo
pub mod Distinct
pub mod Trace
pub mod OneRecord
pub mod Ledger
pub mod Follow
pub mod Ending
pub mod Replay
pub mod Shown
use phpo.Base.{ℕ, Bool, Option, List, Text}

pub data TaskStatus : Type 0 where
  running success failed cancelled : TaskStatus

pub data TaskDisplayStatus : Type 0 where
  waiting running done failed cancelled unknown : TaskDisplayStatus

pub data LineType : Type 0 where
  cmd meta ok dim err : LineType

-- Message parameters, and any other object used as a string map.
abbrev pub Params : Type 0
Params = List (Text × Text)

pub record TaskLine : Type 0 where
  pub t : LineType
  pub s : Text
  pub c : Option Text
  pub p : Option Params

-- The fields of the open-ended `TaskMeta` that the store itself reads.
pub record TaskMeta : Type 0 where
  pub type : Text
  pub kind : Option Text
  pub version : Option Text
  pub domain : Option Text
  pub file : Option Text

pub record TaskRecord : Type 0 where
  pub id : Text
  pub args : List Text
  pub label : Text
  pub label_code : Option Text
  pub label_params : Option Params
  pub meta : TaskMeta
  pub lines : List TaskLine
  pub status : TaskStatus
  pub cursor : ℕ
  pub started_at : ℕ
  pub ended_at : Option ℕ
  pub cancelled : Bool
  pub abort_reason : Option Text
  pub timer : Option ℕ
  pub live : Bool
  pub step : ℕ
  pub total : ℕ
  pub last_err : Option Text
  pub error_code : Option Text
  pub error_params : Option Params
  pub last_err_code : Option Text
  pub last_err_params : Option Params
  pub error : Option Text
  pub duration_ms : Option ℕ

pub record TaskBrief : Type 0 where
  pub id : Text
  pub label : Text
  pub label_code : Option Text
  pub label_params : Option Params
  pub type : Text
  pub kind : Option Text
  pub version : Option Text
  pub domain : Option Text
  pub step : ℕ
  pub total : ℕ
  pub started_at : Option Text

pub record TaskBoard : Type 0 where
  pub running : Option TaskBrief
  pub pending : List TaskBrief

-- The store's refs and its private variables; `records` is newest first.
pub record TaskStore : Type 0 where
  pub records : List TaskRecord
  pub active_id : Text
  pub expanded : Bool
  pub sys_lines : List TaskLine
  pub inflight : List (Text × ℕ)
  pub cmd_by_label : List (Text × List Text)
  pub followed_id : Text
  pub demo_seq : ℕ

-- What an operation reads besides the store: whether there is a backend, the queue of the last
-- snapshot (`app.tasks`), the clock, and `Date.parse` (`none` for NaN, times before 1970 as 0).
pub record Context : Type 0 where
  pub has_backend : Bool
  pub tasks : TaskBoard
  pub now : ℕ
  pub parse_date : Text → Option ℕ

abbrev pub is_running_status : TaskStatus → Bool
is_running_status running = Bool.true
is_running_status success = Bool.false
is_running_status failed = Bool.false
is_running_status cancelled = Bool.false
