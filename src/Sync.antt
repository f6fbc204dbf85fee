-- ===== src/Sync.antt =====
-- How the backend's events land in the stores (frontend/src/composables/useStateSync.ts, the events of
-- frontend/src/api/events.ts): Sync/Notes has the lines that events leave in the drawer's log, Sync/Land
-- the landing of an event, the pulls of a snapshot and the retries; Sync/Landing holds proofs.
pub mod Notes
pub mod Land
pub mod Landing
pub mod Inflight
use phpo.Base.{ℕ, Bool, Option, List, Text}
use phpo.Task.{TaskStatus, LineType, Params, TaskStore, Context}
use phpo.App.{ServiceKind, ServiceGap, StateSnapshot, AppState}

-- The payloads of the events that only leave a line in the log; a field that the code guards is an
-- option.
pub data Notice : Type 0 where
  cache_hit : (kind version source : Text) (size : Option ℕ) → Notice
  cache_miss : (kind version action : Text) (source : Option Text) → Notice
  cache_promote : (kind version : Text) (entries : ℕ) → Notice
  cache_corrupted : (kind version : Text) → Notice
  cache_cleanup : (mode : Text) (freed_bytes : Option ℕ) → Notice
  cache_tempdir_cleared : (path reason : Text) → Notice
  docker_cleanup : (stage resource action : Text) → Notice
  docker_orphan_found : (resources : ℕ) → Notice
  docker_state_drift :
      (expected actual error : Option Text) (gaps : Option (List ServiceGap)) → Notice
  update_available : (version : Text) (size : Option ℕ) → Notice
  update_done : (status : Text) (version error : Option Text) → Notice
  update_progress : Notice

pub data Event : Type 0 where
  state_changed : (snapshot : Option StateSnapshot) → Event
  service_changed : (kind : Option ServiceKind) (version : Option Text) (running : Bool) → Event
  task_log :
      (id : Text) (level : LineType) (text : Text) (code : Option Text) (params : Option Params)
      → Event
  task_progress : (id : Text) (step total : ℕ) → Event
  task_done : (id : Text) (status : TaskStatus) (duration : Option ℕ) → Event
  noticed : Notice → Event

-- The two stores that events land in, and whether a fresh snapshot is to be pulled.
pub record Stores : Type 0 where
  pub app : AppState
  pub task : TaskStore
  pub pulls : Bool

-- What the stores read of the outside: `hasBackend`, the clock, `Date.parse`.
pub record Outside : Type 0 where
  pub has_backend : Bool
  pub now : ℕ
  pub parse_date : Text → Option ℕ

-- The task store reads the queue in the state store as it is at the call.
abbrev pub context_of : Outside → AppState → Context
context_of w a = record {
  has_backend = w.has_backend;
  tasks = a.tasks;
  now = w.now;
  parse_date = w.parse_date;
}
