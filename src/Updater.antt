-- ===== src/Updater.antt =====
-- The updater's store (frontend/src/stores/updaterStore.ts, its types in
-- frontend/src/types/index.ts).
pub mod Rounds
use phpo.Base.{
  ℕ, Bool, true, false, not, Option, none, some, is_some, List, [], ◌∷◌, Text, str_eq, is_given,
  if◌then◌else◌,
}

pub record UpdateAvailable : Type 0 where
  pub version : Text
  pub changelog : Text
  pub size : ℕ
  pub source : Option Text
  pub download_page : Option Text

pub data UpdateStage : Type 0 where
  download verify install : UpdateStage

pub record UpdateProgress : Type 0 where
  pub stage : UpdateStage
  pub percent : ℕ
  pub speed : ℕ

pub data UpdateDoneStatus : Type 0 where
  running success failed cancelled : UpdateDoneStatus

pub record UpdateDone : Type 0 where
  pub status : UpdateDoneStatus
  pub version : Text

-- `stored` is the browser's stored version to ignore.
pub record UpdaterStore : Type 0 where
  pub available : Option UpdateAvailable
  pub progress : Option UpdateProgress
  pub done : Option UpdateDone
  pub dismissed : Text
  pub stored : Option Text

-- The store at the start, with what the browser has stored.
unfoldable pub open_store : Option Text → UpdaterStore
open_store stored = record {
  available = none;
  progress = none;
  done = none;
  dismissed = elim stored [ none ↦ [] | some v ↦ v ];
  stored = stored;
}

unfoldable pub has_update : UpdaterStore → Bool
has_update s = elim s.available [ none ↦ false | some a ↦ not (str_eq a.version s.dismissed) ]

unfoldable pub set_available : Option UpdateAvailable → UpdaterStore → UpdaterStore
set_available a s = record s { available = a; done = if is_some a then none else s.done }

unfoldable pub set_progress : Option UpdateProgress → UpdaterStore → UpdaterStore
set_progress p s = record s { progress = p; done = if is_some p then none else s.done }

unfoldable pub set_done : Option UpdateDone → UpdaterStore → UpdaterStore
set_done d s = record s { done = d; progress = if is_some d then none else s.progress }

unfoldable pub reset : UpdaterStore → UpdaterStore
reset s = record s { progress = none; done = none }

-- `writes` is whether the browser's storage takes the write: `setItem` may throw after `dismissed` is
-- set, and the stored version stays.
unfoldable pub dismiss : Text → Bool → UpdaterStore → UpdaterStore
dismiss v writes s =
    if is_given v
    then record s { dismissed = v; stored = if writes then some v else s.stored }
    else s

unfoldable pub undismiss : Bool → UpdaterStore → UpdaterStore
undismiss writes s = record s { dismissed = []; stored = if writes then none else s.stored }
