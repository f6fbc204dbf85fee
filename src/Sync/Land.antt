-- ===== src/Sync/Land.antt =====
-- The landing of an event, `syncState`, `bootstrapState` and `runSync` of
-- frontend/src/composables/useStateSync.ts.
use phpo.Base.{
  ℕ, zero, suc, Bool, true, false, Option, none, some, List, [], ◌∷◌, Text, truthy, or_else, take,
  if◌then◌else◌,
}
use phpo.Task.{TaskStore, LineType, Params}
use phpo.Task.Live.{sync_board, append_log, set_progress, finish, event_line}
use phpo.App.{StateSnapshot, AppState, apply_snapshot, set_service_running}
use phpo.Sync.{
  Notice, docker_state_drift, Event, state_changed, service_changed, task_log, task_progress,
  task_done, noticed, Stores, Outside, context_of,
}
use phpo.Sync.Notes.{lines_of}

-- An absent queue counts as an empty one, for both stores.
unfoldable pub land_snapshot : Outside → StateSnapshot → Stores → Stores
land_snapshot w snap s =
    let a = apply_snapshot snap s.app in
    record s {
      app = a;
      task =
          sync_board (context_of w a) (or_else snap.tasks (record { running = none; pending = [] }))
            s.task;
    }

unfoldable pub write_lines : Outside → AppState → List (LineType × Text) → TaskStore → TaskStore
write_lines w a [] s = s
write_lines w a ((level, text) ∷ lines) s =
    write_lines w a lines (event_line (context_of w a) level text s)

-- A drift makes the code pull a snapshot.
abbrev pub asks_pull : Notice → Bool
asks_pull (docker_state_drift expected actual error gaps) = true
asks_pull _ = false

module _ (t : Text → Params → Text) where
  unfoldable pub land_event : Outside → Event → Stores → Stores
  unfolding land_snapshot write_lines
  land_event w (state_changed none) s = s
  land_event w (state_changed (some snap)) s = land_snapshot w snap s
  land_event w (service_changed none version running) s = s
  land_event w (service_changed (some kind) version running) s =
      if truthy version
      then record s { app = set_service_running kind (or_else version []) running s.app }
      else s
  land_event w (task_log id level text code params) s = record s {
    task = append_log (context_of w s.app) id level text code params s.task;
  }
  land_event w (task_progress id step total) s = record s {
    task = set_progress (context_of w s.app) id step total s.task;
  }
  land_event w (task_done id status duration) s = record s {
    task = finish (context_of w s.app) id status duration s.task;
  }
  land_event w (noticed n) s = record s {
    task = write_lines w s.app (lines_of t n) s.task;
    pulls = if asks_pull n then true else s.pulls;
  }

  -- Events one after the other, each with what it reads of the outside.
  unfoldable pub land_events : List (Outside × Event) → Stores → Stores
  land_events [] s = s
  land_events ((w, e) ∷ es) s = land_events es (land_event w e s)

-- `syncState`, with what `getState` returns: a snapshot, or nothing when there is no host or it fails.
unfoldable pub sync_state : Outside → Option StateSnapshot → Stores → Stores × Bool
sync_state w none s = (s, false)
sync_state w (some snap) s = (land_snapshot w snap s, true)

-- The loop of `bootstrapState`: the further attempts, each with its reply.
unfoldable pub retry : List (Outside × Option StateSnapshot) → Stores × Bool → Stores × Bool
unfolding sync_state
retry [] (s, ok) = (s, ok)
retry ((w, reply) ∷ replies) (s, ok) =
    let rest = retry replies (sync_state w reply s) in if ok then (s, true) else rest

-- `bootstrapState(attempts)`, with the replies that the attempts would get; the first is made in any
-- case, and without a backend it is the only one.
unfoldable pub bootstrap_state :
    ℕ
    → Bool
    → Outside × Option StateSnapshot
    → List (Outside × Option StateSnapshot)
    → Stores
    → Stores × Bool
unfolding retry
bootstrap_state attempts has_backend (w, reply) replies s =
    let first = sync_state w reply s in
    if has_backend
    then (elim attempts [ zero ↦ first | suc n ↦ retry (take n replies) first ])
    else first
