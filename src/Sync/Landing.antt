-- ===== src/Sync/Landing.antt =====
-- What the stores hold after events have landed, and what a pull at the start yields.
use phpo.Base.{
  ℕ, suc, ap, sym, ◌∙◌, ◌≡◌, refl, ◌≢◌, inl, inr, Bool, true, false, Bool-cases, Option, none, some,
  or_else, truthy, List, [], ◌∷◌, take, Text, is_given, All,
}
use phpo.Task.{TaskStore, TaskBrief, TaskBoard, LineType, Params, Context}
use phpo.Task.Live.{sync_board}
use phpo.Task.Trace.{Call, logged, progressed, finished, synced, noted, call, run, IsBacked}
use phpo.Task.Ensure.{KeepsStatus, KeepsStatus-refl, KeepsStatus-trans}
use phpo.Task.Ending.{IsQuiet, run-KeepsStatus}
use phpo.Task.Distinct.{Distinct}
use phpo.Task.OneRecord.{run-Distinct}
use phpo.Task.Follow.{selection, sync_board_follows}
use phpo.App.{AppState, StateSnapshot, apply_snapshot, apply_task_board}
use phpo.Sync.{
  Event, state_changed, service_changed, task_log, task_progress, task_done, noticed, Stores,
  Outside, context_of,
}
use phpo.Sync.Notes.{lines_of}
use phpo.Sync.Land.{
  land_snapshot, write_lines, land_event, land_events, sync_state, retry, bootstrap_state,
}

abbrev notes_calls : Outside → AppState → List (LineType × Text) → List (Context × Call)
notes_calls w a [] = []
notes_calls w a ((level, text) ∷ lines) = (context_of w a, noted level text) ∷ notes_calls w a lines

write_lines-run :
    (w : Outside) (a : AppState) (lines : List (LineType × Text)) (s : TaskStore)
    → write_lines w a lines s ≡ run (notes_calls w a lines) s
unfolding write_lines run call
write_lines-run w a [] s = refl
write_lines-run w a ((level, text) ∷ lines) s = write_lines-run w a lines _

notes_calls-IsQuiet :
    (w : Outside) (a : AppState) (lines : List (LineType × Text))
    → All (λ c. IsQuiet c.1) (notes_calls w a lines)
notes_calls-IsQuiet w a [] = tt
notes_calls-IsQuiet w a (l ∷ lines) = (tt, notes_calls-IsQuiet w a lines)

notes_calls-IsBacked :
    (w : Outside) (a : AppState) (lines : List (LineType × Text))
    → All IsBacked (notes_calls w a lines)
notes_calls-IsBacked w a [] = tt
notes_calls-IsBacked w a (l ∷ lines) = (tt, notes_calls-IsBacked w a lines)

module _ (t : Text → Params → Text) where
  -- The calls of the task store that an event makes.
  abbrev pub calls_of : Outside → Event → AppState → List (Context × Call)
  calls_of w (state_changed none) a = []
  calls_of w (state_changed (some snap)) a =
      (
        context_of w (apply_snapshot snap a),
        synced (or_else snap.tasks (record { running = none; pending = [] })),
      )
      ∷ []
  calls_of w (service_changed kind version running) a = []
  calls_of w (task_log id level text code params) a =
      (context_of w a, logged id level text code params) ∷ []
  calls_of w (task_progress id step total) a = (context_of w a, progressed id step total) ∷ []
  calls_of w (task_done id status duration) a = (context_of w a, finished id status duration) ∷ []
  calls_of w (noticed n) a = notes_calls w a (lines_of t n)

  land_event-run :
      (w : Outside) (e : Event) (s : Stores)
      → (land_event t w e s).task ≡ run (calls_of w e s.app) s.task
  unfolding land_event land_snapshot run call
  land_event-run w (state_changed none) s = refl
  land_event-run w (state_changed (some snap)) s = refl
  land_event-run w (service_changed none version running) s = refl
  land_event-run w (service_changed (some kind) version running) s =
      elim (Bool-cases (truthy version)) [ inl e ↦ rw e refl | inr e ↦ rw e refl ]
  land_event-run w (task_log id level text code params) s = refl
  land_event-run w (task_progress id step total) s = refl
  land_event-run w (task_done id status duration) s = refl
  land_event-run w (noticed n) s = write_lines-run w s.app (lines_of t n) s.task

  calls_of-IsBacked : (w : Outside) (e : Event) (a : AppState) → All IsBacked (calls_of w e a)
  calls_of-IsBacked w (state_changed none) a = tt
  calls_of-IsBacked w (state_changed (some snap)) a = (tt, tt)
  calls_of-IsBacked w (service_changed kind version running) a = tt
  calls_of-IsBacked w (task_log id level text code params) a = (tt, tt)
  calls_of-IsBacked w (task_progress id step total) a = (tt, tt)
  calls_of-IsBacked w (task_done id status duration) a = (tt, tt)
  calls_of-IsBacked w (noticed n) a = notes_calls-IsBacked w a (lines_of t n)

  -- Whatever events land, in whatever order, no two records of the pool have one id.
  pub land_events-Distinct :
      (es : List (Outside × Event)) (s : Stores)
      → Distinct s.task.records
      → Distinct (land_events t es s).task.records
  unfolding land_events
  land_events-Distinct [] s h = h
  land_events-Distinct ((w, e) ∷ es) s h = land_events-Distinct es (land_event t w e s) (
      rw (land_event-run w e s)
        (run-Distinct (calls_of w e s.app) s.task (calls_of-IsBacked w e s.app) h))

  abbrev pub IsNoEnd : Event → Type 0
  IsNoEnd (task_done id status duration) = ⊥
  IsNoEnd _ = Unit

  calls_of-IsQuiet :
      (w : Outside) (e : Event) (a : AppState) → IsNoEnd e → All (λ c. IsQuiet c.1) (calls_of w e a)
  calls_of-IsQuiet w (state_changed none) a q = tt
  calls_of-IsQuiet w (state_changed (some snap)) a q = (tt, tt)
  calls_of-IsQuiet w (service_changed kind version running) a q = tt
  calls_of-IsQuiet w (task_log id level text code params) a q = (tt, tt)
  calls_of-IsQuiet w (task_progress id step total) a q = (tt, tt)
  calls_of-IsQuiet w (task_done id status duration) a q = elim q [ ]
  calls_of-IsQuiet w (noticed n) a q = notes_calls-IsQuiet w a (lines_of t n)

  -- `task:done` is the one event that ends a task: over any sequence of the other events, a task that
  -- the pool shows as ended had ended before, in the same way.
  pub land_events-KeepsStatus :
      (es : List (Outside × Event)) (s : Stores)
      → All (λ e. IsNoEnd e.1) es
      → KeepsStatus s.task.records (land_events t es s).task.records
  unfolding land_events
  land_events-KeepsStatus [] s q = KeepsStatus-refl s.task.records
  land_events-KeepsStatus ((w, e) ∷ es) s (q, qs) =
      let one : KeepsStatus s.task.records (land_event t w e s).task.records =
        rw (land_event-run w e s) (
          run-KeepsStatus (calls_of w e s.app) s.task (calls_of-IsBacked w e s.app)
            (calls_of-IsQuiet w e s.app q)) in
      KeepsStatus-trans one (land_events-KeepsStatus es (land_event t w e s) qs)

  apply_snapshot-tasks :
      (snap : StateSnapshot) (a : AppState)
      → (apply_snapshot snap a).tasks ≡ or_else snap.tasks (record { running = none; pending = [] })
  unfolding apply_snapshot apply_task_board
  apply_snapshot-tasks snap a = refl

  -- With a backend, the snapshot in which a new task runs leaves both stores agreeing: the state store
  -- has its queue, and the drawer is open on that task.
  pub land_event_follows :
      (w : Outside) (snap : StateSnapshot) (b : TaskBoard) (cur : TaskBrief) (s : Stores)
      → w.has_backend ≡ true
      → snap.tasks ≡ some b
      → b.running ≡ some cur
      → is_given cur.id ≡ true
      → s.task.followed_id ≢ cur.id
      → ((land_event t w (state_changed (some snap)) s).app.tasks ≡ b)
        × (selection (land_event t w (state_changed (some snap)) s).task ≡ (cur.id, true, cur.id))
  unfolding land_event land_snapshot
  land_event_follows w snap b cur s h tasks runs given new =
      let empty : TaskBoard = record { running = none; pending = [] } in
      let a = apply_snapshot snap s.app in
      let same : or_else snap.tasks empty ≡ b = rw tasks refl in
      let queue : a.tasks ≡ b = apply_snapshot-tasks snap s.app ∙ same in
      (
        queue,
        ap (λ x. selection (sync_board (context_of w a) x s.task)) (same ∙ sym queue)
            ∙ sync_board_follows (context_of w a) cur s.task h (ap (λ x. x.running) queue ∙ runs)
                given new,
      )

-- The first attempt that gets a snapshot, with that snapshot.
abbrev pub first_reply : List (Outside × Option StateSnapshot) → Option (Outside × StateSnapshot)
first_reply [] = none
first_reply ((w, none) ∷ rest) = first_reply rest
first_reply ((w, some snap) ∷ rest) = some (w, snap)

-- What is left of a pull that gets this reply.
abbrev pub pulled : Stores → Option (Outside × StateSnapshot) → Stores × Bool
pulled s none = (s, false)
pulled s (some (w, snap)) = (land_snapshot w snap s, true)

retry_done :
    (replies : List (Outside × Option StateSnapshot)) (s : Stores)
    → retry replies (s, true) ≡ (s, true)
unfolding retry
retry_done [] s = refl
retry_done ((w, reply) ∷ replies) s = refl

retry_lem :
    (replies : List (Outside × Option StateSnapshot)) (s : Stores)
    → retry replies (s, false) ≡ pulled s (first_reply replies)
unfolding retry
retry_lem [] s = refl
retry_lem ((w, none) ∷ replies) s = retry_lem replies s
retry_lem ((w, some snap) ∷ replies) s = retry_done replies (land_snapshot w snap s)

-- With a backend, and at least one attempt, the start lands the snapshot of the first of its attempts
-- that gets one, and no other; it tells so, and when none gets one the stores are as they were.
pub bootstrap_state_lem :
    (attempts : ℕ) (w : Outside) (reply : Option StateSnapshot)
    (replies : List (Outside × Option StateSnapshot)) (s : Stores)
    → bootstrap_state (suc attempts) true (w, reply) replies s
      ≡ pulled s (first_reply ((w, reply) ∷ take attempts replies))
unfolding bootstrap_state sync_state
bootstrap_state_lem attempts w none replies s = retry_lem (take attempts replies) s
bootstrap_state_lem attempts w (some snap) replies s =
    retry_done (take attempts replies) (land_snapshot w snap s)
