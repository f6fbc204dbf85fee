-- ===== src/Sync/Inflight.antt =====
-- Proofs about the in-flight counters of frontend/src/stores/taskStore.ts under the backend's events.
use phpo.Base.{
  ℕ, ◌≡◌, refl, ◌∙◌, Bool, true, false, Option, none, some, Option-cases, inl, inr, is_some, find,
  List, [], ◌∷◌, Text, is_given, str_eq, truthy, if◌then◌else◌,
}
use phpo.Task.{
  TaskStore, TaskBrief, TaskBoard, TaskLine, TaskMeta, LineType, Params, Context, TaskStatus,
  is_running_status,
}
use phpo.Task.Records.{find_record}
use phpo.Task.Live.{
  ensure_live, ensure_id, write, follow, sync_running, sync_pending, leave_withdrawn, land_running,
  running_id, sync_board, dequeued, append_log, set_progress, finish, event_line,
}
use phpo.App.{AppState, StateSnapshot}
use phpo.Sync.{
  Event, state_changed, service_changed, task_log, task_progress, task_done, noticed, Stores,
  Outside, context_of,
}
use phpo.Sync.Notes.{lines_of}
use phpo.Sync.Land.{land_event, land_snapshot, write_lines}
use phpo.Task.Demo.{start}

if-inflight :
    (b : Bool) (x y : TaskStore) (counts : List (Text × ℕ))
    → x.inflight ≡ counts
    → y.inflight ≡ counts
    → (if b then x else y).inflight ≡ counts
if-inflight true x y counts e f = e
if-inflight false x y counts e f = f

if_pair-inflight :
    (b : Bool) (x y : TaskStore × Bool) (counts : List (Text × ℕ))
    → x.0.inflight ≡ counts
    → y.0.inflight ≡ counts
    → (if b then x else y).0.inflight ≡ counts
if_pair-inflight true x y counts e f = e
if_pair-inflight false x y counts e f = f

ensure_live-inflight :
    (ctx : Context) (id label type : Text) (total : ℕ) (code : Option Text) (params : Option Params)
    (s : TaskStore)
    → (ensure_live ctx id label type total code params s).inflight ≡ s.inflight
unfolding ensure_live
ensure_live-inflight ctx id label type total code params s =
    elim (Option-cases (find_record id s.records)) [
      | inl n ↦ rw (n, ensure_live) refl
      | inr (r, n) ↦ rw (n, ensure_live) refl
    ]

sync_pending-inflight :
    (ctx : Context) (ps : List TaskBrief) (s : TaskStore)
    → (sync_pending ctx ps s).inflight ≡ s.inflight
unfolding sync_pending
sync_pending-inflight ctx [] s = refl
sync_pending-inflight ctx (p ∷ ps) s =
    sync_pending-inflight ctx ps
      (ensure_live ctx p.id p.label p.type p.total p.label_code p.label_params s)
    ∙ ensure_live-inflight ctx p.id p.label p.type p.total p.label_code p.label_params s

follow-inflight : (id : Text) (s : TaskStore) → (follow id s).inflight ≡ s.inflight
unfolding follow
follow-inflight id s =
    if-inflight (str_eq s.followed_id id) s
      (record s { followed_id = id; active_id = id; expanded = true }) s.inflight refl refl

sync_running-inflight :
    (ctx : Context) (o : Option TaskBrief) (s : TaskStore)
    → (sync_running ctx o s).inflight ≡ s.inflight
unfolding sync_running
sync_running-inflight ctx none s = refl
sync_running-inflight ctx (some cur) s =
    let started =
      ensure_live ctx cur.id cur.label cur.type cur.total cur.label_code cur.label_params s in
    let landed = write cur.id (land_running ctx cur) started in
    if-inflight (is_given cur.id) (follow cur.id landed) s s.inflight
      (follow-inflight cur.id landed
        ∙ ensure_live-inflight ctx cur.id cur.label cur.type cur.total cur.label_code
            cur.label_params s)
      refl

leave_withdrawn-inflight :
    (ctx : Context) (id : Text) (s : TaskStore) → (leave_withdrawn ctx id s).inflight ≡ s.inflight
unfolding leave_withdrawn
leave_withdrawn-inflight ctx id s = elim (Option-cases (find_record s.active_id s.records)) [
  | inl n ↦ rw (n, leave_withdrawn) refl
  | inr (r, n) ↦
      rw (n, leave_withdrawn)
        (if-inflight (dequeued ctx r) (record s { active_id = id }) s s.inflight refl refl)
]

pub sync_board-inflight :
    (ctx : Context) (b : TaskBoard) (s : TaskStore) → (sync_board ctx b s).inflight ≡ s.inflight
unfolding sync_board
sync_board-inflight ctx b s =
    let running = sync_running ctx b.running s in
    leave_withdrawn-inflight ctx (running_id b) (sync_pending ctx b.pending running)
    ∙ sync_pending-inflight ctx b.pending running
    ∙ sync_running-inflight ctx b.running s

pub start-inflight :
    (ctx : Context) (script : List TaskLine) (args : List Text) (label : Option Text)
    (meta : TaskMeta) (ticks : ℕ × ℕ) (s : TaskStore)
    → (start ctx script args label meta ticks s).0.inflight ≡ s.inflight
unfolding start
start-inflight ctx script args label meta ticks s =
    if_pair-inflight ctx.has_backend _ _ s.inflight refl (
      if_pair-inflight (is_some (find (λ r. is_running_status r.status) s.records)) _ _ s.inflight
        refl refl)

ensure_id-inflight :
    (ctx : Context) (id : Text) (s : TaskStore) → (ensure_id ctx id s).inflight ≡ s.inflight
unfolding ensure_id
ensure_id-inflight ctx id s = ensure_live-inflight ctx id [] [] 0 none none s

append_log-inflight :
    (ctx : Context) (id : Text) (level : LineType) (text : Text) (code : Option Text)
    (params : Option Params) (s : TaskStore)
    → (append_log ctx id level text code params s).inflight ≡ s.inflight
unfolding append_log
append_log-inflight ctx id level text code params s =
    if-inflight (is_given id) _ s s.inflight (ensure_id-inflight ctx id s) refl

set_progress-inflight :
    (ctx : Context) (id : Text) (step total : ℕ) (s : TaskStore)
    → (set_progress ctx id step total s).inflight ≡ s.inflight
unfolding set_progress
set_progress-inflight ctx id step total s =
    if-inflight (is_given id) _ s s.inflight (ensure_id-inflight ctx id s) refl

finish-inflight :
    (ctx : Context) (id : Text) (status : TaskStatus) (duration : Option ℕ) (s : TaskStore)
    → (finish ctx id status duration s).inflight ≡ s.inflight
unfolding finish
finish-inflight ctx id status duration s =
    if-inflight (is_given id) _ s s.inflight (ensure_id-inflight ctx id s) refl

event_line-inflight :
    (ctx : Context) (level : LineType) (text : Text) (s : TaskStore)
    → (event_line ctx level text s).inflight ≡ s.inflight
unfolding event_line
event_line-inflight ctx level text s =
    if-inflight (is_given (running_id ctx.tasks)) _ _ s.inflight
      (append_log-inflight ctx (running_id ctx.tasks) level text none none s) refl

write_lines-inflight :
    (w : Outside) (a : AppState) (lines : List (LineType × Text)) (s : TaskStore)
    → (write_lines w a lines s).inflight ≡ s.inflight
unfolding write_lines
write_lines-inflight w a [] s = refl
write_lines-inflight w a ((level, text) ∷ lines) s =
    write_lines-inflight w a lines (event_line (context_of w a) level text s)
    ∙ event_line-inflight (context_of w a) level text s

if_stores-inflight :
    (b : Bool) (x y : Stores) (counts : List (Text × ℕ))
    → x.task.inflight ≡ counts
    → y.task.inflight ≡ counts
    → (if b then x else y).task.inflight ≡ counts
if_stores-inflight true x y counts e f = e
if_stores-inflight false x y counts e f = f

pub land_snapshot-inflight :
    (w : Outside) (snap : StateSnapshot) (s : Stores)
    → (land_snapshot w snap s).task.inflight ≡ s.task.inflight
unfolding land_snapshot
land_snapshot-inflight w snap s = sync_board-inflight _ _ s.task

pub land_event-inflight :
    (t : Text → Params → Text) (w : Outside) (v : Event) (s : Stores)
    → (land_event t w v s).task.inflight ≡ s.task.inflight
unfolding land_event
land_event-inflight t w (state_changed none) s = refl
land_event-inflight t w (state_changed (some snap)) s = land_snapshot-inflight w snap s
land_event-inflight t w (service_changed none version running) s = refl
land_event-inflight t w (service_changed (some kind) version running) s =
    if_stores-inflight (truthy version) _ s s.task.inflight refl refl
land_event-inflight t w (task_log id level text code params) s =
    append_log-inflight (context_of w s.app) id level text code params s.task
land_event-inflight t w (task_progress id step total) s =
    set_progress-inflight (context_of w s.app) id step total s.task
land_event-inflight t w (task_done id status duration) s =
    finish-inflight (context_of w s.app) id status duration s.task
land_event-inflight t w (noticed n) s = write_lines-inflight w s.app (lines_of t n) s.task
