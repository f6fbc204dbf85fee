-- ===== src/Task/OneRecord.antt =====
-- Proofs about the ids in the pool of taskStore.ts.
use phpo.Base.{
  ℕ, ◌≡◌, refl, inl, inr, Bool-cases, Option, none, some, Option-cases, List, [], ◌∷◌, Text,
  is_given, is_some, arith, not, or_else, Bool, false, if◌then◌else◌, ◌||◌, true, All,
}
use phpo.Task.{
  TaskStatus, TaskRecord, TaskLine, TaskMeta, TaskBrief, TaskBoard, TaskStore, Context, Params,
  LineType,
}
use phpo.Task.Records.{find_record}
use phpo.Task.Live.{
  ensure_live, ensure_id, write, land_running, follow, sync_running, sync_pending, leave_withdrawn,
  sync_board, display_of, running_id, push_line, append_log, land_progress, set_progress,
  event_line, end_record, finish,
}
use phpo.Task.History.{
  Operation, load_row, load_rows, load_history, history_record, clear_finish, is_cleared,
  is_running_display,
}
use phpo.Task.Trace.{
  Call, logged, progressed, finished, synced, noted, selected, loaded, cleared, submitted, settled,
  toggled, expanded_set, started, replayed, cancel_asked, IsBacked, call, run,
}
use phpo.Task.Busy.{begin_submit, end_submit}
use phpo.Task.Demo.{
  CancelRequest, ignored, asked, stopped_locally, start, play_next, cancel, stop_record, select,
  toggle, set_expanded,
}
use phpo.Task.Ensure.{refresh_record-id, fresh_record-id}
use phpo.Task.Distinct.{
  Distinct, Distinct-modify, Distinct-trim, find_record-Absent, Distinct-snoc, Distinct-sort_newest,
  Distinct-filter,
}

ensure_live-Distinct :
    (ctx : Context) (id label type : Text) (total : ℕ) (code : Option Text) (params : Option Params)
    (s : TaskStore)
    → Distinct s.records
    → Distinct (ensure_live ctx id label type total code params s).records
unfolding ensure_live
ensure_live-Distinct ctx id label type total code params s h =
    elim (Option-cases (find_record id s.records)) [
      | inl e ↦
          rw (e, ensure_live)
            (Distinct-trim s.active_id _ (
              rw (fresh_record-id s.cmd_by_label label type total code params ctx.now id)
                  (find_record-Absent id s.records e),
              h,
            ))
      | inr (r, e) ↦
          rw (e, ensure_live)
            (Distinct-modify id _ s.records
              (refresh_record-id s.cmd_by_label label type total code params) h)
    ]

ensure_write-Distinct :
    (ctx : Context) (id : Text) (f : TaskRecord → TaskRecord) (s : TaskStore)
    → ((r : TaskRecord) → (f r).id ≡ r.id)
    → Distinct s.records
    → Distinct (write id f (ensure_id ctx id s)).records
unfolding ensure_id
ensure_write-Distinct ctx id f s ids h =
    Distinct-modify id f _ ids (ensure_live-Distinct ctx id [] [] 0 none none s h)

append_log-Distinct :
    (ctx : Context) (id : Text) (level : LineType) (text : Text) (code : Option Text)
    (params : Option Params) (s : TaskStore)
    → Distinct s.records
    → Distinct (append_log ctx id level text code params s).records
unfolding append_log push_line
append_log-Distinct ctx id level text code params s h = elim (Bool-cases (is_given id)) [
  | inl e ↦ rw e (ensure_write-Distinct ctx id (push_line level text code params) s (λ r. refl) h)
  | inr e ↦ rw e h
]

sync_pending-Distinct :
    (ctx : Context) (ps : List TaskBrief) (s : TaskStore)
    → Distinct s.records
    → Distinct (sync_pending ctx ps s).records
unfolding sync_pending
sync_pending-Distinct ctx [] s h = h
sync_pending-Distinct ctx (p ∷ ps) s h =
    sync_pending-Distinct ctx ps _
      (ensure_live-Distinct ctx p.id p.label p.type p.total p.label_code p.label_params s h)

follow-records : (id : Text) (s : TaskStore) → (follow id s).records ≡ s.records
unfolding follow
follow-records id s = ground arith

sync_running-Distinct :
    (ctx : Context) (b : Option TaskBrief) (s : TaskStore)
    → Distinct s.records
    → Distinct (sync_running ctx b s).records
unfolding sync_running land_running
sync_running-Distinct ctx none s h = h
sync_running-Distinct ctx (some cur) s h = elim (Bool-cases (is_given cur.id)) [
  | inl e ↦
      rw (e, follow-records cur.id)
        (Distinct-modify cur.id (land_running ctx cur) _ (λ r. refl)
          (ensure_live-Distinct ctx cur.id cur.label cur.type cur.total cur.label_code
            cur.label_params s h))
  | inr e ↦ rw e h
]

leave_withdrawn-records :
    (ctx : Context) (id : Text) (s : TaskStore) → (leave_withdrawn ctx id s).records ≡ s.records
unfolding leave_withdrawn
leave_withdrawn-records ctx id s = ground arith

history_record-id :
    (ctx : Context) (s : TaskStore) (id : Text) (op : Operation)
    → (history_record ctx s id op).id ≡ id
unfolding history_record
history_record-id ctx s id op = refl

pub load_rows-Distinct :
    (ctx : Context) (at : ℕ) (ops : List Operation) (s : TaskStore)
    → Distinct s.records
    → Distinct (load_rows ctx at ops s).records
unfolding load_rows load_row
load_rows-Distinct ctx at [] s h = h
load_rows-Distinct ctx at (op ∷ ops) s h =
    load_rows-Distinct ctx at ops _
      (elim (Bool-cases (
        not (is_given (or_else op.task_id []))
        || is_some (find_record (or_else op.task_id []) s.records)
        || is_cleared at (ctx.parse_date op.ts))) [
          | inl e ↦ rw e h
          | inr e ↦ rw e (
              Distinct-snoc s.records _ h (
                rw (history_record-id ctx s (or_else op.task_id []) op)
                  (find_record-Absent (or_else op.task_id []) s.records (ground arith))))
        ])

finish-Distinct :
    (ctx : Context) (id : Text) (status : TaskStatus) (duration : Option ℕ) (s : TaskStore)
    → Distinct s.records
    → Distinct (finish ctx id status duration s).records
unfolding finish end_record
finish-Distinct ctx id status duration s h = elim (Bool-cases (is_given id)) [
  | inl e ↦ rw e (
      Distinct-trim (ensure_id ctx id s).active_id _
        (ensure_write-Distinct ctx id (end_record ctx.now status duration) s (λ r. refl) h))
  | inr e ↦ rw e h
]

set_progress-Distinct :
    (ctx : Context) (id : Text) (step total : ℕ) (s : TaskStore)
    → Distinct s.records
    → Distinct (set_progress ctx id step total s).records
unfolding set_progress land_progress
set_progress-Distinct ctx id step total s h = elim (Bool-cases (is_given id)) [
  | inl e ↦ rw e (ensure_write-Distinct ctx id (land_progress step total) s (λ r. refl) h)
  | inr e ↦ rw e h
]

event_line-Distinct :
    (ctx : Context) (level : LineType) (text : Text) (s : TaskStore)
    → Distinct s.records
    → Distinct (event_line ctx level text s).records
unfolding event_line
event_line-Distinct ctx level text s h = elim (Bool-cases (is_given (running_id ctx.tasks))) [
  | inl e ↦ rw e (append_log-Distinct ctx (running_id ctx.tasks) level text none none s h)
  | inr e ↦ rw e h
]

sync_board-Distinct :
    (ctx : Context) (b : TaskBoard) (s : TaskStore)
    → Distinct s.records
    → Distinct (sync_board ctx b s).records
unfolding sync_board
sync_board-Distinct ctx b s h =
    rw (leave_withdrawn-records ctx (running_id b))
      (sync_pending-Distinct ctx b.pending _ (sync_running-Distinct ctx b.running s h))

load_history-Distinct :
    (ctx : Context) (at : ℕ) (ops : List Operation) (s : TaskStore)
    → Distinct s.records
    → Distinct (load_history ctx at ops s).records
unfolding load_history
load_history-Distinct ctx at ops s h =
    Distinct-trim _ _ (Distinct-sort_newest _ (load_rows-Distinct ctx at ops s h))

pub start-records :
    (ctx : Context) (script : List TaskLine) (args : List Text) (label : Option Text)
    (meta : TaskMeta) (tick : ℕ × ℕ) (s : TaskStore)
    → ctx.has_backend ≡ true
    → (start ctx script args label meta tick s).0.records ≡ s.records
unfolding start
start-records ctx script args label meta (now, timer) s backed = rw backed refl

play_next-id : (now timer : ℕ) (t : TaskRecord) → (play_next now timer t).id ≡ t.id
unfolding play_next
play_next-id now timer t = ground arith

if_pair-Distinct :
    (b : Bool) (x y : TaskStore × CancelRequest)
    → Distinct x.0.records
    → Distinct y.0.records
    → Distinct (if b then x else y).0.records
if_pair-Distinct true x y f g = f
if_pair-Distinct false x y f g = g

cancel_shown-Distinct :
    (ctx : Context) (s : TaskStore) (shown : Option TaskRecord)
    → Distinct s.records
    → Distinct
        (elim shown as (λ _. TaskStore × CancelRequest) [
          | none ↦ (s, ignored)
          | some t ↦
              if not (is_running_display (display_of ctx (some t)))
              then (s, ignored)
              else if t.live
              then (s, asked)
              else (write t.id (stop_record ctx.now) s, stopped_locally)
        ]).0.records
unfolding stop_record
cancel_shown-Distinct ctx s none h = h
cancel_shown-Distinct ctx s (some t) h =
    let busy = is_running_display (display_of ctx (some t)) in
    let stopped : TaskStore × CancelRequest =
      (write t.id (stop_record ctx.now) s, stopped_locally) in
    if_pair-Distinct (not busy) (s, ignored) (if t.live then (s, asked) else stopped) h
      (if_pair-Distinct t.live (s, asked) stopped h
        (Distinct-modify t.id (stop_record ctx.now) s.records (λ r. refl) h))

cancel-Distinct :
    (ctx : Context) (s : TaskStore) → Distinct s.records → Distinct (cancel ctx s).0.records
unfolding cancel
cancel-Distinct ctx s h = cancel_shown-Distinct ctx s (find_record s.active_id s.records) h

call-Distinct :
    (ctx : Context) (c : Call) (s : TaskStore)
    → IsBacked (ctx, c)
    → Distinct s.records
    → Distinct (call ctx c s).records
unfolding call clear_finish select begin_submit end_submit toggle set_expanded
call-Distinct ctx (logged id level text code params) s b h =
    append_log-Distinct ctx id level text code params s h
call-Distinct ctx (progressed id step total) s b h = set_progress-Distinct ctx id step total s h
call-Distinct ctx (finished id status duration) s b h = finish-Distinct ctx id status duration s h
call-Distinct ctx (synced board) s b h = sync_board-Distinct ctx board s h
call-Distinct ctx (noted level text) s b h = event_line-Distinct ctx level text s h
call-Distinct ctx (selected id) s b h = ground arith
call-Distinct ctx (loaded at rows) s b h = load_history-Distinct ctx at rows s h
call-Distinct ctx (cleared keep) s b h = Distinct-filter _ s.records h
call-Distinct ctx (submitted key) s b h = ground arith
call-Distinct ctx (settled key) s b h = ground arith
call-Distinct ctx toggled s b h = h
call-Distinct ctx (expanded_set v) s b h = h
call-Distinct ctx (started script args label meta tick) s b h =
    rw (start-records ctx script args label meta tick s b) h
call-Distinct ctx (replayed id now timer) s b h =
    Distinct-modify id (play_next now timer) s.records (play_next-id now timer) h
call-Distinct ctx cancel_asked s b h = cancel-Distinct ctx s h

-- Whatever calls are made of the task store, in whatever order, and however the replay ticks, no two
-- records of its pool have one id if none had at first, provided that each `start` is made with a
-- backend.
pub run-Distinct :
    (cs : List (Context × Call)) (s : TaskStore)
    → All IsBacked cs
    → Distinct s.records
    → Distinct (run cs s).records
unfolding run
run-Distinct [] s b h = h
run-Distinct ((ctx, c) ∷ cs) s (b, bs) h =
    run-Distinct cs (call ctx c s) bs (call-Distinct ctx c s b h)
