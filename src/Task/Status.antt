-- ===== src/Task/Status.antt =====
-- Which operations can end a task: of the live channel's, `finish` alone.
use phpo.Base.{
  ℕ, ◌≡◌, refl, inl, inr, Bool-cases, Option, none, some, List, [], ◌∷◌, Text, is_given, arith,
}
use phpo.Task.{TaskRecord, TaskBrief, TaskBoard, TaskStore, Context, Params, LineType}
use phpo.Task.Live.{
  ensure_id, write, land_running, follow, sync_running, sync_pending, leave_withdrawn, sync_board,
  running_id, push_line, append_log, land_progress, set_progress, event_line,
}
use phpo.Task.Ensure.{
  KeepsStatus, KeepsStatus-refl, KeepsStatus-trans, modify-KeepsStatus, ensure_live-KeepsStatus,
}

-- An update of the store that leaves the pool alone.
same_records-KeepsStatus : {rs ts : List TaskRecord} → ts ≡ rs → KeepsStatus rs ts
same_records-KeepsStatus e = record { before = λ j r found. inr (r, rw (← e) found, refl) }

-- `ensureLive` followed by a write.
ensure_write-KeepsStatus :
    (ctx : Context) (id : Text) (f : TaskRecord → TaskRecord) (s : TaskStore)
    → ((r : TaskRecord) → (f r).id ≡ r.id)
    → ((r : TaskRecord) → (f r).status ≡ r.status)
    → KeepsStatus s.records (write id f (ensure_id ctx id s)).records
unfolding ensure_id
ensure_write-KeepsStatus ctx id f s ids statuses =
    KeepsStatus-trans (ensure_live-KeepsStatus ctx id [] [] 0 none none s)
      (modify-KeepsStatus id f _ ids statuses)

pub append_log-KeepsStatus :
    (ctx : Context) (id : Text) (level : LineType) (text : Text) (code : Option Text)
    (params : Option Params) (s : TaskStore)
    → KeepsStatus s.records (append_log ctx id level text code params s).records
unfolding append_log push_line
append_log-KeepsStatus ctx id level text code params s = elim (Bool-cases (is_given id)) [
  | inl given ↦
      rw given (
        ensure_write-KeepsStatus ctx id (push_line level text code params) s (λ r. refl)
          (λ r. refl))
  | inr missing ↦ rw missing (KeepsStatus-refl s.records)
]

pub set_progress-KeepsStatus :
    (ctx : Context) (id : Text) (step total : ℕ) (s : TaskStore)
    → KeepsStatus s.records (set_progress ctx id step total s).records
unfolding set_progress land_progress
set_progress-KeepsStatus ctx id step total s = elim (Bool-cases (is_given id)) [
  | inl given ↦
      rw given
        (ensure_write-KeepsStatus ctx id (land_progress step total) s (λ r. refl) (λ r. refl))
  | inr missing ↦ rw missing (KeepsStatus-refl s.records)
]

pub event_line-KeepsStatus :
    (ctx : Context) (level : LineType) (text : Text) (s : TaskStore)
    → KeepsStatus s.records (event_line ctx level text s).records
unfolding event_line
event_line-KeepsStatus ctx level text s = elim (Bool-cases (is_given (running_id ctx.tasks))) [
  | inl given ↦ rw given (append_log-KeepsStatus ctx (running_id ctx.tasks) level text none none s)
  | inr missing ↦ rw missing (same_records-KeepsStatus refl)
]

follow-KeepsStatus : (id : Text) (s : TaskStore) → KeepsStatus s.records (follow id s).records
unfolding follow
follow-KeepsStatus id s = same_records-KeepsStatus (ground arith)

sync_running-KeepsStatus :
    (ctx : Context) (b : Option TaskBrief) (s : TaskStore)
    → KeepsStatus s.records (sync_running ctx b s).records
unfolding sync_running land_running
sync_running-KeepsStatus ctx none s = KeepsStatus-refl s.records
sync_running-KeepsStatus ctx (some cur) s = elim (Bool-cases (is_given cur.id)) [
  | inl given ↦ rw given (
      KeepsStatus-trans
        (ensure_live-KeepsStatus ctx cur.id cur.label cur.type cur.total cur.label_code
          cur.label_params s)
        (KeepsStatus-trans
          (modify-KeepsStatus cur.id (land_running ctx cur) _ (λ r. refl) (λ r. refl))
          (follow-KeepsStatus cur.id _)))
  | inr missing ↦ rw missing (KeepsStatus-refl s.records)
]

sync_pending-KeepsStatus :
    (ctx : Context) (ps : List TaskBrief) (s : TaskStore)
    → KeepsStatus s.records (sync_pending ctx ps s).records
unfolding sync_pending
sync_pending-KeepsStatus ctx [] s = KeepsStatus-refl s.records
sync_pending-KeepsStatus ctx (p ∷ ps) s =
    KeepsStatus-trans
      (ensure_live-KeepsStatus ctx p.id p.label p.type p.total p.label_code p.label_params s)
      (sync_pending-KeepsStatus ctx ps _)

leave_withdrawn-records :
    (ctx : Context) (id : Text) (s : TaskStore) → (leave_withdrawn ctx id s).records ≡ s.records
unfolding leave_withdrawn
leave_withdrawn-records ctx id s = ground arith

pub sync_board-KeepsStatus :
    (ctx : Context) (b : TaskBoard) (s : TaskStore)
    → KeepsStatus s.records (sync_board ctx b s).records
unfolding sync_board
sync_board-KeepsStatus ctx b s = KeepsStatus-trans (sync_running-KeepsStatus ctx b.running s) (
    KeepsStatus-trans (sync_pending-KeepsStatus ctx b.pending _)
      (same_records-KeepsStatus (leave_withdrawn-records ctx (running_id b) _)))
