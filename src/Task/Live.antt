-- ===== src/Task/Live.antt =====
-- The live channel of taskStore.ts: what the backend's events and snapshots do to the store.
use phpo.Base.{
  ℕ, ◌+◌, ◌-◌, ◌/◌, ltb, ◌==◌, Bool, true, false, not, ◌&&◌, ◌||◌, Option, none, some, List, [],
  ◌∷◌, ◌++◌, Text, lit, str_eq, length, drop, is_given, is_empty, truthy, or_else, if◌then◌else◌,
  any,
}
use phpo.Task.{
  TaskStatus, TaskDisplayStatus, TaskRecord, TaskBrief, TaskBoard, TaskStore, TaskLine, LineType,
  Params, Context, is_running_status,
}
use phpo.Task.Records.{find_record, modify, trim, new_record, args_of}

-- `app.tasks.running?.id ?? ''`.
abbrev pub running_id : TaskBoard → Text
running_id b = elim b.running [ none ↦ [] | some t ↦ t.id ]

-- The `switch` of `displayOf`, on the record's own status.
abbrev pub display_status : TaskRecord → TaskDisplayStatus
display_status r = elim r.status [
  | TaskStatus.success ↦ TaskDisplayStatus.done
  | TaskStatus.failed ↦ TaskDisplayStatus.failed
  | TaskStatus.cancelled ↦ TaskDisplayStatus.cancelled
  | TaskStatus.running ↦
      if is_empty r.lines then TaskDisplayStatus.unknown else TaskDisplayStatus.running
]

unfoldable pub display_of : Context → Option TaskRecord → TaskDisplayStatus
display_of ctx none = TaskDisplayStatus.unknown
display_of ctx (some r) =
    if ctx.has_backend && str_eq r.id (running_id ctx.tasks)
    then TaskDisplayStatus.running
    else if ctx.has_backend && any (λ p. str_eq p.id r.id) ctx.tasks.pending
    then TaskDisplayStatus.waiting
    else display_status r

abbrev pub is_unknown : TaskDisplayStatus → Bool
is_unknown TaskDisplayStatus.unknown = true
is_unknown TaskDisplayStatus.waiting = false
is_unknown TaskDisplayStatus.running = false
is_unknown TaskDisplayStatus.done = false
is_unknown TaskDisplayStatus.failed = false
is_unknown TaskDisplayStatus.cancelled = false

-- A queued task that was withdrawn: live, never finished, without a line, and in no queue.
unfoldable pub dequeued : Context → TaskRecord → Bool
unfolding display_of
dequeued ctx r =
    if not r.live || not (is_running_status r.status) || not (is_empty r.lines)
    then false
    else is_unknown (display_of ctx (some r))

-- The update that `ensureLive` makes to a record that is already in the pool.
unfoldable pub refresh_record :
    List (Text × List Text)
    → Text
    → Text
    → ℕ
    → Option Text
    → Option Params
    → TaskRecord
    → TaskRecord
refresh_record cmds label type total code params r = record r {
  label = if is_given label then label else r.label;
  label_code = if truthy code then code else r.label_code;
  label_params = if truthy code then params else r.label_params;
  meta =
      if is_given type && not (is_given r.meta.type)
      then record (r.meta) { type = type }
      else r.meta;
  total = if not (total == 0) && r.total == 0 then total else r.total;
  args = if is_given label && is_empty r.args then args_of cmds label else r.args;
}

-- The record that `ensureLive` makes when there is none.
unfoldable pub fresh_record :
    List (Text × List Text) → ℕ → Text → Text → Text → ℕ → Option Text → Option Params → TaskRecord
unfolding new_record args_of
fresh_record cmds now id label type total code params =
    let r = new_record cmds now id label type true in
    record r {
      label_code = if truthy code then code else r.label_code;
      label_params = if truthy code then params else r.label_params;
      total = if total == 0 then r.total else total;
    }

unfoldable pub ensure_live :
    Context → Text → Text → Text → ℕ → Option Text → Option Params → TaskStore → TaskStore
ensure_live ctx id label type total code params s = elim (find_record id s.records) [
  | some cur ↦ record s {
    records = modify id (refresh_record s.cmd_by_label label type total code params) s.records;
  }
  | none ↦ record s {
    records =
        trim s.active_id
          (fresh_record s.cmd_by_label ctx.now id label type total code params ∷ s.records);
  }
]

-- `ensureLive(id)`, with its default arguments.
unfoldable pub ensure_id : Context → Text → TaskStore → TaskStore
unfolding ensure_live
ensure_id ctx id s = ensure_live ctx id [] [] 0 none none s

-- A write to the record that `ensureLive` returned.
abbrev pub write : Text → (TaskRecord → TaskRecord) → TaskStore → TaskStore
write id f s = record s { records = modify id f s.records }

-- What `syncBoard` writes to the record of the running task.
unfoldable pub land_running : Context → TaskBrief → TaskRecord → TaskRecord
land_running ctx cur r = record r {
  step = if cur.step == 0 then r.step else cur.step;
  total = if cur.total == 0 then r.total else cur.total;
  started_at = elim (ctx.parse_date (or_else cur.started_at [])) [
    | none ↦ r.started_at
    | some started ↦ if ltb 0 started then started else r.started_at
  ];
}

unfoldable pub follow : Text → TaskStore → TaskStore
follow id s =
    if str_eq s.followed_id id
    then s
    else record s { followed_id = id; active_id = id; expanded = true }

unfoldable pub sync_running : Context → Option TaskBrief → TaskStore → TaskStore
sync_running ctx none s = s
sync_running ctx (some cur) s =
    if is_given cur.id
    then follow cur.id (
        write cur.id (land_running ctx cur)
          (ensure_live ctx cur.id cur.label cur.type cur.total cur.label_code cur.label_params s))
    else s

unfoldable pub sync_pending : Context → List TaskBrief → TaskStore → TaskStore
sync_pending ctx [] s = s
sync_pending ctx (p ∷ ps) s =
    sync_pending ctx ps (ensure_live ctx p.id p.label p.type p.total p.label_code p.label_params s)

-- The selection does not stay on a withdrawn task.
unfoldable pub leave_withdrawn : Context → Text → TaskStore → TaskStore
leave_withdrawn ctx running s = elim (find_record s.active_id s.records) [
  | none ↦ s
  | some sel ↦ if dequeued ctx sel then record s { active_id = running } else s
]

-- An absent board counts as an empty one.
unfoldable pub sync_board : Context → TaskBoard → TaskStore → TaskStore
sync_board ctx b s =
    leave_withdrawn ctx (running_id b) (sync_pending ctx b.pending (sync_running ctx b.running s))

abbrev pub is_err : LineType → Bool
is_err LineType.err = true
is_err LineType.cmd = false
is_err LineType.meta = false
is_err LineType.ok = false
is_err LineType.dim = false

unfoldable pub push_line : LineType → Text → Option Text → Option Params → TaskRecord → TaskRecord
push_line level text code params r = record r {
  lines = r.lines ++ record { t = level; s = text; c = code; p = params } ∷ [];
  last_err = if is_err level then some text else r.last_err;
  last_err_code = if is_err level then code else r.last_err_code;
  last_err_params = if is_err level then params else r.last_err_params;
}

unfoldable pub append_log :
    Context → Text → LineType → Text → Option Text → Option Params → TaskStore → TaskStore
append_log ctx id level text code params s =
    if is_given id then write id (push_line level text code params) (ensure_id ctx id s) else s

unfoldable pub land_progress : ℕ → ℕ → TaskRecord → TaskRecord
land_progress step total r = record r { total = if total == 0 then r.total else total; step = step }

unfoldable pub set_progress : Context → Text → ℕ → ℕ → TaskStore → TaskStore
set_progress ctx id step total s =
    if is_given id then write id (land_progress step total) (ensure_id ctx id s) else s

abbrev pub is_cancelled : TaskStatus → Bool
is_cancelled TaskStatus.cancelled = true
is_cancelled TaskStatus.running = false
is_cancelled TaskStatus.success = false
is_cancelled TaskStatus.failed = false

abbrev pub is_failed : TaskStatus → Bool
is_failed TaskStatus.failed = true
is_failed TaskStatus.running = false
is_failed TaskStatus.success = false
is_failed TaskStatus.cancelled = false

-- Nanoseconds to milliseconds, rounded half up; `none` is a duration that is not finite.
abbrev pub to_ms : Option ℕ → Option ℕ
to_ms none = none
to_ms (some ns) = some ((ns + 500000) / 1000000)

unfoldable pub end_record : ℕ → TaskStatus → Option ℕ → TaskRecord → TaskRecord
end_record now status duration_ns r = record r {
  status = status;
  ended_at = some now;
  duration_ms = to_ms duration_ns;
  cancelled = if is_cancelled status then true else r.cancelled;
  abort_reason =
      if is_cancelled status && not (truthy r.abort_reason)
      then some (lit "user")
      else r.abort_reason;
  error = if is_failed status then r.last_err else none;
  error_code = if is_failed status then r.last_err_code else none;
  error_params = if is_failed status then r.last_err_params else none;
  total = if r.total == 0 then r.step else r.total;
}

unfoldable pub finish : Context → Text → TaskStatus → Option ℕ → TaskStore → TaskStore
finish ctx id status duration_ns s =
    if is_given id
    then (let t = write id (end_record ctx.now status duration_ns) (ensure_id ctx id s) in
        record t { records = trim t.active_id t.records })
    else s

abbrev pub sys_max : ℕ
sys_max = 200

unfoldable pub push_sys : LineType → Text → List TaskLine → List TaskLine
push_sys level text sys =
    let lines = sys ++ record { t = level; s = text; c = none; p = none } ∷ [] in
    if ltb sys_max (length lines) then drop (length lines - sys_max) lines else lines

unfoldable pub event_line : Context → LineType → Text → TaskStore → TaskStore
unfolding push_sys
event_line ctx level text s =
    if is_given (running_id ctx.tasks)
    then append_log ctx (running_id ctx.tasks) level text none none s
    else record s { sys_lines = push_sys level text s.sys_lines }
