-- ===== src/Task/View.antt =====
-- What the drawer reads from taskStore.ts: the queue's rows, the log and the progress of the selected
-- task.
use phpo.Base.{
  ℕ, ◌+◌, ◌*◌, ◌/◌, ◌==◌, min, Bool, true, false, not, Option, none, some, List, map, Text, lit,
  str_eq, take, any, filter, is_some, if◌then◌else◌,
}
use phpo.Task.{
  TaskDisplayStatus, TaskRecord, TaskStore, TaskLine, Context, Params, is_running_status,
}
use phpo.Task.Records.{find_record}
use phpo.Task.Live.{display_of, dequeued}

abbrev pub display_label : TaskDisplayStatus → Text
display_label TaskDisplayStatus.waiting = lit "task.queued"
display_label TaskDisplayStatus.running = lit "task.running"
display_label TaskDisplayStatus.done = lit "task.done"
display_label TaskDisplayStatus.failed = lit "task.failed"
display_label TaskDisplayStatus.cancelled = lit "task.cancelled"
display_label TaskDisplayStatus.unknown = lit "task.dsUnknown"

-- `statusText` is given as the message key that the interface translates.
pub record QueueRow : Type 0 where
  pub id : Text
  pub label : Text
  pub label_code : Option Text
  pub label_params : Option Params
  pub step : ℕ
  pub total : ℕ
  pub display : TaskDisplayStatus
  pub status_key : Text
  pub withdrawable : Bool
  pub active : Bool

abbrev pub is_waiting : TaskDisplayStatus → Bool
is_waiting TaskDisplayStatus.waiting = true
is_waiting TaskDisplayStatus.running = false
is_waiting TaskDisplayStatus.done = false
is_waiting TaskDisplayStatus.failed = false
is_waiting TaskDisplayStatus.cancelled = false
is_waiting TaskDisplayStatus.unknown = false

unfoldable pub row : Context → Text → TaskRecord → QueueRow
row ctx active_id r = record {
  id = r.id;
  label = r.label;
  label_code = r.label_code;
  label_params = r.label_params;
  step = r.step;
  total = r.total;
  display = display_of ctx (some r);
  status_key = display_label (display_of ctx (some r));
  withdrawable = is_waiting (display_of ctx (some r));
  active = str_eq r.id active_id;
}

unfoldable pub queue : Context → TaskStore → List QueueRow
unfolding row
queue ctx s = map (row ctx s.active_id) (filter (λ r. not (dequeued ctx r)) s.records)

-- Whether some task runs: with a backend only its snapshot counts.
unfoldable pub queue_running : Context → TaskStore → Bool
queue_running ctx s =
    if ctx.has_backend
    then is_some ctx.tasks.running
    else any (λ r. is_running_status r.status) s.records

unfoldable pub visible_lines : TaskStore → List TaskLine
visible_lines s = elim (find_record s.active_id s.records) [
  | none ↦ s.sys_lines
  | some t ↦ if t.live then t.lines else take t.cursor t.lines
]

pub record Progress : Type 0 where
  pub step : ℕ
  pub total : ℕ
  pub percent : ℕ

-- `Math.round((step / total) * 100)`, exactly: the floor of `100 * step / total + 1 / 2`.
unfoldable pub progress_of : TaskRecord → Option Progress
progress_of t =
    if t.total == 0
    then none
    else (let step = min t.step t.total in
        some (record {
          step = step;
          total = t.total;
          percent = (200 * step + t.total) / (2 * t.total);
        }))

unfoldable pub progress : TaskStore → Option Progress
unfolding progress_of
progress s = elim (find_record s.active_id s.records) [ none ↦ none | some t ↦ progress_of t ]
