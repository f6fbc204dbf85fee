-- ===== src/Task/History.antt =====
-- The ledger in taskStore.ts: `loadHistory`, and `clearAll` with its two halves around the calls that
-- it waits for.
use phpo.Base.{
  ℕ, ◌+◌, ltb, leb, ◌==◌, Bool, true, false, not, ◌&&◌, ◌||◌, Option, none, some, is_some, List, [],
  ◌∷◌, ◌++◌, map, Text, lit, str_eq, is_given, truthy, or_else, filter, find, split, contains,
  to_lower, length, if◌then◌else◌,
}
use phpo.Task.{
  TaskStatus, TaskDisplayStatus, TaskRecord, TaskLine, LineType, TaskBrief, TaskStore, Context,
}
use phpo.Task.Records.{find_record, new_record, trim, args_of}
use phpo.Task.Live.{display_of}

-- A row of the task ledger.
pub record Operation : Type 0 where
  pub ts : Text
  pub op : Text
  pub status : Text
  pub duration_ms : ℕ
  pub error : Option Text
  pub task_id : Option Text
  pub label : Option Text
  pub logs : Option Text

-- `/失败|错误|error/i.test(s)`.
abbrev pub is_error_line : Text → Bool
is_error_line s =
    contains s (lit "失败") || contains s (lit "错误") || contains (to_lower s) (lit "error")

unfoldable pub history_lines : Text → List TaskLine
unfolding split contains
history_lines logs =
    map
      (λ s. record {
        t = if is_error_line s then LineType.err else LineType.dim;
        s = s;
        c = none;
        p = none;
      })
      (filter is_given (split 10 logs))

abbrev pub history_status : Text → TaskStatus
history_status s =
    if str_eq s (lit "success")
    then TaskStatus.success
    else if str_eq s (lit "cancelled")
    then TaskStatus.cancelled
    else TaskStatus.failed

-- The record of a row that `loadHistory` takes over.
unfoldable pub history_record : Context → TaskStore → Text → Operation → TaskRecord
unfolding new_record args_of history_lines
history_record ctx s id op =
    let r =
      new_record s.cmd_by_label ctx.now id (if truthy op.label then or_else op.label [] else op.op)
        op.op true in
    let started = or_else (ctx.parse_date op.ts) r.started_at in
    let lines = history_lines (or_else op.logs []) in
    record r {
      status = history_status op.status;
      error = if truthy op.error then op.error else none;
      duration_ms = if op.duration_ms == 0 then none else some op.duration_ms;
      started_at = started;
      ended_at = some (started + op.duration_ms);
      lines = lines;
      cursor = length lines;
    }

-- Whether the row is older than the last `clearAll`, at `cleared` (0 for never).
abbrev pub is_cleared : ℕ → Option ℕ → Bool
is_cleared cleared none = false
is_cleared cleared (some ts) = ltb 0 cleared && leb ts cleared

unfoldable pub load_row : Context → ℕ → Operation → TaskStore → TaskStore
load_row ctx cleared op s =
    let id = or_else op.task_id [] in
    if not (is_given id)
      || is_some (find_record id s.records)
      || is_cleared cleared (ctx.parse_date op.ts)
    then s
    else record s { records = s.records ++ history_record ctx s id op ∷ [] }

unfoldable pub load_rows : Context → ℕ → List Operation → TaskStore → TaskStore
load_rows ctx cleared [] s = s
load_rows ctx cleared (op ∷ ops) s = load_rows ctx cleared ops (load_row ctx cleared op s)

-- The stable sort by `b.startedAt - a.startedAt`.
unfoldable pub insert_newest : TaskRecord → List TaskRecord → List TaskRecord
insert_newest r [] = r ∷ []
insert_newest r (x ∷ xs) =
    if ltb r.started_at x.started_at then x ∷ insert_newest r xs else r ∷ x ∷ xs

unfoldable pub sort_newest : List TaskRecord → List TaskRecord
unfolding insert_newest
sort_newest [] = []
sort_newest (r ∷ rs) = insert_newest r (sort_newest rs)

unfoldable pub load_history : Context → ℕ → List Operation → TaskStore → TaskStore
unfolding load_rows
load_history ctx cleared ops s =
    let t = load_rows ctx cleared ops s in
    record t { records = trim t.active_id (sort_newest t.records) }

abbrev pub is_running_display : TaskDisplayStatus → Bool
is_running_display TaskDisplayStatus.running = true
is_running_display TaskDisplayStatus.waiting = false
is_running_display TaskDisplayStatus.done = false
is_running_display TaskDisplayStatus.failed = false
is_running_display TaskDisplayStatus.cancelled = false
is_running_display TaskDisplayStatus.unknown = false

-- `keepId`: the task that runs, by the snapshot or else by the pool.
unfoldable pub clear_keep : Context → TaskStore → Text
clear_keep ctx s = elim ctx.tasks.running [
  | some t ↦ t.id
  | none ↦ elim (find (λ r. is_running_display (display_of ctx (some r))) s.records) [
    | some r ↦ r.id
    | none ↦ []
  ]
]

-- The queued tasks that `clearAll` asks the backend to withdraw, before it waits.
unfoldable pub clear_pending : Context → Text → List Text
clear_pending ctx keep =
    filter (λ id. not (str_eq id keep)) (map (λ (p : TaskBrief). p.id) ctx.tasks.pending)

-- The pool after the wait. The records that go lose their replay timer, which nothing else reads.
unfoldable pub clear_finish : Text → TaskStore → TaskStore
clear_finish keep s = record s {
  records = filter (λ r. str_eq r.id keep) s.records;
  sys_lines = [];
  active_id = keep;
  followed_id = keep;
}
