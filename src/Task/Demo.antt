-- ===== src/Task/Demo.antt =====
-- The demo channel of taskStore.ts, without a backend: `start`, the replay `play`, `cancel`, and the
-- small operations on the drawer.
use phpo.Base.{
  decimal, ℕ, ◌+◌, leb, Bool, true, false, not, Option, none, some, is_some, List, [], ◌∷◌, ◌++◌,
  Text, lit, find, length, join, if◌then◌else◌,
}
use phpo.Task.{TaskStatus, TaskRecord, TaskLine, TaskMeta, TaskStore, Context, is_running_status}
use phpo.Task.Records.{find_record, modify, trim, new_record, args_of, insert}
use phpo.Task.Live.{display_of, write}
use phpo.Task.History.{is_running_display}

-- One call of `next` in `play`: the replay stops, ends, or shows one more line and sets a timer.
unfoldable pub play_next : ℕ → ℕ → TaskRecord → TaskRecord
play_next now timer t =
    if t.cancelled
    then record t { status = TaskStatus.cancelled; ended_at = some now; timer = none }
    else if leb (length t.lines) t.cursor
    then record t { status = TaskStatus.success; ended_at = some now; timer = none }
    else record t { cursor = t.cursor + 1; timer = some timer }

-- The timer fires until none is set; the clock and the timers' handles are a list of readings.
unfoldable pub play : List (ℕ × ℕ) → TaskRecord → TaskRecord
unfolding play_next
play [] t = t
play ((now, timer) ∷ ticks) t =
    let next = play_next now timer t in
    let rest = play ticks next in if is_some next.timer then rest else next

-- `start`, with the lines of `buildScript` and the readings of the replay given. The result is
-- whether the task was taken.
unfoldable pub start :
    Context
    → List TaskLine
    → List Text
    → Option Text
    → TaskMeta
    → ℕ × ℕ
    → TaskStore
    → TaskStore × Bool
unfolding new_record args_of insert play_next trim
start ctx script args label meta (now, timer) s =
    let lbl : Text = elim label [
      | none ↦ join (lit " ") args
      | some [] ↦ join (lit " ") args
      | some l ↦ l
    ] in
    let s₁ = record s { cmd_by_label = insert lbl args s.cmd_by_label } in
    if ctx.has_backend
    then (record s₁ { expanded = true }, true)
    else if is_some (find (λ r. is_running_status r.status) s.records)
    then (s₁, false)
    else (let seq = s.demo_seq + 1 in
        let id = lit "demo-" ++ decimal seq in
        let t = record (new_record s₁.cmd_by_label ctx.now id lbl meta.type false) {
          args = args;
          meta = meta;
          lines = script;
        } in
        let pool = modify id (play_next now timer) (trim id (t ∷ s.records)) in
        (record s₁ { records = pool; active_id = id; expanded = true; demo_seq = seq }, true))

-- What `cancel` asks of the world: nothing, the backend's cancellation, or only the local stop.
pub data CancelRequest : Type 0 where
  ignored asked stopped_locally : CancelRequest

unfoldable pub stop_record : ℕ → TaskRecord → TaskRecord
stop_record now t = record t {
  cancelled = true;
  timer = none;
  status = TaskStatus.cancelled;
  ended_at = some now;
  abort_reason = some (lit "user");
}

unfoldable pub cancel : Context → TaskStore → TaskStore × CancelRequest
unfolding stop_record
cancel ctx s = elim (find_record s.active_id s.records) [
  | none ↦ (s, ignored)
  | some t ↦
      if not (is_running_display (display_of ctx (some t)))
      then (s, ignored)
      else if t.live
      then (s, asked)
      else (write t.id (stop_record ctx.now) s, stopped_locally)
]

unfoldable pub select : Text → TaskStore → TaskStore
select id s =
    if is_some (find_record id s.records) then record s { active_id = id; expanded = true } else s

unfoldable pub toggle : TaskStore → TaskStore
toggle s = record s { expanded = not s.expanded }

unfoldable pub set_expanded : Bool → TaskStore → TaskStore
set_expanded v s = record s { expanded = v }
