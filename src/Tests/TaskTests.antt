-- ===== src/Tests/TaskTests.antt =====
-- The task store at concrete inputs.
use phpo.Base.{
  ℕ, ◌≤◌, ◌<◌, ◌≡◌, refl, ◌≢◌, ◌↔◌, ◌⊎◌, true, false, none, some, List, [], ◌∷◌, ◌++◌, Text, lit,
  str_eq, length, arith, All,
}
use phpo.Task.{TaskStatus, TaskRecord, TaskLine, TaskBrief, TaskBoard, TaskStore, LineType, Context}
use phpo.Task.Records.{
  find_record, modify, trim, trim_oldest, new_record, args_of, is_kept, records_max, lookup,
}
use phpo.Task.Live.{
  sync_board, ensure_live, fresh_record, refresh_record, dequeued, display_of, land_running,
  sync_running, sync_pending, leave_withdrawn, follow,
}
use phpo.Task.View.{progress_of}
use phpo.Task.Busy.{is_busy_key}
use phpo.Task.History.{Operation, load_history}
use phpo.Task.Demo.{play}
use phpo.Task.Pool.{IsCut, trim_lem}
use phpo.Task.Ensure.{KeepsStatus}
use phpo.Task.Distinct.{Distinct}
use phpo.Task.Trace.{Call, logged, progressed, synced, started, cancel_asked, run, empty_store}
use phpo.Task.OneRecord.{run-Distinct}
use phpo.Task.Ending.{run-KeepsStatus}
use phpo.Task.Logs.{append_log_lem, ensured, IsLogged, logs, logged_lines, last_error, told_by}
use phpo.Task.Counting.{
  Submission, submitted, settled, run_submissions, IsOrdered, submits, settles, is_busy_key-run_iff,
}
use phpo.Task.Ledger.{IsNewestFirst, IsLoaded, load_history_lem}
use phpo.Task.Follow.{selection, landed, sync_board_follows, sync_board_stays}
use phpo.Task.Shown.{progress_of_bounds}
use phpo.Task.Replay.{play_ends}

abbrev brief : Text → TaskBrief
brief id = record {
  id = id;
  label = lit "install";
  label_code = none;
  label_params = none;
  type = lit "install";
  kind = none;
  version = none;
  domain = none;
  step = 1;
  total = 6;
  started_at = none;
}

-- Task a runs, task b waits.
abbrev board : TaskBoard
board = record { running = some (brief (lit "a")); pending = brief (lit "b") ∷ [] }

abbrev ctx : Context
ctx = record { has_backend = true; tasks = board; now = 1000; parse_date = λ t. some 7 }

abbrev history : List (Context × Call)
history =
    (ctx, synced board)
    ∷ (ctx, logged (lit "a") LineType.err (lit "no") none none)
    ∷ (ctx, progressed (lit "a") 2 6)
    ∷ []

abbrev row_of : Text → Operation
row_of id = record {
  ts = lit "t";
  op = lit "install";
  status = lit "failed";
  duration_ms = 5;
  error = none;
  task_id = some id;
  label = none;
  logs = some (lit "error");
}

unfoldable after_board : TaskStore
unfolding sync_board sync_running sync_pending leave_withdrawn follow ensure_live fresh_record
    refresh_record new_record args_of find_record modify trim trim_oldest str_eq land_running
    dequeued display_of lookup
after_board = sync_board ctx board empty_store

-- The snapshot makes a row for the running and for the waiting task, and selects the first.
after_board_ids :
    (after_board.active_id ≡ lit "a")
    × (length after_board.records ≡ 2)
    × (after_board.expanded ≡ true)
unfolding after_board
after_board_ids = (refl, refl, refl)

abbrev start_call : Context × Call
start_call = (
  ctx,
  started [] (lit "install" ∷ []) none
      (record { type = lit "install"; kind = none; version = none; domain = none; file = none })
      (1000, 1),
)

run-Distinct_example :
    Distinct (run (start_call ∷ (ctx, cancel_asked) ∷ history) empty_store).records
run-Distinct_example =
    run-Distinct (start_call ∷ (ctx, cancel_asked) ∷ history) empty_store
      (refl, (tt, (tt, (tt, (tt, tt))))) tt

run-KeepsStatus_example : KeepsStatus [] (run (start_call ∷ history) empty_store).records
run-KeepsStatus_example =
    run-KeepsStatus (start_call ∷ history) empty_store (refl, (tt, (tt, (tt, tt))))
      (tt, (tt, (tt, (tt, tt))))

-- Two errors, and a last line that is none.
abbrev log_of_a : List (Context × TaskLine)
log_of_a =
    (ctx, record { t = LineType.err; s = lit "no"; c = none; p = none })
    ∷ (ctx, record { t = LineType.err; s = lit "disk full"; c = some (lit "disk"); p = none })
    ∷ (ctx, record { t = LineType.dim; s = lit "bye"; c = none; p = none })
    ∷ []

disk_full :
    told_by (last_error (logged_lines log_of_a)) (none, none, none)
    ≡ (some (lit "disk full"), some (lit "disk"), none)
disk_full = refl

abbrev line_ok : TaskLine
line_ok = record { t = LineType.ok; s = lit "x"; c = none; p = none }

append_log_lem_example :
    ((r : TaskRecord) × (find_record
          (lit "a")
          (logs (lit "a") ((ctx, line_ok) ∷ log_of_a) empty_store).records
        ≡ some r)
      × IsLogged (line_ok ∷ logged_lines log_of_a) (ensured ctx (lit "a") empty_store) r)
    × ((j : Text) (r : TaskRecord)
        → lit "a" ≢ j
        → find_record j (logs (lit "a") ((ctx, line_ok) ∷ log_of_a) empty_store).records ≡ some r
        → find_record j [] ≡ some r)
append_log_lem_example = append_log_lem (lit "a") ctx line_ok log_of_a empty_store refl

abbrev submissions : List Submission
submissions = submitted (lit "k") ∷ submitted (lit "k") ∷ settled (lit "k") ∷ []

submissions-IsOrdered : IsOrdered (lit "k") 0 submissions
unfolding str_eq
submissions-IsOrdered [] after e = omega arith
submissions-IsOrdered (a ∷ []) after e = let h : a ≡ submitted (lit "k") = cc in rw h (omega arith)
submissions-IsOrdered (a ∷ b ∷ []) after e =
    let h : a ≡ submitted (lit "k") = cc in
    let g : b ≡ submitted (lit "k") = cc in rw (h, g) (omega arith)
submissions-IsOrdered (a ∷ b ∷ c ∷ []) after e =
    let h : a ≡ submitted (lit "k") = cc in
    let g : b ≡ submitted (lit "k") = cc in
    let f : c ≡ settled (lit "k") = cc in rw (h, g, f) (omega arith)
submissions-IsOrdered (a ∷ b ∷ c ∷ d ∷ before) after e = cc

is_busy_key-run_iff_example :
    (is_busy_key (lit "k") (run_submissions submissions empty_store) ≡ true)
    ↔ (settles (lit "k") submissions < submits (lit "k") submissions)
is_busy_key-run_iff_example =
    is_busy_key-run_iff (lit "k") submissions empty_store refl (refl, (refl, (refl, tt))) refl refl
      submissions-IsOrdered

load_history_lem_example :
    IsNewestFirst
      (load_history ctx 0
        (row_of (lit "a") ∷ row_of (lit "c") ∷ [])
        (run history empty_store)).records
    × IsLoaded
        (run history empty_store).records
        (load_history ctx 0
          (row_of (lit "a") ∷ row_of (lit "c") ∷ [])
          (run history empty_store)).records
load_history_lem_example =
    load_history_lem ctx 0 (row_of (lit "a") ∷ row_of (lit "c") ∷ []) (run history empty_store)
      (run-Distinct history empty_store (tt, (tt, (tt, tt))) tt)

sync_board_follows_example : selection (sync_board ctx board empty_store) ≡ (lit "a", true, lit "a")
sync_board_follows_example =
    sync_board_follows ctx (brief (lit "a")) empty_store refl refl refl (λ e. cc)

-- A task that the drawer once showed, and has a line.
abbrev listed : Text → TaskRecord
listed id = record (new_record [] 5 id [] [] true) {
  lines = record { t = LineType.ok; s = lit "x"; c = none; p = none } ∷ [];
}

-- The user has chosen task b while task a runs.
abbrev chosen : TaskStore
chosen = record empty_store {
  records = listed (lit "b") ∷ listed (lit "a") ∷ [];
  active_id = lit "b";
  followed_id = lit "a";
}

chosen_found :
    (sel : TaskRecord) × (find_record (lit "b") (landed ctx board chosen).records ≡ some sel)
    × (dequeued ctx sel ≡ false)
unfolding sync_running sync_pending follow ensure_live fresh_record refresh_record new_record
    args_of find_record modify trim trim_oldest str_eq land_running dequeued display_of lookup
chosen_found = (_, refl, refl)

sync_board_stays_example : selection (sync_board ctx board chosen) ≡ selection chosen
sync_board_stays_example =
    sync_board_stays ctx (brief (lit "a")) chosen refl refl refl chosen_found.0 refl chosen_found.1
      chosen_found.2

trim_lem_example :
    ((cut : List TaskRecord) × (listed (lit "a") ∷ []
        ≡ trim (lit "b") (listed (lit "a") ∷ []) ++ cut)
      × All (IsCut (lit "b")) cut)
    × ((length (trim (lit "b") (listed (lit "a") ∷ [])) ≤ records_max)
        ⊎ ((r : TaskRecord) × (rest : List TaskRecord) × (trim (lit "b") (listed (lit "a") ∷ [])
              ≡ rest ++ r ∷ [])
            × (is_kept (lit "b") r ≡ true)))
trim_lem_example = trim_lem (lit "b") (listed (lit "a") ∷ [])

progress_of-half :
    progress_of (record (listed (lit "a")) { step = 3; total = 6 })
    ≡ some (record { step = 3; total = 6; percent = 50 })
unfolding progress_of
progress_of-half = refl

progress_of_bounds_example : (3 ≤ 6) × (50 ≤ 100) × (6 ≤ 3 → ◌≡◌ {A = ℕ} 50 100)
progress_of_bounds_example =
    progress_of_bounds (record (listed (lit "a")) { step = 3; total = 6 })
      (record { step = 3; total = 6; percent = 50 }) progress_of-half

play_ends_example :
    ((play ((1, 1) ∷ (2, 2) ∷ []) (listed (lit "a"))).status ≡ TaskStatus.success)
    × ((play ((1, 1) ∷ (2, 2) ∷ []) (listed (lit "a"))).cursor ≡ 1)
    × ((play ((1, 1) ∷ (2, 2) ∷ []) (listed (lit "a"))).timer ≡ none)
    × ((play ((1, 1) ∷ (2, 2) ∷ []) (listed (lit "a"))).lines ≡ (listed (lit "a")).lines)
unfolding new_record
play_ends_example =
    play_ends ((1, 1) ∷ (2, 2) ∷ []) (listed (lit "a")) refl (omega arith) (omega arith)
