-- ===== src/Task/Trace.antt =====
-- Histories of taskStore.ts: the calls of its operations, and the ticks of the demo channel's replay,
-- in any order.
use phpo.Base.{ℕ, Bool, true, false, Option, List, [], ◌∷◌, ◌≡◌, Text}
use phpo.Task.{TaskStatus, TaskLine, TaskMeta, TaskBoard, TaskStore, Context, Params, LineType}
use phpo.Task.Live.{sync_board, append_log, set_progress, event_line, finish, write}
use phpo.Task.History.{Operation, load_history, clear_finish}
use phpo.Task.Busy.{begin_submit, end_submit}
use phpo.Task.Demo.{start, play_next, cancel, select, toggle, set_expanded}

pub data Call : Type 0 where
  logged : Text → LineType → Text → Option Text → Option Params → Call
  progressed : Text → ℕ → ℕ → Call
  finished : Text → TaskStatus → Option ℕ → Call
  synced : TaskBoard → Call
  noted : LineType → Text → Call
  selected : Text → Call
  loaded : ℕ → List Operation → Call
  cleared : Text → Call
  submitted settled : Text → Call
  toggled : Call
  expanded_set : Bool → Call
  started : List TaskLine → List Text → Option Text → TaskMeta → ℕ × ℕ → Call
  replayed : Text → ℕ → ℕ → Call
  cancel_asked : Call

unfoldable pub call : Context → Call → TaskStore → TaskStore
call ctx (logged id level text code params) s = append_log ctx id level text code params s
call ctx (progressed id step total) s = set_progress ctx id step total s
call ctx (finished id status duration) s = finish ctx id status duration s
call ctx (synced b) s = sync_board ctx b s
call ctx (noted level text) s = event_line ctx level text s
call ctx (selected id) s = select id s
call ctx (loaded at rows) s = load_history ctx at rows s
call ctx (cleared keep) s = clear_finish keep s
call ctx (submitted key) s = begin_submit key s
call ctx (settled key) s = end_submit key s
call ctx toggled s = toggle s
call ctx (expanded_set v) s = set_expanded v s
call ctx (started script args label meta tick) s = (start ctx script args label meta tick s).0
call ctx (replayed id now timer) s = write id (play_next now timer) s
call ctx cancel_asked s = (cancel ctx s).0

-- `start` is called with a backend, where it leaves the record to the backend's events.
abbrev pub IsBacked : Context × Call → Type 0
IsBacked (ctx, started script args label meta tick) = ctx.has_backend ≡ true
IsBacked _ = Unit

-- Each call comes with the state of the world that it reads.
unfoldable pub run : List (Context × Call) → TaskStore → TaskStore
run [] s = s
run ((ctx, c) ∷ cs) s = run cs (call ctx c s)

abbrev pub empty_store : TaskStore
empty_store = record {
  records = [];
  active_id = [];
  expanded = false;
  sys_lines = [];
  inflight = [];
  cmd_by_label = [];
  followed_id = [];
  demo_seq = 0;
}
