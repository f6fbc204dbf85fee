-- ===== src/Task/Ending.antt =====
-- Proofs about the outcomes of tasks over histories of taskStore.ts.
use phpo.Base.{◌≡◌, refl, inr, some, List, [], ◌∷◌, Text, str_eq, eq_iff, filter, arith, All}
use phpo.Task.{TaskRecord, TaskStore, Context}
use phpo.Task.Records.{find_record}
use phpo.Task.History.{clear_finish}
use phpo.Task.Busy.{begin_submit, end_submit}
use phpo.Task.OneRecord.{start-records}
use phpo.Task.Demo.{select, toggle, set_expanded}
use phpo.Task.Ensure.{KeepsStatus, KeepsStatus-refl, KeepsStatus-trans}
use phpo.Task.Status.{
  append_log-KeepsStatus, set_progress-KeepsStatus, event_line-KeepsStatus, sync_board-KeepsStatus,
}
use phpo.Task.Trace.{
  Call, logged, progressed, finished, synced, noted, selected, loaded, cleared, submitted, settled,
  toggled, expanded_set, started, replayed, cancel_asked, IsBacked, call, run,
}

-- A call that is none of `finish`, `loadHistory` and `cancel`, nor a tick of the demo channel's replay.
abbrev pub IsQuiet : Call → Type 0
IsQuiet (finished id status duration) = ⊥
IsQuiet (loaded at rows) = ⊥
IsQuiet cancel_asked = ⊥
IsQuiet (replayed id now timer) = ⊥
IsQuiet _ = Unit

find_record-filter_id :
    (keep j : Text) (rs : List TaskRecord) {r : TaskRecord}
    → find_record j (filter (λ x. str_eq x.id keep) rs) ≡ some r
    → j ≡ keep
unfolding find_record
find_record-filter_id keep j [] e = cc
find_record-filter_id keep j (x ∷ rs) {r} e =
    ground (arith, eq_iff x.id keep, eq_iff x.id j, find_record-filter_id keep j rs {r = r})

pub find_record-filter :
    (keep j : Text) (rs : List TaskRecord) {r : TaskRecord}
    → find_record j (filter (λ x. str_eq x.id keep) rs) ≡ some r
    → find_record j rs ≡ some r
unfolding find_record
find_record-filter keep j [] e = cc
find_record-filter keep j (x ∷ rs) {r} e = ground (
  arith,
  eq_iff x.id keep,
  eq_iff x.id j,
  find_record-filter keep j rs {r = r},
  find_record-filter_id keep j rs {r = r},
)

same-KeepsStatus : {rs ts : List TaskRecord} → ts ≡ rs → KeepsStatus rs ts
same-KeepsStatus e = record { before = λ j r found. inr (r, rw (← e) found, refl) }

call-KeepsStatus :
    (ctx : Context) (c : Call) (s : TaskStore)
    → IsBacked (ctx, c)
    → IsQuiet c
    → KeepsStatus s.records (call ctx c s).records
unfolding call clear_finish select begin_submit end_submit toggle set_expanded
call-KeepsStatus ctx (logged id level text code params) s b q =
    append_log-KeepsStatus ctx id level text code params s
call-KeepsStatus ctx (progressed id step total) s b q = set_progress-KeepsStatus ctx id step total s
call-KeepsStatus ctx (finished id status duration) s b q = elim q [ ]
call-KeepsStatus ctx (synced board) s b q = sync_board-KeepsStatus ctx board s
call-KeepsStatus ctx (noted level text) s b q = event_line-KeepsStatus ctx level text s
call-KeepsStatus ctx (selected id) s b q = same-KeepsStatus (ground arith)
call-KeepsStatus ctx (loaded at rows) s b q = elim q [ ]
call-KeepsStatus ctx (cleared keep) s b q = record {
  before = λ j r e. inr (r, find_record-filter keep j s.records e, refl);
}
call-KeepsStatus ctx (submitted key) s b q = same-KeepsStatus (ground arith)
call-KeepsStatus ctx (settled key) s b q = same-KeepsStatus (ground arith)
call-KeepsStatus ctx toggled s b q = KeepsStatus-refl s.records
call-KeepsStatus ctx (expanded_set v) s b q = KeepsStatus-refl s.records
call-KeepsStatus ctx (started script args label meta tick) s b q =
    same-KeepsStatus (start-records ctx script args label meta tick s b)
call-KeepsStatus ctx (replayed id now timer) s b q = elim q [ ]
call-KeepsStatus ctx cancel_asked s b q = elim q [ ]

-- Over any history of the task store without `finish`, `loadHistory`, `cancel` and ticks of the demo
-- channel's replay, where each `start` is made with a backend, a task that the pool shows as ended had
-- ended before, in the same way: logs, progress, snapshots, notes, clearing and withdrawing never make
-- up an outcome.
pub run-KeepsStatus :
    (cs : List (Context × Call)) (s : TaskStore)
    → All IsBacked cs
    → All (λ c. IsQuiet c.1) cs
    → KeepsStatus s.records (run cs s).records
unfolding run
run-KeepsStatus [] s b q = KeepsStatus-refl s.records
run-KeepsStatus ((ctx, c) ∷ cs) s (b, bs) (q, qs) =
    KeepsStatus-trans (call-KeepsStatus ctx c s b q) (run-KeepsStatus cs (call ctx c s) bs qs)
