-- ===== src/Task/Shown.antt =====
-- What the drawer shows: the display state of a record, the rows of the queue, the progress.
use native.Mathlib.Nat.{div-lt_iff_lt-mul, div-eq_of_lt-le}
use phpo.Base.{
  ℕ, ◌+◌, ◌*◌, ◌/◌, ◌≤◌, ◌<◌, min, ◌≡◌, ◌≢◌, ◌↔◌, Bool, true, false, some, [], Text, str_eq, eq_iff,
  any, arith,
}
use phpo.Task.{TaskStatus, TaskRecord, TaskBoard, Context}
use phpo.Task.Live.{running_id, display_of, dequeued}
use phpo.Task.View.{Progress, progress_of, row}

-- Whether the queue of the snapshot holds the task, among those that wait.
abbrev pub is_pending : TaskBoard → Text → Bool
is_pending b id = any (λ p. str_eq p.id id) b.pending

-- A row can be withdrawn exactly when there is a backend whose queue has the task waiting and not
-- running, whatever the record itself says.
pub withdrawable_iff :
    (ctx : Context) (active : Text) (r : TaskRecord)
    → ((row ctx active r).withdrawable ≡ true) ↔ (
        (ctx.has_backend ≡ true)
        × (r.id ≢ running_id ctx.tasks)
        × (is_pending ctx.tasks r.id ≡ true))
unfolding row display_of
withdrawable_iff ctx active r = ground (arith, eq_iff r.id (running_id ctx.tasks))

-- A record is taken for withdrawn exactly when it came from the backend, has not ended, has no line,
-- and is in neither part of the backend's queue.
pub dequeued_iff :
    (ctx : Context) (r : TaskRecord)
    → ctx.has_backend ≡ true
    → (dequeued ctx r ≡ true) ↔ (
        (r.live ≡ true)
        × (r.status ≡ TaskStatus.running)
        × (r.lines ≡ [])
        × (r.id ≢ running_id ctx.tasks)
        × (is_pending ctx.tasks r.id ≡ false))
unfolding dequeued display_of
dequeued_iff ctx r h = ground (arith, eq_iff r.id (running_id ctx.tasks))

percent-le : (s t : ℕ) → 0 < t → s ≤ t → (200 * s + t) / (2 * t) ≤ 100
percent-le s t h le = omega (
  arith,
  (div-lt_iff_lt-mul {k = 2 * t} {x = 200 * s + t} {y = 101} (omega arith)).1 (omega arith),
)

percent-eq : (t : ℕ) → 0 < t → (200 * t + t) / (2 * t) ≡ 100
percent-eq t h = div-eq_of_lt-le (2 * t) (omega arith) (omega arith)

-- The progress of the selected task stays within its total and 100 percent, and a task whose steps
-- are all done shows 100.
pub progress_of_bounds :
    (t : TaskRecord) (p : Progress)
    → progress_of t ≡ some p
    → (p.step ≤ p.total) × (p.percent ≤ 100) × (t.total ≤ t.step → p.percent ≡ 100)
unfolding progress_of
progress_of_bounds t p e =
    ground (arith, percent-le (min t.step t.total) t.total, percent-eq t.total)
