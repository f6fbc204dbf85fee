-- ===== src/Task/Replay.antt =====
-- The demo replay ends.
use phpo.Base.{
  ℕ, ◌+◌, ◌-◌, ◌≤◌, ◌<◌, leb, ◌≡◌, inl, inr, false, Bool-cases, none, some, List, [], ◌∷◌, length,
  arith,
}
use phpo.Task.{TaskStatus, TaskRecord}
use phpo.Task.Demo.{play_next, play}

-- A replay that nobody stops ends with success once its timer has fired for each line that was not
-- yet shown and once more; then all lines are shown, and no timer is left.
pub play_ends :
    (ticks : List (ℕ × ℕ)) (t : TaskRecord)
    → t.cancelled ≡ false
    → t.cursor ≤ length t.lines
    → length t.lines - t.cursor < length ticks
    → ((play ticks t).status ≡ TaskStatus.success)
      × ((play ticks t).cursor ≡ length t.lines)
      × ((play ticks t).timer ≡ none)
      × ((play ticks t).lines ≡ t.lines)
unfolding play play_next
play_ends [] t c b h = absurd (omega arith)
play_ends ((now, timer) ∷ ticks) t c b h = elim (Bool-cases (leb (length t.lines) t.cursor)) [
  | inl done ↦ ground arith
  | inr more ↦ ground (
    arith,
    play_ends ticks (record t { cursor = t.cursor + 1; timer = some timer }) c (ground arith)
        (ground arith),
  )
]
