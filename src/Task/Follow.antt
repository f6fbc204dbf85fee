-- ===== src/Task/Follow.antt =====
-- When the drawer's selection moves by itself.
use phpo.Base.{
  ℕ, ◌≡◌, refl, ap, ◌∙◌, sym, ◌≢◌, inl, inr, Bool, true, false, Option, some, Option-cases, List,
  [], ◌∷◌, Text, str_eq, eq_iff, is_given, if◌then◌else◌, arith,
}
use phpo.Task.{TaskRecord, TaskBrief, TaskBoard, TaskStore, Context, Params}
use phpo.Task.Records.{find_record}
use phpo.Task.Live.{
  ensure_live, follow, sync_running, sync_pending, leave_withdrawn, sync_board, running_id,
  dequeued, display_of,
}
use phpo.Task.Pool.{find_record-id}

-- The fields by which the store selects and shows.
abbrev pub selection : TaskStore → Text × Bool × Text
selection s = (s.active_id, s.expanded, s.followed_id)

ensure_live-selection :
    (ctx : Context) (id label type : Text) (total : ℕ) (code : Option Text) (params : Option Params)
    (s : TaskStore)
    → selection (ensure_live ctx id label type total code params s) ≡ selection s
unfolding ensure_live
ensure_live-selection ctx id label type total code params s = ground arith

sync_pending-selection :
    (ctx : Context) (ps : List TaskBrief) (s : TaskStore)
    → selection (sync_pending ctx ps s) ≡ selection s
unfolding sync_pending
sync_pending-selection ctx [] s = refl
sync_pending-selection ctx (p ∷ ps) s =
    sync_pending-selection ctx ps _
    ∙ ensure_live-selection ctx p.id p.label p.type p.total p.label_code p.label_params s

-- The running task is never taken for a withdrawn one.
dequeued_running :
    (ctx : Context) (r : TaskRecord)
    → ctx.has_backend ≡ true
    → r.id ≡ running_id ctx.tasks
    → dequeued ctx r ≡ false
unfolding dequeued display_of
dequeued_running ctx r h e = ground (arith, eq_iff r.id (running_id ctx.tasks))

leave_withdrawn_running :
    (ctx : Context) (s : TaskStore)
    → ctx.has_backend ≡ true
    → s.active_id ≡ running_id ctx.tasks
    → leave_withdrawn ctx (running_id ctx.tasks) s ≡ s
unfolding leave_withdrawn
leave_withdrawn_running ctx s h e = elim (Option-cases (find_record s.active_id s.records)) [
  | inl missing ↦ rw (missing, leave_withdrawn) refl
  | inr (r, found) ↦
      rw (found, leave_withdrawn)
        (rw (dequeued_running ctx r h (find_record-id s.active_id s.records found ∙ e)) refl)
]

leave_withdrawn_kept :
    (ctx : Context) (id : Text) (s : TaskStore) (sel : TaskRecord)
    → find_record s.active_id s.records ≡ some sel
    → dequeued ctx sel ≡ false
    → leave_withdrawn ctx id s ≡ s
unfolding leave_withdrawn
leave_withdrawn_kept ctx id s sel found kept = rw (found, leave_withdrawn) (rw kept refl)

sync_running-selection :
    (ctx : Context) (cur : TaskBrief) (s : TaskStore)
    → is_given cur.id ≡ true
    → selection (sync_running ctx (some cur) s)
      ≡ (if str_eq s.followed_id cur.id then selection s else (cur.id, true, cur.id))
unfolding sync_running follow
sync_running-selection ctx cur s g = ground (
  arith,
  ensure_live-selection ctx cur.id cur.label cur.type cur.total cur.label_code cur.label_params s,
)

running_id-some : (b : TaskBoard) (cur : TaskBrief) → b.running ≡ some cur → running_id b ≡ cur.id
running_id-some b cur e = rw e refl

-- The steps of `syncBoard` up to the last, when the board has a running task.
abbrev pub landed : Context → TaskBoard → TaskStore → TaskStore
landed ctx b s = sync_pending ctx b.pending (sync_running ctx b.running s)

landed-selection :
    (ctx : Context) (b : TaskBoard) (cur : TaskBrief) (s : TaskStore)
    → b.running ≡ some cur
    → is_given cur.id ≡ true
    → selection (landed ctx b s)
      ≡ (if str_eq s.followed_id cur.id then selection s else (cur.id, true, cur.id))
landed-selection ctx b cur s run g =
    sync_pending-selection ctx b.pending (sync_running ctx b.running s)
    ∙ ap (λ o. selection (sync_running ctx o s)) run
    ∙ sync_running-selection ctx cur s g

module _ (ctx : Context) (cur : TaskBrief) (s : TaskStore) (h : ctx.has_backend ≡ true)
    (run : ctx.tasks.running ≡ some cur) (g : is_given cur.id ≡ true) where
  -- When a task starts to run, the snapshot that says so selects it and opens the drawer.
  pub sync_board_follows :
      s.followed_id ≢ cur.id → selection (sync_board ctx ctx.tasks s) ≡ (cur.id, true, cur.id)
  unfolding sync_board
  sync_board_follows new =
      let moved : selection (landed ctx ctx.tasks s) ≡ (cur.id, true, cur.id) =
        ground (arith, landed-selection ctx ctx.tasks cur s run g, eq_iff s.followed_id cur.id) in
      let active : (landed ctx ctx.tasks s).active_id ≡ running_id ctx.tasks =
        ap (λ t. t.0) moved ∙ sym (running_id-some ctx.tasks cur run) in
      ap selection (leave_withdrawn_running ctx (landed ctx ctx.tasks s) h active) ∙ moved

  -- While it runs, later snapshots do not take the selection away from a record that the user chose,
  -- unless that one was withdrawn from the queue.
  pub sync_board_stays :
      (sel : TaskRecord)
      → s.followed_id ≡ cur.id
      → find_record s.active_id (landed ctx ctx.tasks s).records ≡ some sel
      → dequeued ctx sel ≡ false
      → selection (sync_board ctx ctx.tasks s) ≡ selection s
  unfolding sync_board
  sync_board_stays sel old found kept =
      let still : selection (landed ctx ctx.tasks s) ≡ selection s =
        ground (arith, landed-selection ctx ctx.tasks cur s run g, eq_iff s.followed_id cur.id) in
      ap selection (
        leave_withdrawn_kept ctx (running_id ctx.tasks) (landed ctx ctx.tasks s) sel
          (rw (ap (λ t. t.0) still) found) kept)
      ∙ still
