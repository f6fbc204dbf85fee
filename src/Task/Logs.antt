-- ===== src/Task/Logs.antt =====
-- Proofs about what `appendLog`, `finish` and the system log of taskStore.ts write.
use mathlib.Core.List.{append_assoc, append-nil}
use phpo.Base.{
  ℕ, ◌≡◌, refl, inl, inr, true, Bool-cases, Option, none, some, Option-cases, List, [], ◌∷◌, ◌++◌,
  Text, map, sym, ap, ◌∙◌, if◌then◌else◌, eq_iff, eq_refl, is_given, truthy, arith, ◌≢◌, ◌≤◌, ◌-◌,
  ltb, drop, take, take-append-drop, drop-append, length, length-drop, length-append,
}
use phpo.Task.{TaskStatus, TaskRecord, TaskLine, TaskStore, Context, Params, LineType}
use phpo.Task.Records.{find_record}
use phpo.Task.Live.{
  ensure_id, write, push_line, append_log, push_sys, sys_max, refresh_record, is_err, is_failed,
  fresh_record,
}
use phpo.Task.Pool.{find_record-modify}
use phpo.Task.Ensure.{find_record-ensure_live, find_record-ensure_live_ne}

-- The record of `id`, as `ensureLive(id)` finds or makes it.
abbrev pub ensured : Context → Text → TaskStore → TaskRecord
ensured ctx id s = elim (find_record id s.records) [
  | some r ↦ r
  | none ↦ fresh_record s.cmd_by_label ctx.now id [] [] 0 none none
]

refresh_record-default :
    (cmds : List (Text × List Text)) (r : TaskRecord) → refresh_record cmds [] [] 0 none none r ≡ r
unfolding refresh_record
refresh_record-default cmds r = refl

find_record-ensure_id :
    (ctx : Context) (id : Text) (s : TaskStore)
    → find_record id (ensure_id ctx id s).records ≡ some (ensured ctx id s)
unfolding ensure_id
find_record-ensure_id ctx id s = elim (Option-cases (find_record id s.records)) [
  | inl e ↦ ground (arith, find_record-ensure_live ctx id [] [] 0 none none s)
  | inr (r, e) ↦ ground (
    arith,
    find_record-ensure_live ctx id [] [] 0 none none s,
    refresh_record-default s.cmd_by_label r,
  )
]

-- `ensureLive(id)` and a write to its record, seen at `id` and elsewhere.
module _ (ctx : Context) (id : Text) (f : TaskRecord → TaskRecord) (s : TaskStore)
    (ids : (r : TaskRecord) → (f r).id ≡ r.id) where
  pub find_record-write :
      find_record id (write id f (ensure_id ctx id s)).records ≡ some (f (ensured ctx id s))
  find_record-write = ground (
    arith,
    eq_refl id,
    find_record-modify id id f (ensure_id ctx id s).records ids,
    find_record-ensure_id ctx id s,
  )

  pub find_record-write_ne :
      (j : Text) {r : TaskRecord}
      → id ≢ j
      → find_record j (write id f (ensure_id ctx id s)).records ≡ some r
      → find_record j s.records ≡ some r
  unfolding ensure_id
  find_record-write_ne j {r} ne e =
      find_record-ensure_live_ne ctx id [] [] 0 none none s j ne
        (ground (arith, eq_iff id j, find_record-modify id j f (ensure_id ctx id s).records ids))

-- The lines of a list in turn, each as `appendLog` writes it for the task `id`.
abbrev pub logs : Text → List (Context × TaskLine) → TaskStore → TaskStore
logs id [] s = s
logs id ((ctx, l) ∷ ls) s = logs id ls (append_log ctx id l.t l.s l.c l.p s)

abbrev pub logged_lines : List (Context × TaskLine) → List TaskLine
logged_lines ls = map (λ l. l.1) ls

-- The last line that tells of an error.
abbrev pub last_error : List TaskLine → Option TaskLine
last_error [] = none
last_error (l ∷ ls) = elim (last_error ls) [
  | some later ↦ some later
  | none ↦ if is_err l.t then some l else none
]

-- A text with its code and parameters, of a line or else as given.
abbrev pub told_by :
    Option TaskLine
    → Option Text × Option Text × Option Params
    → Option Text × Option Text × Option Params
told_by none told = told
told_by (some l) told = (some l.s, l.c, l.p)

abbrev pub recorded : TaskRecord → Option Text × Option Text × Option Params
recorded r = (r.last_err, r.last_err_code, r.last_err_params)

-- How the record `r` follows from `r₀` when the lines `ls` are logged.
pub record IsLogged (ls : List TaskLine) (r₀ r : TaskRecord) : Type 0 where
  pub log : r.lines ≡ r₀.lines ++ ls
  pub told : recorded r ≡ told_by (last_error ls) (recorded r₀)
  pub kept : (r.status ≡ r₀.status) × (r.step ≡ r₀.step) × (r.total ≡ r₀.total)

told_by_next :
    (l : TaskLine) (ls : List TaskLine) (r : TaskRecord)
    → told_by (last_error ls) (recorded (push_line l.t l.s l.c l.p r))
      ≡ told_by (last_error (l ∷ ls)) (recorded r)
unfolding push_line
told_by_next l ls r = elim (Option-cases (last_error ls)) [
  | inl e ↦ rw e (elim (Bool-cases (is_err l.t)) [ inl f ↦ rw f refl | inr f ↦ rw f refl ])
  | inr (x, e) ↦ rw e refl
]

IsLogged-cons :
    (l : TaskLine) (ls : List TaskLine) (r₀ r : TaskRecord)
    → IsLogged ls (push_line l.t l.s l.c l.p r₀) r
    → IsLogged (l ∷ ls) r₀ r
unfolding push_line
IsLogged-cons l ls r₀ r h = record {
  log = h.log ∙ append_assoc r₀.lines (l ∷ []) ls;
  told = h.told ∙ told_by_next l ls r₀;
  kept = h.kept;
}

find_record-append_log :
    (ctx : Context) (id : Text) (l : TaskLine) (s : TaskStore)
    → is_given id ≡ true
    → find_record id (append_log ctx id l.t l.s l.c l.p s).records
      ≡ some (push_line l.t l.s l.c l.p (ensured ctx id s))
unfolding append_log push_line
find_record-append_log ctx id l s given =
    rw given (find_record-write ctx id (push_line l.t l.s l.c l.p) s (λ r. refl))

find_record-append_log_ne :
    (ctx : Context) (id : Text) (l : TaskLine) (s : TaskStore) (j : Text) {r : TaskRecord}
    → is_given id ≡ true
    → id ≢ j
    → find_record j (append_log ctx id l.t l.s l.c l.p s).records ≡ some r
    → find_record j s.records ≡ some r
unfolding append_log push_line
find_record-append_log_ne ctx id l s j {r} given =
    rw given (find_record-write_ne ctx id (push_line l.t l.s l.c l.p) s (λ r. refl) j {r = r})

find_record-logs_ne :
    (id : Text) (ls : List (Context × TaskLine)) (s : TaskStore) (j : Text) {r : TaskRecord}
    → is_given id ≡ true
    → id ≢ j
    → find_record j (logs id ls s).records ≡ some r
    → find_record j s.records ≡ some r
find_record-logs_ne id [] s j given ne e = e
find_record-logs_ne id ((ctx, l) ∷ ls) s j given ne e =
    find_record-append_log_ne ctx id l s j given ne (find_record-logs_ne id ls _ j given ne e)

ensured_found :
    (ctx : Context) (id : Text) (s : TaskStore) (r : TaskRecord)
    → find_record id s.records ≡ some r
    → ensured ctx id s ≡ r
ensured_found ctx id s r e = rw (e, ensured) refl

-- A record that is in the pool, after more lines.
logs-IsLogged :
    (id : Text) (ls : List (Context × TaskLine)) (s : TaskStore) (r₀ : TaskRecord)
    → is_given id ≡ true
    → find_record id s.records ≡ some r₀
    → (r : TaskRecord) × (find_record id (logs id ls s).records ≡ some r)
      × IsLogged (logged_lines ls) r₀ r
logs-IsLogged id [] s r₀ given e =
    (r₀, e, record { log = sym (append-nil r₀.lines); told = refl; kept = (refl, refl, refl) })
logs-IsLogged id ((ctx, l) ∷ ls) s r₀ given e =
    let found = find_record-append_log ctx id l s given in
    let pushed = push_line l.t l.s l.c l.p r₀ in
    let (r, f, h) =
      logs-IsLogged id ls (append_log ctx id l.t l.s l.c l.p s) pushed given
        (found ∙ ap (λ x. some (push_line l.t l.s l.c l.p x)) (ensured_found ctx id s r₀ e)) in
    (r, f, IsLogged-cons l (logged_lines ls) r₀ r h)

-- Lines that are logged for one task go to the end of its record in their order, the record being made
-- if it is not there; the last error that it keeps is the last `err` line among them, with its code and
-- parameters, or else the one that it had; its status and progress stay; and every record of another
-- task that is in the pool afterwards is one of before, unchanged.
pub append_log_lem :
    (id : Text) (ctx : Context) (l : TaskLine) (ls : List (Context × TaskLine)) (s : TaskStore)
    → is_given id ≡ true
    → ((r : TaskRecord) × (find_record id (logs id ((ctx, l) ∷ ls) s).records ≡ some r)
        × IsLogged (l ∷ logged_lines ls) (ensured ctx id s) r)
      × ((j : Text) (r : TaskRecord)
          → id ≢ j
          → find_record j (logs id ((ctx, l) ∷ ls) s).records ≡ some r
          → find_record j s.records ≡ some r)
append_log_lem id ctx l ls s given =
    let pushed = push_line l.t l.s l.c l.p (ensured ctx id s) in
    let (r, f, h) =
      logs-IsLogged id ls (append_log ctx id l.t l.s l.c l.p s) pushed given
        (find_record-append_log ctx id l s given) in
    (
      (r, f, IsLogged-cons l (logged_lines ls) (ensured ctx id s) r h),
      λ j r ne e. find_record-logs_ne id ((ctx, l) ∷ ls) s j given ne e,
    )

-- How the record of a new task has ended, by the lines that were logged for it.
pub record IsEnded (now : ℕ) (status : TaskStatus) (ls : List TaskLine) (r : TaskRecord)
    : Type 0 where
  pub ended : (r.status ≡ status) × (r.ended_at ≡ some now)
  pub log : r.lines ≡ ls
  pub cause :
      (r.error, r.error_code, r.error_params)
      ≡ told_by (if is_failed status then last_error ls else none) (none, none, none)
  pub stopped :
      status ≡ TaskStatus.cancelled → (r.cancelled ≡ true) × (truthy r.abort_reason ≡ true)

-- The system log never holds more than `sys_max` lines; the new line is the last, and what goes is
-- the oldest.
pub push_sys_lem :
    (level : LineType) (text : Text) (sys : List TaskLine)
    → let line : TaskLine = record { t = level; s = text; c = none; p = none } in
      (length (push_sys level text sys) ≤ sys_max)
      × ((old : List TaskLine) × (rest : List TaskLine) × (sys ≡ old ++ rest)
          × (push_sys level text sys ≡ rest ++ line ∷ []))
unfolding push_sys
push_sys_lem level text sys =
    let line : TaskLine = record { t = level; s = text; c = none; p = none } in
    let n = length (sys ++ line ∷ []) - sys_max in
    (
      ground (arith, length-drop n (sys ++ line ∷ [])),
      elim (Bool-cases (ltb sys_max (length (sys ++ line ∷ [])))) [
        | inl over ↦ (
          take n sys,
          drop n sys,
          take-append-drop n sys,
          rw over
              (drop-append n sys (line ∷ []) (omega (arith, length-append {0} sys (line ∷ [])))),
        )
        | inr fits ↦ ([], sys, refl, rw fits)
      ],
    )
