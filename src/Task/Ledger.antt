-- ===== src/Task/Ledger.antt =====
-- What `loadHistory` and `clearAll` leave in the pool.
use phpo.Base.{
  ℕ, ltb, ◌≤◌, ◌≡◌, refl, ap, sym, ◌∙◌, subst, ◌≢◌, ◌⊎◌, inl, inr, not, ◌||◌, Bool-cases, none,
  some, is_some, Option-cases, List, [], ◌∷◌, ◌++◌, Text, str_eq, eq_iff, is_given, or_else, filter,
  if◌then◌else◌, arith, All,
}
use phpo.Task.{TaskStatus, TaskRecord, TaskStore, Context}
use phpo.Task.Records.{find_record, trim}
use phpo.Task.History.{
  Operation, history_record, history_status, is_cleared, load_row, load_rows, insert_newest,
  sort_newest, load_history, clear_finish,
}
use phpo.Task.Pool.{find_record-trim, trim-split}
use phpo.Task.Distinct.{Absent, Distinct, Absent-sort_newest}
use phpo.Task.OneRecord.{load_rows-Distinct}

find_record-snoc :
    (j : Text) (xs : List TaskRecord) (x : TaskRecord)
    → find_record j (xs ++ x ∷ []) ≡ (
        if is_some (find_record j xs)
        then find_record j xs
        else (if str_eq x.id j then some x else none))
unfolding find_record
find_record-snoc j [] x = refl
find_record-snoc j (y ∷ xs) x = ground (arith, find_record-snoc j xs x)

find_record-insert_newest :
    (j : Text) (r : TaskRecord) (xs : List TaskRecord)
    → Absent r.id xs
    → find_record j (insert_newest r xs) ≡ (if str_eq r.id j then some r else find_record j xs)
unfolding find_record insert_newest
find_record-insert_newest j r [] a = refl
find_record-insert_newest j r (x ∷ xs) (n, a) =
    ground (arith, eq_iff r.id j, eq_iff x.id j, find_record-insert_newest j r xs a)

find_record-sort_newest :
    (j : Text) (xs : List TaskRecord)
    → Distinct xs
    → find_record j (sort_newest xs) ≡ find_record j xs
unfolding sort_newest find_record
find_record-sort_newest j [] d = refl
find_record-sort_newest j (x ∷ xs) (a, d) =
    find_record-insert_newest j x (sort_newest xs) (Absent-sort_newest x.id xs a)
    ∙ ap (λ o. if str_eq x.id j then some x else o) (find_record-sort_newest j xs d)

history_status-ne : (t : Text) → history_status t ≢ TaskStatus.running
history_status-ne t e = ground arith

history_record-ended :
    (ctx : Context) (s : TaskStore) (id : Text) (op : Operation)
    → (history_record ctx s id op).status ≢ TaskStatus.running
unfolding history_record
history_record-ended ctx s id op = history_status-ne op.status

-- A record of the pool `ts` is one of `rs`, unchanged, or a new one that has ended.
abbrev pub IsLoaded : List TaskRecord → List TaskRecord → Type 0
IsLoaded rs ts =
    (j : Text) (r : TaskRecord)
    → find_record j ts ≡ some r
    → (find_record j rs ≡ some r) ⊎ ((find_record j rs ≡ none) × (r.status ≢ TaskStatus.running))

load_row-IsLoaded :
    (ctx : Context) (at : ℕ) (op : Operation) (s : TaskStore)
    → IsLoaded s.records (load_row ctx at op s).records
unfolding load_row
load_row-IsLoaded ctx at op s j r e =
    elim (Bool-cases (
      not (is_given (or_else op.task_id []))
      || is_some (find_record (or_else op.task_id []) s.records)
      || is_cleared at (ctx.parse_date op.ts))) [
        | inl skip ↦ inl (rw skip at e)
        | inr take ↦
            let new = history_record ctx s (or_else op.task_id []) op in
            let e' : find_record j (s.records ++ new ∷ []) ≡ some r = rw take at e in
            elim (Option-cases (find_record j s.records)) [
              | inl missing ↦
                  let same : new ≡ r = ground (arith, find_record-snoc j s.records new) in
                  inr (missing, rw (← same) (history_record-ended ctx s (or_else op.task_id []) op))
              | inr (r₀, found) ↦ inl (ground (arith, find_record-snoc j s.records new))
            ]
      ]

-- The rows in turn: what was there stays.
load_row-found :
    (ctx : Context) (at : ℕ) (op : Operation) (s : TaskStore) (j : Text) {r : TaskRecord}
    → find_record j s.records ≡ some r
    → find_record j (load_row ctx at op s).records ≡ some r
unfolding load_row
load_row-found ctx at op s j {r} e =
    ground (arith, find_record-snoc j s.records (history_record ctx s (or_else op.task_id []) op))

load_rows-found :
    (ctx : Context) (at : ℕ) (ops : List Operation) (s : TaskStore) (j : Text) {r : TaskRecord}
    → find_record j s.records ≡ some r
    → find_record j (load_rows ctx at ops s).records ≡ some r
unfolding load_rows
load_rows-found ctx at [] s j e = e
load_rows-found ctx at (op ∷ ops) s j e =
    load_rows-found ctx at ops (load_row ctx at op s) j (load_row-found ctx at op s j e)

load_rows-IsLoaded :
    (ctx : Context) (at : ℕ) (ops : List Operation) (s : TaskStore)
    → IsLoaded s.records (load_rows ctx at ops s).records
unfolding load_rows
load_rows-IsLoaded ctx at [] s j r e = inl e
load_rows-IsLoaded ctx at (op ∷ ops) s j r e =
    elim (load_rows-IsLoaded ctx at ops (load_row ctx at op s) j r e) [
      | inl mid ↦ load_row-IsLoaded ctx at op s j r mid
      | inr (missing, ended) ↦ elim (Option-cases (find_record j s.records)) [
        | inl before ↦ inr (before, ended)
        | inr (r₀, found) ↦ let still = load_row-found ctx at op s j {r = r₀} found in absurd (cc)
      ]
    ]

-- Newest first.
abbrev pub IsNewestFirst : List TaskRecord → Type 0
IsNewestFirst [] = Unit
IsNewestFirst (r ∷ rs) = All (λ x. x.started_at ≤ r.started_at) rs × IsNewestFirst rs

All-insert_newest :
    (n : ℕ) (r : TaskRecord) (xs : List TaskRecord)
    → r.started_at ≤ n
    → All (λ x. x.started_at ≤ n) xs
    → All (λ x. x.started_at ≤ n) (insert_newest r xs)
unfolding insert_newest
All-insert_newest n r [] h k = (h, tt)
All-insert_newest n r (x ∷ xs) h (m, k) = ground (arith, All-insert_newest n r xs h k)

All-weaken :
    (m n : ℕ) (xs : List TaskRecord)
    → m ≤ n
    → All (λ x. x.started_at ≤ m) xs
    → All (λ x. x.started_at ≤ n) xs
All-weaken m n [] le h = tt
All-weaken m n (x ∷ xs) le (k, h) = (omega arith, All-weaken m n xs le h)

insert_newest-IsNewestFirst :
    (r : TaskRecord) (xs : List TaskRecord) → IsNewestFirst xs → IsNewestFirst (insert_newest r xs)
unfolding insert_newest
insert_newest-IsNewestFirst r [] h = (tt, tt)
insert_newest-IsNewestFirst r (x ∷ xs) (k, h) = elim (Bool-cases (ltb r.started_at x.started_at)) [
  | inl older ↦
      rw older
        (All-insert_newest x.started_at r xs (ground arith) k, insert_newest-IsNewestFirst r xs h)
  | inr newer ↦
      let le : x.started_at ≤ r.started_at = ground arith in
      rw newer ((le, All-weaken x.started_at r.started_at xs le k), (k, h))
]

sort_newest-IsNewestFirst : (xs : List TaskRecord) → IsNewestFirst (sort_newest xs)
unfolding sort_newest
sort_newest-IsNewestFirst [] = tt
sort_newest-IsNewestFirst (x ∷ xs) =
    insert_newest-IsNewestFirst x (sort_newest xs) (sort_newest-IsNewestFirst xs)

All-prefix : (P : TaskRecord → Type 0) (xs ys : List TaskRecord) → All P (xs ++ ys) → All P xs
All-prefix P [] ys h = tt
All-prefix P (x ∷ xs) ys (k, h) = (k, All-prefix P xs ys h)

IsNewestFirst-prefix : (xs ys : List TaskRecord) → IsNewestFirst (xs ++ ys) → IsNewestFirst xs
IsNewestFirst-prefix [] ys h = tt
IsNewestFirst-prefix (x ∷ xs) ys (k, h) =
    (All-prefix (λ y. y.started_at ≤ x.started_at) xs ys k, IsNewestFirst-prefix xs ys h)

-- Loading the ledger leaves the pool newest first, and each of its records is one of before,
-- unchanged, or one of the ledger that has ended and that the pool did not have.
pub load_history_lem :
    (ctx : Context) (at : ℕ) (ops : List Operation) (s : TaskStore)
    → Distinct s.records
    → IsNewestFirst (load_history ctx at ops s).records
      × IsLoaded s.records (load_history ctx at ops s).records
unfolding load_history
load_history_lem ctx at ops s d =
    let t = load_rows ctx at ops s in
    let (cut, same, _) = trim-split t.active_id (sort_newest t.records) in
    (
      IsNewestFirst-prefix (trim t.active_id (sort_newest t.records)) cut
          (subst IsNewestFirst same (sort_newest-IsNewestFirst t.records)),
      λ j r e. load_rows-IsLoaded ctx at ops s j r (
          sym (find_record-sort_newest j t.records (load_rows-Distinct ctx at ops s d))
          ∙ find_record-trim t.active_id j (sort_newest t.records) e),
    )

find_record-filter_self :
    (keep : Text) (rs : List TaskRecord)
    → find_record keep (filter (λ x. str_eq x.id keep) rs) ≡ find_record keep rs
unfolding find_record
find_record-filter_self keep [] = refl
find_record-filter_self keep (x ∷ rs) = ground (arith, find_record-filter_self keep rs)

All-filter_id :
    (keep : Text) (rs : List TaskRecord)
    → All (λ r. r.id ≡ keep) (filter (λ x. str_eq x.id keep) rs)
All-filter_id keep [] = tt
All-filter_id keep (x ∷ rs) = ground (arith, eq_iff x.id keep, All-filter_id keep rs)

-- Clearing leaves the record of the task to keep as it is, selected, and nothing else: no other
-- record and no line of the system log.
pub clear_finish_lem :
    (keep : Text) (s : TaskStore)
    → (find_record keep (clear_finish keep s).records ≡ find_record keep s.records)
      × All (λ r. r.id ≡ keep) (clear_finish keep s).records
      × ((clear_finish keep s).sys_lines ≡ [])
      × ((clear_finish keep s).active_id ≡ keep)
unfolding clear_finish
clear_finish_lem keep s =
    (find_record-filter_self keep s.records, All-filter_id keep s.records, refl, refl)
