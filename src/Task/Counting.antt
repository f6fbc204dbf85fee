-- ===== src/Task/Counting.antt =====
-- The in-flight counters against the history of submissions and their ends.
use phpo.Base.{
  ap, sym, subst, ℕ, suc, ◌+◌, ◌-◌, ◌≤◌, ◌<◌, ◌≡◌, refl, true, false, not, ◌&&◌, none, some, List,
  [], ◌∷◌, ◌++◌, Text, str_eq, eq_iff, is_given, any, if◌then◌else◌, arith, ◌↔◌,
}
use phpo.Task.{TaskStore, is_running_status}
use phpo.Task.Records.{lookup, insert, delete}
use phpo.Task.Busy.{count_of, begin_submit, end_submit, is_busy_key, busy_key_of}

module _ {ℓ} {V : Type ℓ} (key other : Text) where
  pub lookup-insert :
      (value : V) (entries : List (Text × V))
      → lookup other (insert key value entries)
        ≡ (if str_eq key other then some value else lookup other entries)
  unfolding lookup insert
  lookup-insert value [] = refl
  lookup-insert value ((name, old) ∷ rest) =
      ground (arith, lookup-insert value rest, eq_iff name other, eq_iff name key, eq_iff key other)

  pub lookup-delete :
      (entries : List (Text × V))
      → lookup other (delete key entries)
        ≡ (if str_eq key other then none else lookup other entries)
  unfolding lookup delete
  lookup-delete [] = ground arith
  lookup-delete ((name, old) ∷ rest) =
      ground (arith, lookup-delete rest, eq_iff name other, eq_iff name key, eq_iff key other)

pub count_of-begin_submit :
    (k j : Text) (s : TaskStore)
    → is_given k ≡ true
    → count_of j (begin_submit k s).inflight
      ≡ (if str_eq k j then count_of j s.inflight + 1 else count_of j s.inflight)
unfolding count_of begin_submit lookup
count_of-begin_submit k j s h = ground (
  arith,
  eq_iff k j,
  lookup-insert k j (count_of k s.inflight + 1) s.inflight,
  lookup-insert j j (count_of j s.inflight + 1) s.inflight,
)

pub count_of-end_submit :
    (k j : Text) (s : TaskStore)
    → is_given k ≡ true
    → count_of j (end_submit k s).inflight
      ≡ (if str_eq k j then count_of j s.inflight - 1 else count_of j s.inflight)
unfolding count_of end_submit
count_of-end_submit k j s h = ground (
  arith,
  eq_iff k j,
  lookup-insert k j (count_of k s.inflight - 1) s.inflight,
  lookup-delete k j s.inflight,
)

-- The life of a write: it is submitted, and later it settles.
pub data Submission : Type 0 where
  submitted settled : Text → Submission

pub run_submission : Submission → TaskStore → TaskStore
run_submission (submitted k) s = begin_submit k s
run_submission (settled k) s = end_submit k s

unfoldable pub run_submissions : List Submission → TaskStore → TaskStore
unfolding run_submission
run_submissions [] s = s
run_submissions (e ∷ es) s = run_submissions es (run_submission e s)

abbrev pub submits : Text → List Submission → ℕ
submits key [] = 0
submits key (submitted k ∷ es) = if str_eq k key then suc (submits key es) else submits key es
submits key (settled k ∷ es) = submits key es

abbrev pub settles : Text → List Submission → ℕ
settles key [] = 0
settles key (submitted k ∷ es) = settles key es
settles key (settled k ∷ es) = if str_eq k key then suc (settles key es) else settles key es

-- At no moment has more settled than `n` and what was submitted: nothing settles unsubmitted.
abbrev pub IsOrdered : Text → ℕ → List Submission → Type 0
IsOrdered key n es =
    (before after : List Submission)
    → es ≡ before ++ after
    → settles key before ≤ n + submits key before

abbrev pub AllGiven : List Submission → Type 0
AllGiven [] = Unit
AllGiven (submitted k ∷ es) = (is_given k ≡ true) × AllGiven es
AllGiven (settled k ∷ es) = (is_given k ≡ true) × AllGiven es

count_of-run :
    (key : Text) (es : List Submission) (s : TaskStore)
    → AllGiven es
    → IsOrdered key (count_of key s.inflight) es
    → count_of key (run_submissions es s).inflight + settles key es
      ≡ count_of key s.inflight + submits key es
unfolding run_submissions
count_of-run key [] s g o = omega arith
count_of-run key (submitted k ∷ es) s g o =
    let step = count_of-begin_submit k key s g.0 in
    let rest : IsOrdered key (count_of key (begin_submit k s).inflight) es = λ before after e.
      ground (arith, o (submitted k ∷ before) after (ap (◌∷◌ (submitted k)) e), step) in
    ground (arith, count_of-run key es (begin_submit k s) g.1 rest, step)
count_of-run key (settled k ∷ es) s g o =
    let step = count_of-end_submit k key s g.0 in
    let rest : IsOrdered key (count_of key (end_submit k s).inflight) es = λ before after e.
      ground (
        arith,
        o (settled k ∷ before) after (ap (◌∷◌ (settled k)) e),
        step,
        o (settled k ∷ []) es refl,
      ) in
    ground (arith, count_of-run key es (end_submit k s) g.1 rest, step, o (settled k ∷ []) es refl)

run_submissions-records :
    (es : List Submission) (s : TaskStore) → (run_submissions es s).records ≡ s.records
unfolding run_submissions begin_submit end_submit
run_submissions-records [] s = refl
run_submissions-records (submitted k ∷ es) s =
    ground (arith, run_submissions-records es (begin_submit k s))
run_submissions-records (settled k ∷ es) s =
    ground (arith, run_submissions-records es (end_submit k s))

-- With no demo replay in the pool, after any history of submissions in which nothing settles that
-- was not submitted, the button of a target is busy exactly while more of its writes were submitted
-- than have settled.
pub is_busy_key-run_iff :
    (key : Text) (es : List Submission) (s : TaskStore)
    → is_given key ≡ true
    → AllGiven es
    → s.inflight ≡ []
    → any
        (λ r. not r.live && is_running_status r.status && str_eq (busy_key_of r.meta) key)
        s.records
      ≡ false
    → IsOrdered key 0 es
    → (is_busy_key key (run_submissions es s) ≡ true) ↔ (settles key es < submits key es)
unfolding is_busy_key count_of lookup
is_busy_key-run_iff key es s given all_given empty no_demo ordered = ground (
  arith,
  run_submissions-records es s,
  count_of-run key es s all_given
      (subst (λ m. IsOrdered key (count_of key m) es) (sym empty) ordered),
)
