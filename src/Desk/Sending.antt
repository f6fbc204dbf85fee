-- ===== src/Desk/Sending.antt =====
-- The calls that a click makes (frontend/src/composables/useTask.ts) and the counters of the buttons: a
-- relation of two desks, and its rules.
use mathlib.Core.List.{append_assoc, append-nil}
use phpo.Base.{
  ℕ, suc, ◌+◌, ◌==◌, ◌≡◌, refl, sym, ap, ◌∙◌, Bool, true, false, Option, some, List, [], ◌∷◌, ◌++◌,
  decimal, lit, or_else, Text, is_given, str_eq, if◌then◌else◌, arith,
}
use phpo.Task.{TaskMeta, TaskStore}
use phpo.Task.Demo.{start}
use phpo.Sync.{context_of}
use phpo.Sync.Notes.{kind_text}
use phpo.Messages.Language.{t}
use phpo.Task.Busy.{count_of, begin_submit, busy_key_of}
use phpo.Task.Counting.{count_of-begin_submit}
use phpo.Sync.Inflight.{start-inflight}
use phpo.Preflight.{PreflightResult}
use phpo.Desk.{
  Row, BatchAction, Call, Sent, Desk, Around, ToastKind, info, err, ToastText, said, toast, Dialog,
  open_modal,
}
use phpo.Desk.Submit.{default_meta, run_task, send, submit_write}
use phpo.Desk.Services.{
  say, verb, verb_key, action_name, service_label, service_meta, call_of, check_row, submit_row,
  enqueue_batch, notify_skipped, submit_batch, refuse,
}

-- How many of the calls wait under a key.
abbrev pub waiting : Text → List Sent → ℕ
waiting key [] = 0
waiting key (s ∷ ss) = if str_eq s.key key then suc (waiting key ss) else waiting key ss

pub waiting-append :
    (key : Text) (xs ys : List Sent) → waiting key (xs ++ ys) ≡ waiting key xs + waiting key ys
waiting-append key [] ys = omega arith
waiting-append key (x ∷ xs) ys = ground (arith, waiting-append key xs ys)

abbrev pub busy_count : Text → Desk → ℕ
busy_count key d = count_of key d.stores.task.inflight

-- The second desk has further calls, and the counters have grown by them.
pub data Counts (d d' : Desk) : Type 0 where
  counts :
      (new : List Sent)
      → d'.sent ≡ d.sent ++ new
      → ((key : Text)
          → is_given key ≡ true
          → busy_count key d' ≡ busy_count key d + waiting key new)
      → Counts d d'

pub Counts-same :
    (d d' : Desk)
    → d'.sent ≡ d.sent
    → d'.stores.task.inflight ≡ d.stores.task.inflight
    → Counts d d'
Counts-same d d' e f = counts [] (e ∙ sym (append-nil d.sent)) (λ key g. rw f (omega arith))

pub Counts-trans : (a b c : Desk) → Counts a b → Counts b c → Counts a c
Counts-trans a b c (counts m e f) (counts n g h) =
    counts (m ++ n) (g ∙ (ap (λ x. x ++ n) e ∙ append_assoc a.sent m n))
      (λ key k. ground (arith, f key k, h key k, waiting-append key m n))

pub Counts-if : (b : Bool) (d x y : Desk) → Counts d x → Counts d y → Counts d (if b then x else y)
Counts-if true d x y f g = f
Counts-if false d x y f g = g

pub toast-Counts : (msg : ToastText) (kind : ToastKind) (d : Desk) → Counts d (toast msg kind d)
unfolding toast
toast-Counts msg kind d = Counts-same d (toast msg kind d) refl refl

pub open_modal-Counts : (x : Dialog) (d : Desk) → Counts d (open_modal x d)
unfolding open_modal
open_modal-Counts x d = Counts-same d (open_modal x d) refl refl

pub refuse-Counts : (result : PreflightResult) (d : Desk) → Counts d (refuse result d)
unfolding refuse
refuse-Counts result d = Counts-same d (refuse result d) refl refl

pub run_task-Counts :
    (e : Around) (args : List Text) (label : Option Text) (meta : Option TaskMeta) (d : Desk)
    → Counts d (run_task e args label meta d)
unfolding run_task
run_task-Counts e args label meta d =
    let given = or_else meta (default_meta args) in
    let ctx = context_of e.outside d.stores.app in
    let started =
      start ctx (e.script args given) args label given (e.outside.now, e.timer) d.stores.task in
    let after : Desk = record d { stores = record (d.stores) { task = started.0 } } in
    let msg = said (t e.texts (lit "err.taskBusy") []) in
    let grown : Counts d after = Counts-same d after refl (
      start-inflight ctx (e.script args given) args label given (e.outside.now, e.timer)
        d.stores.task) in
    Counts-if started.1 d after (toast msg err after) grown
      (Counts-trans d after (toast msg err after) grown (toast-Counts msg err after))

count_of-begin_any :
    (k j : Text) (s : TaskStore)
    → is_given j ≡ true
    → count_of j (begin_submit k s).inflight ≡ count_of j s.inflight + (if str_eq k j then 1 else 0)
unfolding begin_submit str_eq
count_of-begin_any [] [] s g = cc
count_of-begin_any [] (c ∷ j) s g = omega arith
count_of-begin_any (b ∷ k) j s g = ground (arith, count_of-begin_submit (b ∷ k) j s refl)

pub send-Counts : (call : Call) (key : Text) (d : Desk) → Counts d (send call key d)
unfolding send
send-Counts call key d =
    counts (record { call = call; key = key } ∷ []) refl
      (λ j g. count_of-begin_any key j d.stores.task g)

pub submit_write-Counts :
    (e : Around) (args : List Text) (label : Text) (meta : TaskMeta) (call : Call) (d : Desk)
    → Counts d (submit_write e args label meta call d)
unfolding submit_write
submit_write-Counts e args label meta call d =
    let started = run_task e args (some label) (some meta) d in
    let grown = run_task-Counts e args (some label) (some meta) d in
    Counts-if e.outside.has_backend d (send call (busy_key_of meta) started) started
      (Counts-trans d started (send call (busy_key_of meta) started) grown
        (send-Counts call (busy_key_of meta) started))
      grown

pub submit_row-Counts :
    (e : Around) (action : BatchAction) (r : Row) (d : Desk) → Counts d (submit_row e action r d)
unfolding submit_row
submit_row-Counts e action r d =
    submit_write-Counts e (kind_text r.kind ∷ verb action ∷ r.version ∷ [])
      (service_label e (verb_key action) r.kind r.version)
      (service_meta (action_name action) r.kind r.version) (call_of action r.kind r.version) d

pub enqueue_batch-Counts :
    (e : Around) (action : BatchAction) (rows : List Row) (skipped : ℕ) (d : Desk)
    → Counts d (enqueue_batch e action rows skipped d).0
unfolding enqueue_batch
enqueue_batch-Counts e action [] skipped d = Counts-same d d refl refl
enqueue_batch-Counts e action (r ∷ rs) skipped d =
    let passes = (check_row e d action r).ok in
    let next = if passes then submit_row e action r d else d in
    Counts-trans d next _
      (Counts-if passes d (submit_row e action r d) d (submit_row-Counts e action r d)
        (Counts-same d d refl refl))
      (enqueue_batch-Counts e action rs (if passes then skipped else suc skipped) next)

pub notify_skipped-Counts : (e : Around) (n : ℕ) (d : Desk) → Counts d (notify_skipped e n d)
unfolding notify_skipped
notify_skipped-Counts e n d =
    let told = said (say e (lit "overview.batch.skipped") ((lit "n", decimal n) ∷ [])) in
    Counts-if (n == 0) d d (toast told info d) (Counts-same d d refl refl)
      (toast-Counts told info d)

pub submit_batch-Counts :
    (e : Around) (action : BatchAction) (plan : List Row) (skipped : ℕ) (d : Desk)
    → Counts d (submit_batch e action plan skipped d)
unfolding submit_batch
submit_batch-Counts e action plan skipped d =
    let queued = (enqueue_batch e action plan 0 d).0 in
    Counts-trans d queued _ (enqueue_batch-Counts e action plan 0 d)
      (notify_skipped-Counts e skipped queued)
