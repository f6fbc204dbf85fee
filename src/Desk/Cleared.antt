-- ===== src/Desk/Cleared.antt =====
-- The checks that belong to the calls of frontend/src/composables/useModals.ts and usePortSuggest.ts, and
-- rules for what writes and confirmations send.
use mathlib.Core.List.{append_assoc, append-nil}
use phpo.Base.{
  ℕ, suc, ◌≡◌, refl, sym, ap, ◌∙◌, Bool, true, false, Option, none, some, or_else, List, [], ◌∷◌,
  ◌++◌, All, All-append, Text, decimal, if◌then◌else◌,
}
use phpo.Task.{TaskMeta}
use phpo.Task.Busy.{busy_key_of}
use phpo.Sync.Notes.{kind_text}
use phpo.Preflight.{World, PreflightResult}
use phpo.Preflight.Check.{Action, preflight}
use phpo.Desk.{
  Row, BatchAction, Call, svc_start, svc_stop, svc_remove, svc_reinstall, remove_site,
  create_backup, restore_backup, delete_backup, download_backup, set_site_port, switch_site_php,
  Sent, Confirm, Dialog, Desk, Around, ToastKind, ToastText, toast, open_modal, world_of,
}
use phpo.Desk.Submit.{run_task, send, submit_write}
use phpo.Desk.Services.{
  service_label, verb, verb_key, action_name, service_meta, action_of, call_of, check_row,
  submit_row, enqueue_batch, notify_skipped, submit_batch, refuse,
}
use phpo.Desk.Backups.{submit_delete}
use phpo.Desk.Confirming.{confirm}
use phpo.Desk.Batches.{run_task-Still, world_eq}

-- The check of an action passes.
abbrev pub Passes : World → Action → Type 0
Passes w action = (preflight w action).ok ≡ true

-- The check that belongs to a call has passed; a new port is the one that the check has moved to, or the
-- one that was asked for. A download and a switch of PHP are called without a check, so none of theirs
-- has passed.
abbrev pub Cleared : World → Sent → Type 0
Cleared w s = elim s.call [
  | svc_start kind version ↦ Passes w (Action.service_start (kind_text kind) version)
  | svc_stop kind version ↦ Passes w (Action.service_stop (kind_text kind) version)
  | svc_remove kind version ↦ Passes w (Action.uninstall (kind_text kind) version)
  | svc_reinstall kind version ↦ Passes w (Action.update_config (kind_text kind) version [] none)
  | remove_site domain ↦ Passes w (Action.site_remove domain)
  | create_backup ↦ Passes w Action.backup
  | restore_backup file ↦ Passes w (Action.restore file)
  | delete_backup file ↦ Passes w (Action.backup_delete file)
  | set_site_port domain port ↦
      (desired : ℕ) × Passes w (Action.site_port domain (some (decimal desired)))
      × (or_else (preflight w (Action.site_port domain (some (decimal desired)))).adjusted_port
            desired
          ≡ port)
  | download_backup file ↦ ⊥
  | switch_site_php domain php ↦ ⊥
]

pub data Sends (w : World) (d d' : Desk) : Type 0 where
  sends : (new : List Sent) → d'.sent ≡ d.sent ++ new → All (Cleared w) new → Sends w d d'

pub Sends-none : (w : World) (d d' : Desk) → d'.sent ≡ d.sent → Sends w d d'
Sends-none w d d' e = sends [] (e ∙ sym (append-nil d.sent)) tt

pub Sends-trans : (w : World) (a b c : Desk) → Sends w a b → Sends w b c → Sends w a c
Sends-trans w a b c (sends m e f) (sends n g h) =
    sends (m ++ n) (g ∙ (ap (λ x. x ++ n) e ∙ append_assoc a.sent m n))
      (All-append (Cleared w) m n f h)

pub Sends-if :
    (w : World) (b : Bool) (d x y : Desk)
    → (b ≡ true → Sends w d x)
    → (b ≡ false → Sends w d y)
    → Sends w d (if b then x else y)
Sends-if w true d x y f g = f refl
Sends-if w false d x y f g = g refl

pub Sends-send :
    (w : World) (call : Call) (key : Text) (d : Desk)
    → Cleared w (record { call = call; key = key })
    → Sends w d (send call key d)
unfolding send
Sends-send w call key d h = sends (record { call = call; key = key } ∷ []) refl (h, tt)

pub Sends-run_task :
    (w : World) (e : Around) (args : List Text) (label : Option Text) (meta : Option TaskMeta)
    (d : Desk)
    → Sends w d (run_task e args label meta d)
Sends-run_task w e args label meta d =
    Sends-none w d (run_task e args label meta d) (run_task-Still e args label meta d).2

pub Sends-submit_write :
    (w : World) (e : Around) (args : List Text) (label : Text) (meta : TaskMeta) (call : Call)
    (d : Desk)
    → Cleared w (record { call = call; key = busy_key_of meta })
    → Sends w d (submit_write e args label meta call d)
unfolding submit_write
Sends-submit_write w e args label meta call d h =
    let started = run_task e args (some label) (some meta) d in
    let quiet = Sends-run_task w e args (some label) (some meta) d in
    Sends-if w e.outside.has_backend d (send call (busy_key_of meta) started) started
      (λ b.
        Sends-trans w d started (send call (busy_key_of meta) started) quiet
          (Sends-send w call (busy_key_of meta) started h))
      (λ b. quiet)

call_of-Cleared :
    (w : World) (action : BatchAction) (r : Row) (key : Text)
    → Passes w (action_of action r.kind r.version)
    → Cleared w (record { call = call_of action r.kind r.version; key = key })
call_of-Cleared w BatchAction.service_start r key h = h
call_of-Cleared w BatchAction.service_stop r key h = h
call_of-Cleared w BatchAction.uninstall r key h = h

pub Sends-submit_row :
    (w : World) (e : Around) (action : BatchAction) (r : Row) (d : Desk)
    → Passes w (action_of action r.kind r.version)
    → Sends w d (submit_row e action r d)
unfolding submit_row
Sends-submit_row w e action r d h = search (Sends-submit_write, call_of-Cleared)

if_world :
    (e : Around) (b : Bool) (x y : Desk) (w : World)
    → world_of e x ≡ w
    → world_of e y ≡ w
    → world_of e (if b then x else y) ≡ w
if_world e true x y w f g = f
if_world e false x y w f g = g

submit_row-world :
    (e : Around) (action : BatchAction) (r : Row) (d : Desk)
    → world_of e (submit_row e action r d) ≡ world_of e d
unfolding submit_row submit_write send
submit_row-world e action r d =
    let meta = service_meta (action_name action) r.kind r.version in
    let args = kind_text r.kind ∷ verb action ∷ r.version ∷ [] in
    let label = some (service_label e (verb_key action) r.kind r.version) in
    let started = run_task e args label (some meta) d in
    let (f, g, k) = run_task-Still e args label (some meta) d in
    let same = world_eq e d started f g in
    if_world e e.outside.has_backend
      (send (call_of action r.kind r.version) (busy_key_of meta) started) started (world_of e d)
      same same

pub Sends-enqueue_batch :
    (w : World) (e : Around) (action : BatchAction) (rows : List Row) (skipped : ℕ) (d : Desk)
    → world_of e d ≡ w
    → Sends w d (enqueue_batch e action rows skipped d).0
unfolding enqueue_batch
Sends-enqueue_batch w e action [] skipped d f = Sends-none w d d refl
Sends-enqueue_batch w e action (r ∷ rs) skipped d f =
    let passes = (check_row e d action r).ok in
    let next = if passes then submit_row e action r d else d in
    let left = if passes then skipped else suc skipped in
    let cleared : passes ≡ true → Passes w (action_of action r.kind r.version) =
      λ p. sym (ap (λ w. (preflight w (action_of action r.kind r.version)).ok) f) ∙ p in
    Sends-trans w d next (enqueue_batch e action rs left next).0
      (Sends-if w passes d (submit_row e action r d) d
        (λ p. Sends-submit_row w e action r d (cleared p)) (λ p. Sends-none w d d refl))
      (Sends-enqueue_batch w e action rs left next
        (if_world e passes (submit_row e action r d) d w (submit_row-world e action r d ∙ f) f))

pub Sends-toast :
    (w : World) (msg : ToastText) (kind : ToastKind) (d : Desk) → Sends w d (toast msg kind d)
unfolding toast
Sends-toast w msg kind d = Sends-none w d (toast msg kind d) refl

pub Sends-open_modal : (w : World) (x : Dialog) (d : Desk) → Sends w d (open_modal x d)
unfolding open_modal
Sends-open_modal w x d = Sends-none w d (open_modal x d) refl

pub Sends-refuse : (w : World) (result : PreflightResult) (d : Desk) → Sends w d (refuse result d)
unfolding refuse
Sends-refuse w result d = Sends-none w d (refuse result d) refl

pub Sends-here : (w : World) (d : Desk) → Sends w d d
Sends-here w d = Sends-none w d d refl

pub ruleset clearing = (
  Sends-if, Sends-toast, Sends-open_modal, Sends-refuse, Sends-here, Sends-run_task,
  Sends-submit_write, Sends-submit_row, Sends-send,
)

pub Sends-notify_skipped :
    (w : World) (e : Around) (n : ℕ) (d : Desk) → Sends w d (notify_skipped e n d)
unfolding notify_skipped
Sends-notify_skipped w e n d = search clearing

pub Sends-submit_batch :
    (w : World) (e : Around) (action : BatchAction) (plan : List Row) (skipped : ℕ) (d : Desk)
    → world_of e d ≡ w
    → Sends w d (submit_batch e action plan skipped d)
unfolding submit_batch
Sends-submit_batch w e action plan skipped d f =
    let queued = (enqueue_batch e action plan 0 d).0 in
    Sends-trans w d queued (notify_skipped e skipped queued)
      (Sends-enqueue_batch w e action plan 0 d f) (Sends-notify_skipped w e skipped queued)

pub Sends-submit_delete :
    (w : World) (e : Around) (file : Text) (d : Desk)
    → Passes w (Action.backup_delete file)
    → Sends w d (submit_delete e file d)
unfolding submit_delete toast
Sends-submit_delete w e file d h =
    Sends-if w e.outside.has_backend d (send (delete_backup file) [] d) _
      (λ b. Sends-send w (delete_backup file) [] d h) (λ b. Sends-none w d _ refl)

-- The confirmation of a dialog that only asked about warnings sends without another check.
abbrev pub checks_again : Confirm → Bool
checks_again (Confirm.lifecycle action kind version label) = false
checks_again (Confirm.backup label) = false
checks_again (Confirm.site_port domain port) = false
checks_again _ = true

pub Sends-confirm :
    (e : Around) (c : Confirm) (d : Desk)
    → checks_again c ≡ true
    → Sends (world_of e d) d (confirm e c d)
unfolding confirm
Sends-confirm e (Confirm.uninstall_service kind version) d h = search clearing
Sends-confirm e (Confirm.rebuild kind version) d h = search clearing
Sends-confirm e (Confirm.batch action plan skipped) d h =
    Sends-submit_batch (world_of e d) e action plan skipped d refl
Sends-confirm e (Confirm.batch_remove rows) d h =
    let w = world_of e d in
    let queued = enqueue_batch e BatchAction.uninstall rows 0 d in
    Sends-trans w d queued.0 (notify_skipped e queued.1 queued.0)
      (Sends-enqueue_batch w e BatchAction.uninstall rows 0 d refl)
      (Sends-notify_skipped w e queued.1 queued.0)
Sends-confirm e (Confirm.lifecycle action kind version label) d h = cc
Sends-confirm e (Confirm.site_remove domain) d h = search clearing
Sends-confirm e (Confirm.backup_delete file) d h = search (clearing, Sends-submit_delete)
Sends-confirm e (Confirm.restore file) d h = search clearing
Sends-confirm e (Confirm.backup label) d h = cc
Sends-confirm e (Confirm.site_port domain port) d h = cc
Sends-confirm e (Confirm.guarded args label meta) d h = search clearing
