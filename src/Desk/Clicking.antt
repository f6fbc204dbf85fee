-- ===== src/Desk/Clicking.antt =====
-- Proofs about the clicks of frontend/src/composables/useModals.ts and the counters of the buttons.
use phpo.Base.{ℕ, refl, Bool, true, false, Option, none, some, List, [], Text, if◌then◌else◌}
use phpo.Task.{TaskMeta}
use phpo.App.{ServiceKind}
use phpo.Preflight.Check.{Action}
use phpo.Desk.{
  Row, BatchAction, delete_backup, Desk, Around, Confirm, uninstall_service, rebuild, batch,
  batch_remove, lifecycle, backup_delete, backup, guarded, Dialog, danger_confirm, close_modal,
}
use phpo.Desk.Submit.{send}
use phpo.Desk.Services.{
  enqueue_batch, notify_skipped, batch_lifecycle, dispatch_lifecycle, run_guarded_task,
  open_install_modal, open_site_add_modal, batch_remove_service, open_uninstall_modal,
  open_rebuild_modal,
}
use phpo.Desk.Sites.{submit_port, apply_port, switch_php, open_site_remove_modal}
use phpo.Desk.Backups.{
  submit_backup, submit_delete, run_backup, download_backup_file, open_delete_backup_modal,
  open_restore_modal,
}
use phpo.Desk.Confirming.{confirm}
use phpo.Desk.Clicks.{Click, confirm_open, click}
use phpo.Desk.Sending.{
  Counts, Counts-same, Counts-trans, Counts-if, toast-Counts, open_modal-Counts, refuse-Counts,
  run_task-Counts, send-Counts, submit_write-Counts, submit_row-Counts, enqueue_batch-Counts,
  notify_skipped-Counts, submit_batch-Counts,
}

Counts-here : (d : Desk) → Counts d d
Counts-here d = Counts-same d d refl refl

ruleset sending = (
  Counts-if, toast-Counts, open_modal-Counts, refuse-Counts, run_task-Counts, send-Counts,
  submit_write-Counts, submit_row-Counts, submit_batch-Counts,
)

submit_port-Counts :
    (e : Around) (domain : Text) (port : ℕ) (d : Desk) → Counts d (submit_port e domain port d)
unfolding submit_port
submit_port-Counts e domain port d = search sending

submit_delete-Counts : (e : Around) (file : Text) (d : Desk) → Counts d (submit_delete e file d)
unfolding submit_delete
submit_delete-Counts e file d =
    Counts-if e.outside.has_backend d (send (delete_backup file) [] d) _
      (send-Counts (delete_backup file) [] d) (Counts-same d _ refl refl)

submit_backup-Counts : (e : Around) (label : Text) (d : Desk) → Counts d (submit_backup e label d)
unfolding submit_backup
submit_backup-Counts e label d = search sending

confirm-Counts : (e : Around) (c : Confirm) (d : Desk) → Counts d (confirm e c d)
unfolding confirm
confirm-Counts e (uninstall_service kind version) d = search sending
confirm-Counts e (rebuild kind version) d = search sending
confirm-Counts e (batch action plan skipped) d = submit_batch-Counts e action plan skipped d
confirm-Counts e (batch_remove rows) d =
    let queued = enqueue_batch e BatchAction.uninstall rows 0 d in
    Counts-trans d queued.0 (notify_skipped e queued.1 queued.0)
      (enqueue_batch-Counts e BatchAction.uninstall rows 0 d)
      (notify_skipped-Counts e queued.1 queued.0)
confirm-Counts e (lifecycle action kind version label) d = search sending
confirm-Counts e (Confirm.site_remove domain) d = search sending
confirm-Counts e (backup_delete file) d = search (sending, submit_delete-Counts)
confirm-Counts e (Confirm.restore file) d = search sending
confirm-Counts e (backup label) d = submit_backup-Counts e label d
confirm-Counts e (Confirm.site_port domain port) d = submit_port-Counts e domain port d
confirm-Counts e (guarded args label meta) d = run_task-Counts e args label meta d

confirm_open-Counts : (e : Around) (x : Option Dialog) (d : Desk) → Counts d (confirm_open e x d)
unfolding confirm_open close_modal
confirm_open-Counts e none d = Counts-same d d refl refl
confirm_open-Counts e (some (danger_confirm danger)) d =
    Counts-trans d (close_modal d) _ (Counts-same d (close_modal d) refl refl)
      (confirm-Counts e danger.on_confirm (close_modal d))
confirm_open-Counts e (some _) d = Counts-same d d refl refl

batch_lifecycle-Counts :
    (e : Around) (action : BatchAction) (rows : List Row) (d : Desk)
    → Counts d (batch_lifecycle e action rows d)
unfolding batch_lifecycle
batch_lifecycle-Counts e action rows d = search (sending, Counts-here)

dispatch_lifecycle-Counts :
    (e : Around) (action : BatchAction) (kind : ServiceKind) (version : Text) (d : Desk)
    → Counts d (dispatch_lifecycle e action kind version d)
unfolding dispatch_lifecycle
dispatch_lifecycle-Counts e action kind version d = search sending

if_pair-Counts :
    (b : Bool) (d : Desk) (x y : Desk × Bool)
    → Counts d x.0
    → Counts d y.0
    → Counts d (if b then x else y).0
if_pair-Counts true d x y f g = f
if_pair-Counts false d x y f g = g

run_guarded_task-Counts :
    (e : Around) (action : Action) (name : Text) (args : List Text) (label : Option Text)
    (meta : Option TaskMeta) (skip : Bool) (d : Desk)
    → Counts d (run_guarded_task e action name args label meta skip d).0
unfolding run_guarded_task
run_guarded_task-Counts e action name args label meta skip d = search (sending, if_pair-Counts)

-- A click makes calls only after those that were made, and the counter of a button grows by those of
-- them that wait for it.
pub click-Counts : (e : Around) (c : Click) (d : Desk) → Counts d (click e c d)
unfolding click open_install_modal open_site_add_modal open_uninstall_modal open_rebuild_modal
    open_site_remove_modal open_delete_backup_modal open_restore_modal batch_remove_service
    run_backup download_backup_file apply_port switch_php close_modal
click-Counts e (Click.install kind) d = search sending
click-Counts e Click.site_add d = search sending
click-Counts e Click.theme_picker d = search sending
click-Counts e Click.update d = search sending
click-Counts e Click.cleanup d = search sending
click-Counts e Click.trash d = search sending
click-Counts e (Click.rewrite domain) d = search sending
click-Counts e (Click.site_config domain) d = search sending
click-Counts e (Click.config kind version) d = search sending
click-Counts e (Click.php_extensions version) d = search sending
click-Counts e (Click.home_setup locked) d = search sending
click-Counts e (Click.uninstall kind version) d = search sending
click-Counts e (Click.rebuild kind version) d = search sending
click-Counts e (Click.start kind version) d =
    dispatch_lifecycle-Counts e BatchAction.service_start kind version d
click-Counts e (Click.stop kind version) d =
    dispatch_lifecycle-Counts e BatchAction.service_stop kind version d
click-Counts e (Click.batch_start rows) d =
    batch_lifecycle-Counts e BatchAction.service_start rows d
click-Counts e (Click.batch_stop rows) d = batch_lifecycle-Counts e BatchAction.service_stop rows d
click-Counts e (Click.batch_remove rows) d = search (sending, Counts-here)
click-Counts e (Click.site_remove domain) d = search sending
click-Counts e (Click.delete_backup file) d = search sending
click-Counts e (Click.restore file) d = search sending
click-Counts e (Click.download file) d = search sending
click-Counts e Click.backup d = search sending
click-Counts e (Click.guarded_task action name args label meta skip) d =
    run_guarded_task-Counts e action name args label meta skip d
click-Counts e (Click.set_port domain desired) d = search (sending, submit_port-Counts)
click-Counts e (Click.set_php domain php original) d = search (sending, Counts-here)
click-Counts e Click.dismiss d = Counts-same d (close_modal d) refl refl
click-Counts e Click.confirmed d = confirm_open-Counts e d.dialog d
