-- ===== src/Desk/Clicks.antt =====
-- The entries of `useModals()`, `applyPort`, `switchPhp` and the confirmation of the open danger dialog
-- (frontend/src/components/business/DangerConfirm.vue), as one function.
use phpo.Base.{ℕ, Bool, Option, some, List, Text}
use phpo.Task.{TaskMeta}
use phpo.App.{ServiceKind}
use phpo.Preflight.Check.{Action}
use phpo.Desk.{
  Row, BatchAction, Dialog, rewrite_modal, site_config_modal, config_modal, php_extensions_modal,
  theme_picker_modal, update_modal, cleanup_modal, trash_viewer, home_setup_wizard, danger_confirm,
  Desk, Around, open_modal, close_modal,
}
use phpo.Desk.Services.{
  open_install_modal, open_site_add_modal, open_uninstall_modal, batch_lifecycle,
  batch_remove_service, dispatch_lifecycle, open_rebuild_modal, run_guarded_task,
}
use phpo.Desk.Sites.{open_site_remove_modal, apply_port, switch_php}
use phpo.Desk.Backups.{
  open_delete_backup_modal, open_restore_modal, run_backup, download_backup_file,
}
use phpo.Desk.Confirming.{confirm}

pub data Click : Type 0 where
  install : (kind : ServiceKind) → Click
  site_add theme_picker update cleanup trash : Click
  rewrite site_config : (domain : Text) → Click
  config : (kind : ServiceKind) (version : Text) → Click
  php_extensions : (version : Text) → Click
  home_setup : (locked : Bool) → Click
  uninstall rebuild start stop : (kind : ServiceKind) (version : Text) → Click
  batch_start batch_stop batch_remove : (rows : List Row) → Click
  site_remove : (domain : Text) → Click
  delete_backup restore download : (file : Text) → Click
  backup : Click
  guarded_task :
      (action : Action) (name : Text) (args : List Text) (label : Option Text)
      (meta : Option TaskMeta) (skip_warnings : Bool)
      → Click
  set_port : (domain : Text) (desired : ℕ) → Click
  set_php : (domain php original : Text) → Click
  dismiss confirmed : Click

-- The confirm button of the dialog that is open, its box ticked if it has one: the dialog closes, then its callback runs.
unfoldable pub confirm_open : Around → Option Dialog → Desk → Desk
unfolding confirm close_modal
confirm_open e (some (danger_confirm danger)) d = confirm e danger.on_confirm (close_modal d)
confirm_open e _ d = d

unfoldable pub click : Around → Click → Desk → Desk
unfolding confirm_open open_modal close_modal open_install_modal open_site_add_modal
    open_uninstall_modal batch_lifecycle batch_remove_service dispatch_lifecycle open_rebuild_modal
    open_site_remove_modal run_guarded_task apply_port switch_php open_delete_backup_modal
    open_restore_modal run_backup download_backup_file
click e (install kind) d = open_install_modal kind d
click e site_add d = open_site_add_modal d
click e theme_picker d = open_modal theme_picker_modal d
click e update d = open_modal update_modal d
click e cleanup d = open_modal cleanup_modal d
click e trash d = open_modal trash_viewer d
click e (rewrite domain) d = open_modal (rewrite_modal domain) d
click e (site_config domain) d = open_modal (site_config_modal domain) d
click e (config kind version) d = open_modal (config_modal kind version) d
click e (php_extensions version) d = open_modal (php_extensions_modal version) d
click e (home_setup locked) d = open_modal (home_setup_wizard locked) d
click e (uninstall kind version) d = open_uninstall_modal e kind version d
click e (rebuild kind version) d = open_rebuild_modal e kind version d
click e (start kind version) d = dispatch_lifecycle e BatchAction.service_start kind version d
click e (stop kind version) d = dispatch_lifecycle e BatchAction.service_stop kind version d
click e (batch_start rows) d = batch_lifecycle e BatchAction.service_start rows d
click e (batch_stop rows) d = batch_lifecycle e BatchAction.service_stop rows d
click e (batch_remove rows) d = batch_remove_service e rows d
click e (site_remove domain) d = open_site_remove_modal e domain d
click e (delete_backup file) d = open_delete_backup_modal e file d
click e (restore file) d = open_restore_modal e file d
click e (download file) d = download_backup_file e file d
click e backup d = run_backup e d
click e (guarded_task action name args label meta skip) d =
    (run_guarded_task e action name args label meta skip d).0
click e (set_port domain desired) d = apply_port e domain desired d
click e (set_php domain php original) d = switch_php e domain php original d
click e dismiss d = close_modal d
click e confirmed d = confirm_open e d.dialog d
