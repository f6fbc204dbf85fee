-- ===== src/Desk/Backups.antt =====
-- The actions of frontend/src/composables/useModals.ts on backups, up to the dialog or the call.
use phpo.Base.{
  true, false, not, Option, none, some, List, [], ◌∷◌, ◌++◌, find, is_empty, Text, lit, str_eq,
  if◌then◌else◌,
}
use phpo.Task.{TaskMeta}
use phpo.App.{Backup}
use phpo.Preflight.Check.{preflight, Action}
use phpo.Desk.{
  ok, said, create_backup, delete_backup, download_backup, Confirm, text, danger_confirm, Desk,
  Around, toast, open_modal, world_of,
}
use phpo.Desk.Submit.{submit_write, send, said_of_file}
use phpo.Desk.Services.{say, refuse, warnings_of, warn_dialog}

abbrev pub file_meta : Text → Option Text → TaskMeta
file_meta type file = record {
  type = type;
  kind = none;
  version = none;
  domain = none;
  file = file;
}

abbrev size_of : Option Backup → Text
size_of none = []
size_of (some b) = b.size

abbrev time_of : Option Backup → Text
time_of none = []
time_of (some b) = b.at

abbrev backup_of : Text → Desk → Option Backup
backup_of file d = find (λ b. str_eq b.file file) d.stores.app.backups

unfoldable pub open_delete_backup_modal : Around → Text → Desk → Desk
unfolding open_modal
open_delete_backup_modal e file d =
    let b = backup_of file d in
    open_modal
      (danger_confirm (record {
        title = say e (lit "danger.backupDel.title") [];
        description = some file;
        warnings =
            text
              (say e (lit "danger.backupDel.warn1")
                ((lit "size", size_of b) ∷ (lit "time", time_of b) ∷ []))
              false
            ∷ text (say e (lit "danger.backupDel.warn2") []) false
            ∷ text (say e (lit "danger.backupDel.warn3") []) true
            ∷ [];
        checkbox = some (say e (lit "danger.backupDel.check") []);
        confirm_label = say e (lit "danger.backupDel.confirm") [];
        on_confirm = Confirm.backup_delete file;
      }))
      d

unfoldable pub open_restore_modal : Around → Text → Desk → Desk
unfolding open_modal
open_restore_modal e file d =
    let b = backup_of file d in
    open_modal
      (danger_confirm (record {
        title = say e (lit "danger.restore.title") [];
        description =
            some (
              say e (lit "danger.restore.desc")
                ((lit "file", file) ∷ (lit "size", size_of b) ∷ []));
        warnings =
            text (say e (lit "danger.restore.warn1") []) false
            ∷ text (say e (lit "danger.restore.warn2") []) false
            ∷ text (say e (lit "danger.restore.warn3") []) false
            ∷ text (say e (lit "danger.restore.warn4") []) true
            ∷ [];
        checkbox = some (say e (lit "danger.restore.check") []);
        confirm_label = say e (lit "danger.restore.confirm") [];
        on_confirm = Confirm.restore file;
      }))
      d

-- The `submit` of `runBackup`.
unfoldable pub submit_backup : Around → Text → Desk → Desk
unfolding submit_write
submit_backup e label d =
    submit_write e (lit "backup" ∷ []) label (file_meta (lit "backup") none) create_backup d

unfoldable pub run_backup : Around → Desk → Desk
unfolding preflight submit_backup open_modal refuse
run_backup e d =
    let label = say e (lit "backup.nowTask") [] in
    let result = preflight (world_of e d) Action.backup in
    if not result.ok
    then refuse result d
    else if is_empty result.warnings
    then submit_backup e label d
    else open_modal (warn_dialog e label (warnings_of result) (Confirm.backup label)) d

unfoldable pub download_backup_file : Around → Text → Desk → Desk
unfolding send toast
download_backup_file e file d =
    if e.outside.has_backend
    then send (download_backup file) [] d
    else toast (said_of_file e (lit "backup.downloaded") file) ok d

abbrev drop_backup : Text → List Backup → List Backup
drop_backup file [] = []
drop_backup file (b ∷ bs) = if str_eq b.file file then bs else b ∷ drop_backup file bs

-- The end of the confirmed deletion: the demo drops the row itself.
unfoldable pub submit_delete : Around → Text → Desk → Desk
unfolding send toast str_eq
submit_delete e file d =
    let app = record (d.stores.app) { backups = drop_backup file d.stores.app.backups } in
    let demo = record d { stores = record (d.stores) { app = app } } in
    if e.outside.has_backend
    then send (delete_backup file) [] d
    else toast (said (lit "✓ " ++ file)) ok demo
