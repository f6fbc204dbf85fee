-- ===== src/Desk/Confirming.antt =====
-- What the confirmation of a danger dialog does: the `onConfirm` callbacks of
-- frontend/src/composables/useModals.ts and usePortSuggest.ts.
use phpo.Base.{none, some, or_else, [], ◌∷◌, ◌++◌, Text, lit, if◌then◌else◌}
use phpo.Task.Records.{lookup}
use phpo.Sync.Notes.{kind_text}
use phpo.Preflight.Check.{Action, preflight}
use phpo.Desk.{
  BatchAction, svc_reinstall, remove_site, restore_backup, Confirm, uninstall_service, rebuild,
  batch, batch_remove, lifecycle, site_remove, backup_delete, restore, backup, site_port, guarded,
  Desk, Around, world_of,
}
use phpo.Desk.Submit.{run_task, submit_write}
use phpo.Desk.Services.{
  say, refuse, service_label, service_meta, verb, action_name, call_of, submit_row, submit_batch,
  enqueue_batch, notify_skipped,
}
use phpo.Desk.Sites.{site_meta, submit_port}
use phpo.Desk.Backups.{file_meta, submit_backup, submit_delete}

-- The check that the callback makes first, and what it does when that passes.
abbrev pub guarded_by : Around → Action → (Desk → Desk) → Desk → Desk
guarded_by e action k d =
    let result = preflight (world_of e d) action in if result.ok then k d else refuse result d

-- `t('sites.actions.delete')` and the domain.
abbrev pub site_label : Around → Text → Text
site_label e domain = say e (lit "sites.actions.delete") [] ++ (lit " " ++ domain)

-- `${app.env.BACKUP_ROOT}/${file}`.
abbrev pub archive_path : Desk → Text → Text
archive_path d file =
    or_else (lookup (lit "BACKUP_ROOT") d.stores.app.env) (lit "undefined") ++ (lit "/" ++ file)

unfoldable pub confirm : Around → Confirm → Desk → Desk
unfolding preflight refuse submit_row submit_batch submit_port submit_backup submit_delete run_task
    lookup
confirm e (uninstall_service kind version) d =
    guarded_by e (Action.uninstall (kind_text kind) version)
      (submit_row e BatchAction.uninstall (record { kind = kind; version = version })) d
confirm e (rebuild kind version) d =
    guarded_by e (Action.update_config (kind_text kind) version [] none)
      (submit_write e (kind_text kind ∷ lit "reinstall" ∷ version ∷ [])
        (service_label e (lit "svc.rebuild") kind version)
        (service_meta (lit "update-config") kind version) (svc_reinstall kind version))
      d
confirm e (batch action plan skipped) d = submit_batch e action plan skipped d
confirm e (batch_remove rows) d =
    let (after, skipped) = enqueue_batch e BatchAction.uninstall rows 0 d in
    notify_skipped e skipped after
confirm e (lifecycle action kind version label) d =
    submit_write e (kind_text kind ∷ verb action ∷ version ∷ []) label
      (service_meta (action_name action) kind version) (call_of action kind version) d
confirm e (site_remove domain) d =
    guarded_by e (Action.site_remove domain)
      (submit_write e (lit "site" ∷ lit "remove" ∷ domain ∷ []) (site_label e domain)
        (site_meta (lit "site-remove") domain) (remove_site domain))
      d
confirm e (backup_delete file) d = guarded_by e (Action.backup_delete file) (submit_delete e file) d
confirm e (restore file) d =
    guarded_by e (Action.restore file)
      (submit_write e (lit "restore" ∷ archive_path d file ∷ []) (lit "Restore " ++ file)
        (file_meta (lit "restore") (some file)) (restore_backup file))
      d
confirm e (backup label) d = submit_backup e label d
confirm e (site_port domain port) d = submit_port e domain port d
confirm e (guarded args label meta) d = run_task e args label meta d
