-- ===== src/Desk/Services.antt =====
-- The actions of frontend/src/composables/useModals.ts on services, up to the dialog that they open or the
-- write that they send.
use phpo.Base.{
  ℕ, suc, ◌-◌, ◌==◌, Bool, true, false, not, ◌&&◌, Option, none, some, or_else, List, [], ◌∷◌, ◌++◌,
  map, filter, is_empty, length, Text, lit, truthy, join, decimal, if◌then◌else◌,
}
use phpo.Task.{TaskMeta}
use phpo.App.{ServiceKind, home_ready}
use phpo.Sync.Notes.{kind_text}
use phpo.Messages.Language.{t}
use phpo.Preflight.{PreflightResult}
use phpo.Preflight.Check.{Action, preflight, uninstall, service_stop, service_start}
use phpo.Desk.{
  info, err, said, errors, Row, BatchAction, Call, svc_start, svc_stop, svc_remove, Confirm,
  uninstall_service, rebuild, batch, batch_remove, lifecycle, guarded, Warning, check, text, Dialog,
  install_modal, site_add_modal, home_setup_wizard, danger_confirm, Desk, Around, toast, open_modal,
  world_of,
}
use phpo.Desk.Submit.{run_task, submit_write}

abbrev pub say : Around → Text → List (Text × Text) → Text
say e key params = t e.texts (key) params

-- `t(kindMeta(kind).titleKey)`.
abbrev pub kind_title : Around → ServiceKind → Text
kind_title e kind = say e (kind_text kind ++ lit ".title") []

abbrev pub service_meta : Text → ServiceKind → Text → TaskMeta
service_meta type kind version = record {
  type = type;
  kind = some (kind_text kind);
  version = some version;
  domain = none;
  file = none;
}

-- The check that comes before the write of a batch's row.
abbrev pub action_of : BatchAction → ServiceKind → Text → Action
action_of BatchAction.service_start kind version = service_start (kind_text kind) version
action_of BatchAction.service_stop kind version = service_stop (kind_text kind) version
action_of BatchAction.uninstall kind version = uninstall (kind_text kind) version

abbrev pub action_name : BatchAction → Text
action_name BatchAction.service_start = lit "service-start"
action_name BatchAction.service_stop = lit "service-stop"
action_name BatchAction.uninstall = lit "uninstall"

abbrev pub verb : BatchAction → Text
verb BatchAction.service_start = lit "start"
verb BatchAction.service_stop = lit "stop"
verb BatchAction.uninstall = lit "uninstall"

abbrev pub verb_key : BatchAction → Text
verb_key action = lit "svc." ++ verb action

abbrev pub call_of : BatchAction → ServiceKind → Text → Call
call_of BatchAction.service_start kind version = svc_start kind version
call_of BatchAction.service_stop kind version = svc_stop kind version
call_of BatchAction.uninstall kind version = svc_remove kind version

abbrev pub service_label : Around → Text → ServiceKind → Text → Text
service_label e key kind version =
    say e key [] ++ (lit " " ++ (kind_title e kind ++ (lit " " ++ version)))

-- `toast(check.errors.join('\n'), 'err', 4600)`.
unfoldable pub refuse : PreflightResult → Desk → Desk
unfolding toast
refuse result d = toast (errors result.errors) err d

abbrev pub check_row : Around → Desk → BatchAction → Row → PreflightResult
check_row e d action r = preflight (world_of e d) (action_of action r.kind r.version)

unfoldable pub submit_row : Around → BatchAction → Row → Desk → Desk
unfolding submit_write
submit_row e action r d =
    submit_write e (kind_text r.kind ∷ verb action ∷ r.version ∷ [])
      (service_label e (verb_key action) r.kind r.version)
      (service_meta (action_name action) r.kind r.version) (call_of action r.kind r.version) d

-- `enqueueBatch`, with the number of rows that were left out so far.
unfoldable pub enqueue_batch : Around → BatchAction → List Row → ℕ → Desk → Desk × ℕ
unfolding preflight submit_row
enqueue_batch e action [] skipped d = (d, skipped)
enqueue_batch e action (r ∷ rs) skipped d =
    let passes = (check_row e d action r).ok in
    enqueue_batch e action rs (if passes then skipped else suc skipped)
      (if passes then submit_row e action r d else d)

unfoldable pub notify_skipped : Around → ℕ → Desk → Desk
unfolding toast
notify_skipped e skipped d =
    let told = said (say e (lit "overview.batch.skipped") ((lit "n", decimal skipped) ∷ [])) in
    if skipped == 0 then d else toast told info d

unfoldable pub submit_batch : Around → BatchAction → List Row → ℕ → Desk → Desk
unfolding enqueue_batch notify_skipped
submit_batch e action plan skipped d = notify_skipped e skipped (enqueue_batch e action plan 0 d).0

abbrev pub warnings_of : PreflightResult → List Warning
warnings_of result = map check result.warnings

abbrev pub all_warnings : Around → Desk → BatchAction → List Row → List Warning
all_warnings e d action [] = []
all_warnings e d action (r ∷ rs) =
    let result = check_row e d action r in
    (if result.ok then warnings_of result else []) ++ all_warnings e d action rs

abbrev pub warn_dialog : Around → Text → List Warning → Confirm → Dialog
warn_dialog e title warnings what = danger_confirm (record {
  title = title;
  description = none;
  warnings = warnings;
  checkbox = none;
  confirm_label = say e (lit "common.confirm") [];
  on_confirm = what;
})

-- `batchLifecycle`.
unfoldable pub batch_lifecycle : Around → BatchAction → List Row → Desk → Desk
unfolding preflight submit_batch open_modal toast
batch_lifecycle e action rows d =
    let plan = filter (λ r. (check_row e d action r).ok) rows in
    let warnings = all_warnings e d action rows in
    let skipped = length rows - length plan in
    let nothing = said (say e (lit "overview.batch.noneQueued") []) in
    if is_empty rows
    then d
    else if is_empty plan
    then toast nothing err d
    else if is_empty warnings
    then submit_batch e action plan skipped d
    else open_modal
        (warn_dialog e (say e (verb_key action) []) warnings (batch action plan skipped)) d

-- `dispatchLifecycle`, of `startService` and `stopService`.
unfoldable pub dispatch_lifecycle : Around → BatchAction → ServiceKind → Text → Desk → Desk
unfolding preflight submit_row open_modal refuse
dispatch_lifecycle e action kind version d =
    let row : Row = record { kind = kind; version = version } in
    let result = check_row e d action row in
    let label = service_label e (verb_key action) kind version in
    if not result.ok
    then refuse result d
    else if is_empty result.warnings
    then submit_row e action row d
    else open_modal (warn_dialog e label (warnings_of result) (lifecycle action kind version label))
        d

-- `openInstallModal` and `openSiteAddModal`: until home is ready, the wizard stands in for them.
unfoldable pub open_install_modal : ServiceKind → Desk → Desk
unfolding open_modal home_ready
open_install_modal kind d =
    open_modal (if home_ready d.stores.app then install_modal kind else home_setup_wizard false) d

unfoldable pub open_site_add_modal : Desk → Desk
unfolding open_modal home_ready
open_site_add_modal d =
    open_modal (if home_ready d.stores.app then site_add_modal else home_setup_wizard false) d

abbrev pub danger_warning : Around → Text → List (Text × Text) → Bool → Warning
danger_warning e key params keep = text (say e key params) keep

unfoldable pub open_uninstall_modal : Around → ServiceKind → Text → Desk → Desk
unfolding open_modal
open_uninstall_modal e kind version d =
    let named = (lit "kind", kind_text kind) ∷ (lit "version", version) ∷ [] in
    open_modal
      (danger_confirm (record {
        title =
            say e (lit "danger.uninstall.title")
              ((lit "name", kind_title e kind) ∷ (lit "version", version) ∷ []);
        description = some (say e (lit "danger.uninstall.desc") []);
        warnings =
            danger_warning e (lit "danger.uninstall.warn1") named false
            ∷ danger_warning e (lit "danger.uninstall.warn2") named false
            ∷ danger_warning e (lit "danger.uninstall.warn3") [] true
            ∷ danger_warning e (lit "danger.uninstall.warn4") [] true
            ∷ [];
        checkbox = some (say e (lit "danger.uninstall.check") named);
        confirm_label = say e (lit "danger.uninstall.confirm") [];
        on_confirm = uninstall_service kind version;
      }))
      d

abbrev row_name : Around → Row → Text
row_name e r = kind_title e r.kind ++ (lit " " ++ r.version)

unfoldable pub batch_remove_service : Around → List Row → Desk → Desk
unfolding open_modal join
batch_remove_service e rows d =
    let names = join (lit "、") (map (row_name e) rows) in
    let dialog = danger_confirm (record {
      title = say e (lit "danger.batchUninstall.title") ((lit "n", decimal (length rows)) ∷ []);
      description = some (say e (lit "danger.batchUninstall.desc") []);
      warnings =
          danger_warning e (lit "danger.batchUninstall.warn1") ((lit "names", names) ∷ []) false
          ∷ danger_warning e (lit "danger.uninstall.warn3") [] true
          ∷ danger_warning e (lit "danger.uninstall.warn4") [] true
          ∷ [];
      checkbox = some (say e (lit "danger.batchUninstall.check") []);
      confirm_label = say e (lit "danger.batchUninstall.confirm") [];
      on_confirm = batch_remove rows;
    }) in
    if is_empty rows then d else open_modal dialog d

unfoldable pub open_rebuild_modal : Around → ServiceKind → Text → Desk → Desk
unfolding open_modal
open_rebuild_modal e kind version d =
    let named = (lit "kind", kind_text kind) ∷ (lit "version", version) ∷ [] in
    open_modal
      (danger_confirm (record {
        title = service_label e (lit "svc.rebuild") kind version;
        description = some (say e (lit "svc.rebuild.desc") []);
        warnings =
            danger_warning e (lit "svc.rebuild.warn1") named false
            ∷ danger_warning e (lit "svc.rebuild.warn2") named true
            ∷ [];
        checkbox = none;
        confirm_label = say e (lit "svc.rebuild") [];
        on_confirm = rebuild kind version;
      }))
      d

-- `runGuardedTask`, with the action's name and whether warnings are skipped.
unfoldable pub run_guarded_task :
    Around → Action → Text → List Text → Option Text → Option TaskMeta → Bool → Desk → Desk × Bool
unfolding preflight run_task open_modal refuse
run_guarded_task e action name args label meta skip_warnings d =
    let result = preflight (world_of e d) action in
    let title = if truthy label then or_else label [] else name in
    let asked = open_modal (warn_dialog e title (warnings_of result) (guarded args label meta)) d in
    if not result.ok
    then (refuse result d, false)
    else if not skip_warnings && not (is_empty result.warnings)
    then (asked, true)
    else (run_task e args label meta d, true)
