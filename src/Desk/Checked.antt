-- ===== src/Desk/Checked.antt =====
-- Proofs about the checks before the calls of frontend/src/composables/useModals.ts and usePortSuggest.ts.
use mathlib.Core.List.{append-nil}
use phpo.Base.{
  ℕ, ◌==◌, ◌≡◌, refl, ◌||◌, Bool, true, false, not, Option, none, some, or_else, List, [], ◌∷◌,
  ◌++◌, is_empty, Text, lit, decimal, if◌then◌else◌, str_eq, ◌&&◌, sym, ◌∙◌,
}
use phpo.Task.{TaskMeta}
use phpo.Task.Busy.{busy_key_of}
use phpo.App.{ServiceKind}
use phpo.Preflight.{World}
use phpo.Preflight.Check.{Action, preflight}
use phpo.Desk.{
  Row, BatchAction, Call, create_backup, set_site_port, download_backup, switch_site_php, toast,
  Confirm, Dialog, danger_confirm, Desk, Around, open_modal, close_modal, world_of,
}
use phpo.Desk.Services.{
  service_label, verb_key, say, warn_dialog, warnings_of, check_row, submit_row, refuse,
  batch_lifecycle, dispatch_lifecycle, run_guarded_task, batch_remove_service, open_install_modal,
  open_site_add_modal, open_uninstall_modal, open_rebuild_modal,
}
use phpo.Desk.Submit.{run_task, send}
use phpo.Desk.Batches.{run_task-Still}
use phpo.Desk.Sites.{site_meta, apply_port, switch_php, submit_port, open_site_remove_modal}
use phpo.Desk.Backups.{
  file_meta, submit_backup, run_backup, download_backup_file, open_delete_backup_modal,
  open_restore_modal,
}
use phpo.Desk.Confirming.{confirm}
use phpo.Desk.Clicks.{Click, confirm_open, click}
use phpo.Desk.Cleared.{
  Cleared, Sends, Sends-confirm, Sends-here, Sends-none, Sends-open_modal, Sends-refuse,
  Sends-submit_batch, Sends-submit_row, Sends-submit_write, Sends-trans, checks_again, clearing,
}

-- Whether what a click does begins with its check: all do but a confirmation of what was only asked.
abbrev pub checks_first : Click → Option Dialog → Bool
checks_first Click.confirmed (some (danger_confirm danger)) = checks_again danger.on_confirm
checks_first _ _ = true

Sends-confirm_open :
    (e : Around) (x : Option Dialog) (d : Desk)
    → checks_first Click.confirmed x ≡ true
    → Sends (world_of e d) d (confirm_open e x d)
unfolding confirm_open close_modal
Sends-confirm_open e none d h = Sends-here (world_of e d) d
Sends-confirm_open e (some (danger_confirm danger)) d h =
    Sends-trans (world_of e d) d (close_modal d) (confirm e danger.on_confirm (close_modal d))
      (Sends-none (world_of e d) d (close_modal d) refl)
      (Sends-confirm e danger.on_confirm (close_modal d) h)
Sends-confirm_open e (some _) d h = Sends-here (world_of e d) d

Sends-batch_lifecycle :
    (e : Around) (action : BatchAction) (rows : List Row) (d : Desk)
    → Sends (world_of e d) d (batch_lifecycle e action rows d)
unfolding batch_lifecycle
Sends-batch_lifecycle e action rows d = search (clearing, Sends-submit_batch)

-- A check whose errors are told, and whose warnings lead to a question.
Sends-asked :
    (w : World) (passes quiet : Bool) (d told asked done : Desk)
    → Sends w d told
    → Sends w d asked
    → (passes ≡ true → Sends w d done)
    → Sends w d (if not passes then told else if quiet then done else asked)
Sends-asked w false quiet d told asked done f g h = f
Sends-asked w true false d told asked done f g h = g
Sends-asked w true true d told asked done f g h = h refl

Sends-dispatch_lifecycle :
    (e : Around) (action : BatchAction) (kind : ServiceKind) (version : Text) (d : Desk)
    → Sends (world_of e d) d (dispatch_lifecycle e action kind version d)
unfolding dispatch_lifecycle
Sends-dispatch_lifecycle e action kind version d =
    let w = world_of e d in
    let row : Row = record { kind = kind; version = version } in
    let result = check_row e d action row in
    let label = service_label e (verb_key action) kind version in
    let asking =
      warn_dialog e label (warnings_of result) (Confirm.lifecycle action kind version label) in
    Sends-asked w result.ok (is_empty result.warnings) d (refuse result d) (open_modal asking d)
      (submit_row e action row d) (Sends-refuse w result d) (Sends-open_modal w asking d)
      (Sends-submit_row w e action row d)

if_pair-Sends :
    (w : World) (b : Bool) (d : Desk) (x y : Desk × Bool)
    → Sends w d x.0
    → Sends w d y.0
    → Sends w d (if b then x else y).0
if_pair-Sends w true d x y f g = f
if_pair-Sends w false d x y f g = g

Sends-run_guarded_task :
    (w : World) (e : Around) (action : Action) (name : Text) (args : List Text)
    (label : Option Text) (meta : Option TaskMeta) (skip : Bool) (d : Desk)
    → Sends w d (run_guarded_task e action name args label meta skip d).0
unfolding run_guarded_task
Sends-run_guarded_task w e action name args label meta skip d = search (clearing, if_pair-Sends)

Sends-told :
    (w : World) (passes tells : Bool) (d told asked done : Desk)
    → Sends w d told
    → Sends w d asked
    → (passes ≡ true → Sends w d done)
    → Sends w d (if not passes then told else if tells then asked else done)
Sends-told w false tells d told asked done f g h = f
Sends-told w true true d told asked done f g h = g
Sends-told w true false d told asked done f g h = h refl

Sends-submit_port :
    (w : World) (e : Around) (domain : Text) (port : ℕ) (d : Desk)
    → Cleared w (record { call = set_site_port domain port; key = [] })
    → Sends w d (submit_port e domain port d)
unfolding submit_port
Sends-submit_port w e domain port d h = search clearing

Sends-apply_port :
    (e : Around) (domain : Text) (desired : ℕ) (d : Desk)
    → Sends (world_of e d) d (apply_port e domain desired d)
unfolding apply_port
Sends-apply_port e domain desired d =
    let w = world_of e d in
    let result = preflight w (Action.site_port domain (some (decimal desired))) in
    let final = or_else result.adjusted_port desired in
    let title = say e (lit "sites.col.port") [] ++ (lit " " ++ domain) in
    let asking = warn_dialog e title (warnings_of result) (Confirm.site_port domain final) in
    Sends-told w result.ok (not (final == desired) || not (is_empty result.warnings)) d
      (refuse result d) (open_modal asking d) (submit_port e domain final d)
      (Sends-refuse w result d) (Sends-open_modal w asking d)
      (λ p. Sends-submit_port w e domain final d (desired, p, refl))

Sends-run_backup : (e : Around) (d : Desk) → Sends (world_of e d) d (run_backup e d)
unfolding run_backup submit_backup
Sends-run_backup e d =
    let w = world_of e d in
    let label = say e (lit "backup.nowTask") [] in
    let result = preflight w Action.backup in
    let asking = warn_dialog e label (warnings_of result) (Confirm.backup label) in
    Sends-asked w result.ok (is_empty result.warnings) d (refuse result d) (open_modal asking d)
      (submit_backup e label d) (Sends-refuse w result d) (Sends-open_modal w asking d)
      (λ p.
        Sends-submit_write w e (lit "backup" ∷ []) label (file_meta (lit "backup") none)
          create_backup d p)

-- What a click sends. A download sends its own call, and a switch of PHP sends its own call if the
-- version is another one, both without a check.
abbrev pub Answers : Around → Click → Desk → Desk → Type 0
Answers e (Click.download file) d d' =
    d'.sent
    ≡ d.sent
      ++ (if e.outside.has_backend
          then record { call = download_backup file; key = [] } ∷ []
          else [])
Answers e (Click.set_php domain php original) d d' =
    d'.sent
    ≡ d.sent
      ++ (if not (str_eq php original) && e.outside.has_backend
          then record {
            call = switch_site_php domain php;
            key = busy_key_of (site_meta (lit "site-php") domain);
          }
            ∷ []
          else [])
Answers e c d d' = Sends (world_of e d) d d'

if_send-sent :
    (b : Bool) (call : Call) (key : Text) (d told : Desk)
    → told.sent ≡ d.sent
    → (if b then send call key d else told).sent
      ≡ d.sent ++ (if b then record { call = call; key = key } ∷ [] else [])
unfolding send
if_send-sent true call key d told e = refl
if_send-sent false call key d told e = e ∙ sym (append-nil d.sent)

if_same-sent :
    (same b : Bool) (call : Call) (key : Text) (d demo : Desk)
    → demo.sent ≡ d.sent
    → (if same then d else if b then send call key d else demo).sent
      ≡ d.sent ++ (if not same && b then record { call = call; key = key } ∷ [] else [])
if_same-sent true b call key d demo e = sym (append-nil d.sent)
if_same-sent false b call key d demo e = if_send-sent b call key d demo e

-- A click, other than the confirmation of a question about warnings, sends a call only if the check of
-- that call's action passes on the state in which the click finds the stores, a port that is set being
-- the one that the check has moved to, or the one that was asked for. Two clicks send without a check,
-- and only their own call: a download, and a switch of a site's PHP version to another one.
pub click-Sends :
    (e : Around) (c : Click) (d : Desk)
    → checks_first c d.dialog ≡ true
    → Answers e c d (click e c d)
unfolding click open_install_modal open_site_add_modal open_uninstall_modal open_rebuild_modal
    open_site_remove_modal open_delete_backup_modal open_restore_modal batch_remove_service
    download_backup_file switch_php close_modal toast
click-Sends e (Click.install kind) d h = search clearing
click-Sends e Click.site_add d h = search clearing
click-Sends e Click.theme_picker d h = search clearing
click-Sends e Click.update d h = search clearing
click-Sends e Click.cleanup d h = search clearing
click-Sends e Click.trash d h = search clearing
click-Sends e (Click.rewrite domain) d h = search clearing
click-Sends e (Click.site_config domain) d h = search clearing
click-Sends e (Click.config kind version) d h = search clearing
click-Sends e (Click.php_extensions version) d h = search clearing
click-Sends e (Click.home_setup locked) d h = search clearing
click-Sends e (Click.uninstall kind version) d h = search clearing
click-Sends e (Click.rebuild kind version) d h = search clearing
click-Sends e (Click.start kind version) d h =
    Sends-dispatch_lifecycle e BatchAction.service_start kind version d
click-Sends e (Click.stop kind version) d h =
    Sends-dispatch_lifecycle e BatchAction.service_stop kind version d
click-Sends e (Click.batch_start rows) d h =
    Sends-batch_lifecycle e BatchAction.service_start rows d
click-Sends e (Click.batch_stop rows) d h = Sends-batch_lifecycle e BatchAction.service_stop rows d
click-Sends e (Click.batch_remove rows) d h = search clearing
click-Sends e (Click.site_remove domain) d h = search clearing
click-Sends e (Click.delete_backup file) d h = search clearing
click-Sends e (Click.restore file) d h = search clearing
click-Sends e (Click.download file) d h =
    if_send-sent e.outside.has_backend (download_backup file) [] d _ refl
click-Sends e Click.backup d h = Sends-run_backup e d
click-Sends e (Click.guarded_task action name args label meta skip) d h =
    Sends-run_guarded_task (world_of e d) e action name args label meta skip d
click-Sends e (Click.set_port domain desired) d h = Sends-apply_port e domain desired d
click-Sends e (Click.set_php domain php original) d h =
    let meta = site_meta (lit "site-php") domain in
    let demo_args = lit "site" ∷ lit "php" ∷ domain ∷ php ∷ [] in
    let label = some (lit "PHP " ++ (domain ++ (lit " → " ++ php))) in
    if_same-sent (str_eq php original) e.outside.has_backend (switch_site_php domain php)
      (busy_key_of meta) d (run_task e demo_args label (some meta) d)
      (run_task-Still e demo_args label (some meta) d).2
click-Sends e Click.dismiss d h = Sends-none (world_of e d) d (close_modal d) refl
click-Sends e Click.confirmed d h = Sends-confirm_open e d.dialog d h
