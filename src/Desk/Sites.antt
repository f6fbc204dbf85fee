-- ===== src/Desk/Sites.antt =====
-- The removal of a site (frontend/src/composables/useModals.ts), and the changes of its port and of its
-- PHP version (usePortSuggest.ts and usePhpSwitch.ts of the same directory).
use phpo.Base.{
  ℕ, ◌==◌, true, false, not, ◌||◌, none, some, or_else, [], ◌∷◌, ◌++◌, is_empty, Text, lit, str_eq,
  truthy, decimal, if◌then◌else◌,
}
use phpo.Task.{TaskMeta}
use phpo.Task.Records.{lookup}
use phpo.Task.Busy.{busy_key_of}
use phpo.Preflight.Check.{preflight, site_port}
use phpo.Desk.{
  set_site_port, switch_site_php, Confirm, site_remove, danger_confirm, Desk, Around, open_modal,
  world_of,
}
use phpo.Desk.Submit.{run_task, send}
use phpo.Desk.Services.{say, refuse, warnings_of, warn_dialog, danger_warning}

abbrev pub site_meta : Text → Text → TaskMeta
site_meta type domain = record {
  type = type;
  kind = none;
  version = none;
  domain = some domain;
  file = none;
}

-- `app.env.NGINX_SITES_ROOT || `${app.env.PHPO_HOME}/nginx/sites``.
abbrev sites_root : Desk → Text
sites_root d =
    let env = d.stores.app.env in
    let root = lookup (lit "NGINX_SITES_ROOT") env in
    let home = or_else (lookup (lit "PHPO_HOME") env) (lit "undefined") in
    if truthy root then or_else root [] else home ++ lit "/nginx/sites"

unfoldable pub open_site_remove_modal : Around → Text → Desk → Desk
unfolding open_modal lookup
open_site_remove_modal e domain d =
    open_modal
      (danger_confirm (record {
        title = say e (lit "danger.siteRemove.title") ((lit "domain", domain) ∷ []);
        description = some (say e (lit "danger.siteRemove.desc") []);
        warnings =
            danger_warning e (lit "danger.siteRemove.warn1")
              ((lit "domain", domain) ∷ (lit "root", sites_root d) ∷ []) false
            ∷ danger_warning e (lit "danger.siteRemove.warn2") [] true
            ∷ danger_warning e (lit "danger.siteRemove.warn3") [] true
            ∷ danger_warning e (lit "danger.siteRemove.warn4") [] true
            ∷ [];
        checkbox = some (say e (lit "danger.siteRemove.check") []);
        confirm_label = say e (lit "danger.siteRemove.confirm") [];
        on_confirm = site_remove domain;
      }))
      d

-- The `submit` of `applyPort`, up to the call.
unfoldable pub submit_port : Around → Text → ℕ → Desk → Desk
unfolding run_task send
submit_port e domain port d =
    let label =
      say e (lit "sites.col.port") [] ++ (lit " " ++ (domain ++ (lit " → " ++ decimal port))) in
    if e.outside.has_backend
    then send (set_site_port domain port) [] d
    else run_task e (lit "site" ∷ lit "port" ∷ domain ∷ decimal port ∷ []) (some label)
        (some (site_meta (lit "site-port") domain)) d

-- `applyPort`: the port that the check has moved to, if it has, and a dialog if that or anything else is
-- to be told.
unfoldable pub apply_port : Around → Text → ℕ → Desk → Desk
unfolding preflight submit_port open_modal refuse
apply_port e domain desired d =
    let result = preflight (world_of e d) (site_port domain (some (decimal desired))) in
    let final = or_else result.adjusted_port desired in
    let title = say e (lit "sites.col.port") [] ++ (lit " " ++ domain) in
    if not result.ok
    then refuse result d
    else if not (final == desired) || not (is_empty result.warnings)
    then open_modal (warn_dialog e title (warnings_of result) (Confirm.site_port domain final)) d
    else submit_port e domain final d

-- `switchPhp`, up to the call.
unfoldable pub switch_php : Around → Text → Text → Text → Desk → Desk
unfolding run_task send busy_key_of str_eq
switch_php e domain php original d =
    let meta = site_meta (lit "site-php") domain in
    let demo =
      run_task e (lit "site" ∷ lit "php" ∷ domain ∷ php ∷ [])
        (some (lit "PHP " ++ (domain ++ (lit " → " ++ php)))) (some meta) d in
    if str_eq php original
    then d
    else if e.outside.has_backend
    then send (switch_site_php domain php) (busy_key_of meta) d
    else demo
