-- ===== src/Preflight/SiteRules.antt =====
-- The branches of `preflight` in usePreflight.ts that are about sites.
use phpo.Base.{
  Bool, true, false, not, ◌&&◌, Option, none, some, [], ◌∷◌, Text, lit, str_eq, includes, is_given,
  truthy, or_else, any, find, is_empty, if◌then◌else◌,
}
use phpo.App.{php, nginx, Site, is_service_running}
use phpo.Preflight.{
  Findings, World, Checked, good, bad, clean, error, warning, ◌also◌, when, nginx_needed,
  nginx_not_running_add, nginx_not_serving_edit, nginx_not_serving_err, domain_exists, port_degrade,
  port_invalid, port_in_use, php_pending, root_outside_www, root_duplicated, site_missing,
  port_advance, config_empty, vhost_php_pending, not_installed_php,
}
use phpo.Preflight.Validate.{trim, validate_domain, validate_site_root, norm_path}
use phpo.Preflight.Ports.{
  PortCheck, invalid, free, occupied, advanced, in_use, validate_port, no_options,
}
use phpo.Preflight.Rules.{with_good}
use phpo.Task.Records.{lookup}

abbrev pub rootless : World → Bool
rootless w = elim w.app.engine [ none ↦ false | some e ↦ e.rootless ]

unfoldable pub nginx_installed : World → Bool
nginx_installed w = not (is_empty (w.app.installed nginx))

unfoldable pub nginx_runs : World → Bool
nginx_runs w = any (λ v. is_service_running w.app nginx v) (w.app.installed nginx)

-- The gate of an edit by hand: Nginx must be installed and run.
unfoldable pub nginx_serving : World → Findings → Findings
unfolding nginx_installed nginx_runs
nginx_serving w f =
    if not (nginx_installed w)
    then error nginx_needed
    else if not (nginx_runs w)
    then error nginx_not_serving_err
    else f

-- The gate of a generated edit: Nginx must be installed, and a warning says when it does not run.
unfoldable pub nginx_serving_warn : World → Findings → Findings
unfolding nginx_installed nginx_runs
nginx_serving_warn w f =
    if not (nginx_installed w)
    then error nginx_needed
    else when (not (nginx_runs w)) (warning (nginx_not_serving_edit (rootless w))) also f

abbrev pub add_port_findings : PortCheck → Findings
add_port_findings invalid = error port_invalid
add_port_findings (free n) = clean
add_port_findings (occupied n o) = warning (port_degrade n o)
add_port_findings (advanced n m) = clean
add_port_findings (in_use n o) = error (port_in_use n o)

abbrev pub add_root_findings : World → Checked (Text × Bool) → Findings
add_root_findings w (bad m) = error m
add_root_findings w (good (r, outside)) =
    when outside (warning (root_outside_www r))
    also when (any (λ (s : Site). str_eq (norm_path s.root) r) w.app.sites)
        (error (root_duplicated r))

abbrev pub www_root : World → Text
www_root w = or_else (lookup (lit "WWW_ROOT") w.app.env) []

unfoldable pub site_add : World → Text → Option Text → Option Text → Option Text → Findings
unfolding nginx_installed nginx_runs lookup
site_add w domain port php_version root =
    if not (nginx_installed w)
    then error nginx_needed
    else when (not (nginx_runs w)) (warning (nginx_not_running_add (rootless w)))
      also (with_good (validate_domain domain) λ d.
          when (any (λ (s : Site). str_eq s.domain d) w.app.sites) (error (domain_exists d))
          also (elim port [
            | none ↦ clean
            | some p ↦
                add_port_findings
                  (validate_port w.app (record no_options { keep_on_conflict = true }) p)
          ])
          also when (not (includes (w.app.installed php) (or_else php_version [])))
              (warning (php_pending php_version))
          also when (truthy root)
              (add_root_findings w (validate_site_root (www_root w) (or_else root []))))

abbrev pub find_site : World → Text → Option Site
find_site w domain = find (λ s. str_eq s.domain domain) w.app.sites

-- `if (!site) { errors.push(…); break }`
abbrev pub with_site : World → Text → (Site → Findings) → Findings
with_site w domain f = elim (find_site w domain) [
  | none ↦ error (site_missing domain)
  | some s ↦ f s
]

unfoldable pub site_remove : World → Text → Findings
site_remove w domain =
    when (not (any (λ (s : Site). str_eq s.domain domain) w.app.sites))
      (error (site_missing domain))

abbrev pub move_port_findings : PortCheck → Findings
move_port_findings invalid = error port_invalid
move_port_findings (free n) = clean
move_port_findings (occupied n o) = clean
move_port_findings (advanced next n) = record {
  errors = [];
  warnings = port_advance n next ∷ [];
  adjusted_port = some next;
}
move_port_findings (in_use n o) = error (port_in_use n o)

unfoldable pub site_port : World → Text → Option Text → Findings
unfolding nginx_serving_warn
site_port w domain new_value = with_site w domain λ s. nginx_serving_warn w (
    move_port_findings (
      validate_port w.app
        (record no_options {
          exclude = some s.port ∷ [];
          exclude_domains = domain ∷ [];
          auto_advance = true;
        })
        (or_else new_value [])))

unfoldable pub site_vhost : World → Text → Option Text → Option Text → Findings
unfolding nginx_serving
site_vhost w domain content php_version = with_site w domain λ s. nginx_serving w (
    (elim content [ none ↦ clean | some c ↦ when (not (is_given (trim c))) (error config_empty) ])
    also when (truthy php_version && not (includes (w.app.installed php) (or_else php_version [])))
        (warning (vhost_php_pending php_version)))

unfoldable pub php_switch : World → Text → Text → Findings
unfolding nginx_serving_warn
php_switch w domain new_php = with_site w domain λ s.
    nginx_serving_warn w
      (when (not (includes (w.app.installed php) new_php)) (error (not_installed_php new_php)))

unfoldable pub rewrite : World → Text → Findings
unfolding nginx_serving_warn
rewrite w domain = with_site w domain λ s. nginx_serving_warn w clean
