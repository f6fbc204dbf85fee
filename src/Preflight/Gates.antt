-- ===== src/Preflight/Gates.antt =====
-- When `preflight` lets an action pass.
use phpo.Base.{
  ℕ, ◌≡◌, refl, ◌≢◌, ◌⊎◌, ◌↔◌, Bool, true, false, not, Option, none, some, is_some, [], ◌∷◌, Text,
  str_eq, includes, is_given, any, if◌then◌else◌, arith, or_else, truthy,
}
use phpo.App.{ServiceKind, AppState, Site, home_ready, is_service_running}
use phpo.Preflight.{Owner, World, Checked, good, bad, nginx_not_serving_edit}
use phpo.Preflight.Validate.{trim, validate_domain, validate_site_root, norm_path, has_traversal}
use phpo.Preflight.Ports.{
  answer, validate_port, PortCheck, invalid, free, occupied, advanced, in_use, no_options,
}
use phpo.Preflight.Rules.{service_kind, sites_of_php}
use phpo.Preflight.Rules
use phpo.Preflight.SiteRules
use phpo.Preflight.SiteRules.{
  add_port_findings, nginx_installed, nginx_runs, find_site, rootless, www_root,
}
use phpo.Preflight.Check.{
  Action, needs_home, check_action, preflight, uninstall, service_stop, service_start, rewrite,
  site_vhost, site_add,
}

-- An action passes exactly when its own checks find no error and, if it writes below the home
-- directory, both directories are ready.
pub preflight_ok_iff :
    (w : World) (a : Action)
    → ((preflight w a).ok ≡ true)
      ↔ ((needs_home a ≡ true → home_ready w.app ≡ true) × ((check_action w a).errors ≡ []))
unfolding preflight
preflight_ok_iff w a = ground arith

-- The sites that use a PHP version, and its being the last one, never keep it from being removed.
pub uninstall_ok_iff :
    (w : World) (kind version : Text)
    → ((preflight w (uninstall kind version)).ok ≡ true) ↔ (
        (home_ready w.app ≡ true)
        × ((k : ServiceKind) × (service_kind kind ≡ some k)
            × (includes (w.app.installed k) version ≡ true)))
unfolding preflight Rules.uninstall
uninstall_ok_iff w kind version = ground arith

-- An installed service can be started or stopped, and never both.
pub start_or_stop :
    (w : World) (kind version : Text) (k : ServiceKind)
    → home_ready w.app ≡ true
    → service_kind kind ≡ some k
    → includes (w.app.installed k) version ≡ true
    → ((preflight w (service_stop kind version)).ok ≡ is_service_running w.app k version)
      × ((preflight w (service_start kind version)).ok ≡ not (is_service_running w.app k version))
unfolding preflight Rules.service_stop Rules.service_start
start_or_stop w kind version k home known installed = ground arith

-- Editing a vhost by hand needs a running Nginx to check the text.
pub site_vhost_ok_iff :
    (w : World) (domain : Text) (content php_version : Option Text)
    → ((preflight w (site_vhost domain content php_version)).ok ≡ true) ↔ (
        (home_ready w.app ≡ true)
        × (is_some (find_site w domain) ≡ true)
        × (nginx_installed w ≡ true)
        × (nginx_runs w ≡ true)
        × ((content ≡ none) ⊎ ((c : Text) × (content ≡ some c) × (is_given (trim c) ≡ true))))
unfolding preflight SiteRules.site_vhost
site_vhost_ok_iff w domain content php_version = ground arith

-- A generated rewrite rule needs Nginx to be installed; when it does not run, the rule is still
-- written, and there is a warning.
pub rewrite_ok_iff :
    (w : World) (domain : Text)
    → (((preflight w (rewrite domain)).ok ≡ true) ↔ (
        (home_ready w.app ≡ true)
        × (is_some (find_site w domain) ≡ true)
        × (nginx_installed w ≡ true)))
      × ((preflight w (rewrite domain)).ok ≡ true
          → (preflight w (rewrite domain)).warnings
            ≡ (if nginx_runs w then [] else nginx_not_serving_edit (rootless w) ∷ []))
unfolding preflight SiteRules.rewrite
rewrite_ok_iff w domain = ground arith

-- The check of a new site's port keeps a used port, and never refuses one for being used.
pub keep_on_conflict_ne :
    (a : AppState) (port : Text) (n : ℕ) (o : Option Owner)
    → validate_port a (record no_options { keep_on_conflict = true }) port ≢ in_use n o
unfolding validate_port answer
keep_on_conflict_ne a port n o = λ e. ground arith

-- What is asked of the port and of the root of a new site, where they are given.
abbrev pub IsPortFit : World → Option Text → Type 0
IsPortFit w none = Unit
IsPortFit w (some p) =
    validate_port w.app (record no_options { keep_on_conflict = true }) p ≢ invalid

abbrev pub IsDomainFit : World → Checked Text → Type 0
IsDomainFit w (good d) = any (λ (s : Site). str_eq s.domain d) w.app.sites ≡ false
IsDomainFit w (bad m) = ⊥

abbrev pub IsRootFit : World → Checked (Text × Bool) → Type 0
IsRootFit w (good (r, outside)) =
    any (λ (s : Site). str_eq (norm_path s.root) r) w.app.sites ≡ false
IsRootFit w (bad m) = ⊥

add_port_findings-errors :
    (c : PortCheck)
    → ((n : ℕ) (o : Option Owner) → c ≢ in_use n o)
    → ((add_port_findings c).errors ≡ []) ↔ (c ≢ invalid)
add_port_findings-errors invalid h = ground arith
add_port_findings-errors (free n) h = ground arith
add_port_findings-errors (occupied n o) h = ground arith
add_port_findings-errors (advanced n m) h = ground arith
add_port_findings-errors (in_use n o) h = absurd (h n o refl)

site_add_ok_checked :
    (w : World) (domain : Text) (port php_version root : Option Text)
    → ((preflight w (site_add domain port php_version root)).ok ≡ true) ↔ (
        (home_ready w.app ≡ true)
        × (nginx_installed w ≡ true)
        × IsDomainFit w (validate_domain domain)
        × IsPortFit w port
        × (truthy root ≡ true → IsRootFit w (validate_site_root (www_root w) (or_else root []))))
unfolding preflight SiteRules.site_add
site_add_ok_checked w domain none php_version root = ground arith
site_add_ok_checked w domain (some p) php_version root = ground (
  arith,
  add_port_findings-errors (validate_port w.app (record no_options { keep_on_conflict = true }) p)
      (keep_on_conflict_ne w.app p),
)

-- What is asked of the root of a new site.
abbrev pub IsRootFree : World → Text → Type 0
IsRootFree w root =
    (is_given (norm_path root) ≡ true)
    × (has_traversal (norm_path root) ≡ false)
    × (any (λ (s : Site). str_eq (norm_path s.root) (norm_path root)) w.app.sites ≡ false)

validate_site_root_iff :
    (w : World) (www root : Text) → IsRootFit w (validate_site_root www root) ↔ IsRootFree w root
unfolding validate_site_root
validate_site_root_iff w www root = ground arith

under_iff :
    (a b c d e p : Type 0) {q r : Type 0}
    → (a ↔ (b × c × d × e × (p → q)))
    → (q ↔ r)
    → a ↔ (b × c × d × e × (p → r))
under_iff a b c d e p f g = (
  λ x. let (b, c, d, e, h) = f.0 x in (b, c, d, e, λ y. g.0 (h y)),
  λ (b, c, d, e, h). f.1 (b, c, d, e, λ y. g.1 (h y)),
)

-- A new site passes exactly when the home directories are ready, Nginx is installed, its domain passes
-- `validateDomain` and is no other site's, its port, if given, is not refused as invalid, and its root,
-- if given, is not empty once normalised (as `/` is), has no traversal, and is no other site's. That
-- Nginx does not run, that the port is in use, that the PHP version is not there or that the root lies
-- outside the site directory does not keep it from being made.
pub site_add_ok_iff :
    (w : World) (domain : Text) (port php_version root : Option Text)
    → ((preflight w (site_add domain port php_version root)).ok ≡ true) ↔ (
        (home_ready w.app ≡ true)
        × (nginx_installed w ≡ true)
        × IsDomainFit w (validate_domain domain)
        × IsPortFit w port
        × (truthy root ≡ true → IsRootFree w (or_else root [])))
site_add_ok_iff w domain port php_version root =
    under_iff _ _ _ _ _ _ (site_add_ok_checked w domain port php_version root)
      (validate_site_root_iff w (www_root w) (or_else root []))
