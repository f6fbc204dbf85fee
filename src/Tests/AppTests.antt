-- ===== src/Tests/AppTests.antt =====
-- The state store and the checks before a write at concrete inputs.
use phpo.Base.{
  ◌≡◌, refl, ◌↔◌, ◌⊎◌, Bool, true, false, not, ◌&&◌, none, some, is_some, List, [], ◌∷◌, Text, lit,
  str_eq, includes, is_given, or_else, truthy, if◌then◌else◌,
}
use phpo.Task.Records.{lookup}
use phpo.App.{
  unchecked_docker, ServiceKind, kind_eq, php, mysql, nginx, redis, pgsql, AppState, StateSnapshot,
  home_ready, is_service_running, apply_snapshot, set_service_running,
}
use phpo.App.Landing.{is_service_running-apply_snapshot, is_service_running-set_service_running}
use phpo.Preflight.{World, nginx_not_serving_edit}
use phpo.Preflight.Validate.{trim, validate_domain}
use phpo.Preflight.Ports.{PortOptions, no_options}
use phpo.Preflight.Rules.{service_kind}
use phpo.Preflight.SiteRules.{find_site, nginx_installed, nginx_runs, rootless}
use phpo.Preflight.Check.{
  preflight, uninstall, service_stop, service_start, site_vhost, site_add, rewrite,
}
use phpo.Preflight.Gates.{
  IsDomainFit, IsPortFit, IsRootFree, uninstall_ok_iff, start_or_stop, site_vhost_ok_iff,
  rewrite_ok_iff, site_add_ok_iff,
}

abbrev versions : ServiceKind → List Text
versions php = lit "8.3" ∷ []
versions mysql = lit "8.0" ∷ []
versions pgsql = []
versions redis = []
versions nginx = lit "1.27" ∷ []

abbrev pub host : AppState
host = record {
  installed = versions;
  stopped = λ k. [];
  sites =
      record {
        domain = lit "a.test";
        port = 8080;
        php = lit "8.3";
        root = lit "/www/a";
        hosts = true;
        health = [];
        rewrite = [];
        rewrite_rule = none;
      }
      ∷ [];
  backups = [];
  offline_total = [];
  offline_trees = [];
  php_extensions = [];
  env = (lit "WWW_ROOT", lit "/www") ∷ (lit "MYSQL80_PORT", lit "3306") ∷ [];
  home_dir_ready = true;
  www_root_ready = true;
  engine = none;
  flatpak = false;
  gaps = [];
  discovered = [];
  tasks = record { running = none; pending = [] };
  configs = [];
  docker = unchecked_docker;
  docker_checked = false;
}

abbrev world : World
world = record { app = host; cache_entries = []; has_backend = true }

abbrev snapshot : Bool → StateSnapshot
snapshot ready = record {
  installed = λ k. some (versions k);
  running = λ k. if kind_eq k mysql then none else some (versions k);
  sites = none;
  env = [];
  php_extensions = none;
  dir_ready = (lit "PHPO_HOME", ready) ∷ (lit "WWW_ROOT", ready) ∷ [];
  tasks = none;
  gaps = none;
  discovered = none;
  engine = none;
  flatpak = false;
}

snapshot_installed :
    includes ((apply_snapshot (snapshot true) host).installed mysql) (lit "8.0") ≡ true
unfolding apply_snapshot includes str_eq
snapshot_installed = refl

is_service_running-apply_snapshot_example :
    is_service_running (apply_snapshot (snapshot true) host) mysql (lit "8.0")
    ≡ includes (or_else ((snapshot true).running mysql) []) (lit "8.0")
is_service_running-apply_snapshot_example =
    is_service_running-apply_snapshot (snapshot true) host mysql (lit "8.0") snapshot_installed

dir_ready-lookup :
    (lookup (lit "PHPO_HOME") (snapshot true).dir_ready ≡ some true)
    × (lookup (lit "WWW_ROOT") (snapshot true).dir_ready ≡ some true)
unfolding lookup str_eq
dir_ready-lookup = (refl, refl)

is_service_running-set_service_running_example :
    is_service_running (set_service_running mysql (lit "8.0") false host) mysql (lit "8.0") ≡ (
      if kind_eq mysql mysql && str_eq (lit "8.0") (lit "8.0")
      then false
      else is_service_running host mysql (lit "8.0"))
is_service_running-set_service_running_example =
    is_service_running-set_service_running mysql mysql (lit "8.0") (lit "8.0") false host tt

-- The port of the site is taken; the first free one above it is 8081.
abbrev advance : PortOptions
advance = record no_options { auto_advance = true }

uninstall_ok_iff_example : ((preflight world (uninstall (lit "mysql") (lit "8.0"))).ok ≡ true) ↔ (
    (home_ready host ≡ true)
    × ((k : ServiceKind) × (service_kind (lit "mysql") ≡ some k)
        × (includes (versions k) (lit "8.0") ≡ true)))
uninstall_ok_iff_example = uninstall_ok_iff world (lit "mysql") (lit "8.0")

host_ready : home_ready host ≡ true
unfolding home_ready
host_ready = refl

mysql_known : service_kind (lit "mysql") ≡ some mysql
unfolding service_kind str_eq
mysql_known = refl

mysql_installed : includes (versions mysql) (lit "8.0") ≡ true
unfolding includes str_eq
mysql_installed = refl

start_or_stop_example :
    ((preflight world (service_stop (lit "mysql") (lit "8.0"))).ok
      ≡ is_service_running host mysql (lit "8.0"))
    × ((preflight world (service_start (lit "mysql") (lit "8.0"))).ok
        ≡ not (is_service_running host mysql (lit "8.0")))
start_or_stop_example =
    start_or_stop world (lit "mysql") (lit "8.0") mysql host_ready mysql_known mysql_installed

site_vhost_ok_iff_example :
    ((preflight world (site_vhost (lit "a.test") (some (lit "x")) none)).ok ≡ true) ↔ (
      (home_ready host ≡ true)
      × (is_some (find_site world (lit "a.test")) ≡ true)
      × (nginx_installed world ≡ true)
      × (nginx_runs world ≡ true)
      × ((some (lit "x") ≡ none)
          ⊎ ((c : Text) × (some (lit "x") ≡ some c) × (is_given (trim c) ≡ true))))
site_vhost_ok_iff_example = site_vhost_ok_iff world (lit "a.test") (some (lit "x")) none

rewrite_ok_iff_example :
    (((preflight world (rewrite (lit "a.test"))).ok ≡ true) ↔ (
      (home_ready host ≡ true)
      × (is_some (find_site world (lit "a.test")) ≡ true)
      × (nginx_installed world ≡ true)))
    × ((preflight world (rewrite (lit "a.test"))).ok ≡ true
        → (preflight world (rewrite (lit "a.test"))).warnings
          ≡ (if nginx_runs world then [] else nginx_not_serving_edit (rootless world) ∷ []))
rewrite_ok_iff_example = rewrite_ok_iff world (lit "a.test")

site_add_ok_iff_example :
    ((preflight world (site_add (lit "b.test") (some (lit "8080")) none (some (lit "b")))).ok
      ≡ true)
    ↔ ((home_ready host ≡ true)
        × (nginx_installed world ≡ true)
        × IsDomainFit world (validate_domain (lit "b.test"))
        × IsPortFit world (some (lit "8080"))
        × (truthy (some (lit "b")) ≡ true → IsRootFree world (lit "b")))
site_add_ok_iff_example =
    site_add_ok_iff world (lit "b.test") (some (lit "8080")) none (some (lit "b"))
