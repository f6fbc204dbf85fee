-- ===== src/Preflight/Rules.antt =====
-- The branches of `preflight` in usePreflight.ts that are about services, backups, the cache and the
-- settings.
use phpo.Base.{
  ◌==◌, Bool, not, ◌&&◌, ◌||◌, Option, none, some, List, [], ◌∷◌, map, Text, lit, str_eq, includes,
  is_given, truthy, or_else, length, any, filter, find, split, is_empty, if◌then◌else◌,
}
use phpo.Task.Records.{lookup}
use phpo.App.{
  ServiceKind, php, mysql, pgsql, redis, nginx, kind_eq, Site, AppState, is_service_running, Backup,
  OfflineTree,
}
use phpo.Preflight.{
  Findings, World, Checked, good, bad, clean, error, warning, ◌also◌, when, svc_missing,
  version_dup, nginx_single, port_invalid, port_in_use, ext_invalid, not_installed,
  not_installed_php, not_running, is_running, uninstall_php_sites, stop_php_sites, stop_nginx_sites,
  stop_data_service, config_empty, backup_missing, offline_missing, data_dir_pending,
  path_traversal, ext_type_got, ext_import_php_only, file_missing, registry_host_empty_list,
}
use phpo.Preflight.Validate.{
  trim, validate_version, validate_ext, norm_path, has_traversal, validate_registry_host,
}
use phpo.Preflight.Ports.{
  PortCheck, invalid, free, occupied, advanced, in_use, validate_port, no_options, parse_int,
  port_key,
}

-- The keys of `SVC_META`.
unfoldable pub service_kind : Text → Option ServiceKind
unfolding str_eq
service_kind t =
    if str_eq t (lit "php")
    then some php
    else if str_eq t (lit "mysql")
    then some mysql
    else if str_eq t (lit "pgsql")
    then some pgsql
    else if str_eq t (lit "redis")
    then some redis
    else if str_eq t (lit "nginx")
    then some nginx
    else none

-- `if (!SVC_META[kind]) { errors.push(PF.svcMissing); break }`
abbrev pub with_kind : Text → (ServiceKind → Findings) → Findings
with_kind t f = elim (service_kind t) [ none ↦ error svc_missing | some kind ↦ f kind ]

-- `if (!vv.ok) { errors.push(vv.msg); break }`
abbrev pub with_good {ℓ} : {A : Type ℓ} → Checked A → (A → Findings) → Findings
with_good (good a) f = f a
with_good (bad m) f = error m

-- `if (!installed(kind).includes(version)) { errors.push(…); break }`
abbrev pub if_installed : AppState → ServiceKind → Text → Findings → Findings
if_installed a kind version f =
    if includes (a.installed kind) version then f else error (not_installed kind version)

-- `if (!pp.ok) errors.push(pp.msg)`
abbrev pub port_errors : PortCheck → Findings
port_errors invalid = error port_invalid
port_errors (free n) = clean
port_errors (occupied n o) = clean
port_errors (advanced n m) = clean
port_errors (in_use n o) = error (port_in_use n o)

-- The first extension whose name is no good.
unfoldable pub ext_errors : List Text → Findings
ext_errors names = elim (find (λ e. not (validate_ext e)) names) [
  | none ↦ clean
  | some e ↦ error (ext_invalid e)
]

unfoldable pub install : World → Text → Text → Option Text → Option Text → Findings
unfolding service_kind ext_errors
install w kind version port extensions = with_kind kind λ k.
    with_good (validate_version version) λ v.
      when (includes (w.app.installed k) v) (error (version_dup k v))
      also when (kind_eq k nginx && not (is_empty (w.app.installed nginx))) (error nginx_single)
      also when (is_given (trim (or_else port [])))
          (port_errors (validate_port w.app no_options (or_else port [])))
      also when (truthy extensions)
          (ext_errors (filter is_given (map trim (split b',' (or_else extensions [])))))

-- The domains of the sites that use a PHP version.
abbrev pub sites_of_php : AppState → Text → List Text
sites_of_php a version = map (λ (s : Site). s.domain) (filter (λ s. str_eq s.php version) a.sites)

unfoldable pub uninstall : World → Text → Text → Findings
unfolding service_kind
uninstall w kind version = with_kind kind λ k. if_installed w.app k version (
    when (kind_eq k php && not (is_empty (sites_of_php w.app version)))
      (warning (uninstall_php_sites version (sites_of_php w.app version))))

abbrev pub is_data_service : ServiceKind → Bool
is_data_service k = kind_eq k mysql || kind_eq k pgsql || kind_eq k redis

unfoldable pub service_stop : World → Text → Text → Findings
unfolding service_kind
service_stop w kind version = with_kind kind λ k. if_installed w.app k version (
    if is_service_running w.app k version
    then when (kind_eq k php && not (is_empty (sites_of_php w.app version)))
        (warning (stop_php_sites version (sites_of_php w.app version)))
      also when (kind_eq k nginx && not (is_empty w.app.sites))
          (warning (stop_nginx_sites (length w.app.sites)))
      also when (is_data_service k) (warning (stop_data_service k version))
    else error (not_running k version))

unfoldable pub service_start : World → Text → Text → Findings
unfolding service_kind
service_start w kind version = with_kind kind λ k.
    if_installed w.app k version
      (when (is_service_running w.app k version) (error (is_running k version)))

unfoldable pub update_config : World → Text → Text → Text → Option Text → Findings
unfolding service_kind port_key lookup parse_int
update_config w kind version field new_value = with_kind kind λ k. if_installed w.app k version (
    when (str_eq field (lit "port")) (
      let cur = parse_int (or_else (lookup (port_key k version) w.app.env) []) in
      port_errors
        (validate_port w.app (record no_options { exclude = cur ∷ [] }) (or_else new_value []))))

unfoldable pub extensions : World → Text → List Text → Findings
unfolding ext_errors
extensions w version final_exts =
    if includes (w.app.installed php) version
    then ext_errors final_exts
    else error (not_installed_php version)

unfoldable pub service_config : World → Text → Text → List Text → Findings
unfolding service_kind
service_config w kind version files =
    with_kind kind λ k. if_installed w.app k version (when (is_empty files) (error config_empty))

unfoldable pub restore : World → Text → Findings
restore w file =
    when (not (any (λ (b : Backup). str_eq b.file file) w.app.backups))
      (error (backup_missing file))

-- With a backend the cache store knows what is there; without, the demo's data.
unfoldable pub offline_prune : World → Text → Text → Findings
offline_prune w svc ver =
    let hit =
      if w.has_backend
      then any (λ (e : Text × Text). str_eq e.0 svc && str_eq e.1 ver) w.cache_entries
      else any (λ (t : OfflineTree). str_eq t.svc svc && str_eq t.ver ver) w.app.offline_trees in
    when (not hit) (error (offline_missing svc ver))

abbrev pub root_errors : Text → Findings
root_errors new_value =
    let p = norm_path new_value in
    when (is_given p && (has_traversal p || any (λ c. c == 0) p)) (error path_traversal)

-- A data directory is checked for its kind and version first.
unfoldable pub root_set : World → Text → Text → Text → Text → Findings
unfolding service_kind
root_set w field kind version new_value =
    if str_eq field (lit "data_dir")
    then (with_kind kind λ k. with_good (validate_version version) λ _.
        when (is_service_running w.app k version) (warning (data_dir_pending k version))
        also root_errors new_value)
    else root_errors new_value

abbrev pub is_pack : Text → Bool
is_pack field = str_eq field (lit "apk") || str_eq field (lit "pecl")

unfoldable pub cache_import : World → Text → Text → Text → Text → Findings
unfolding service_kind
cache_import w kind version field new_value = with_kind kind λ k.
    with_good (validate_version version) λ _.
      (if not (str_eq field (lit "image") || is_pack field)
        then error (ext_type_got field)
        else when (is_pack field && not (kind_eq k php)) (error (ext_import_php_only field)))
      also when (not (is_given (trim new_value))) (error file_missing)

-- The first row that is no registry host.
unfoldable pub host_errors : List Text → Findings
host_errors [] = clean
host_errors (raw ∷ rows) =
    let rest = host_errors rows in
    elim (validate_registry_host raw) [ good h ↦ rest | bad m ↦ error m ]

unfoldable pub docker_source_set : World → List Text → Findings
unfolding host_errors
docker_source_set w sources =
    let kept = filter (λ x. is_given (trim x)) sources in
    host_errors kept also when (is_empty kept) (warning registry_host_empty_list)
