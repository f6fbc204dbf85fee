-- ===== src/Paths.antt =====
-- The directories and their names in the containers (frontend/src/utils/path.ts).
pub mod RoundTrip
use phpo.Base.{
  ℕ, ◌||◌, ◌&&◌, Bool, Option, List, [], ◌∷◌, ◌++◌, Text, lit, str_eq, starts_with, is_given,
  truthy, or_else, length, drop, not, if◌then◌else◌,
}
use phpo.App.{ServiceKind, Env}
use phpo.Task.Records.{lookup}
use phpo.Preflight.Validate.{is_slash, drop_while_end}
use phpo.Preflight.Ports.{upper_name}

abbrev pub default_home : Text
default_home = lit "~/phpo"

abbrev pub default_www : Text
default_www = lit "~/www"

abbrev pub www_container : Text
www_container = lit "/var/www"

abbrev pub sites_container : Text
sites_container = lit "/etc/nginx/sites"

-- `String(given || fallback).replace(/\/+$/, '')`.
unfoldable pub base_dir : Option Text → Text → Text
unfolding drop_while_end
base_dir given fallback =
    drop_while_end is_slash (if truthy given then or_else given [] else fallback)

unfoldable pub derive_paths : Option Text → Option Text → Env
unfolding base_dir
derive_paths home www_root =
    let h = base_dir home default_home in
    (lit "PHPO_HOME", h)
    ∷ (lit "WWW_ROOT", base_dir www_root default_www)
    ∷ (lit "PHP_ROOT", h ++ lit "/php")
    ∷ (lit "NGINX_ROOT", h ++ lit "/nginx")
    ∷ (lit "NGINX_SITES_ROOT", h ++ lit "/nginx/sites")
    ∷ (lit "MYSQL_ROOT", h ++ lit "/mysql")
    ∷ (lit "PGSQL_ROOT", h ++ lit "/pgsql")
    ∷ (lit "REDIS_ROOT", h ++ lit "/redis")
    ∷ (lit "BACKUP_ROOT", h ++ lit "/backups")
    ∷ (lit "OFFLINE_ROOT", h ++ lit "/offline")
    ∷ []

-- A missing key shows as `undefined` in a template.
unfoldable pub ver_root : Env → ServiceKind → Text → Text
unfolding lookup
ver_root env kind version =
    or_else (lookup (upper_name kind ++ lit "_ROOT") env) (lit "undefined") ++ (lit "/" ++ version)

-- `p === dir || p.startsWith(dir + '/')`.
unfoldable pub is_under : Text → Text → Bool
unfolding str_eq starts_with
is_under dir p = str_eq p dir || starts_with p (dir ++ lit "/")

unfoldable pub env_of : Text → Env → Text
unfolding lookup
env_of key env = or_else (lookup key env) []

-- `to + p.slice(from.length)` for a path at or below the directory `from`, which is not empty.
unfoldable pub moves : Text → Text → Bool
moves from p = is_given from && is_under from p

unfoldable pub host_to_container : Env → Text → Text
unfolding moves env_of
host_to_container env p =
    let w = env_of (lit "WWW_ROOT") env in
    let s = env_of (lit "NGINX_SITES_ROOT") env in
    if not (is_given p)
    then p
    else if moves w p
    then www_container ++ drop (length w) p
    else if moves s p
    then sites_container ++ drop (length s) p
    else p

unfoldable pub container_to_host : Env → Text → Text
unfolding env_of
container_to_host env p =
    let w = env_of (lit "WWW_ROOT") env in
    let s = env_of (lit "NGINX_SITES_ROOT") env in
    if not (is_given p)
    then p
    else if is_given w && is_under www_container p
    then w ++ drop (length www_container) p
    else if is_given s && is_under sites_container p
    then s ++ drop (length sites_container) p
    else p
