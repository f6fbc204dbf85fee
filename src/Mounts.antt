-- ===== src/Mounts.antt =====
-- What is mounted into the services' containers (frontend/src/constants/mounts.ts).
use phpo.Base.{List, [], ◌∷◌, ◌++◌, map, Text, lit, str_eq, is_given, if◌then◌else◌}
use phpo.App.{ServiceKind, php, mysql, pgsql, redis, nginx, Env}
use phpo.Preflight.Ports.{upper_name, drop_dots}
use phpo.Paths.{env_of}

-- Where a mount comes from: a directory of its own in the settings, or one below the version's root,
-- or a file in that.
pub data MountFrom : Type 0 where
  global : (key : Text) → MountFrom
  sub : (dir : Text) → MountFrom
  sub_file : (dir file : Text) → MountFrom

pub record MountDef : Type 0 where
  pub source : MountFrom
  pub to : Text
  pub mode : Text
  pub label : Text

pub record Mount : Type 0 where
  pub def : MountDef
  pub host : Text

-- A mount by its source, its target, its mode and its label.
abbrev mount : MountFrom → Text → Text → Text → MountDef
mount source to mode label = record { source = source; to = to; mode = mode; label = label }

abbrev pub mounts : ServiceKind → List MountDef
mounts php =
    mount (global (lit "WWW_ROOT")) (lit "/var/www") (lit "rw") (lit "site sources")
    ∷ mount (sub_file (lit "conf") (lit "php.ini")) (lit "/usr/local/etc/php/conf.d/zz-phpo.ini")
        (lit "ro") (lit "php.ini")
    ∷ mount (sub_file (lit "conf") (lit "php-fpm.conf"))
        (lit "/usr/local/etc/php-fpm.d/zz-phpo.conf") (lit "ro") (lit "php-fpm pool")
    ∷ mount (sub (lit "logs")) (lit "/var/log/php-fpm") (lit "rw") (lit "FPM logs")
    ∷ []
mounts nginx =
    mount (global (lit "WWW_ROOT")) (lit "/var/www") (lit "ro") (lit "static files")
    ∷ mount (global (lit "NGINX_SITES_ROOT")) (lit "/etc/nginx/sites") (lit "ro") (lit "vhosts")
    ∷ mount (sub_file (lit "conf") (lit "nginx.conf")) (lit "/etc/nginx/nginx.conf") (lit "ro")
        (lit "nginx.conf")
    ∷ mount (sub (lit "logs")) (lit "/var/log/nginx") (lit "rw") (lit "logs")
    ∷ []
mounts mysql =
    mount (sub_file (lit "conf") (lit "my.cnf")) (lit "/etc/mysql/conf.d/zz-phpo.cnf") (lit "ro")
      (lit "my.cnf")
    ∷ mount (sub (lit "data")) (lit "/var/lib/mysql") (lit "rw") (lit "data")
    ∷ mount (sub (lit "logs")) (lit "/var/log/mysql") (lit "rw") (lit "logs")
    ∷ mount (sub (lit "initdb")) (lit "/docker-entrypoint-initdb.d") (lit "ro") (lit "initdb")
    ∷ []
mounts pgsql =
    mount (sub_file (lit "conf") (lit "postgresql.conf")) (lit "/etc/postgresql/postgresql.conf")
      (lit "ro") (lit "postgresql.conf")
    ∷ mount (sub_file (lit "conf") (lit "pg_hba.conf")) (lit "/etc/postgresql/pg_hba.conf")
        (lit "ro") (lit "pg_hba.conf")
    ∷ mount (sub (lit "data")) (lit "/var/lib/postgresql/data") (lit "rw") (lit "data")
    ∷ mount (sub (lit "logs")) (lit "/var/log/postgresql") (lit "rw") (lit "logs")
    ∷ mount (sub (lit "initdb")) (lit "/docker-entrypoint-initdb.d") (lit "ro") (lit "initdb")
    ∷ []
mounts redis =
    mount (sub_file (lit "conf") (lit "redis.conf")) (lit "/usr/local/etc/redis/redis.conf")
      (lit "ro") (lit "redis.conf")
    ∷ mount (sub (lit "data")) (lit "/data") (lit "rw") (lit "data")
    ∷ mount (sub (lit "logs")) (lit "/var/log/redis") (lit "rw") (lit "logs")
    ∷ []

unfoldable pub data_dir_key : ServiceKind → Text → Text
data_dir_key kind version = upper_name kind ++ (lit "_" ++ (drop_dots version ++ lit "_DATA_DIR"))

-- `${root}/${version}/${sub}`.
abbrev pub version_dir : Text → Text → Text → Text
version_dir root version dir = root ++ (lit "/" ++ (version ++ (lit "/" ++ dir)))

-- The data directory may stand elsewhere; no data mount names a file.
unfoldable pub host_of : Env → ServiceKind → Text → MountFrom → Text
unfolding env_of data_dir_key str_eq
host_of env kind version (global key) = env_of key env
host_of env kind version (sub dir) =
    let root = env_of (upper_name kind ++ lit "_ROOT") env in
    let custom = env_of (data_dir_key kind version) env in
    if str_eq dir (lit "data")
    then (if is_given custom then custom else version_dir root version (lit "data"))
    else version_dir root version dir
host_of env kind version (sub_file dir file) =
    version_dir (env_of (upper_name kind ++ lit "_ROOT") env) version dir ++ (lit "/" ++ file)

unfoldable pub resolve_mounts : Env → ServiceKind → Text → List Mount
unfolding host_of
resolve_mounts env kind version =
    map (λ m. record { def = m; host = host_of env kind version m.source }) (mounts kind)
