-- ===== src/Catalog.antt =====
-- The PHP extensions that the interface offers (frontend/src/constants/ext.ts).
pub mod Offered
use phpo.Base.{
  ℕ, ◌+◌, ◌*◌, ◌==◌, leb, Bool, true, false, ◌&&◌, Option, none, some, List, [], ◌∷◌, ◌++◌, map,
  Text, lit, filter, if◌then◌else◌,
}
use phpo.Base.Regex.{is_digit}
use phpo.Preflight.Validate.{trim, drop_while}
use phpo.Preflight.Ports.{digits_value, starts_with_digit}

pub data ExtTool : Type 0 where
  builtin pecl : ExtTool

pub data Group : Type 0 where
  basic db cache media net async framework debug : Group

pub record ExtDef : Type 0 where
  pub name : Text
  pub tool : ExtTool
  pub group : Group
  pub common : Bool
  pub min_ver : Option Text

-- In the order of display.
abbrev pub ext_groups : List Group
ext_groups = basic ∷ db ∷ cache ∷ media ∷ net ∷ async ∷ framework ∷ debug ∷ []

abbrev pub group_eq : Group → Group → Bool
group_eq basic basic = true
group_eq db db = true
group_eq cache cache = true
group_eq media media = true
group_eq net net = true
group_eq async async = true
group_eq framework framework = true
group_eq debug debug = true
group_eq _ _ = false

-- An entry of the catalogue: not among the common ones, common, or there from some version on.
abbrev plain : ExtTool → Group → Text → ExtDef
plain tool group name = record {
  name = name;
  tool = tool;
  group = group;
  common = false;
  min_ver = none;
}

abbrev usual : ExtTool → Group → Text → ExtDef
usual tool group name = record {
  name = name;
  tool = tool;
  group = group;
  common = true;
  min_ver = none;
}

abbrev since : ExtTool → Group → Text → Text → ExtDef
since tool group name version = record {
  name = name;
  tool = tool;
  group = group;
  common = false;
  min_ver = some version;
}

abbrev pub basic_exts : List ExtDef
basic_exts =
    usual builtin basic (lit "bcmath")
    ∷ plain builtin basic (lit "bz2")
    ∷ plain builtin basic (lit "calendar")
    ∷ plain builtin basic (lit "ctype")
    ∷ usual builtin basic (lit "curl")
    ∷ plain builtin basic (lit "dom")
    ∷ usual builtin basic (lit "exif")
    ∷ since builtin basic (lit "ffi") (lit "7.4")
    ∷ plain builtin basic (lit "fileinfo")
    ∷ plain builtin basic (lit "filter")
    ∷ plain builtin basic (lit "ftp")
    ∷ plain builtin basic (lit "gettext")
    ∷ plain builtin basic (lit "gmp")
    ∷ plain builtin basic (lit "iconv")
    ∷ usual builtin basic (lit "mbstring")
    ∷ usual builtin basic (lit "opcache")
    ∷ plain builtin basic (lit "openssl")
    ∷ usual builtin basic (lit "pcntl")
    ∷ plain builtin basic (lit "pdo")
    ∷ plain builtin basic (lit "posix")
    ∷ plain builtin basic (lit "readline")
    ∷ plain builtin basic (lit "session")
    ∷ plain builtin basic (lit "shmop")
    ∷ plain builtin basic (lit "sockets")
    ∷ since builtin basic (lit "sodium") (lit "7.2")
    ∷ plain builtin basic (lit "sysvmsg")
    ∷ plain builtin basic (lit "sysvsem")
    ∷ plain builtin basic (lit "sysvshm")
    ∷ plain builtin basic (lit "tidy")
    ∷ plain builtin basic (lit "tokenizer")
    ∷ plain builtin basic (lit "xml")
    ∷ plain builtin basic (lit "xmlreader")
    ∷ plain builtin basic (lit "xmlwriter")
    ∷ plain builtin basic (lit "xsl")
    ∷ plain builtin basic (lit "zip")
    ∷ plain builtin basic (lit "zlib")
    ∷ plain pecl basic (lit "ds")
    ∷ plain pecl basic (lit "uuid")
    ∷ plain pecl basic (lit "yaml")
    ∷ []

abbrev pub db_exts : List ExtDef
db_exts =
    usual builtin db (lit "mysqli")
    ∷ plain builtin db (lit "pdo_dblib")
    ∷ plain builtin db (lit "pdo_firebird")
    ∷ usual builtin db (lit "pdo_mysql")
    ∷ plain builtin db (lit "pdo_odbc")
    ∷ plain builtin db (lit "pdo_pgsql")
    ∷ plain builtin db (lit "pdo_sqlite")
    ∷ plain builtin db (lit "pgsql")
    ∷ plain builtin db (lit "sqlite3")
    ∷ plain pecl db (lit "mongodb")
    ∷ []

abbrev pub cache_exts : List ExtDef
cache_exts =
    usual pecl cache (lit "apcu")
    ∷ usual pecl cache (lit "igbinary")
    ∷ plain pecl cache (lit "memcached")
    ∷ plain pecl cache (lit "msgpack")
    ∷ usual pecl cache (lit "redis")
    ∷ []

abbrev pub media_exts : List ExtDef
media_exts =
    plain builtin media (lit "gd")
    ∷ plain pecl media (lit "imagick")
    ∷ plain pecl media (lit "gmagick")
    ∷ plain pecl media (lit "xlswriter")
    ∷ []

abbrev pub net_exts : List ExtDef
net_exts =
    plain pecl net (lit "amqp")
    ∷ plain pecl net (lit "grpc")
    ∷ plain builtin net (lit "imap")
    ∷ plain builtin net (lit "ldap")
    ∷ plain pecl net (lit "protobuf")
    ∷ plain pecl net (lit "rdkafka")
    ∷ plain builtin net (lit "snmp")
    ∷ plain pecl net (lit "ssh2")
    ∷ plain pecl net (lit "zmq")
    ∷ []

abbrev pub async_exts : List ExtDef
async_exts =
    plain pecl async (lit "event")
    ∷ plain pecl async (lit "swoole")
    ∷ plain pecl async (lit "uv")
    ∷ []

abbrev pub framework_exts : List ExtDef
framework_exts = plain pecl framework (lit "phalcon") ∷ plain pecl framework (lit "yaf") ∷ []

abbrev pub debug_exts : List ExtDef
debug_exts = plain pecl debug (lit "xdebug") ∷ []

abbrev pub ext_catalog : List ExtDef
ext_catalog =
    basic_exts
    ++ (db_exts
        ++ (cache_exts
            ++ (media_exts ++ (net_exts ++ (async_exts ++ (framework_exts ++ (debug_exts)))))))

-- The digits up to the first dot and those after it, of `/^(\d+)\.(\d+)/` on the trimmed text.
abbrev after_dot : Text → Option ℕ
after_dot [] = none
after_dot (c ∷ s) = if c == b'.' && starts_with_digit s then some (digits_value 0 s) else none

unfoldable pub parse_ver : Text → Option (ℕ × ℕ)
unfolding trim drop_while digits_value
parse_ver v =
    let s = trim v in
    if starts_with_digit s
    then (elim (after_dot (drop_while is_digit s)) [
      | none ↦ none
      | some minor ↦ some (digits_value 0 s, minor)
    ])
    else none

-- `cur[0] * 100 + cur[1] >= min[0] * 100 + min[1]`; an absent one is no restriction.
unfoldable pub is_at_least : Option (ℕ × ℕ) → Option (ℕ × ℕ) → Bool
is_at_least none low = true
is_at_least (some cur) none = true
is_at_least (some (a, b)) (some (c, d)) = leb (c * 100 + d) (a * 100 + b)

unfoldable pub ext_matches_version : ExtDef → Text → Bool
unfolding is_at_least
ext_matches_version e version = elim e.min_ver [
  | none ↦ true
  | some low ↦ is_at_least (parse_ver version) (parse_ver low)
]

-- `EXT_GROUPS.flatMap((g) => visible.filter((e) => e.group === g))`.
unfoldable pub by_group : List Group → List ExtDef → List ExtDef
by_group [] visible = []
by_group (g ∷ gs) visible = filter (λ e. group_eq e.group g) visible ++ by_group gs visible

unfoldable pub catalog_for : Text → List ExtDef
unfolding by_group
catalog_for version = by_group ext_groups (filter (λ e. ext_matches_version e version) ext_catalog)

unfoldable pub common_exts : Text → List Text
common_exts version = map (λ e. e.name) (filter (λ e. e.common) (catalog_for version))
