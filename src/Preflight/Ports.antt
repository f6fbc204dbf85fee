-- ===== src/Preflight/Ports.antt =====
-- The checks of ports in usePreflight.ts: the ports in use, the next free one, `validatePort`.
use phpo.Base.{
  ℕ, zero, suc, ◌+◌, ◌-◌, ◌*◌, leb, ltb, ◌==◌, Bool, true, false, not, ◌&&◌, ◌||◌, Option, none,
  some, is_some, List, [], ◌∷◌, ◌++◌, Text, lit, includes, or_else, length, all, filter,
  if◌then◌else◌,
}
use phpo.Base.Regex.{is_digit}
use phpo.Task.Records.{lookup}
use phpo.App.{ServiceKind, php, mysql, pgsql, redis, nginx, Env, Site, AppState}
use phpo.Preflight.{Owner, service, site}
use phpo.Preflight.Validate.{is_space, drop_while, trim}

abbrev pub upper_name : ServiceKind → Text
upper_name php = lit "PHP"
upper_name mysql = lit "MYSQL"
upper_name pgsql = lit "PGSQL"
upper_name redis = lit "REDIS"
upper_name nginx = lit "NGINX"

-- `version.replace(/\./g, '')`.
abbrev pub drop_dots : Text → Text
drop_dots version = filter (λ c. not (c == b'.')) version

-- The key of a version's port in the settings.
unfoldable pub port_key : ServiceKind → Text → Text
port_key kind version = upper_name kind ++ (lit "_" ++ (drop_dots version ++ lit "_PORT"))

-- The value of the leading digits, after what is read so far.
unfoldable pub digits_value : ℕ → Text → ℕ
digits_value n [] = n
digits_value n (c ∷ s) =
    let rest = digits_value (n * 10 + (c - b'0')) s in if is_digit c then rest else n

abbrev pub drop_plus : Text → Text
drop_plus [] = []
drop_plus (c ∷ s) = if c == b'+' then s else c ∷ s

abbrev pub starts_with_digit : Text → Bool
starts_with_digit [] = false
starts_with_digit (c ∷ s) = is_digit c

-- `parseInt(s, 10)`, with `none` for NaN and for the negative numbers, which are no port.
unfoldable pub parse_int : Text → Option ℕ
unfolding digits_value drop_while is_space
parse_int s =
    let t = drop_plus (drop_while is_space s) in
    if starts_with_digit t then some (digits_value 0 t) else none

-- A `Map` from ports, in the order of insertion; the first owner of a port stays.
abbrev pub Used : Type 0
Used = List (ℕ × Owner)

unfoldable pub owner_of : ℕ → Used → Option Owner
owner_of p [] = none
owner_of p ((q, o) ∷ used) = if q == p then some o else owner_of p used

unfoldable pub add_port : Option ℕ → Owner → Used → Used
unfolding owner_of
add_port none o used = used
add_port (some p) o used = if is_some (owner_of p used) then used else used ++ (p, o) ∷ []

unfoldable pub add_services : ServiceKind → Env → List Text → Used → Used
unfolding add_port parse_int lookup port_key
add_services kind env [] used = used
add_services kind env (v ∷ vs) used =
    add_services kind env vs
      (add_port (parse_int (or_else (lookup (port_key kind v) env) [])) (service kind v) used)

unfoldable pub add_sites : List Text → List Site → Used → Used
unfolding add_port includes
add_sites excluded [] used = used
add_sites excluded (s ∷ ss) used =
    add_sites excluded ss
      (if includes excluded s.domain then used else add_port (some s.port) (site s.domain) used)

unfoldable pub collect_used_ports : AppState → List Text → Used
unfolding add_services add_sites
collect_used_ports a excluded = add_sites excluded a.sites (
    add_services redis a.env (a.installed redis) (
      add_services pgsql a.env (a.installed pgsql)
        (add_services mysql a.env (a.installed mysql) [])))

-- A counted loop over the ports from `p`: the first of `rounds` that is free.
unfoldable pub first_free : ℕ → ℕ → Used → Option ℕ
unfolding owner_of
first_free zero p used = none
first_free (suc rounds) p used =
    let later = first_free rounds (p + 1) used in
    if is_some (owner_of p used) then later else some p

-- Upwards from the desired port to the highest, then from the lowest up to the desired one.
unfoldable pub find_next_available_port : ℕ → ℕ → ℕ → Used → Option ℕ
unfolding first_free
find_next_available_port desired max_port min_port used =
    elim (first_free (max_port - desired) (desired + 1) used) [
      | some p ↦ some p
      | none ↦ first_free (desired - min_port) min_port used
    ]

pub record PortOptions : Type 0 where
  pub exclude : List (Option ℕ)
  pub exclude_domains : List Text
  pub auto_advance : Bool
  pub keep_on_conflict : Bool

abbrev pub no_options : PortOptions
no_options = record {
  exclude = [];
  exclude_domains = [];
  auto_advance = false;
  keep_on_conflict = false;
}

pub data PortCheck : Type 0 where
  invalid : PortCheck
  free : ℕ → PortCheck
  -- kept although it is in use
  occupied : ℕ → Option Owner → PortCheck
  -- the port to take instead, and the one asked for
  advanced : ℕ → ℕ → PortCheck
  in_use : ℕ → Option Owner → PortCheck

abbrev pub is_service_owner : Owner → Bool
is_service_owner (service kind version) = true
is_service_owner (site domain) = false

-- `/^\d{1,5}$/`.
abbrev pub is_port_text : Text → Bool
is_port_text s = all is_digit s && leb 1 (length s) && leb (length s) 5

-- `exclude.includes(n)`; NaN is never equal.
unfoldable pub is_excluded : ℕ → List (Option ℕ) → Bool
is_excluded n [] = false
is_excluded n (none ∷ ps) = is_excluded n ps
is_excluded n (some p ∷ ps) = p == n || is_excluded n ps

-- The ports that count as used for the options: without `autoAdvance`, not those of sites.
unfoldable pub counted_ports : AppState → PortOptions → Used
counted_ports a opts =
    let used = collect_used_ports a opts.exclude_domains in
    if opts.auto_advance then used else filter (λ e. is_service_owner e.1) used

-- Whether port `n` may be taken, by whether it is excluded from the check, may be kept although it is
-- used, or may be moved.
unfoldable pub answer : Bool → Bool → Bool → ℕ → Used → PortCheck
answer excluded keep advance n used =
    if excluded || not (is_some (owner_of n used))
    then free n
    else if keep
    then occupied n (owner_of n used)
    else if advance
    then elim (find_next_available_port n 65535 1 used) [
      | some next ↦ advanced next n
      | none ↦ in_use n (owner_of n used)
    ]
    else in_use n (owner_of n used)

unfoldable pub check_port : AppState → PortOptions → ℕ → PortCheck
check_port a opts n =
    answer (is_excluded n opts.exclude) opts.keep_on_conflict opts.auto_advance n
      (counted_ports a opts)

unfoldable pub validate_port : AppState → PortOptions → Text → PortCheck
unfolding check_port
validate_port a opts port =
    let s = trim port in
    let n = digits_value 0 s in
    if not (is_port_text s) || ltb n 1 || ltb 65535 n then invalid else check_port a opts n
