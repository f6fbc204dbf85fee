-- ===== src/App.antt =====
-- The state store (frontend/src/stores/appState.ts), its types (frontend/src/types/index.ts), and how
-- snapshots and events land in it.
pub mod Landing
use phpo.Base.{
  ℕ, Bool, true, false, not, ◌&&◌, ◌||◌, Option, none, some, List, [], ◌∷◌, ◌++◌, Text, lit, str_eq,
  includes, filter, find, is_some, or_else, if◌then◌else◌,
}
use phpo.Task.{TaskBoard}
use phpo.Task.Records.{lookup}

pub data ServiceKind : Type 0 where
  php mysql pgsql redis nginx : ServiceKind

abbrev pub kind_eq : ServiceKind → ServiceKind → Bool
kind_eq php php = true
kind_eq mysql mysql = true
kind_eq pgsql pgsql = true
kind_eq redis redis = true
kind_eq nginx nginx = true
kind_eq _ _ = false

-- A flat map of settings.
abbrev pub Env : Type 0
Env = List (Text × Text)

pub record Site : Type 0 where
  pub domain : Text
  pub port : ℕ
  pub php : Text
  pub root : Text
  pub hosts : Bool
  pub health : Text
  pub rewrite : Text
  pub rewrite_rule : Option Text

pub record Backup : Type 0 where
  pub file : Text
  pub size : Text
  pub at : Text
  pub items : ℕ

pub record OfflineTree : Type 0 where
  pub svc : Text
  pub ver : Text
  pub size : Text
  pub items : ℕ
  pub verified : Text

pub data GapReason : Type 0 where
  container image extensions_image : GapReason

pub record ServiceGap : Type 0 where
  pub kind : ServiceKind
  pub version : Text
  pub reason : GapReason
  pub ref : Text

pub record DiscoveredService : Type 0 where
  pub kind : ServiceKind
  pub version : Text
  pub name : Text
  pub image : Text
  pub running : Bool
  pub matched_by : Text
  pub phpo_named : Bool

pub record EngineInfo : Type 0 where
  pub kind : Text
  pub version : Text
  pub endpoint : Text
  pub rootless : Bool

-- `model.Snapshot`; what the code guards with `??` may be absent.
pub record StateSnapshot : Type 0 where
  pub installed : ServiceKind → Option (List Text)
  pub running : ServiceKind → Option (List Text)
  pub sites : Option (List Site)
  pub env : Env
  pub php_extensions : Option (List (Text × List Text))
  pub dir_ready : List (Text × Bool)
  pub tasks : Option TaskBoard
  pub gaps : Option (List ServiceGap)
  pub discovered : Option (List DiscoveredService)
  pub engine : Option EngineInfo
  pub flatpak : Bool

pub data DockerState : Type 0 where
  ok not_installed not_running no_permission old_version unknown : DockerState

pub record DockerStatus : Type 0 where
  pub status : DockerState
  pub version : Option Text
  pub can_start : Bool
  pub warning : Bool
  pub message : Option Text
  pub hint : Option Text

-- Before the first probe.
abbrev pub unchecked_docker : DockerStatus
unchecked_docker = record {
  status = unknown;
  version = none;
  can_start = false;
  warning = false;
  message = none;
  hint = none;
}

-- `configs` holds the texts of configuration files that were changed, by kind, version and file;
-- `docker_checked` is the field `checked` that the store adds to its `docker`.
pub record AppState : Type 0 where
  pub installed : ServiceKind → List Text
  pub stopped : ServiceKind → List Text
  pub sites : List Site
  pub backups : List Backup
  pub offline_total : Text
  pub offline_trees : List OfflineTree
  pub php_extensions : List (Text × List Text)
  pub env : Env
  pub home_dir_ready : Bool
  pub www_root_ready : Bool
  pub engine : Option EngineInfo
  pub flatpak : Bool
  pub gaps : List ServiceGap
  pub discovered : List DiscoveredService
  pub tasks : TaskBoard
  pub configs : List (Text × Text)
  pub docker : DockerStatus
  pub docker_checked : Bool

unfoldable pub home_ready : AppState → Bool
home_ready a = a.home_dir_ready && a.www_root_ready

unfoldable pub is_service_running : AppState → ServiceKind → Text → Bool
is_service_running a kind version = not (includes (a.stopped kind) version)

unfoldable pub gap_of : AppState → ServiceKind → Text → Option ServiceGap
gap_of a kind version = find (λ g. kind_eq g.kind kind && str_eq g.version version) a.gaps

unfoldable pub discovered_of : AppState → ServiceKind → Text → Option DiscoveredService
discovered_of a kind version =
    find (λ d. kind_eq d.kind kind && str_eq d.version version) a.discovered

-- `applyTaskBoard`: the queue is replaced whole; an absent one is an empty one.
unfoldable pub apply_task_board : Option TaskBoard → AppState → AppState
apply_task_board b a = record a { tasks = or_else b (record { running = none; pending = [] }) }

-- The versions of a kind that are installed but do not run.
abbrev pub stopped_in : StateSnapshot → ServiceKind → List Text
stopped_in s kind =
    filter (λ v. not (includes (or_else (s.running kind) []) v)) (or_else (s.installed kind) [])

unfoldable pub apply_snapshot : StateSnapshot → AppState → AppState
unfolding apply_task_board lookup
apply_snapshot s a = apply_task_board s.tasks (record a {
  installed = λ kind. or_else (s.installed kind) [];
  stopped = λ kind. stopped_in s kind;
  sites = or_else s.sites [];
  env = s.env;
  php_extensions = or_else s.php_extensions [];
  home_dir_ready = or_else (lookup (lit "PHPO_HOME") s.dir_ready) a.home_dir_ready;
  www_root_ready = or_else (lookup (lit "WWW_ROOT") s.dir_ready) a.www_root_ready;
  gaps = or_else s.gaps [];
  discovered = or_else s.discovered [];
  engine = s.engine;
  flatpak = s.flatpak;
})

-- `enterRealHost`: the demo's data goes. `paths` is `derivePaths(DEFAULT_HOME, DEFAULT_WWW)`.
unfoldable pub enter_real_host : Env → AppState → AppState
enter_real_host paths a = record a {
  installed = λ kind. [];
  stopped = λ kind. [];
  sites = [];
  backups = [];
  offline_total = [];
  offline_trees = [];
  gaps = [];
  discovered = [];
  php_extensions = [];
  env = paths;
  home_dir_ready = false;
  www_root_ready = false;
}

-- `arr.splice(arr.indexOf(x), 1)` when `x` is there.
unfoldable pub remove_first : Text → List Text → List Text
remove_first x [] = []
remove_first x (y ∷ ys) = if str_eq y x then ys else y ∷ remove_first x ys

abbrev pub set_stopped :
    ServiceKind → List Text → (ServiceKind → List Text) → ServiceKind → List Text
set_stopped kind versions stopped k = if kind_eq k kind then versions else stopped k

unfoldable pub set_service_running : ServiceKind → Text → Bool → AppState → AppState
set_service_running kind version running a =
    let arr = a.stopped kind in
    let listed = includes arr version in
    if running && listed
    then record a { stopped = set_stopped kind (remove_first version arr) a.stopped }
    else if not running && not listed
    then record a { stopped = set_stopped kind (arr ++ version ∷ []) a.stopped }
    else a

unfoldable pub set_backups : List Backup → AppState → AppState
set_backups list a = record a { backups = list }

-- A value that is not given leaves the old one.
abbrev assigned : Option Text → Option Text → Option Text
assigned none old = old
assigned (some new) old = some new

-- `Object.assign(docker, s, { checked: true })`: a field that `s` does not have stays.
unfoldable pub set_docker : DockerStatus → AppState → AppState
set_docker s a = record a {
  docker = record {
    status = s.status;
    version = assigned s.version a.docker.version;
    can_start = s.can_start;
    warning = s.warning;
    message = assigned s.message a.docker.message;
    hint = assigned s.hint a.docker.hint;
  };
  docker_checked = true;
}

unfoldable pub php_versions : AppState → List Text
php_versions a = a.installed php
