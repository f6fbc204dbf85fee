-- ===== src/Tests/StoreTests.antt =====
-- Paths, landed events and the smaller stores at concrete inputs.
use phpo.Base.{
  ◌≡◌, refl, true, false, none, some, List, [], ◌∷◌, Text, lit, str_eq, starts_with, ◌&&◌,
  if◌then◌else◌, take,
}
use phpo.Task.{TaskBrief, TaskBoard, LineType, Params}
use phpo.Task.Trace.{empty_store}
use phpo.Task.Ensure.{KeepsStatus}
use phpo.Task.Follow.{selection}
use phpo.App.{unchecked_docker, StateSnapshot, Env}
use phpo.Paths.{www_container, sites_container, is_under, host_to_container, container_to_host}
use phpo.Paths.RoundTrip.{container_to_host-host_to_container}
use phpo.Sync.{
  Event, state_changed, task_log, noticed, cache_corrupted, docker_state_drift, Outside, Stores,
}
use phpo.Sync.Land.{land_event, land_events, bootstrap_state}
use phpo.Sync.Landing.{
  first_reply, pulled, land_events-KeepsStatus, land_event_follows, bootstrap_state_lem,
}
use phpo.Cache.{CacheEntry, CacheStore, CacheEventMark, hit, empty_stats, record_mark, mark_of}
use phpo.Cache.Laws.{mark_of-record_mark}
use phpo.Updater.{UpdateStage, UpdateDoneStatus, UpdateAvailable, open_store}
use phpo.Updater.Rounds.{
  Change, available, progressed, ended, dismissed, changes, IsSound, changes-IsSound,
}
use phpo.Layout.{LayoutStore, open_layout}
use phpo.Layout.Within.{sidebar, zoomed_in, moves, IsWithin, moves-IsWithin}

abbrev paths : Env
paths = (lit "WWW_ROOT", lit "/w") ∷ (lit "NGINX_SITES_ROOT", lit "/h/s") ∷ []

outside_containers :
    (is_under www_container (lit "/h/s/a") ≡ false)
    × (is_under sites_container (lit "/h/s/a") ≡ false)
unfolding is_under str_eq starts_with
outside_containers = (refl, refl)

to_sites : host_to_container paths (lit "/h/s/a") ≡ lit "/etc/nginx/sites/a"
unfolding host_to_container is_under str_eq starts_with
to_sites = refl

container_to_host-host_to_container_example :
    container_to_host paths (host_to_container paths (lit "/h/s/a")) ≡ lit "/h/s/a"
container_to_host-host_to_container_example =
    container_to_host-host_to_container paths (lit "/h/s/a") outside_containers.0
      outside_containers.1

abbrev running : TaskBrief
running = record {
  id = lit "a";
  label = lit "install";
  label_code = none;
  label_params = none;
  type = lit "install";
  kind = none;
  version = none;
  domain = none;
  step = 1;
  total = 6;
  started_at = none;
}

abbrev board : TaskBoard
board = record { running = some running; pending = [] }

abbrev snapshot : StateSnapshot
snapshot = record {
  installed = λ k. none;
  running = λ k. none;
  sites = none;
  env = [];
  php_extensions = none;
  dir_ready = [];
  tasks = some board;
  gaps = none;
  discovered = none;
  engine = none;
  flatpak = false;
}

abbrev world : Outside
world = record { has_backend = true; now = 9; parse_date = λ t. none }

abbrev stores : Stores
stores = record {
  app = record {
    installed = λ k. [];
    stopped = λ k. [];
    sites = [];
    backups = [];
    offline_total = [];
    offline_trees = [];
    php_extensions = [];
    env = [];
    home_dir_ready = false;
    www_root_ready = false;
    engine = none;
    flatpak = false;
    gaps = [];
    discovered = [];
    tasks = record { running = none; pending = [] };
    configs = [];
    docker = unchecked_docker;
    docker_checked = false;
  };
  task = empty_store;
  pulls = false;
}

abbrev key_only : Text → Params → Text
key_only key params = key

abbrev events : List (Outside × Event)
events =
    (world, state_changed (some snapshot))
    ∷ (world, task_log (lit "a") LineType.err (lit "no") none none)
    ∷ (world, noticed (cache_corrupted (lit "php") (lit "8.3")))
    ∷ (world, noticed (docker_state_drift none none (some (lit "x")) none))
    ∷ []

land_events-KeepsStatus_example :
    KeepsStatus empty_store.records (land_events key_only events stores).task.records
land_events-KeepsStatus_example =
    land_events-KeepsStatus key_only events stores (tt, (tt, (tt, (tt, tt))))

land_event_follows_example :
    ((land_event key_only world (state_changed (some snapshot)) stores).app.tasks ≡ board)
    × (selection (land_event key_only world (state_changed (some snapshot)) stores).task
        ≡ (lit "a", true, lit "a"))
land_event_follows_example =
    land_event_follows key_only world snapshot board running stores refl refl refl refl (λ e. cc)

bootstrap_state_lem_example :
    bootstrap_state 3 true (world, none) ((world, none) ∷ (world, some snapshot) ∷ []) stores
    ≡ pulled stores
        (first_reply ((world, none) ∷ take 2 ((world, none) ∷ (world, some snapshot) ∷ [])))
bootstrap_state_lem_example =
    bootstrap_state_lem 2 world none ((world, none) ∷ (world, some snapshot) ∷ []) stores

abbrev entry : CacheEntry
entry = record {
  kind = lit "php";
  version = lit "8.3";
  path = lit "/o/php";
  has_image = true;
  has_ext_image = false;
  apk_count = 1;
  pecl_count = 0;
  total_size = 5;
  last_verify = [];
  verify_ok = true;
}

abbrev cache : CacheStore
cache = record { entries = entry ∷ []; stats = empty_stats; loading = false; marks = [] }

abbrev mark : CacheEventMark
mark = record { kind = hit; source = none; size = some 3; action = none; at = 4 }

mark_of-record_mark_example :
    mark_of (lit "php") (lit "8.3") (record_mark (lit "php") (lit "8.3") mark cache) ≡ (
      if str_eq (lit "php") (lit "php") && str_eq (lit "8.3") (lit "8.3")
      then some mark
      else mark_of (lit "php") (lit "8.3") cache)
mark_of-record_mark_example =
    mark_of-record_mark (lit "php") (lit "8.3") (lit "php") (lit "8.3") mark cache refl refl

abbrev found : UpdateAvailable
found = record {
  version = lit "2.0";
  changelog = [];
  size = 7;
  source = none;
  download_page = none;
}

abbrev round : List Change
round =
    available (some found)
    ∷ progressed (some (record { stage = UpdateStage.download; percent = 5; speed = 1 }))
    ∷ ended (some (record { status = UpdateDoneStatus.failed; version = lit "2.0" }))
    ∷ dismissed (lit "2.0") true
    ∷ []

changes-IsSound_example : IsSound round (changes round (open_store (some (lit "1.9"))))
changes-IsSound_example = changes-IsSound round (some (lit "1.9"))

moves-IsWithin_example :
    IsWithin (moves (sidebar 9000 ∷ zoomed_in ∷ []) (open_layout (some (lit "12")) none none none))
moves-IsWithin_example =
    moves-IsWithin (some (lit "12")) none none none (sidebar 9000 ∷ zoomed_in ∷ [])

abbrev usual : LayoutStore
usual = record { sidebar_width = 200; drawer_height = 160; drawer_split = 70; scale = 1000 }
