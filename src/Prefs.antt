-- ===== src/Prefs.antt =====
-- The preferences of the interface: the theme and the tray icon (frontend/src/stores/prefsStore.ts). Prefs
-- has the store and its operations, Prefs/Tray the proofs.
pub mod Tray
use phpo.Base.{
  Bool, true, false, not, ◌&&◌, ◌||◌, Option, none, some, List, [], ◌∷◌, ◌++◌, Text, lit, includes,
  if◌then◌else◌,
}

abbrev pub theme_ids : List Text
theme_ids =
    lit "light"
    ∷ lit "midnight"
    ∷ lit "oled"
    ∷ lit "forest"
    ∷ lit "ocean"
    ∷ lit "sakura"
    ∷ lit "amber"
    ∷ lit "teal"
    ∷ lit "titanium"
    ∷ []

abbrev pub default_theme : Text
default_theme = lit "light"

unfoldable pub is_theme_id : Text → Bool
unfolding includes
is_theme_id v = includes theme_ids v

-- The stored theme; nothing where there is none or the read throws.
unfoldable pub read_theme : Option Text → Text
unfolding is_theme_id
read_theme none = default_theme
read_theme (some v) = if is_theme_id v then v else default_theme

pub record TrayPrefs : Type 0 where
  pub enabled : Bool
  pub minimize_on_close : Bool

-- What the browser's storage holds for the tray: nothing that can be read, nothing, or a value with, for
-- each of the two fields, whether it is `false`.
pub data StoredTray : Type 0 where
  unreadable absent : StoredTray
  parsed : (enabled_is_false minimize_is_false : Bool) → StoredTray

abbrev all_on : TrayPrefs
all_on = record { enabled = true; minimize_on_close = true }

unfoldable pub read_tray : StoredTray → TrayPrefs
read_tray unreadable = all_on
read_tray absent = all_on
read_tray (parsed e m) = record { enabled = not e; minimize_on_close = not m }

-- The fields of the backend's status of the tray that the store reads.
pub record TrayStatus : Type 0 where
  pub available : Bool
  pub can_toggle_visibility : Bool

pub data TrayStatusFailure : Type 0 where
  backend_unavailable probe_failed : TrayStatusFailure

-- The store; `pushed` are the calls of `setTrayPrefs`, `toasts` the keys of the toasts.
pub record PrefsStore : Type 0 where
  pub theme : Text
  pub stored_theme : Option Text
  pub tray : TrayPrefs
  pub stored_tray : StoredTray
  pub tray_status : Option TrayStatus
  pub tray_status_failure : Option TrayStatusFailure
  pub mirroring : Bool
  pub pushed : List TrayPrefs
  pub toasts : List Text

unfoldable pub open_prefs : Option Text → StoredTray → PrefsStore
unfolding read_theme read_tray
open_prefs stored_theme stored_tray = record {
  theme = read_theme stored_theme;
  stored_theme = stored_theme;
  tray = read_tray stored_tray;
  stored_tray = stored_tray;
  tray_status = none;
  tray_status_failure = none;
  mirroring = false;
  pushed = [];
  toasts = [];
}

unfoldable pub set_theme : Text → PrefsStore → PrefsStore
unfolding is_theme_id
set_theme id s = if is_theme_id id then record s { theme = id } else s

-- The effect of a change of the theme, where the write to the storage works or throws.
unfoldable pub keep_theme : Bool → PrefsStore → PrefsStore
keep_theme writes s = if writes then record s { stored_theme = some s.theme } else s

abbrev is_known : Option TrayStatus → Bool
is_known none = false
is_known (some status) = true

unfoldable pub mirror_tray : PrefsStore → PrefsStore
mirror_tray s =
    if not s.mirroring || not (is_known s.tray_status)
    then s
    else record s { pushed = s.pushed ++ s.tray ∷ [] }

-- A push that the backend rejects is told.
unfoldable pub push_failed : PrefsStore → PrefsStore
push_failed s = record s { toasts = s.toasts ++ lit "settings.tray.pushFailed" ∷ [] }

unfoldable pub sync_tray_prefs : PrefsStore → PrefsStore
unfolding mirror_tray
sync_tray_prefs s = mirror_tray (record s { mirroring = true })

-- The effect of a change of the tray's preferences.
unfoldable pub keep_tray : Bool → PrefsStore → PrefsStore
unfolding mirror_tray
keep_tray writes s = mirror_tray (
    if writes
    then record s { stored_tray = parsed (not s.tray.enabled) (not s.tray.minimize_on_close) }
    else s)

-- What `getTrayStatus` gives: an error, or a status, or nothing without a backend.
pub data Probe : Type 0 where
  rejected : Probe
  answered : Option TrayStatus → Probe

-- The preferences that a status allows.
abbrev pub allowed : TrayStatus → TrayPrefs → TrayPrefs
allowed status tray =
    let enabled = if not status.can_toggle_visibility then true else tray.enabled in
    record {
      enabled = enabled;
      minimize_on_close =
          if not status.available || not enabled then false else tray.minimize_on_close;
    }

-- `refreshTrayStatus`, from the reply on.
unfoldable pub refresh_tray_status : Probe → PrefsStore → PrefsStore
refresh_tray_status rejected s = record s {
  tray_status = none;
  tray_status_failure = some probe_failed;
  toasts = s.toasts ++ lit "settings.tray.statusFailed" ∷ [];
}
refresh_tray_status (answered none) s = record s {
  tray_status = none;
  tray_status_failure = some backend_unavailable;
}
refresh_tray_status (answered (some status)) s = record s {
  tray_status = some status;
  tray_status_failure = none;
  tray = allowed status s.tray;
}

-- `!trayStatus.value?.canToggleVisibility` and `!trayStatus.value?.available`, turned round.
abbrev can_toggle : Option TrayStatus → Bool
can_toggle none = false
can_toggle (some status) = status.can_toggle_visibility

abbrev is_available : Option TrayStatus → Bool
is_available none = false
is_available (some status) = status.available

unfoldable pub set_tray_enabled : Bool → PrefsStore → PrefsStore
set_tray_enabled enabled s =
    if can_toggle s.tray_status
    then record s {
      tray = record {
        enabled = enabled;
        minimize_on_close = if enabled then s.tray.minimize_on_close else false;
      };
    }
    else s

unfoldable pub set_tray_minimize_on_close : Bool → PrefsStore → PrefsStore
set_tray_minimize_on_close enabled s =
    if not (is_available s.tray_status) || not s.tray.enabled
    then s
    else record s { tray = record { enabled = s.tray.enabled; minimize_on_close = enabled } }
