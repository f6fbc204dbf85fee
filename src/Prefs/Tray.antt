-- ===== src/Prefs/Tray.antt =====
-- Proofs about frontend/src/stores/prefsStore.ts.
use phpo.Base.{
  ◌≡◌, refl, Bool, true, false, not, ◌&&◌, ◌||◌, Option, none, some, List, [], ◌∷◌, ◌++◌, All,
  All-append, Text, str_eq, if◌then◌else◌, arith,
}
use phpo.Prefs.{
  is_theme_id, read_theme, TrayPrefs, StoredTray, TrayStatus, PrefsStore, open_prefs, set_theme,
  keep_theme, mirror_tray, push_failed, sync_tray_prefs, keep_tray, allowed, is_known, can_toggle,
  is_available, default_theme, Probe, rejected, answered, refresh_tray_status, set_tray_enabled,
  set_tray_minimize_on_close,
}

-- What happens to the store.
pub data Change : Type 0 where
  themed : Text → Change
  theme_kept tray_kept : (writes : Bool) → Change
  synced push_rejected : Change
  probed : Probe → Change
  enabled minimized : Bool → Change

pub change : Change → PrefsStore → PrefsStore
change (themed id) s = set_theme id s
change (theme_kept writes) s = keep_theme writes s
change (tray_kept writes) s = keep_tray writes s
change synced s = sync_tray_prefs s
change push_rejected s = push_failed s
change (probed reply) s = refresh_tray_status reply s
change (enabled on) s = set_tray_enabled on s
change (minimized on) s = set_tray_minimize_on_close on s

unfoldable pub changes : List Change → PrefsStore → PrefsStore
unfolding change
changes [] s = s
changes (c ∷ cs) s = changes cs (change c s)

-- The window is only minimised to an icon that is there.
abbrev pub IsSafe : TrayPrefs → Type 0
IsSafe tray = tray.minimize_on_close ≡ true → tray.enabled ≡ true

-- A tray whose status is known fits that status.
abbrev pub FitsStatus : Option TrayStatus → TrayPrefs → Type 0
FitsStatus none tray = Unit
FitsStatus (some status) tray =
    (tray.minimize_on_close ≡ true → (tray.enabled && status.available) ≡ true)
    × (status.can_toggle_visibility ≡ false → tray.enabled ≡ true)

abbrev pub IsKept : PrefsStore → Type 0
IsKept s = (is_theme_id s.theme ≡ true) × FitsStatus s.tray_status s.tray × All IsSafe s.pushed

IsKept-if :
    (b : Bool) (x y : PrefsStore)
    → (b ≡ true → IsKept x)
    → (b ≡ false → IsKept y)
    → IsKept (if b then x else y)
IsKept-if true x y f g = f refl
IsKept-if false x y f g = g refl

FitsStatus-IsSafe :
    (o : Option TrayStatus) (tray : TrayPrefs) (mirrors : Bool)
    → (not mirrors || not (is_known o)) ≡ false
    → FitsStatus o tray
    → IsSafe tray
FitsStatus-IsSafe none tray mirrors e h m = ground (arith, e)
FitsStatus-IsSafe (some status) tray mirrors e (h, _) m = ground (arith, h m)

mirror_tray-IsKept : (s : PrefsStore) → IsKept s → IsKept (mirror_tray s)
unfolding mirror_tray
mirror_tray-IsKept s (t, f, p) =
    IsKept-if (not s.mirroring || not (is_known s.tray_status)) s
      (record s { pushed = s.pushed ++ s.tray ∷ [] }) (λ e. (t, f, p))
      (λ e. (
        t,
        f,
        All-append IsSafe s.pushed (s.tray ∷ []) p
            (FitsStatus-IsSafe s.tray_status s.tray s.mirroring e f, tt),
      ))

allowed_fits :
    (status : TrayStatus) (tray : TrayPrefs) → FitsStatus (some status) (allowed status tray)
allowed_fits status tray = (λ m. ground (arith, m), λ c. ground (arith, c))

set_tray_enabled-IsKept :
    (on : Bool) (o : Option TrayStatus) (tray : TrayPrefs)
    → can_toggle o ≡ true
    → FitsStatus o tray
    → FitsStatus o
        (record { enabled = on; minimize_on_close = if on then tray.minimize_on_close else false })
set_tray_enabled-IsKept on none tray e h = tt
set_tray_enabled-IsKept true (some status) tray e (h, k) = (λ m. ground (arith, h m), λ c. refl)
set_tray_enabled-IsKept false (some status) tray e (h, k) = (λ m. cc, λ c. ground (arith, c, e))

set_tray_minimize_on_close-IsKept :
    (on : Bool) (o : Option TrayStatus) (tray : TrayPrefs)
    → (not (is_available o) || not tray.enabled) ≡ false
    → FitsStatus o tray
    → FitsStatus o (record { enabled = tray.enabled; minimize_on_close = on })
set_tray_minimize_on_close-IsKept on none tray e h = tt
set_tray_minimize_on_close-IsKept on (some status) tray e (h, k) = (λ m. ground (arith, e), k)

change-IsKept : (c : Change) (s : PrefsStore) → IsKept s → IsKept (change c s)
unfolding change sync_tray_prefs keep_tray keep_theme push_failed refresh_tray_status set_theme
    set_tray_enabled set_tray_minimize_on_close
change-IsKept (themed id) s (t, f, p) =
    IsKept-if (is_theme_id id) (record s { theme = id }) s (λ e. (e, f, p)) (λ e. (t, f, p))
change-IsKept (theme_kept writes) s h =
    IsKept-if writes (record s { stored_theme = some s.theme }) s (λ e. h) (λ e. h)
change-IsKept (tray_kept writes) s h = mirror_tray-IsKept _ (IsKept-if writes _ s (λ e. h) (λ e. h))
change-IsKept synced s h = mirror_tray-IsKept (record s { mirroring = true }) h
change-IsKept push_rejected s h = h
change-IsKept (probed rejected) s (t, f, p) = (t, tt, p)
change-IsKept (probed (answered none)) s (t, f, p) = (t, tt, p)
change-IsKept (probed (answered (some status))) s (t, f, p) = (t, allowed_fits status s.tray, p)
change-IsKept (enabled on) s (t, f, p) =
    IsKept-if (can_toggle s.tray_status) _ s
      (λ e. (t, set_tray_enabled-IsKept on s.tray_status s.tray e f, p)) (λ e. (t, f, p))
change-IsKept (minimized on) s (t, f, p) =
    IsKept-if (not (is_available s.tray_status) || not s.tray.enabled) s _ (λ e. (t, f, p))
      (λ e. (t, set_tray_minimize_on_close-IsKept on s.tray_status s.tray e f, p))

changes_from : (cs : List Change) (s : PrefsStore) → IsKept s → IsKept (changes cs s)
unfolding changes
changes_from [] s h = h
changes_from (c ∷ cs) s h = changes_from cs (change c s) (change-IsKept c s h)

known_or_default :
    (b : Bool) (v : Text) → is_theme_id v ≡ b → is_theme_id (if b then v else default_theme) ≡ true
unfolding str_eq is_theme_id
known_or_default true v e = e
known_or_default false v e = refl

read_theme_known : (o : Option Text) → is_theme_id (read_theme o) ≡ true
unfolding read_theme str_eq
read_theme_known none = refl
read_theme_known (some v) = known_or_default (is_theme_id v) v refl

-- Whatever is stored at the start, and after any history of the store: the theme is one of those that
-- exist, a tray whose status is known fits that status, and the native shell was never told to minimise
-- to an icon that is not shown.
pub changes-IsKept :
    (theme : Option Text) (tray : StoredTray) (cs : List Change)
    → IsKept (changes cs (open_prefs theme tray))
unfolding open_prefs
changes-IsKept theme tray cs =
    changes_from cs (open_prefs theme tray) (read_theme_known theme, tt, tt)
