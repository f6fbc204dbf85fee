-- ===== src/Tests/PanelTests.antt =====
-- The preferences and the cleanup panel at concrete inputs.
use phpo.Base.{true, false, some, List, [], ◌∷◌, lit}
use phpo.Prefs.{parsed, open_prefs, answered}
use phpo.Prefs.Tray.{Change, changes, IsKept, changes-IsKept}
use phpo.Cleanup.{CleanupStore, CleanAwait, resolved, empty_cleanup, begin_clean, clean_reported}
use phpo.Cleanup.Settled.{
  Panel, opened, clean_asked, reported, nothing_pending, IsGuard, Panel-IsGuard,
}

-- No tray icon can be shown: the preference to minimise to it goes before anything is pushed.
abbrev no_tray : List Change
no_tray =
    Change.synced
    ∷ Change.probed (answered (some (record { available = false; can_toggle_visibility = true })))
    ∷ Change.tray_kept true
    ∷ Change.minimized true
    ∷ []

changes-IsKept_example :
    IsKept (changes no_tray (open_prefs (some (lit "ocean")) (parsed false false)))
changes-IsKept_example = changes-IsKept (some (lit "ocean")) (parsed false false) no_tray

abbrev cleaning : CleanupStore
cleaning = (begin_clean empty_cleanup).0

asked_once : Panel cleaning (record nothing_pending { removals = 1 })
unfolding begin_clean
asked_once = clean_asked empty_cleanup nothing_pending opened

-- A cleanup has removed two things and scans again.
abbrev scanning_again : CleanupStore × CleanAwait
scanning_again =
    clean_reported (resolved (some (record { removed = 2; failed = 0; freed_bytes = 9 }))) cleaning

rescanning : Panel scanning_again.0 (record nothing_pending { rescans = 1 })
unfolding clean_reported begin_clean
rescanning =
    reported cleaning nothing_pending
      (resolved (some (record { removed = 2; failed = 0; freed_bytes = 9 }))) asked_once

Panel-IsGuard_example : IsGuard scanning_again.0.scanning 1 × IsGuard scanning_again.0.cleaning 1
Panel-IsGuard_example =
    Panel-IsGuard scanning_again.0 (record nothing_pending { rescans = 1 }) rescanning
