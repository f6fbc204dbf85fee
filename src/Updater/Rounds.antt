-- ===== src/Updater/Rounds.antt =====
-- Histories of the updater's store.
use phpo.Base.{
  ◌≡◌, refl, ◌↔◌, ◌≢◌, ◌⊎◌, inl, inr, Bool, true, false, Bool-cases, not, ◌&&◌, Option, none, some,
  List, [], ◌∷◌, Text, any, is_given, eq_iff, arith,
}
use phpo.Updater.{
  UpdateAvailable, UpdateProgress, UpdateDone, UpdaterStore, open_store, has_update, set_available,
  set_progress, set_done, reset, dismiss, undismiss,
}

pub data Change : Type 0 where
  available : Option UpdateAvailable → Change
  progressed : Option UpdateProgress → Change
  ended : Option UpdateDone → Change
  renewed : Change
  dismissed : Text → (writes : Bool) → Change
  undismissed : (writes : Bool) → Change

unfoldable pub change : Change → UpdaterStore → UpdaterStore
change (available a) s = set_available a s
change (progressed p) s = set_progress p s
change (ended d) s = set_done d s
change renewed s = reset s
change (dismissed v writes) s = dismiss v writes s
change (undismissed writes) s = undismiss writes s

unfoldable pub changes : List Change → UpdaterStore → UpdaterStore
changes [] s = s
changes (c ∷ cs) s = changes cs (change c s)

-- Whether a change of the ignored version was not stored.
abbrev pub is_lost : Change → Bool
is_lost (dismissed v writes) = is_given v && not writes
is_lost (undismissed writes) = not writes
is_lost _ = false

-- A round is under way or over, never both.
abbrev IsOneRound : UpdaterStore → Type 0
IsOneRound s = (s.progress ≡ none) ⊎ (s.done ≡ none)

-- What a restart ignores is what the store ignores.
abbrev IsStored : UpdaterStore → Type 0
IsStored s = (open_store s.stored).dismissed ≡ s.dismissed

abbrev pub IsSound : List Change → UpdaterStore → Type 0
IsSound cs s = IsOneRound s × ((any is_lost cs ≡ true) ⊎ IsStored s)

change-IsOneRound : (c : Change) (s : UpdaterStore) → IsOneRound s → IsOneRound (change c s)
unfolding change set_available set_progress set_done reset dismiss undismiss
change-IsOneRound (available a) s h = ground arith
change-IsOneRound (progressed p) s h = ground arith
change-IsOneRound (ended d) s h = ground arith
change-IsOneRound renewed s h = ground arith
change-IsOneRound (dismissed v writes) s h = ground arith
change-IsOneRound (undismissed writes) s h = ground arith

change-IsStored :
    (c : Change) (s : UpdaterStore) → is_lost c ≡ false → IsStored s → IsStored (change c s)
unfolding change set_available set_progress set_done reset dismiss undismiss open_store
change-IsStored (available a) s e h = ground arith
change-IsStored (progressed p) s e h = ground arith
change-IsStored (ended d) s e h = ground arith
change-IsStored renewed s e h = ground arith
change-IsStored (dismissed v writes) s e h = ground arith
change-IsStored (undismissed writes) s e h = ground arith

changes-IsOneRound :
    (cs : List Change) (s : UpdaterStore) → IsOneRound s → IsOneRound (changes cs s)
unfolding changes
changes-IsOneRound [] s h = h
changes-IsOneRound (c ∷ cs) s h = changes-IsOneRound cs (change c s) (change-IsOneRound c s h)

changes-IsStored :
    (cs : List Change) (s : UpdaterStore)
    → IsStored s
    → (any is_lost cs ≡ true) ⊎ IsStored (changes cs s)
unfolding changes
changes-IsStored [] s h = inr h
changes-IsStored (c ∷ cs) s h = elim (Bool-cases (is_lost c)) [
  | inl lost ↦ inl (ground arith)
  | inr kept ↦ elim (changes-IsStored cs (change c s) (change-IsStored c s kept h)) [
    | inl later ↦ inl (ground arith)
    | inr stored ↦ inr stored
  ]
]

open_store-IsOneRound : (stored : Option Text) → IsOneRound (open_store stored)
unfolding open_store
open_store-IsOneRound stored = inl refl

open_store-IsStored : (stored : Option Text) → IsStored (open_store stored)
unfolding open_store
open_store-IsStored stored = refl

-- After any history, a round of updating is under way or over, never both; and either the browser's
-- storage has refused a write of the ignored version, or a restart ignores the version that the store
-- ignores.
pub changes-IsSound :
    (cs : List Change) (stored : Option Text) → IsSound cs (changes cs (open_store stored))
changes-IsSound cs stored = (
  changes-IsOneRound cs (open_store stored) (open_store-IsOneRound stored),
  changes-IsStored cs (open_store stored) (open_store-IsStored stored),
)

-- Ignoring a version hides it; an other version that is found later shows again.
pub has_update-dismiss :
    (v : Text) (writes : Bool) (a : UpdateAvailable) (s : UpdaterStore)
    → v ≢ []
    → (has_update (set_available (some a) (dismiss v writes s)) ≡ true) ↔ (a.version ≢ v)
unfolding has_update set_available dismiss
has_update-dismiss v writes a s given = ground (arith, eq_iff a.version v)
