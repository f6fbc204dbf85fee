-- ===== src/Layout/Within.antt =====
-- The layout stays within its limits, over any history, and the zoom goes by its steps.
use phpo.Base.{
  ℕ, ltb, ◌==◌, ◌≢◌, ◌≤◌, ◌<◌, ◌≡◌, inl, inr, Bool, true, false, Option, none, some, Option-cases,
  Bool-cases, List, [], ◌∷◌, reverse, Text, find, All, arith,
}
use phpo.Layout.{
  LayoutStore, PresetName, sidebar_limits, drawer_limits, split_limits, scale_min, scale_max,
  scale_default, snap, step_above, step_below, read_num, read_scale, open_layout, set_sidebar,
  set_drawer, set_split, set_scale, zoom_in, zoom_out, zoom_reset, apply_preset, reset,
}

pub data Move : Type 0 where
  sidebar drawer split : ℕ → Move
  scaled : Option ℕ → Move
  zoomed_in zoomed_out zoomed_reset restored : Move
  presented : PresetName → Move

unfoldable pub move : Move → LayoutStore → LayoutStore
move (sidebar n) s = set_sidebar n s
move (drawer n) s = set_drawer n s
move (split n) s = set_split n s
move (scaled v) s = (set_scale v s).0
move zoomed_in s = (zoom_in s).0
move zoomed_out s = (zoom_out s).0
move zoomed_reset s = (zoom_reset s).0
move restored s = reset s
move (presented name) s = apply_preset name s

unfoldable pub moves : List Move → LayoutStore → LayoutStore
moves [] s = s
moves (m ∷ ms) s = moves ms (move m s)

abbrev pub IsWithin : LayoutStore → Type 0
IsWithin s =
    (sidebar_limits.low ≤ s.sidebar_width)
    × (s.sidebar_width ≤ sidebar_limits.high)
    × (drawer_limits.low ≤ s.drawer_height)
    × (s.drawer_height ≤ drawer_limits.high)
    × (split_limits.low ≤ s.drawer_split)
    × (s.drawer_split ≤ split_limits.high)
    × (scale_min ≤ s.scale)
    × (s.scale ≤ scale_max)

read_num-le :
    (raw : Option Text) (fallback lo hi : ℕ)
    → lo ≤ fallback
    → fallback ≤ hi
    → (lo ≤ read_num raw fallback lo hi) × (read_num raw fallback lo hi ≤ hi)
unfolding read_num
read_num-le none fallback lo hi l h = (l, h)
read_num-le (some raw) fallback lo hi l h = ground arith

set_scale-IsWithin : (v : Option ℕ) (s : LayoutStore) → IsWithin s → IsWithin (set_scale v s).0
unfolding set_scale
set_scale-IsWithin none s h = h
set_scale-IsWithin (some v) s h = ground arith

find-All :
    (P : ℕ → Type 0) (p : ℕ → Bool) (xs : List ℕ) {v : ℕ}
    → All P xs
    → find p xs ≡ some v
    → P v × (p v ≡ true)
find-All P p [] h e = cc
find-All P p (x ∷ xs) {v} (h, hs) e = elim (Bool-cases (p x)) [
  | inl y ↦ let same : x ≡ v = ground arith in rw (← same) (h, y)
  | inr n ↦ find-All P p xs {v = v} hs (ground arith)
]

find-none-All : (p : ℕ → Bool) (xs : List ℕ) → find p xs ≡ none → All (λ v. p v ≡ false) xs
find-none-All p [] e = tt
find-none-All p (x ∷ xs) e = elim (Bool-cases (p x)) [
  | inl y ↦ absurd (ground arith)
  | inr n ↦ (n, find-none-All p xs (ground arith))
]

abbrev IsStep : ℕ → Type 0
IsStep v = (scale_min ≤ v) × (v ≤ scale_max)

snap-IsStep : All IsStep snap
snap-IsStep = (
  (omega arith, omega arith),
  (
    (omega arith, omega arith),
    (
      (omega arith, omega arith),
      (
        (omega arith, omega arith),
        (
          (omega arith, omega arith),
          ((omega arith, omega arith), ((omega arith, omega arith), tt)),
        ),
      ),
    ),
  ),
)

snap-reverse-IsStep : All IsStep (reverse snap)
snap-reverse-IsStep = (
  (omega arith, omega arith),
  (
    (omega arith, omega arith),
    (
      (omega arith, omega arith),
      (
        (omega arith, omega arith),
        (
          (omega arith, omega arith),
          ((omega arith, omega arith), ((omega arith, omega arith), tt)),
        ),
      ),
    ),
  ),
)

step_above-some : (n : ℕ) {v : ℕ} → step_above n ≡ some v → IsStep v × (ltb n v ≡ true)
unfolding step_above
step_above-some n {v} e = find-All IsStep (λ v. ltb n v) snap {v = v} snap-IsStep e

step_above-none : (n : ℕ) → step_above n ≡ none → ltb n scale_max ≡ false
unfolding step_above
step_above-none n e =
    let (_, (_, (_, (_, (_, (_, (top, _))))))) = find-none-All (λ v. ltb n v) snap e in top

step_below-some : (n : ℕ) {v : ℕ} → step_below n ≡ some v → IsStep v × (ltb v n ≡ true)
unfolding step_below
step_below-some n {v} e =
    find-All IsStep (λ v. ltb v n) (reverse snap) {v = v} snap-reverse-IsStep e

step_below-none : (n : ℕ) → step_below n ≡ none → ltb scale_min n ≡ false
unfolding step_below
step_below-none n e =
    let (_, (_, (_, (_, (_, (_, (bottom, _))))))) = find-none-All (λ v. ltb v n) (reverse snap) e in
    bottom

zoom_in-IsWithin : (s : LayoutStore) → IsWithin s → IsWithin (zoom_in s).0
unfolding zoom_in
zoom_in-IsWithin s h = elim (Option-cases (step_above s.scale)) [
  | inl e ↦ rw (e, zoom_in) h
  | inr (v, e) ↦ rw (e, zoom_in) (set_scale-IsWithin (some v) s h)
]

zoom_out-IsWithin : (s : LayoutStore) → IsWithin s → IsWithin (zoom_out s).0
unfolding zoom_out
zoom_out-IsWithin s h = elim (Option-cases (step_below s.scale)) [
  | inl e ↦ rw (e, zoom_out) h
  | inr (v, e) ↦ rw (e, zoom_out) (set_scale-IsWithin (some v) s h)
]

zoom_reset-IsWithin : (s : LayoutStore) → IsWithin s → IsWithin (zoom_reset s).0
unfolding zoom_reset
zoom_reset-IsWithin s h = elim (Bool-cases (s.scale == scale_default)) [
  | inl e ↦ rw e h
  | inr e ↦ rw e (set_scale-IsWithin (some scale_default) s h)
]

move-IsWithin : (m : Move) (s : LayoutStore) → IsWithin s → IsWithin (move m s)
unfolding move set_sidebar set_drawer set_split zoom_in zoom_out zoom_reset apply_preset reset
move-IsWithin (sidebar n) s h = ground arith
move-IsWithin (drawer n) s h = ground arith
move-IsWithin (split n) s h = ground arith
move-IsWithin (scaled v) s h = set_scale-IsWithin v s h
move-IsWithin zoomed_in s h = zoom_in-IsWithin s h
move-IsWithin zoomed_out s h = zoom_out-IsWithin s h
move-IsWithin zoomed_reset s h = zoom_reset-IsWithin s h
move-IsWithin restored s h = ground arith
move-IsWithin (presented PresetName.compact) s h = ground arith
move-IsWithin (presented PresetName.default) s h = ground arith
move-IsWithin (presented PresetName.wide) s h = ground arith

open_layout-IsWithin : (a b c : Option Text) (scale : Option ℕ) → IsWithin (open_layout a b c scale)
unfolding open_layout read_scale
open_layout-IsWithin a b c none = ground (
  arith,
  read_num-le a 200 64 380 (omega arith) (omega arith),
  read_num-le b 160 120 600 (omega arith) (omega arith),
  read_num-le c 70 40 80 (omega arith) (omega arith),
)
open_layout-IsWithin a b c (some n) = ground (
  arith,
  read_num-le a 200 64 380 (omega arith) (omega arith),
  read_num-le b 160 120 600 (omega arith) (omega arith),
  read_num-le c 70 40 80 (omega arith) (omega arith),
)

moves-IsWithin_from : (ms : List Move) (s : LayoutStore) → IsWithin s → IsWithin (moves ms s)
unfolding moves
moves-IsWithin_from [] s h = h
moves-IsWithin_from (m ∷ ms) s h = moves-IsWithin_from ms (move m s) (move-IsWithin m s h)

-- Whatever the browser has stored, and whatever is dragged, zoomed and reset, the layout stays within
-- its limits.
pub moves-IsWithin :
    (a b c : Option Text) (scale : Option ℕ) (ms : List Move)
    → IsWithin (moves ms (open_layout a b c scale))
moves-IsWithin a b c scale ms = moves-IsWithin_from ms _ (open_layout-IsWithin a b c scale)

set_scale-step :
    (s : LayoutStore) (v : ℕ)
    → IsStep v
    → s.scale ≢ v
    → ((set_scale (some v) s).1 ≡ true) × ((set_scale (some v) s).0.scale ≡ v)
unfolding set_scale
set_scale-step s v h ne = ground arith

-- Zooming in changes the scale exactly while it is below the highest, and then it grows.
pub zoom_in_lem :
    (s : LayoutStore)
    → s.scale ≤ scale_max
    → ((zoom_in s).1 ≡ ltb s.scale scale_max)
      × (s.scale < scale_max → s.scale < (zoom_in s).0.scale)
unfolding zoom_in
zoom_in_lem s h = elim (Option-cases (step_above s.scale)) [
  | inl e ↦ rw (e, zoom_in) (ground (arith, step_above-none s.scale e))
  | inr (v, e) ↦
      let (step, above) = step_above-some s.scale {v = v} e in
      let moved = set_scale-step s v step (ground arith) in
      rw (e, zoom_in) (ground (arith, moved, step, above))
]

-- Zooming out changes the scale exactly while it is above the lowest, and then it shrinks.
pub zoom_out_lem :
    (s : LayoutStore)
    → scale_min ≤ s.scale
    → ((zoom_out s).1 ≡ ltb scale_min s.scale)
      × (scale_min < s.scale → (zoom_out s).0.scale < s.scale)
unfolding zoom_out
zoom_out_lem s h = elim (Option-cases (step_below s.scale)) [
  | inl e ↦ rw (e, zoom_out) (ground (arith, step_below-none s.scale e))
  | inr (v, e) ↦
      let (step, below) = step_below-some s.scale {v = v} e in
      let moved = set_scale-step s v step (ground arith) in
      rw (e, zoom_out) (ground (arith, moved, step, below))
]
